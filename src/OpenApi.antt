-- ===== src/OpenApi.antt =====
-- The package openapi, as far as it is modelled: the constraints of `validate` tags.
pub mod Constraints
