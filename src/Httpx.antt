-- ===== src/Httpx.antt =====
-- The package httpx: content negotiation, preconditions, the writers of responses, the typed endpoint
-- and routing.
pub mod Accept
pub mod Respond
pub mod Binding
pub mod Endpoint
pub mod Patch
pub mod Precondition
pub mod Routing
