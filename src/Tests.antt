-- ===== src/Tests.antt =====
-- The theorems at concrete inputs, and runs of the definitions, package by package.
mod Middleware
mod Handlers
mod Routing
mod Httpx
mod Problem
mod Bodies
mod Answers
mod Patching
mod Schemas
