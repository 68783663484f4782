-- ===== src/Middleware.antt =====
-- The package httpx/middleware.
pub mod Chain
pub mod Compress
pub mod Cors
pub mod Etag
pub mod Guards
pub mod NoCache
pub mod RateLimit
pub mod RealIp
pub mod Recover
pub mod Stamps
pub mod Slashes
pub mod Throttle
pub mod Timeout
