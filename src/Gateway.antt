-- ===== src/Gateway.antt =====
-- services/gateway: the edge of the system.
pub mod Config
pub mod RateLimit
pub mod Jwt
pub mod Routes
pub mod Static
pub mod Proxy
pub mod Server
mod Tests
