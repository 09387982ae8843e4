-- ===== src/Api.antt =====
-- api/: rate limiting, authentication and the routes.
pub mod RateLimit
pub mod Auth
pub mod Rules
pub mod Reads
pub mod Keys
pub mod App
