-- ===== src/Server.antt =====
-- The fake server: what stands between a request and the backend.
pub mod Response
pub mod Auth
pub mod Mail
pub mod Profile
pub mod Import
pub mod Settings
pub mod RateLimit
mod Tests
