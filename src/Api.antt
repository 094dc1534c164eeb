-- ===== src/Api.antt =====
-- internal/api: the HTTP handlers and the middleware in front of them.
pub mod Response
pub mod Flow
pub mod Evolution
pub mod Events
pub mod DeadLetter
pub mod Endpoints
pub mod Stats
pub mod Middleware
pub mod RateLimit
pub mod Server
