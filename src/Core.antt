-- ===== src/Core.antt =====
-- crates/core: the domain types, the errors, the middleware chain, authentication and the server.
pub mod Float
pub mod Error
pub mod Http
pub mod Types
pub mod Stats
pub mod Auth
pub mod Report
pub mod Middleware
