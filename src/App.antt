-- ===== src/App.antt =====
-- apps/server: the admin API, its authentication, and the health probe of a channel.
pub mod Key
pub mod Probe
pub mod Admin
mod Tests
