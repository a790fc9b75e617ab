-- ===== src/Router.antt =====
-- crates/model-router: billing and health of channels, the choice of a channel for a request, and
-- the middleware. `Samples` is a small set of channels for the witnesses.
pub mod Billing
pub mod Quota
pub mod Health
pub mod Protocol
pub mod Select
pub mod Handler
pub mod Load
pub mod Samples
