-- ===== src/App/Admin.antt =====
-- apps/server/src/admin.rs: the handlers of the admin API that do more than pass a storage answer on.
-- The state is that of `AdminState`; a `Call` has what one request meets: the connection of each
-- storage call, by its place in the handler, and what the clocks show.
pub mod Answers
pub mod Keys
pub mod Channels
pub mod Costs
