-- ===== src/Cost.antt =====
-- crates/cost: what a request has used and what it costs.
pub mod Usage
pub mod Price
pub mod Record
mod Tests
