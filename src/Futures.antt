-- ===== src/Futures.antt =====
-- crates/hmcl-plugin-sdk/src/future.rs: pending callbacks and their registry.
pub mod Table
pub mod Registry
pub mod Vacancy
pub mod States
pub mod Pair
pub mod Settle
pub mod History
pub mod Terminal
pub mod Wait
pub mod Sections
pub mod Coherence
pub mod Completing
pub mod Cancelling
pub mod Interleavings
