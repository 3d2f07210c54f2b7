-- ===== src/Abi.antt =====
-- crates/hmcl-runtime-abi/src/lib.rs: what crosses the boundary between the Host and a payload.
pub mod Statuses
pub mod Buffers
pub mod Tables
pub mod Words
pub mod Negotiation
pub mod Prefixes
pub mod Agreement
