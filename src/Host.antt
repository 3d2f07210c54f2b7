-- ===== src/Host.antt =====
-- crates/hmcl-rust-host-native and crates/hmcl-rust-host-process: the engine and its server.
pub mod Errors
pub mod Buffers
pub mod Transport
pub mod Callbacks
pub mod Payload
pub mod Paths
pub mod Engine
pub mod Server
pub mod Bridge
pub mod Serve
pub mod Lifecycle
pub mod Confinement
pub mod Ownership
pub mod Responses
pub mod Calls
pub mod Outcomes
pub mod Order
pub mod Registry
pub mod Upkeep
pub mod Histories
pub mod Java
pub mod Exports
pub mod Reports
