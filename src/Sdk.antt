-- ===== src/Sdk.antt =====
-- crates/hmcl-plugin-sdk: what a plugin's code is linked with.
pub mod Leases
pub mod Depths
pub mod Admission
pub mod Quiescence
pub mod LeaseGate
pub mod Sessions
pub mod SoleOwner
pub mod Shutdown
pub mod Context
pub mod Calls
pub mod Objects
pub mod Runtime
pub mod LeasedCalls
pub mod HostMemory
pub mod Boxes
pub mod Delivery
pub mod Answers
pub mod Outcomes
pub mod References
pub mod Query
pub mod Loading
