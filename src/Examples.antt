-- ===== src/Examples.antt =====
-- The theorems at concrete inputs.
mod Wire
mod Messages
mod Callbacks
mod Payloads
mod Leases
mod Sessions
mod Tables
mod Calls
mod Java
