-- ===== src/Protocol.antt =====
-- crates/hmcl-runtime-protocol/src/lib.rs: the messages and frames of the isolated Host.
pub mod Messages
pub mod Fields
pub mod Payloads
pub mod Envelope
pub mod Bodies
pub mod BodyRoundTrip
pub mod Typing
pub mod MessageRoundTrip
pub mod Frames
pub mod FrameRoundTrip
pub mod FrameEnds
pub mod FrameCuts
pub mod Validity
