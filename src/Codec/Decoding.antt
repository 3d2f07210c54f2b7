-- ===== src/Codec/Decoding.antt =====
-- crates/hmcl-plugin-sdk/src/value.rs: the decoder against the canonical form.
pub mod Reads
pub mod Complete
pub mod Inversion
pub mod Leaves
pub mod Sound
pub mod Wire
