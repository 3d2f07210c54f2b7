-- ===== src/Codec/Encoding.antt =====
-- crates/hmcl-plugin-sdk/src/value.rs: the encoder against the canonical form.
pub mod Output
pub mod Sound
pub mod Complete
pub mod Wire
