-- ===== src/Codec.antt =====
-- crates/hmcl-plugin-sdk/src/value.rs and error.rs: Bridge Value v1 and its canonical wire form.
pub mod Bytes
pub mod Utf8
pub mod Errors
pub mod Values
pub mod Encoder
pub mod Decoder
pub mod Format
pub mod Handles
pub mod Encoding
pub mod Decoding
pub mod RoundTrip
