-- ===== src/Codec/RoundTrip.antt =====
-- crates/hmcl-plugin-sdk/src/value.rs: `to_wire` and `from_wire` undo one another.
use aura_rust_runtime_host.Base.{ℕ, ◌≡◌, ◌∙◌, ap, List, All, ok}
use aura_rust_runtime_host.Codec.Bytes.{IsByte}
use aura_rust_runtime_host.Codec.Values.{Value}
use aura_rust_runtime_host.Codec.Encoder.{to_wire}
use aura_rust_runtime_host.Codec.Decoder.{from_wire}
use aura_rust_runtime_host.Codec.Format.{WellTyped}
use aura_rust_runtime_host.Codec.Encoding.Wire.{to_wire-eq-ok_iff}
use aura_rust_runtime_host.Codec.Decoding.Wire.{from_wire-eq-ok_iff, from_wire-wire}

-- The bytes that a value of the Rust type was encoded to decode to that value.
pub from_wire-to_wire :
    (v : Value) (bs : List ℕ) → WellTyped v → to_wire v ≡ ok bs → from_wire bs ≡ ok v
from_wire-to_wire v bs w h =
    let (e, p) = (to_wire-eq-ok_iff v bs).0 h in ap from_wire p ∙ from_wire-wire v w e

-- A value that was decoded from bytes encodes to those very bytes.
pub to_wire-from_wire :
    (bs : List ℕ) (v : Value) → All IsByte bs → from_wire bs ≡ ok v → to_wire v ≡ ok bs
to_wire-from_wire bs v a h =
    let (w, e, p) = (from_wire-eq-ok_iff bs v a).0 h in (to_wire-eq-ok_iff v bs).1 (e, p)
