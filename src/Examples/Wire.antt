-- ===== src/Examples/Wire.antt =====
-- crates/hmcl-plugin-sdk/src/value.rs: one value and its bytes.
use aura_rust_runtime_host.Base.{ℕ, ◌≡◌, ◌↔◌, refl, true, List, [], ◌∷◌, All, ok}
use aura_rust_runtime_host.Codec.Bytes.{IsByte, are_bytes-All}
use aura_rust_runtime_host.Codec.Utf8.{is_utf8}
use aura_rust_runtime_host.Codec.Values.{
  Value, string, bool, map, array, no_items, item, no_fields, field,
}
use aura_rust_runtime_host.Codec.Encoder.{to_wire}
use aura_rust_runtime_host.Codec.Decoder.{from_wire}
use aura_rust_runtime_host.Codec.Format.{wire, WellTyped, Encodable}
use aura_rust_runtime_host.Codec.RoundTrip.{from_wire-to_wire, to_wire-from_wire}
use aura_rust_runtime_host.Codec.Encoding.Wire.{to_wire-eq-ok_iff}
use aura_rust_runtime_host.Codec.Decoding.Wire.{from_wire-eq-ok_iff}

abbrev sample : Value
sample = map (
    field (107 ∷ []) (string (104 ∷ 105 ∷ []))
      (field (108 ∷ []) (array (item (bool true) no_items)) no_fields))

abbrev sample_bytes : List ℕ
sample_bytes =
    0x92 ∷ 7 ∷ 0xdd ∷ 0 ∷ 0 ∷ 0 ∷ 2 ∷ 0x92 ∷ 0xdb ∷ 0 ∷ 0 ∷ 0 ∷ 1 ∷ 107 ∷ 0x92 ∷ 4 ∷ 0xdb ∷ 0 ∷ 0
    ∷ 0 ∷ 2 ∷ 104 ∷ 105 ∷ 0x92 ∷ 0xdb ∷ 0 ∷ 0 ∷ 0 ∷ 1 ∷ 108 ∷ 0x92 ∷ 6 ∷ 0xdd ∷ 0 ∷ 0 ∷ 0 ∷ 1 ∷ 0x92
    ∷ 1 ∷ 0xc3 ∷ []

sample_typed : WellTyped sample
unfolding WellTyped is_utf8
sample_typed = (
  are_bytes-All (107 ∷ []) refl,
  refl,
  (are_bytes-All (104 ∷ 105 ∷ []) refl, refl),
  (are_bytes-All (108 ∷ []) refl, refl, (tt, tt), tt),
)

sample_encodes : to_wire sample ≡ ok sample_bytes
unfolding to_wire
sample_encodes = refl

sample_are_bytes : All IsByte sample_bytes
sample_are_bytes = are_bytes-All sample_bytes refl

from_wire-to_wire_example : from_wire sample_bytes ≡ ok sample
from_wire-to_wire_example = from_wire-to_wire sample sample_bytes sample_typed sample_encodes

to_wire-from_wire_example : to_wire sample ≡ ok sample_bytes
to_wire-from_wire_example =
    to_wire-from_wire sample_bytes sample sample_are_bytes from_wire-to_wire_example

to_wire-eq-ok_iff_example :
    (to_wire sample ≡ ok sample_bytes) ↔ (Encodable sample × (sample_bytes ≡ wire sample))
to_wire-eq-ok_iff_example = to_wire-eq-ok_iff sample sample_bytes

from_wire-eq-ok_iff_example :
    (from_wire sample_bytes ≡ ok sample)
    ↔ (WellTyped sample × Encodable sample × (sample_bytes ≡ wire sample))
from_wire-eq-ok_iff_example = from_wire-eq-ok_iff sample_bytes sample sample_are_bytes
