-- ===== src/Codec/Decoding/Wire.antt =====
-- `Value::from_wire` as a whole.
use aura_rust_runtime_host.Base.{
  ℕ, suc, ◌≡◌, ◌↔◌, ◌∙◌, refl, sym, ap, List, [], ◌++◌, append-nil, All, ok, err, Result, arith,
}
use aura_rust_runtime_host.Codec.Bytes.{IsByte}
use aura_rust_runtime_host.Codec.Errors.{Error}
use aura_rust_runtime_host.Codec.Values.{Value, max_depth}
use aura_rust_runtime_host.Codec.Decoder.{Decoder, Decoder_new, decode_value, finish, from_wire}
use aura_rust_runtime_host.Codec.Format.{wire, WellTyped, Encodable}
use aura_rust_runtime_host.Codec.Decoding.Reads.{at}
use aura_rust_runtime_host.Codec.Decoding.Inversion.{Clean}
use aura_rust_runtime_host.Codec.Decoding.Sound.{decode_value-ReadsAt}
use aura_rust_runtime_host.Codec.Decoding.Complete.{decode_value_complete}

-- The decoder with what follows it, and nothing else opened.
from_wire_steps :
    (input : List ℕ) → from_wire input ≡ finish (decode_value (suc max_depth) (Decoder_new input))
unfolding from_wire
from_wire_steps input = refl

finish-eq-ok :
    (r : Result Error (Value × Decoder)) (v : Value)
    → finish r ≡ ok v
    → (d : Decoder) × (r ≡ ok (v, d)) × (d.rest ≡ [])
unfolding finish
finish-eq-ok (ok (w, d)) v h = (d, ground arith, ground arith)
finish-eq-ok (err e) v h = cc

finish_end : (v : Value) (c n : ℕ) → finish (ok (v, at [] c n)) ≡ ok v
unfolding finish
finish_end v c n = refl

start-Clean : (input : List ℕ) → All IsByte input → Clean (Decoder_new input)
start-Clean input a = record { rest_bytes = a; in_content = omega arith; in_values = omega arith }

from_wire_sound :
    (input : List ℕ) (v : Value)
    → All IsByte input
    → from_wire input ≡ ok v
    → WellTyped v × Encodable v × (input ≡ wire v)
from_wire_sound input v a h =
    let (d, p, e) = finish-eq-ok _ v (sym (from_wire_steps input) ∙ h) in
    let r =
      decode_value-ReadsAt (suc max_depth) 0 (omega arith) (Decoder_new input) d v
        (start-Clean input a) p in
    (
      r.typed,
      (
        r.valid,
        omega (arith, r.took.took_content, r.clean.in_content),
        omega (arith, r.took.took_values, r.clean.in_values),
      ),
      r.took.took_rest ∙ ap (λ t. wire v ++ t) e ∙ append-nil (wire v),
    )

-- The canonical form of an encodable value of the Rust type decodes to it.
pub from_wire-wire : (v : Value) → WellTyped v → Encodable v → from_wire (wire v) ≡ ok v
from_wire-wire v w (valid, c, n) =
    let whole =
      decode_value_complete v (suc max_depth) 0 [] 0 0 (omega arith) w valid (omega arith)
        (omega arith) in
    let read = rw (append-nil (wire v)) at whole in
    from_wire_steps (wire v) ∙ ap finish read ∙ finish_end v _ _

-- On bytes, decoding succeeds exactly on the canonical form of a value of the Rust type that the
-- encoder would accept, and returns that value.
pub from_wire-eq-ok_iff :
    (input : List ℕ) (v : Value)
    → All IsByte input
    → (from_wire input ≡ ok v) ↔ (WellTyped v × Encodable v × (input ≡ wire v))
from_wire-eq-ok_iff input v a =
    (from_wire_sound input v a, λ (w, e, p). ap from_wire p ∙ from_wire-wire v w e)
