-- ===== src/Protocol/MessageRoundTrip.antt =====
-- crates/hmcl-runtime-protocol/src/lib.rs: `Message::to_wire` and `Message::from_wire`.
use aura_rust_runtime_host.Base.{
  ℕ, ◌≡◌, refl, ap, ◌∙◌, Bool, true, false, List, Result, ok, err, or_err, >>=-eq-ok, utf8_bytes,
  ltb, arith, ◌≤◌, ◌<◌, if◌then◌else◌, Bool-cases, inl, inr, ◌↔◌,
}
use mathlib.Core.Path.{subst}
use mathlib.Core.Bool.{xor}
use aura_rust_runtime_host.Codec.Values.{Value, i64_max}
use aura_rust_runtime_host.Codec.Encoder.{to_wire}
use aura_rust_runtime_host.Codec.Decoder.{from_wire}
use aura_rust_runtime_host.Codec.RoundTrip.{from_wire-to_wire}
use aura_rust_runtime_host.Protocol.Messages.{MessageBody, validate, uses_even_request_id}
use aura_rust_runtime_host.Protocol.Fields.{
  positive_id, exact_map, get_field, get_integer, get_string,
}
use aura_rust_runtime_host.Protocol.Payloads.{to_value, from_value}
use aura_rust_runtime_host.Protocol.Bodies.{
  kind_of, payload_of, positive_id_lem, validate-IdsInRange,
}
use aura_rust_runtime_host.Protocol.BodyRoundTrip.{to_value-eq-ok, from_value_lem}
use aura_rust_runtime_host.Protocol.Envelope.{
  Message, Message_new, envelope, message_to_wire, message_from_wire, from_envelope, is_even,
}
use aura_rust_runtime_host.Protocol.Typing.{TypedBody, WellTyped-payload_of, WellTyped-envelope}

-- What a message promises: a positive identifier of its direction's parity, and a valid body.
unfoldable pub ValidMessage : ℕ → MessageBody → Type 0
ValidMessage n body =
    (0 < n) × (n ≤ i64_max) × (is_even n ≡ uses_even_request_id body) × (validate body ≡ ok tt)

Message_new_sound :
    (n : ℕ) (body : MessageBody) (m : Message)
    → Message_new n body ≡ ok m
    → ValidMessage n body × (record { request_id = n; body = body } ≡ m)
unfolding Message_new xor ValidMessage
Message_new_sound n body m h = ground arith

Message_new_complete :
    (n : ℕ) (body : MessageBody)
    → ValidMessage n body
    → Message_new n body ≡ ok (record { request_id = n; body = body })
unfolding Message_new xor ValidMessage
Message_new_complete n body (a, b, c, d) = ground arith

-- `Message::new` accepts exactly the valid messages, and returns its arguments.
pub Message_new-eq-ok_iff :
    (n : ℕ) (body : MessageBody) (m : Message)
    → (Message_new n body ≡ ok m)
      ↔ (ValidMessage n body × (record { request_id = n; body = body } ≡ m))
Message_new-eq-ok_iff n body m =
    (Message_new_sound n body m, λ (v, e). Message_new_complete n body v ∙ ap ok e)

from_envelope_lem :
    (m : Message)
    → ValidMessage m.request_id m.body
    → from_envelope (envelope (kind_of m.body) (payload_of m.body) m.request_id) ≡ ok m
unfolding from_envelope exact_map get_field get_integer get_string ValidMessage
from_envelope_lem m (p, q, e, v) =
    rw (positive_id_lem m.request_id p, from_value_lem m.body v)
      (Message_new_complete m.request_id m.body (p, q, e, v))

or_err-eq-ok {ℓ κ μ} :
    {E : Type κ} {F : Type μ} {A : Type ℓ} (f : F) (r : Result E A) {a : A}
    → or_err f r ≡ ok a
    → r ≡ ok a
or_err-eq-ok f (ok b) h = cc
or_err-eq-ok f (err e) h = cc

message_to_wire-eq-ok :
    (m : Message) (bs : List ℕ)
    → message_to_wire m ≡ ok bs
    → (m.request_id ≤ i64_max)
      × (validate m.body ≡ ok tt)
      × (to_wire (envelope (kind_of m.body) (payload_of m.body) m.request_id) ≡ ok bs)
unfolding message_to_wire
message_to_wire-eq-ok m bs h =
    let (r, p, k) = >>=-eq-ok (to_value m.body) _ h in
    let (v, e) = to_value-eq-ok m.body r p in
    let k2 = rw e at k in
    elim (Bool-cases (ltb i64_max m.request_id)) [
      | inl l ↦ absurd (ground arith)
      | inr l ↦ (ground arith, v, or_err-eq-ok _ _ (rw l at k2))
    ]

-- The bytes that a valid message of the Rust type was encoded to decode to that message.
pub message_from_wire-message_to_wire :
    (m : Message) (bs : List ℕ)
    → TypedBody m.body
    → ValidMessage m.request_id m.body
    → message_to_wire m ≡ ok bs
    → message_from_wire bs ≡ ok m
unfolding message_from_wire
message_from_wire-message_to_wire m bs t w h =
    let (q, v, e) = message_to_wire-eq-ok m bs h in
    let p = WellTyped-payload_of m.body t (validate-IdsInRange m.body v) in
    let d = from_wire-to_wire _ bs (WellTyped-envelope m.body m.request_id p q) e in
    rw d (from_envelope_lem m w)

else_branch {ℓ κ} :
    {E : Type κ} {A : Type ℓ} (b : Bool) (e : E) (r : Result E A) {a : A}
    → (if b then err e else r) ≡ ok a
    → (b ≡ false) × (r ≡ ok a)
else_branch true e r h = cc
else_branch false e r h = (refl, h)

from_envelope-valid :
    (v : Value) (m : Message) → from_envelope v ≡ ok m → ValidMessage m.request_id m.body
unfolding from_envelope
from_envelope-valid v m h =
    let (fs, _, h1) = >>=-eq-ok (exact_map v _) _ h in
    let (vf, _, h2) = >>=-eq-ok (get_field fs (utf8_bytes "protocolVersion")) _ h1 in
    let (z, _, h3) = >>=-eq-ok (get_integer vf) _ h2 in
    let (_, h4) = else_branch _ _ _ h3 in
    let (idf, _, h5) = >>=-eq-ok (get_field fs (utf8_bytes "requestId")) _ h4 in
    let (n, _, h6) = >>=-eq-ok (positive_id idf) _ h5 in
    let (kf, _, h7) = >>=-eq-ok (get_field fs (utf8_bytes "kind")) _ h6 in
    let (k, _, h8) = >>=-eq-ok (get_string kf) _ h7 in
    let (pf, _, h9) = >>=-eq-ok (get_field fs (utf8_bytes "payload")) _ h8 in
    let (b, _, h10) = >>=-eq-ok (from_value k pf) _ h9 in
    let (w, e) = Message_new_sound n b m h10 in subst (λ x. ValidMessage x.request_id x.body) e w

-- Every message that was decoded is valid, whatever the bytes.
pub message_from_wire-ValidMessage :
    (bs : List ℕ) (m : Message) → message_from_wire bs ≡ ok m → ValidMessage m.request_id m.body
unfolding message_from_wire
message_from_wire-ValidMessage bs m h =
    let (v, _, k) = >>=-eq-ok (or_err _ (from_wire bs)) _ h in from_envelope-valid v m k
