-- ===== src/Protocol/BodyRoundTrip.antt =====
-- crates/hmcl-runtime-protocol/src/lib.rs: `MessageBody::to_value` and `MessageBody::from_value`.
use aura_rust_runtime_host.Base.{ℕ, ◌≡◌, refl, Result, ok, ◌>>=◌, >>=-eq-ok, ◌≤◌}
use aura_rust_runtime_host.Codec.Values.{Value, Text, i64_max}
use aura_rust_runtime_host.Protocol.Messages.{
  ProtocolError, Checked, MessageBody, hello, load, enable, invoke, disable, shutdown, done, result,
  error, bridge_invoke, retain_handle, release_handle, callback_result, callback_error, validate,
}
use aura_rust_runtime_host.Protocol.Fields.{exact_map, get_field, get_string, get_bytes}
use aura_rust_runtime_host.Protocol.Payloads.{
  to_value, from_value, decode_kind, handle_payload, decode_empty, decode_load, decode_invoke,
  decode_output, decode_error, decode_bridge_invoke, decode_handle, decode_callback_error,
}
use aura_rust_runtime_host.Protocol.Bodies.{
  kind_of, payload_of, IdsInRange, id_value_lem, positive_id_lem, nonnegative_id_lem,
  validate-IdsInRange,
}

handle_payload_lem :
    (o g : ℕ) → o ≤ i64_max → g ≤ i64_max → handle_payload o g ≡ ok (payload_of (retain_handle o g))
unfolding handle_payload
handle_payload_lem o g p q = rw (id_value_lem o p, id_value_lem g q) refl

to_value-of_valid :
    (body : MessageBody)
    → validate body ≡ ok tt
    → IdsInRange body
    → to_value body ≡ ok (kind_of body, payload_of body)
unfolding to_value IdsInRange
to_value-of_valid hello h i = rw h refl
to_value-of_valid (load root entry plugin session) h (a, b, c, d) =
    rw (h, id_value_lem plugin b, id_value_lem session d) refl
to_value-of_valid enable h i = rw h refl
to_value-of_valid (invoke op input cb) h i = rw (h, id_value_lem cb i) refl
to_value-of_valid disable h i = rw h refl
to_value-of_valid shutdown h i = rw h refl
to_value-of_valid done h i = rw h refl
to_value-of_valid (result output) h i = rw h refl
to_value-of_valid (error code message) h i = rw h refl
to_value-of_valid (bridge_invoke op input) h i = rw h refl
to_value-of_valid (retain_handle o g) h (a, b, c, d) = rw (h, handle_payload_lem o g b d) refl
to_value-of_valid (release_handle o g) h (a, b, c, d) = rw (h, handle_payload_lem o g b d) refl
to_value-of_valid (callback_result output) h i = rw h refl
to_value-of_valid (callback_error code) h i = rw h refl

checked-eq_ok {ℓ} :
    {A : Type ℓ} (m : Checked) (f : Unit {0} → Result ProtocolError A) {a : A}
    → (m >>= f) ≡ ok a
    → m ≡ ok tt
checked-eq_ok m f h = let (_, p, _) = >>=-eq-ok m f h in p

to_value-validate :
    (body : MessageBody) (r : Text × Value) → to_value body ≡ ok r → validate body ≡ ok tt
unfolding to_value
to_value-validate hello r h = checked-eq_ok (validate _) _ h
to_value-validate (load root entry plugin session) r h = checked-eq_ok (validate _) _ h
to_value-validate enable r h = checked-eq_ok (validate _) _ h
to_value-validate (invoke op input cb) r h = checked-eq_ok (validate _) _ h
to_value-validate disable r h = checked-eq_ok (validate _) _ h
to_value-validate shutdown r h = checked-eq_ok (validate _) _ h
to_value-validate done r h = checked-eq_ok (validate _) _ h
to_value-validate (result output) r h = checked-eq_ok (validate _) _ h
to_value-validate (error code message) r h = checked-eq_ok (validate _) _ h
to_value-validate (bridge_invoke op input) r h = checked-eq_ok (validate _) _ h
to_value-validate (retain_handle o g) r h = checked-eq_ok (validate _) _ h
to_value-validate (release_handle o g) r h = checked-eq_ok (validate _) _ h
to_value-validate (callback_result output) r h = checked-eq_ok (validate _) _ h
to_value-validate (callback_error code) r h = checked-eq_ok (validate _) _ h

-- A body has an encoding exactly when it is valid, and then its kind and payload are the specified.
pub to_value-eq-ok :
    (body : MessageBody) (r : Text × Value)
    → to_value body ≡ ok r
    → (validate body ≡ ok tt) × (r ≡ (kind_of body, payload_of body))
to_value-eq-ok body r h =
    let v = to_value-validate body r h in
    let p = to_value-of_valid body v (validate-IdsInRange body v) in (v, cc)

pub to_value_lem :
    (body : MessageBody)
    → validate body ≡ ok tt
    → to_value body ≡ ok (kind_of body, payload_of body)
to_value_lem body h = to_value-of_valid body h (validate-IdsInRange body h)

decode_kind-of_valid :
    (body : MessageBody) → IdsInRange body → decode_kind (kind_of body) (payload_of body) ≡ ok body
unfolding decode_kind decode_empty decode_load decode_invoke decode_output decode_error
    decode_bridge_invoke decode_handle decode_callback_error exact_map get_field get_string
    get_bytes IdsInRange
decode_kind-of_valid hello i = refl
decode_kind-of_valid (load root entry plugin session) (a, b, c, d) =
    rw (positive_id_lem plugin a, positive_id_lem session c) refl
decode_kind-of_valid enable i = refl
decode_kind-of_valid (invoke op input cb) i = rw (nonnegative_id_lem cb) refl
decode_kind-of_valid disable i = refl
decode_kind-of_valid shutdown i = refl
decode_kind-of_valid done i = refl
decode_kind-of_valid (result output) i = refl
decode_kind-of_valid (error code message) i = refl
decode_kind-of_valid (bridge_invoke op input) i = refl
decode_kind-of_valid (retain_handle o g) (a, b, c, d) =
    rw (positive_id_lem o a, positive_id_lem g c) refl
decode_kind-of_valid (release_handle o g) (a, b, c, d) =
    rw (positive_id_lem o a, positive_id_lem g c) refl
decode_kind-of_valid (callback_result output) i = refl
decode_kind-of_valid (callback_error code) i = refl

pub from_value_lem :
    (body : MessageBody)
    → validate body ≡ ok tt
    → from_value (kind_of body) (payload_of body) ≡ ok body
unfolding from_value
from_value_lem body h = rw (decode_kind-of_valid body (validate-IdsInRange body h), h) refl

-- Every body that was decoded is valid.
pub from_value-validate :
    (kind : Text) (payload : Value) (body : MessageBody)
    → from_value kind payload ≡ ok body
    → validate body ≡ ok tt
unfolding from_value
from_value-validate kind payload body h =
    let (b, p, k) = >>=-eq-ok (decode_kind kind payload) _ h in
    let (u, q, e) = >>=-eq-ok (validate b) _ k in cc
