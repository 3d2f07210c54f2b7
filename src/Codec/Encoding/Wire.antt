-- ===== src/Codec/Encoding/Wire.antt =====
-- `Value::to_wire` as a whole.
use aura_rust_runtime_host.Base.{
  ℕ, ◌+◌, ◌≡◌, ◌↔◌, List, [], refl, ok, err, ap, ◌∙◌, sym, arith, >>=-eq-ok, contains, ◌>>=◌, ◌>>◌,
  if◌then◌else◌, ◌∷◌, length, true, false, Bool, Result,
}
use aura_rust_runtime_host.Codec.Errors.{Error, Error_new, invalid_argument, wire_code}
use aura_rust_runtime_host.Codec.Values.{
  Value, Items, Fields, Text, null, bool, integer, float, string, bytes, array, map, handle, error,
  no_items, item, no_fields, field, HandleValue_new, len_items, len_fields, max_string_bytes,
  max_byte_bytes, HandleValue,
}
use aura_rust_runtime_host.Codec.Encoder.{
  Encoder, Encoded, refused, Encoder_default, encode_value, encode_items, encode_fields, to_wire,
  begin_value, container_length, write_length, add_content, write_content_string, metadata_string,
  push,
}
use aura_rust_runtime_host.Codec.Format.{wire, Encodable}
use aura_rust_runtime_host.Codec.Encoding.Output.{after-output, after-content, after-values}
use aura_rust_runtime_host.Codec.Encoding.Sound.{encode_value_sound}
use aura_rust_runtime_host.Codec.Encoding.Complete.{encode_value_complete}

-- The whole encoder stays shut but for its last step.
to_wire_steps : (v : Value) → to_wire v ≡ (encode_value v 0 Encoder_default >>= λ e. ok e.output)
unfolding to_wire
to_wire_steps v = refl

-- Encoding succeeds with these bytes exactly when the value is encodable and they are its canonical
-- form.
pub to_wire-eq-ok_iff :
    (v : Value) (bs : List ℕ) → (to_wire v ≡ ok bs) ↔ (Encodable v × (bs ≡ wire v))
to_wire-eq-ok_iff v bs = (sound, complete)
  where
    sound : to_wire v ≡ ok bs → Encodable v × (bs ≡ wire v)
    sound h =
        let (e, p, q) =
          >>=-eq-ok (encode_value v 0 Encoder_default) _ (sym (to_wire_steps v) ∙ h) in
        let whole = encode_value_sound v 0 Encoder_default e (omega arith) p in
        ground (
          arith,
          after-content v Encoder_default,
          after-values v Encoder_default,
          after-output v Encoder_default,
        )

    complete : Encodable v × (bs ≡ wire v) → to_wire v ≡ ok bs
    complete h =
        let whole = encode_value_complete v 0 Encoder_default h.0.0 (omega arith) (omega arith) in
        to_wire_steps v ∙ rw whole (ap ok (after-output v Encoder_default ∙ sym h.1))

-- A step that fails does so with `InvalidArgument`.
data Refuses {A : Type 0} : Result Error A → Type 0 where
  accepts : (a : A) → Refuses (ok a)
  refuses : Refuses (err (Error_new invalid_argument))

Refuses-of :
    {A : Type 0} (r : Result Error A)
    → ((x : Error) → r ≡ err x → x ≡ Error_new invalid_argument)
    → Refuses r
Refuses-of (ok e) h = accepts e
Refuses-of (err x) h = rw (h x refl) refuses

Refuses-bind :
    {A B : Type 0} {m : Result Error A} {f : A → Result Error B}
    → Refuses m
    → ((a : A) → Refuses (f a))
    → Refuses (m >>= f)
Refuses-bind (accepts e) k = k e
Refuses-bind refuses k = refuses

Refuses-eq :
    {A : Type 0} {r : Result Error A} {x : Error}
    → Refuses r
    → r ≡ err x
    → x ≡ Error_new invalid_argument
Refuses-eq (accepts e) h = cc
Refuses-eq refuses h = cc

begin_value-Refuses : (v : Value) (depth : ℕ) (e : Encoder) → Refuses (begin_value v depth e)
unfolding begin_value
begin_value-Refuses v depth e = Refuses-of _ (λ x h. ground arith)

write_length-Refuses : (n : ℕ) (e : Encoder) → Refuses (write_length n e)
unfolding write_length
write_length-Refuses n e = Refuses-of _ (λ x h. ground arith)

add_content-Refuses : (n limit : ℕ) (e : Encoder) → Refuses (add_content n limit e)
unfolding add_content
add_content-Refuses n limit e = Refuses-of _ (λ x h. ground arith)

write_content_string-Refuses :
    (s : Text) (limit : ℕ) (e : Encoder) → Refuses (write_content_string s limit e)
unfolding write_content_string
write_content_string-Refuses s limit e = Refuses-of _ (λ x h. ground arith)

metadata_string-Refuses : (s : Text) (limit : ℕ) (e : Encoder) → Refuses (metadata_string s limit e)
unfolding metadata_string
metadata_string-Refuses s limit e = Refuses-of _ (λ x h. ground arith)

container_length-Refuses : (n : ℕ) (e : Encoder) → Refuses (container_length n e)
unfolding container_length
container_length-Refuses n e = Refuses-of _ (λ x h. ground arith)

-- The handle is validated before its parts are written.
handle_body-Refuses :
    (x : HandleValue) (r : Encoded)
    → Refuses r
    → Refuses (HandleValue_new x.object_id x.generation x.type_name >> r)
unfolding HandleValue_new
handle_body-Refuses x r h = Refuses-bind (Refuses-of _ (λ y p. ground arith)) (λ _. h)

Refuses-if : (b : Bool) {r : Encoded} → Refuses r → Refuses (if b then refused else r)
Refuses-if true h = refuses
Refuses-if false h = h

mutual
  unfolding encode_value

  encode_value-Refuses : (v : Value) (depth : ℕ) (e : Encoder) → Refuses (encode_value v depth e)
  encode_value-Refuses null depth e =
      Refuses-bind (begin_value-Refuses null depth e) λ e1. accepts _
  encode_value-Refuses (bool b) depth e =
      Refuses-bind (begin_value-Refuses (bool b) depth e) λ e1. accepts _
  encode_value-Refuses (integer z) depth e =
      Refuses-bind (begin_value-Refuses (integer z) depth e) λ e1. accepts _
  encode_value-Refuses (float w) depth e =
      Refuses-bind (begin_value-Refuses (float w) depth e) λ e1. Refuses-if _ (accepts _)
  encode_value-Refuses (string s) depth e =
      Refuses-bind (begin_value-Refuses (string s) depth e)
        λ e1. write_content_string-Refuses s max_string_bytes e1
  encode_value-Refuses (bytes bs) depth e =
      Refuses-bind (begin_value-Refuses (bytes bs) depth e) λ e1.
        Refuses-bind (add_content-Refuses (length bs) max_byte_bytes e1) λ e2.
          Refuses-bind (write_length-Refuses (length bs) (push (0xc6 ∷ []) e2)) λ e3. accepts _
  encode_value-Refuses (array vs) depth e =
      Refuses-bind (begin_value-Refuses (array vs) depth e) λ e1.
        Refuses-bind (container_length-Refuses (len_items vs) e1)
          λ e2. encode_items-Refuses vs (depth + 1) e2
  encode_value-Refuses (map fs) depth e = Refuses-bind (begin_value-Refuses (map fs) depth e) λ e1.
      Refuses-bind (container_length-Refuses (len_fields fs) e1)
        λ e2. encode_fields-Refuses fs [] (depth + 1) e2
  encode_value-Refuses (handle x) depth e =
      Refuses-bind (begin_value-Refuses (handle x) depth e)
        λ e1. handle_body-Refuses x _ (metadata_string-Refuses x.type_name 128 _)
  encode_value-Refuses (error x) depth e =
      Refuses-bind (begin_value-Refuses (error x) depth e)
        λ e1. metadata_string-Refuses (wire_code x.code) 128 e1

  encode_items-Refuses : (vs : Items) (depth : ℕ) (e : Encoder) → Refuses (encode_items vs depth e)
  encode_items-Refuses no_items depth e = accepts e
  encode_items-Refuses (item v vs) depth e =
      Refuses-bind (encode_value-Refuses v depth e) λ e1. encode_items-Refuses vs depth e1

  encode_fields-Refuses :
      (fs : Fields) (keys : List Text) (depth : ℕ) (e : Encoder)
      → Refuses (encode_fields fs keys depth e)
  encode_fields-Refuses no_fields keys depth e = accepts e
  encode_fields-Refuses (field k v fs) keys depth e = Refuses-if (contains keys k) (
      Refuses-bind (write_content_string-Refuses k max_string_bytes (push (0x92 ∷ []) e)) λ e1.
        Refuses-bind (encode_value-Refuses v depth e1)
          λ e2. encode_fields-Refuses fs (k ∷ keys) depth e2)

-- Whatever is refused is refused with `InvalidArgument`.
pub to_wire-eq-err : (v : Value) (x : Error) → to_wire v ≡ err x → x ≡ Error_new invalid_argument
to_wire-eq-err v x h =
    Refuses-eq (Refuses-bind (encode_value-Refuses v 0 Encoder_default) λ e. accepts _)
      (sym (to_wire_steps v) ∙ h)
