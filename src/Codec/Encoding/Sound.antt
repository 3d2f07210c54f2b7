-- ===== src/Codec/Encoding/Sound.antt =====
-- What the encoder accepts is valid and within budget, and its output is the canonical form.
use aura_rust_runtime_host.Base.{
  ℕ, Bool, true, false, ◌+◌, ◌≤◌, ◌≡◌, [], ◌∷◌, length, arith, List, ok, append_assoc, contains,
  contains_none, >>=-eq-ok, Bool-cases, inl, inr,
}
use aura_rust_runtime_host.Base.Int.{ℤ}
use aura_rust_runtime_host.Codec.Bytes.{to_be_bytes, i64_bits}
use aura_rust_runtime_host.Codec.Errors.{Error, wire_code}
use aura_rust_runtime_host.Codec.Handles.{HandleValue_new-ValidHandle}
use aura_rust_runtime_host.Codec.Values.{
  Text, HandleValue_new, Value, Items, Fields, null, bool, integer, float, string, bytes, array,
  map, handle, error, HandleValue, tag, max_string_bytes, no_items, item, no_fields, field,
  len_items, len_fields, max_total_content_bytes, max_total_values, max_depth,
  max_container_entries,
}
use aura_rust_runtime_host.Codec.Encoder.{
  Encoder, encode_value, encode_items, encode_fields, begin_value, container_length, add_content,
  write_length, write_content_string, metadata_string, write_uint64, push,
}
use aura_rust_runtime_host.Codec.Format.{wire_text, Valid, ValidItems, ValidFields}
use aura_rust_runtime_host.Codec.Encoding.Output.{
  InBudget, wrote, after, after_items, after_fields, after_key, after-array, after-map,
  after_items-no_items, after_items-item, after_fields-no_fields, after_fields-field, header_word,
  header_text, header_handle, header_length,
}

abbrev SoundAt : Value → Type 0
SoundAt v =
    (depth : ℕ) (e e' : Encoder)
    → InBudget e
    → encode_value v depth e ≡ ok e'
    → Valid depth v × (e' ≡ after v e) × InBudget e'

null-SoundAt : SoundAt null
unfolding encode_value begin_value Valid after
null-SoundAt depth e e' b h = ground (arith, append_assoc e.output (0x92 ∷ 0 ∷ []) (0xc0 ∷ []))

bool-SoundAt : (x : Bool) → SoundAt (bool x)
unfolding encode_value begin_value Valid after
bool-SoundAt true depth e e' b h = ground (arith, append_assoc e.output (0x92 ∷ 1 ∷ []) (0xc3 ∷ []))
bool-SoundAt false depth e e' b h =
    ground (arith, append_assoc e.output (0x92 ∷ 1 ∷ []) (0xc2 ∷ []))

integer-SoundAt : (z : ℤ) → SoundAt (integer z)
unfolding encode_value begin_value Valid after
integer-SoundAt z depth e e' b h =
    ground (arith, header_word e.output 2 0xd3 (to_be_bytes 8 (i64_bits z)))

float-SoundAt : (w : ℕ) → SoundAt (float w)
unfolding encode_value begin_value Valid after
float-SoundAt w depth e e' b h = ground (arith, header_word e.output 3 0xcb (to_be_bytes 8 w))

string-SoundAt : (s : Text) → SoundAt (string s)
unfolding encode_value begin_value write_content_string Valid after
string-SoundAt s depth e e' b h =
    ground (arith, header_text e.output 4 0xdb (to_be_bytes 4 (length s)) s)

bytes-SoundAt : (bs : List ℕ) → SoundAt (bytes bs)
unfolding encode_value begin_value add_content write_length Valid after
bytes-SoundAt bs depth e e' b h =
    ground (arith, header_text e.output 5 0xc6 (to_be_bytes 4 (length bs)) bs)

error-SoundAt : (x : Error) → SoundAt (error x)
unfolding encode_value begin_value metadata_string Valid after
error-SoundAt x depth e e' b h = ground (
  arith,
  header_text e.output 9 0xdb (to_be_bytes 4 (length (wire_code x.code))) (wire_code x.code),
)

handle-SoundAt : (x : HandleValue) → SoundAt (handle x)
unfolding encode_value begin_value metadata_string write_uint64 Valid after
handle-SoundAt x depth e e' b h =
    let (e1, h1, k1) = >>=-eq-ok (begin_value (handle x) depth e) _ h in
    let (x', h2, k2) = >>=-eq-ok (HandleValue_new x.object_id x.generation x.type_name) _ k1 in
    let valid = HandleValue_new-ValidHandle x.object_id x.generation x.type_name x' h2 in
    ground (
      arith,
      valid,
      header_handle e.output (to_be_bytes 8 x.object_id) (to_be_bytes 8 x.generation)
          (to_be_bytes 4 (length x.type_name)) x.type_name,
    )

begin_value_sound :
    (v : Value) (depth : ℕ) (e e' : Encoder)
    → begin_value v depth e ≡ ok e'
    → (depth ≤ max_depth)
      × (e' ≡ wrote e (0x92 ∷ tag v ∷ []) 0 1)
      × (e.values + 1 ≤ max_total_values)
unfolding begin_value
begin_value_sound v depth e e' h = ground arith

container_length_sound :
    (len : ℕ) (e e' : Encoder)
    → container_length len e ≡ ok e'
    → (len ≤ max_container_entries) × (e' ≡ wrote e (0xdd ∷ to_be_bytes 4 len) 0 0)
unfolding container_length
container_length_sound len e e' h =
    ground (arith, append_assoc e.output (0xdd ∷ []) (to_be_bytes 4 len))

write_content_string_sound :
    (k : Text) (limit : ℕ) (e e' : Encoder)
    → write_content_string k limit e ≡ ok e'
    → (length k ≤ limit)
      × (e' ≡ wrote e (wire_text k) (length k) 0)
      × (e.content_bytes + length k ≤ max_total_content_bytes)
unfolding write_content_string
write_content_string_sound k limit e e' h = ground (
  arith,
  append_assoc e.output (0xdb ∷ []) (to_be_bytes 4 (length k)),
  append_assoc e.output (0xdb ∷ to_be_bytes 4 (length k)) k,
)

write_key_sound :
    (k : Text) (e e' : Encoder)
    → write_content_string k max_string_bytes (push (0x92 ∷ []) e) ≡ ok e'
    → (length k ≤ max_string_bytes)
      × (e' ≡ after_key k e)
      × (e.content_bytes + length k ≤ max_total_content_bytes)
unfolding push
write_key_sound k e e' h = ground (
  arith,
  write_content_string_sound k max_string_bytes (push (0x92 ∷ []) e) e',
  append_assoc e.output (0x92 ∷ []) (wire_text k),
)

mutual
  unfolding encode_value Valid tag

  pub encode_value_sound :
      (v : Value) (depth : ℕ) (e e' : Encoder)
      → InBudget e
      → encode_value v depth e ≡ ok e'
      → Valid depth v × (e' ≡ after v e) × InBudget e'
  encode_value_sound null depth e e' b h = null-SoundAt depth e e' b h
  encode_value_sound (bool x) depth e e' b h = bool-SoundAt x depth e e' b h
  encode_value_sound (integer z) depth e e' b h = integer-SoundAt z depth e e' b h
  encode_value_sound (float w) depth e e' b h = float-SoundAt w depth e e' b h
  encode_value_sound (string s) depth e e' b h = string-SoundAt s depth e e' b h
  encode_value_sound (bytes bs) depth e e' b h = bytes-SoundAt bs depth e e' b h
  encode_value_sound (handle x) depth e e' b h = handle-SoundAt x depth e e' b h
  encode_value_sound (error x) depth e e' b h = error-SoundAt x depth e e' b h
  encode_value_sound (array vs) depth e e' b h =
      let (e1, h1, k1) = >>=-eq-ok (begin_value (array vs) depth e) _ h in
      let (e2, h2, k2) = >>=-eq-ok (container_length (len_items vs) e1) _ k1 in
      ground (
        arith,
        begin_value_sound (array vs) depth e e1,
        container_length_sound (len_items vs) e1 e2,
        encode_items_sound vs (depth + 1) e2 e',
        after-array vs e,
        header_length e.output 6 (len_items vs),
      )
  encode_value_sound (map fs) depth e e' b h =
      let (e1, h1, k1) = >>=-eq-ok (begin_value (map fs) depth e) _ h in
      let (e2, h2, k2) = >>=-eq-ok (container_length (len_fields fs) e1) _ k1 in
      ground (
        arith,
        begin_value_sound (map fs) depth e e1,
        container_length_sound (len_fields fs) e1 e2,
        encode_fields_sound fs [] (depth + 1) e2 e',
        after-map fs e,
        header_length e.output 7 (len_fields fs),
      )

  encode_items_sound :
      (vs : Items) (depth : ℕ) (e e' : Encoder)
      → InBudget e
      → encode_items vs depth e ≡ ok e'
      → ValidItems depth vs × (e' ≡ after_items vs e) × InBudget e'
  encode_items_sound no_items depth e e' b h = ground (arith, after_items-no_items e)
  encode_items_sound (item v vs) depth e e' b h =
      let (e1, h1, k1) = >>=-eq-ok (encode_value v depth e) _ h in
      ground (
        arith,
        encode_value_sound v depth e e1,
        encode_items_sound vs depth e1 e',
        after_items-item v vs e,
      )

  encode_fields_sound :
      (fs : Fields) (keys : List Text) (depth : ℕ) (e e' : Encoder)
      → InBudget e
      → encode_fields fs keys depth e ≡ ok e'
      → ValidFields depth keys fs × (e' ≡ after_fields fs e) × InBudget e'
  encode_fields_sound no_fields keys depth e e' b h = ground (arith, after_fields-no_fields e)
  encode_fields_sound (field k v fs) keys depth e e' b h = elim (Bool-cases (contains keys k)) [
    | inl old ↦ ground arith
    | inr new ↦
        let h' = rw new at h in
        let (e1, h1, k1) =
          >>=-eq-ok (write_content_string k max_string_bytes (push (0x92 ∷ []) e)) _ h' in
        let (e2, h2, k2) = >>=-eq-ok (encode_value v depth e1) _ k1 in
        let key = write_key_sound k e e1 h1 in
        let value = encode_value_sound v depth e1 e2 (ground arith) h2 in
        let others = encode_fields_sound fs (k ∷ keys) depth e2 e' value.2 k2 in
        (
          (contains_none keys k new, key.0, value.0, others.0),
          ground (arith, after_fields-field k v fs e),
          others.2,
        )
  ]
