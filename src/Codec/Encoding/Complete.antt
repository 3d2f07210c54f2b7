-- ===== src/Codec/Encoding/Complete.antt =====
-- The encoder accepts every valid value that fits its budgets.
use aura_rust_runtime_host.Base.{
  ℕ, Bool, true, false, ◌+◌, ◌≤◌, ◌≡◌, [], ◌∷◌, ◌++◌, length, arith, List, ok, append_assoc,
  contains-eq_false, sym, ◌∙◌, ap,
}
use aura_rust_runtime_host.Base.Int.{ℤ}
use aura_rust_runtime_host.Codec.Bytes.{to_be_bytes, i64_bits}
use aura_rust_runtime_host.Codec.Errors.{Error, wire_code}
use aura_rust_runtime_host.Codec.Handles.{HandleValue_new-eq_ok, length-wire_code}
use aura_rust_runtime_host.Codec.Values.{
  Text, Value, Items, Fields, null, bool, integer, float, string, bytes, array, map, handle, error,
  HandleValue, tag, max_string_bytes, no_items, item, no_fields, field, len_items, len_fields,
  max_total_content_bytes, max_total_values, max_depth, max_container_entries,
}
use aura_rust_runtime_host.Codec.Encoder.{
  Encoder, encode_value, encode_items, encode_fields, begin_value, container_length, add_content,
  write_length, write_content_string, metadata_string, write_uint64, push,
}
use aura_rust_runtime_host.Codec.Format.{
  content, content_items, content_fields, nodes, nodes_items, nodes_fields, Valid, ValidItems,
  ValidFields,
}
use aura_rust_runtime_host.Codec.Encoding.Output.{
  wrote, after, after-content, after-values, after_items, after_fields, after_key, after-array,
  after-map, after_items-no_items, after_items-item, after_fields-no_fields, after_fields-field,
  header_word, header_text, header_handle, header_length,
}

abbrev CompleteAt : Value → Type 0
CompleteAt v =
    (depth : ℕ) (e : Encoder)
    → Valid depth v
    → e.content_bytes + content v ≤ max_total_content_bytes
    → e.values + nodes v ≤ max_total_values
    → encode_value v depth e ≡ ok (after v e)

null-CompleteAt : CompleteAt null
unfolding encode_value begin_value Valid after
null-CompleteAt depth e v c n = ground (arith, append_assoc e.output (0x92 ∷ 0 ∷ []) (0xc0 ∷ []))

bool-CompleteAt : (x : Bool) → CompleteAt (bool x)
unfolding encode_value begin_value Valid after
bool-CompleteAt true depth e v c n =
    ground (arith, append_assoc e.output (0x92 ∷ 1 ∷ []) (0xc3 ∷ []))
bool-CompleteAt false depth e v c n =
    ground (arith, append_assoc e.output (0x92 ∷ 1 ∷ []) (0xc2 ∷ []))

integer-CompleteAt : (z : ℤ) → CompleteAt (integer z)
unfolding encode_value begin_value Valid after
integer-CompleteAt z depth e v c n =
    ground (arith, header_word e.output 2 0xd3 (to_be_bytes 8 (i64_bits z)))

float-CompleteAt : (w : ℕ) → CompleteAt (float w)
unfolding encode_value begin_value Valid after
float-CompleteAt w depth e v c n = ground (arith, header_word e.output 3 0xcb (to_be_bytes 8 w))

string-CompleteAt : (s : Text) → CompleteAt (string s)
unfolding encode_value begin_value write_content_string Valid after
string-CompleteAt s depth e v c n =
    ground (arith, header_text e.output 4 0xdb (to_be_bytes 4 (length s)) s)

bytes-CompleteAt : (bs : List ℕ) → CompleteAt (bytes bs)
unfolding encode_value begin_value add_content write_length Valid after
bytes-CompleteAt bs depth e v c n =
    ground (arith, header_text e.output 5 0xc6 (to_be_bytes 4 (length bs)) bs)

error-CompleteAt : (x : Error) → CompleteAt (error x)
unfolding encode_value begin_value metadata_string Valid after
error-CompleteAt x depth e v c n = ground (
  arith,
  length-wire_code x.code,
  header_text e.output 9 0xdb (to_be_bytes 4 (length (wire_code x.code))) (wire_code x.code),
)

handle-CompleteAt : (x : HandleValue) → CompleteAt (handle x)
unfolding encode_value begin_value metadata_string write_uint64 Valid after
handle-CompleteAt x depth e v c n = ground (
  arith,
  HandleValue_new-eq_ok x v.1,
  header_handle e.output (to_be_bytes 8 x.object_id) (to_be_bytes 8 x.generation)
      (to_be_bytes 4 (length x.type_name)) x.type_name,
)

begin_value_complete :
    (v : Value) (depth : ℕ) (e : Encoder)
    → depth ≤ max_depth
    → e.values + 1 ≤ max_total_values
    → begin_value v depth e ≡ ok (wrote e (0x92 ∷ tag v ∷ []) 0 1)
unfolding begin_value
begin_value_complete v depth e h k = ground arith

container_length_complete :
    (len : ℕ) (e : Encoder)
    → len ≤ max_container_entries
    → container_length len e ≡ ok (wrote e (0xdd ∷ to_be_bytes 4 len) 0 0)
unfolding container_length
container_length_complete len e h =
    ground (arith, append_assoc e.output (0xdd ∷ []) (to_be_bytes 4 len))

key_output :
    (out l s : List ℕ)
    → (((out ++ 0x92 ∷ []) ++ 0xdb ∷ []) ++ l) ++ s ≡ out ++ 0x92 ∷ 0xdb ∷ (l ++ s)
key_output out l s = simp append_assoc

write_key_complete :
    (k : Text) (e : Encoder)
    → length k ≤ max_string_bytes
    → e.content_bytes + length k ≤ max_total_content_bytes
    → write_content_string k max_string_bytes (push (0x92 ∷ []) e) ≡ ok (after_key k e)
unfolding write_content_string
write_key_complete k e h c = ground (arith, key_output e.output (to_be_bytes 4 (length k)) k)

-- The state behind a container's header.
header_state :
    (t len : ℕ) (e : Encoder)
    → wrote (wrote e (0x92 ∷ t ∷ []) 0 1) (0xdd ∷ to_be_bytes 4 len) 0 0
      ≡ wrote e (0x92 ∷ t ∷ 0xdd ∷ to_be_bytes 4 len) 0 1
header_state t len e = ground (arith, header_length e.output t len)

mutual
  unfolding encode_value Valid tag content nodes

  pub encode_value_complete :
      (v : Value) (depth : ℕ) (e : Encoder)
      → Valid depth v
      → e.content_bytes + content v ≤ max_total_content_bytes
      → e.values + nodes v ≤ max_total_values
      → encode_value v depth e ≡ ok (after v e)
  encode_value_complete null depth e v c n = null-CompleteAt depth e v c n
  encode_value_complete (bool x) depth e v c n = bool-CompleteAt x depth e v c n
  encode_value_complete (integer z) depth e v c n = integer-CompleteAt z depth e v c n
  encode_value_complete (float w) depth e v c n = float-CompleteAt w depth e v c n
  encode_value_complete (string s) depth e v c n = string-CompleteAt s depth e v c n
  encode_value_complete (bytes bs) depth e v c n = bytes-CompleteAt bs depth e v c n
  encode_value_complete (handle x) depth e v c n = handle-CompleteAt x depth e v c n
  encode_value_complete (error x) depth e v c n = error-CompleteAt x depth e v c n
  encode_value_complete (array vs) depth e v c n =
      rw
        (
          begin_value_complete (array vs) depth e v.0 (omega arith),
          container_length_complete (len_items vs) _ v.1,
          header_state 6 (len_items vs) e,
        )
        (encode_items_complete vs (depth + 1) _ v.2 (omega arith) (omega arith)
          ∙ ap ok (after-array vs e))
  encode_value_complete (map fs) depth e v c n =
      rw
        (
          begin_value_complete (map fs) depth e v.0 (omega arith),
          container_length_complete (len_fields fs) _ v.1,
          header_state 7 (len_fields fs) e,
        )
        (encode_fields_complete fs [] (depth + 1) _ v.2 (omega arith) (omega arith)
          ∙ ap ok (after-map fs e))

  encode_items_complete :
      (vs : Items) (depth : ℕ) (e : Encoder)
      → ValidItems depth vs
      → e.content_bytes + content_items vs ≤ max_total_content_bytes
      → e.values + nodes_items vs ≤ max_total_values
      → encode_items vs depth e ≡ ok (after_items vs e)
  encode_items_complete no_items depth e v c n = ap ok (sym (after_items-no_items e))
  encode_items_complete (item x vs) depth e v c n =
      rw (encode_value_complete x depth e v.0 (omega arith) (omega arith)) (
        encode_items_complete vs depth (after x e) v.1 (omega (arith, after-content x e))
          (omega (arith, after-values x e))
        ∙ ap ok (after_items-item x vs e))

  encode_fields_complete :
      (fs : Fields) (keys : List Text) (depth : ℕ) (e : Encoder)
      → ValidFields depth keys fs
      → e.content_bytes + content_fields fs ≤ max_total_content_bytes
      → e.values + nodes_fields fs ≤ max_total_values
      → encode_fields fs keys depth e ≡ ok (after_fields fs e)
  encode_fields_complete no_fields keys depth e v c n = ap ok (sym (after_fields-no_fields e))
  encode_fields_complete (field k x fs) keys depth e v c n =
      rw
        (
          contains-eq_false keys k v.0,
          write_key_complete k e v.1 (omega arith),
          encode_value_complete x depth (after_key k e) v.2 (omega arith) (omega arith),
        )
        (encode_fields_complete fs (k ∷ keys) depth _ v.3
            (omega (arith, after-content x (after_key k e)))
            (omega (arith, after-values x (after_key k e)))
          ∙ ap ok (after_fields-field k x fs e))
