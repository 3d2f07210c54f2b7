-- ===== src/Codec/Encoder.antt =====
-- crates/hmcl-plugin-sdk/src/value.rs: the encoder behind `Value::to_wire`.
-- A method of `Encoder` takes the state and returns the new one; an error drops it.
use aura_rust_runtime_host.Base.{
  ℕ, ◌+◌, ◌^◌, not, ◌||◌, List, [], ◌∷◌, ◌++◌, ltb, leb, length, contains, bytes_eq, Option, none,
  some, Result, ok, err, ◌>>=◌, ◌>>◌, if◌then◌else◌,
}
use aura_rust_runtime_host.Codec.Bytes.{to_be_bytes, i64_bits}
use aura_rust_runtime_host.Codec.Errors.{Error, Error_new, invalid_argument, wire_code}
use aura_rust_runtime_host.Codec.Values.{
  Text, Value, Items, Fields, null, bool, integer, float, string, bytes, array, map, handle, error,
  no_items, item, no_fields, field, HandleValue_new, is_valid_type_name, len_items, len_fields, tag,
  is_finite, max_depth, max_string_bytes, max_byte_bytes, max_container_entries,
  max_total_content_bytes, max_total_values,
}

pub record Encoder : Type 0 where
  pub output : List ℕ
  pub content_bytes : ℕ
  pub values : ℕ

abbrev pub Encoded : Type 0
Encoded = Result Error Encoder

abbrev pub Encoder_default : Encoder
Encoder_default = record { output = []; content_bytes = 0; values = 0 }

abbrev pub refused : Encoded
refused = err (Error_new invalid_argument)

-- `self.output.extend_from_slice(bs)`
unfoldable pub push : List ℕ → Encoder → Encoder
push bs e = record e { output = e.output ++ bs }

-- `usize::checked_add`
abbrev pub checked_add : ℕ → ℕ → Option ℕ
checked_add a b = if ltb (a + b) (2 ^ 64) then some (a + b) else none

unfoldable pub add_content : ℕ → ℕ → Encoder → Encoded
add_content len individual_limit e =
    if ltb individual_limit len then refused else elim (checked_add e.content_bytes len) [
      | none ↦ refused
      | some total ↦
          if ltb max_total_content_bytes total
          then refused
          else ok (record e { content_bytes = total })
    ]

unfoldable pub write_length : ℕ → Encoder → Encoded
unfolding push
write_length len e = if ltb len (2 ^ 32) then ok (push (to_be_bytes 4 len) e) else refused

unfoldable pub write_string : Text → Encoder → Encoded
unfolding push write_length
write_string value e = do e ← write_length (length value) (push (0xdb ∷ []) e); ok (push value e)

unfoldable pub write_content_string : Text → ℕ → Encoder → Encoded
unfolding add_content write_string
write_content_string value limit e = do e ← add_content (length value) limit e; write_string value e

unfoldable pub metadata_string : Text → ℕ → Encoder → Encoded
unfolding write_string
metadata_string value limit e = if ltb limit (length value) then refused else write_string value e

unfoldable pub container_length : ℕ → Encoder → Encoded
unfolding push write_length
container_length len e =
    if ltb max_container_entries len then refused else write_length len (push (0xdd ∷ []) e)

unfoldable pub write_uint64 : ℕ → Encoder → Encoder
unfolding push
write_uint64 value e = push (to_be_bytes 8 value) (push (0xcf ∷ []) e)

-- The guards and the header that every value starts with.
unfoldable pub begin_value : Value → ℕ → Encoder → Encoded
unfolding push tag
begin_value v depth e =
    if ltb max_depth depth || leb max_total_values e.values
    then refused
    else ok (push (0x92 ∷ tag v ∷ []) (record e { values = e.values + 1 }))

unfoldable mutual
  pub encode_value : Value → ℕ → Encoder → Encoded
  encode_value null depth e = do e ← begin_value null depth e; ok (push (0xc0 ∷ []) e)
  encode_value (bool b) depth e = do
    e ← begin_value (bool b) depth e
    ok (push ((if b then 0xc3 else 0xc2) ∷ []) e)
  encode_value (integer z) depth e = do
    e ← begin_value (integer z) depth e
    ok (push (to_be_bytes 8 (i64_bits z)) (push (0xd3 ∷ []) e))
  encode_value (float w) depth e = do
    e ← begin_value (float w) depth e
    if not (is_finite w) then refused else ok (push (to_be_bytes 8 w) (push (0xcb ∷ []) e))
  encode_value (string s) depth e = do
    e ← begin_value (string s) depth e
    write_content_string s max_string_bytes e
  encode_value (bytes bs) depth e = do
    e ← begin_value (bytes bs) depth e
    e ← add_content (length bs) max_byte_bytes e
    e ← write_length (length bs) (push (0xc6 ∷ []) e)
    ok (push bs e)
  encode_value (array vs) depth e = do
    e ← begin_value (array vs) depth e
    e ← container_length (len_items vs) e
    encode_items vs (depth + 1) e
  encode_value (map fs) depth e = do
    e ← begin_value (map fs) depth e
    e ← container_length (len_fields fs) e
    encode_fields fs [] (depth + 1) e
  encode_value (handle h) depth e = do
    e ← begin_value (handle h) depth e
    HandleValue_new h.object_id h.generation h.type_name
        >> metadata_string h.type_name 128
            (write_uint64 h.generation (write_uint64 h.object_id (push (0x93 ∷ []) e)))
  encode_value (error x) depth e = do
    e ← begin_value (error x) depth e
    metadata_string (wire_code x.code) 128 e

  -- The loop over an array's values.
  pub encode_items : Items → ℕ → Encoder → Encoded
  encode_items no_items depth e = ok e
  encode_items (item v vs) depth e = do e ← encode_value v depth e; encode_items vs depth e

  -- The loop over a map's entries; `keys` is the set of the keys met so far.
  pub encode_fields : Fields → List Text → ℕ → Encoder → Encoded
  encode_fields no_fields keys depth e = ok e
  encode_fields (field k v fs) keys depth e = if contains keys k then refused else do
    e ← write_content_string k max_string_bytes (push (0x92 ∷ []) e)
    e ← encode_value v depth e
    encode_fields fs (k ∷ keys) depth e

-- The line opens the whole encoder, for the runs that compute.
unfoldable pub to_wire : Value → Result Error (List ℕ)
unfolding encode_value begin_value add_content write_length write_content_string metadata_string
    container_length write_uint64 HandleValue_new is_valid_type_name wire_code to_be_bytes i64_bits
    contains bytes_eq
to_wire v = do e ← encode_value v 0 Encoder_default; ok e.output
