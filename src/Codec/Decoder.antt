-- ===== src/Codec/Decoder.antt =====
-- crates/hmcl-plugin-sdk/src/value.rs: the decoder behind `Value::from_wire`.
-- `rest` is the input from `offset` on, so `offset` can neither pass the end nor overflow.
use aura_rust_runtime_host.Base.{
  ℕ, zero, suc, ◌+◌, not, true, false, List, [], ◌∷◌, ltb, leb, ◌==◌, length, take, drop, contains,
  bytes_eq, Option, none, some, Result, ok, err, if◌then◌else◌,
}
use aura_rust_runtime_host.Codec.Bytes.{from_be_bytes, i64_from_bits}
use aura_rust_runtime_host.Codec.Utf8.{is_utf8}
use aura_rust_runtime_host.Codec.Errors.{Error, Error_new, invalid_result, from_wire_code}
use aura_rust_runtime_host.Codec.Encoder.{checked_add}
use aura_rust_runtime_host.Codec.Values.{
  Text, Value, Items, Fields, null, bool, integer, float, string, bytes, array, map, handle, error,
  no_items, item, no_fields, field, HandleValue_new, is_valid_type_name, is_finite, max_depth,
  max_string_bytes, max_byte_bytes, max_container_entries, max_total_content_bytes,
  max_total_values,
}

pub record Decoder : Type 0 where
  pub rest : List ℕ
  pub content_bytes : ℕ
  pub values : ℕ

abbrev pub Decoder_new : List ℕ → Decoder
Decoder_new input = record { rest = input; content_bytes = 0; values = 0 }

-- A method of `Decoder` that returns an `A`.
abbrev pub D : Type 0 → Type 0
D A = Decoder → Result Error (A × Decoder)

abbrev pub pure : {A : Type 0} → A → D A
pure a d = ok (a, d)

abbrev pub malformed : {A : Type 0} → D A
malformed d = err (Error_new invalid_result)

-- Going on with a method's value in the state that it left.
abbrev pub resume :
    {A B : Type 0} → Result Error (A × Decoder) → (A → D B) → Result Error (B × Decoder)
resume (ok (a, d)) f = f a d
resume (err e) f = err e

infixl 5 ◌>>=◌ ◌>>◌
abbrev pub ◌>>=◌ : {A B : Type 0} → D A → (A → D B) → D B
◌>>=◌ m f d = resume (m d) f

abbrev pub ◌>>◌ : {A B : Type 0} → D A → D B → D B
m >> k = m >>= λ _. k

-- `ok_or_else(invalid_result)?` and `map_err(|_| invalid_result())?`
abbrev pub some_or_malformed : {A : Type 0} → Option A → D A
some_or_malformed (some a) d = ok (a, d)
some_or_malformed none d = err (Error_new invalid_result)

abbrev pub ok_or_malformed : {A : Type 0} → Result Error A → D A
ok_or_malformed (ok a) d = ok (a, d)
ok_or_malformed (err e) d = err (Error_new invalid_result)

byte_of : List ℕ → D ℕ
byte_of [] d = err (Error_new invalid_result)
byte_of (b ∷ bs) d = ok (b, record d { rest = bs })

unfoldable pub byte : D ℕ
unfolding byte_of
byte d = byte_of d.rest d

unfoldable pub expect : ℕ → D (Unit {0})
expect expected = do b ← byte; if b == expected then pure tt else malformed

unfoldable pub take_bytes : ℕ → D (List ℕ)
take_bytes len d =
    if leb len (length d.rest)
    then ok (take len d.rest, record d { rest = drop len d.rest })
    else err (Error_new invalid_result)

unfoldable pub read_length : D ℕ
read_length = do bs ← take_bytes 4; pure (from_be_bytes 0 bs)

unfoldable pub read_uint64 : D ℕ
read_uint64 = do expect 0xcf; bs ← take_bytes 8; pure (from_be_bytes 0 bs)

unfoldable pub add_content : ℕ → ℕ → D (Unit {0})
add_content len individual_limit d =
    if ltb individual_limit len then malformed d else elim (checked_add d.content_bytes len) [
      | none ↦ malformed d
      | some total ↦
          if ltb max_total_content_bytes total
          then malformed d
          else ok (tt, record d { content_bytes = total })
    ]

unfoldable pub string_length : ℕ → D ℕ
string_length limit = do
  expect 0xdb
  len ← read_length
  if ltb limit len then malformed else pure len

unfoldable pub read_string : ℕ → D Text
read_string len = do bs ← take_bytes len; if is_utf8 bs then pure bs else malformed

unfoldable pub read_content_string : ℕ → D Text
read_content_string limit = do len ← string_length limit; add_content len limit; read_string len

unfoldable pub metadata_string : ℕ → D Text
metadata_string limit = do len ← string_length limit; read_string len

unfoldable pub container_length : D ℕ
container_length = do
  expect 0xdd
  len ← read_length
  if ltb max_container_entries len then malformed else pure len

-- The guard that every value starts with, but for the depth, and its header's first byte.
unfoldable pub begin_value : D (Unit {0})
begin_value d =
    if leb max_total_values d.values
    then malformed d
    else expect 0x92 (record d { values = d.values + 1 })

-- The loop over an array's values: `rounds` are left.
unfoldable pub decode_items : D Value → ℕ → D Items
decode_items read zero = pure no_items
decode_items read (suc rounds) = do v ← read; vs ← decode_items read rounds; pure (item v vs)

-- The loop over a map's entries; `keys` is the set of the keys met so far.
unfoldable pub decode_fields : D Value → List Text → ℕ → D Fields
decode_fields read keys zero = pure no_fields
decode_fields read keys (suc rounds) = do
  expect 0x92
  key ← read_content_string max_string_bytes
  let rest : D Fields = do
    v ← read
    fs ← decode_fields read (key ∷ keys) rounds
    pure (field key v fs)
  if contains keys key then malformed else rest

unfoldable pub decode_bool : D Value
decode_bool = do
  b ← byte
  if b == 0xc2 then pure (bool false) else if b == 0xc3 then pure (bool true) else malformed

unfoldable pub decode_integer : D Value
decode_integer = do
  expect 0xd3
  bs ← take_bytes 8
  pure (integer (i64_from_bits (from_be_bytes 0 bs)))

unfoldable pub decode_float : D Value
decode_float = do
  expect 0xcb
  bs ← take_bytes 8
  let bits = from_be_bytes 0 bs
  if not (is_finite bits) then malformed else pure (float bits)

unfoldable pub decode_bytes : D Value
decode_bytes = do
  expect 0xc6
  len ← read_length
  add_content len max_byte_bytes
  bs ← take_bytes len
  pure (bytes bs)

unfoldable pub decode_handle : D Value
decode_handle = do
  expect 0x93
  object_id ← read_uint64
  generation ← read_uint64
  type_name ← metadata_string 128
  h ← ok_or_malformed (HandleValue_new object_id generation type_name)
  pure (handle h)

unfoldable pub decode_error : D Value
decode_error = do
  encoded ← metadata_string 128
  code ← some_or_malformed (from_wire_code encoded)
  pure (error (Error_new code))

-- What stands behind the tag. `read` reads a value one level down.
unfoldable pub decode_body : D Value → ℕ → D Value
decode_body read tag =
    if tag == 0
    then (do expect 0xc0; pure null)
    else if tag == 1
    then decode_bool
    else if tag == 2
    then decode_integer
    else if tag == 3
    then decode_float
    else if tag == 4
    then (do s ← read_content_string max_string_bytes; pure (string s))
    else if tag == 5
    then decode_bytes
    else if tag == 6
    then (do len ← container_length; vs ← decode_items read len; pure (array vs))
    else if tag == 7
    then (do len ← container_length; fs ← decode_fields read [] len; pure (map fs))
    else if tag == 8
    then decode_handle
    else if tag == 9
    then decode_error
    else malformed

-- `levels` is `MAX_DEPTH + 1 - depth`: with no level left the depth is over its limit.
unfoldable pub decode_value : ℕ → D Value
decode_value zero = malformed
decode_value (suc levels) = do begin_value; tag ← byte; decode_body (decode_value levels) tag

-- `decoder.offset != input.len()` is an error.
unfoldable pub finish : Result Error (Value × Decoder) → Result Error Value
finish (ok (v, d)) = elim d.rest [ [] ↦ ok v | _ ∷ _ ↦ err (Error_new invalid_result) ]
finish (err e) = err e

-- The line opens the whole decoder, for the runs that compute.
unfoldable pub from_wire : List ℕ → Result Error Value
unfolding decode_value begin_value byte expect take_bytes read_length read_uint64 add_content
    string_length read_string read_content_string metadata_string container_length decode_items
    decode_fields decode_bool decode_integer decode_float decode_bytes decode_handle decode_error
    decode_body finish is_utf8 from_be_bytes i64_from_bits from_wire_code HandleValue_new
    is_valid_type_name contains bytes_eq
from_wire input = finish (decode_value (suc max_depth) (Decoder_new input))
