-- ===== src/Protocol/Fields.antt =====
-- crates/hmcl-runtime-protocol/src/lib.rs: exact maps and their typed fields.
use aura_rust_runtime_host.Base.{
  ℕ, Bool, true, false, not, ◌&&◌, ◌||◌, Option, some, none, List, [], ◌∷◌, Result, ok, ◌>>=◌,
  bytes_eq, ltb, ◌==◌, if◌then◌else◌, length,
}
use aura_rust_runtime_host.Base.Int.{ℤ, pos, negsuc}
use aura_rust_runtime_host.Codec.Values.{
  Text, Value, Fields, integer, string, bytes, map, no_fields, field, len_fields, i64_max,
}
use aura_rust_runtime_host.Protocol.Messages.{ProtocolError, invalid}

-- `map(vec![…])`
abbrev pub fields_of : List (Text × Value) → Fields
fields_of [] = no_fields
fields_of ((k, v) ∷ fs) = field k v (fields_of fs)

-- `entries.iter().any(|(key, _)| key == name)`
unfoldable pub has_key : Fields → Text → Bool
has_key no_fields name = false
has_key (field k v fs) name = bytes_eq k name || has_key fs name

unfoldable pub has_keys : Fields → List Text → Bool
unfolding has_key
has_keys entries [] = true
has_keys entries (name ∷ names) = has_key entries name && has_keys entries names

unfoldable pub exact_map : Value → List Text → Result ProtocolError Fields
unfolding has_keys
exact_map (map entries) names =
    if not (len_fields entries == length names) || not (has_keys entries names)
    then invalid "message map has unknown or missing fields"
    else ok entries
exact_map _ names = invalid "message value must be a map"

-- `field(entries, name)`
unfoldable pub get_field : Fields → Text → Result ProtocolError Value
unfolding bytes_eq
get_field no_fields name = invalid "message map is missing a required field"
get_field (field k v fs) name = if bytes_eq k name then ok v else get_field fs name

unfoldable pub get_integer : Value → Result ProtocolError ℤ
get_integer (integer z) = ok z
get_integer _ = invalid "message field must be an integer"

-- `u64::try_from` of an i64
abbrev pub u64_try_from : ℤ → Option ℕ
u64_try_from (pos n) = some n
u64_try_from (negsuc n) = none

unfoldable pub positive_id : Value → Result ProtocolError ℕ
unfolding get_integer
positive_id v = do
  z ← get_integer v
  elim (u64_try_from z) [
    | none ↦ invalid "message identifier must be positive"
    | some n ↦ if ltb 0 n then ok n else invalid "message identifier must be positive"
  ]

unfoldable pub nonnegative_id : Value → Result ProtocolError ℕ
unfolding get_integer
nonnegative_id v = do
  z ← get_integer v
  elim (u64_try_from z) [ none ↦ invalid "message identifier must be nonnegative" | some n ↦ ok n ]

unfoldable pub get_string : Value → Result ProtocolError Text
get_string (string s) = ok s
get_string _ = invalid "message field must be a string"

unfoldable pub get_bytes : Value → Result ProtocolError (List ℕ)
get_bytes (bytes bs) = ok bs
get_bytes _ = invalid "message field must be bytes"

-- `i64::try_from` of a u64, as a value
unfoldable pub id_value : ℕ → Result ProtocolError Value
id_value identifier =
    if ltb i64_max identifier
    then invalid "message identifier exceeds signed-64 range"
    else ok (integer (pos identifier))
