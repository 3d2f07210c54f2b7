-- ===== src/Codec/Values.antt =====
-- crates/hmcl-plugin-sdk/src/value.rs: the data model of Bridge Value v1.
use aura_rust_runtime_host.Base.{
  ℕ, suc, ◌-◌, ◌*◌, ◌/◌, ◌%◌, ◌^◌, Bool, true, false, not, ◌&&◌, ◌||◌, List, [], ◌∷◌, ltb, ◌==◌,
  length, Result, ok, err, if◌then◌else◌,
}
use aura_rust_runtime_host.Base.Int.{ℤ}
use aura_rust_runtime_host.Codec.Errors.{Error, Error_new, invalid_argument}
use aura_rust_runtime_host.Codec.Utf8.{is_ascii_lowercase, is_ascii_digit}

-- A Rust `String`: its UTF-8 bytes.
abbrev pub Text : Type 0
Text = List ℕ

abbrev pub max_depth : ℕ
max_depth = 31

abbrev pub max_string_bytes : ℕ
max_string_bytes = 1024 * 1024

abbrev pub max_byte_bytes : ℕ
max_byte_bytes = 16 * 1024 * 1024

abbrev pub max_container_entries : ℕ
max_container_entries = 1024

abbrev pub max_total_content_bytes : ℕ
max_total_content_bytes = 16 * 1024 * 1024

abbrev pub max_total_values : ℕ
max_total_values = 65_536

abbrev pub i64_max : ℕ
i64_max = 2 ^ 63 - 1

pub record HandleValue : Type 0 where
  pub object_id : ℕ
  pub generation : ℕ
  pub type_name : Text

-- The loop of `is_valid_type_name` over the bytes behind the first.
unfoldable pub type_name_rest : Bool → List ℕ → Bool
type_name_rest separator [] = not separator
type_name_rest separator (b ∷ bs) =
    let after_separator = type_name_rest true bs in
    let after_letter = type_name_rest false bs in
    if b == b'.' || b == b'-'
    then (if separator then false else after_separator)
    else if is_ascii_lowercase b || is_ascii_digit b
    then after_letter
    else false

unfoldable pub is_valid_type_name : Text → Bool
unfolding type_name_rest
is_valid_type_name [] = false
is_valid_type_name (b ∷ bs) =
    if ltb 128 (length (b ∷ bs)) then false else is_ascii_lowercase b && type_name_rest false bs

unfoldable pub HandleValue_new : ℕ → ℕ → Text → Result Error HandleValue
HandleValue_new object_id generation type_name =
    if object_id == 0
      || generation == 0
      || ltb i64_max object_id
      || ltb i64_max generation
      || not (is_valid_type_name type_name)
      || ltb 128 (length type_name)
    then err (Error_new invalid_argument)
    else ok (record { object_id = object_id; generation = generation; type_name = type_name })

-- A float is its IEEE-754 bit pattern; `Items` and `Fields` are the vectors in an array and a map.
mutual
  pub data Value : Type 0 where
    null : Value
    bool : Bool → Value
    integer : ℤ → Value
    float : ℕ → Value
    string : Text → Value
    bytes : List ℕ → Value
    array : Items → Value
    map : Fields → Value
    handle : HandleValue → Value
    error : Error → Value

  pub data Items : Type 0 where
    no_items : Items
    item : Value → Items → Items

  pub data Fields : Type 0 where
    no_fields : Fields
    field : Text → Value → Fields → Fields

abbrev pub len_items : Items → ℕ
len_items no_items = 0
len_items (item v vs) = suc (len_items vs)

abbrev pub len_fields : Fields → ℕ
len_fields no_fields = 0
len_fields (field k v fs) = suc (len_fields fs)

-- `f64::is_finite`: the exponent is not all ones.
abbrev pub is_finite : ℕ → Bool
is_finite bits = not (bits / 2 ^ 52 % 2 ^ 11 == 2047)

unfoldable pub tag : Value → ℕ
tag null = 0
tag (bool b) = 1
tag (integer z) = 2
tag (float w) = 3
tag (string s) = 4
tag (bytes bs) = 5
tag (array vs) = 6
tag (map fs) = 7
tag (handle h) = 8
tag (error e) = 9
