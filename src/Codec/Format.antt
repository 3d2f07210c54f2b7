-- ===== src/Codec/Format.antt =====
-- The canonical form of Bridge Value v1, as a specification: what bytes a value has, what it costs
-- of each budget, and which values may be encoded.
use aura_rust_runtime_host.Base.{
  ℕ, ◌+◌, ◌≤◌, ◌<◌, ◌≡◌, ◌≢◌, true, List, [], ◌∷◌, ◌++◌, length, All, if◌then◌else◌,
}
use aura_rust_runtime_host.Codec.Bytes.{IsByte, IsU64, IsI64, to_be_bytes, i64_bits}
use aura_rust_runtime_host.Codec.Utf8.{is_utf8}
use aura_rust_runtime_host.Codec.Errors.{wire_code}
use aura_rust_runtime_host.Codec.Values.{
  Text, Value, Items, Fields, null, bool, integer, float, string, bytes, array, map, handle, error,
  no_items, item, no_fields, field, HandleValue, len_items, len_fields, is_finite,
  is_valid_type_name, i64_max, max_depth, max_string_bytes, max_byte_bytes, max_container_entries,
  max_total_content_bytes, max_total_values,
}

-- A text behind its length.
abbrev pub wire_text : Text → List ℕ
wire_text s = 0xdb ∷ (to_be_bytes 4 (length s) ++ s)

unfoldable mutual
  pub wire : Value → List ℕ
  wire null = 0x92 ∷ 0 ∷ 0xc0 ∷ []
  wire (bool b) = 0x92 ∷ 1 ∷ (if b then 0xc3 else 0xc2) ∷ []
  wire (integer z) = 0x92 ∷ 2 ∷ 0xd3 ∷ to_be_bytes 8 (i64_bits z)
  wire (float w) = 0x92 ∷ 3 ∷ 0xcb ∷ to_be_bytes 8 w
  wire (string s) = 0x92 ∷ 4 ∷ wire_text s
  wire (bytes bs) = 0x92 ∷ 5 ∷ 0xc6 ∷ (to_be_bytes 4 (length bs) ++ bs)
  wire (array vs) = 0x92 ∷ 6 ∷ 0xdd ∷ (to_be_bytes 4 (len_items vs) ++ wire_items vs)
  wire (map fs) = 0x92 ∷ 7 ∷ 0xdd ∷ (to_be_bytes 4 (len_fields fs) ++ wire_fields fs)
  wire (handle h) =
      0x92
      ∷ 8
      ∷ 0x93
      ∷ 0xcf
      ∷ (to_be_bytes 8 h.object_id ++ 0xcf ∷ (to_be_bytes 8 h.generation ++ wire_text h.type_name))
  wire (error x) = 0x92 ∷ 9 ∷ wire_text (wire_code x.code)

  pub wire_items : Items → List ℕ
  wire_items no_items = []
  wire_items (item v vs) = wire v ++ wire_items vs

  pub wire_fields : Fields → List ℕ
  wire_fields no_fields = []
  wire_fields (field k v fs) = 0x92 ∷ (wire_text k ++ (wire v ++ wire_fields fs))

-- The bytes of strings, byte sequences and keys: what the content budget counts.
unfoldable mutual
  pub content : Value → ℕ
  content (string s) = length s
  content (bytes bs) = length bs
  content (array vs) = content_items vs
  content (map fs) = content_fields fs
  content _ = 0

  pub content_items : Items → ℕ
  content_items no_items = 0
  content_items (item v vs) = content v + content_items vs

  pub content_fields : Fields → ℕ
  content_fields no_fields = 0
  content_fields (field k v fs) = length k + (content v + content_fields fs)

-- The values in a tree: what the value budget counts.
unfoldable mutual
  pub nodes : Value → ℕ
  nodes (array vs) = 1 + nodes_items vs
  nodes (map fs) = 1 + nodes_fields fs
  nodes _ = 1

  pub nodes_items : Items → ℕ
  nodes_items no_items = 0
  nodes_items (item v vs) = nodes v + nodes_items vs

  pub nodes_fields : Fields → ℕ
  nodes_fields no_fields = 0
  nodes_fields (field k v fs) = nodes v + nodes_fields fs

-- What `HandleValue::new` accepts.
abbrev pub ValidHandle : HandleValue → Type 0
ValidHandle h =
    (0 < h.object_id)
    × (h.object_id ≤ i64_max)
    × (0 < h.generation)
    × (h.generation ≤ i64_max)
    × (is_valid_type_name h.type_name ≡ true)
    × (length h.type_name ≤ 128)

-- The limits on a value that stands `depth` levels deep, but for the two budgets.
unfoldable mutual
  pub Valid : ℕ → Value → Type 0
  Valid depth null = depth ≤ max_depth
  Valid depth (bool b) = depth ≤ max_depth
  Valid depth (integer z) = depth ≤ max_depth
  Valid depth (float w) = (depth ≤ max_depth) × (is_finite w ≡ true)
  Valid depth (string s) = (depth ≤ max_depth) × (length s ≤ max_string_bytes)
  Valid depth (bytes bs) = (depth ≤ max_depth) × (length bs ≤ max_byte_bytes)
  Valid depth (array vs) =
      (depth ≤ max_depth) × (len_items vs ≤ max_container_entries) × ValidItems (depth + 1) vs
  Valid depth (map fs) =
      (depth ≤ max_depth) × (len_fields fs ≤ max_container_entries) × ValidFields (depth + 1) [] fs
  Valid depth (handle h) = (depth ≤ max_depth) × ValidHandle h
  Valid depth (error x) = depth ≤ max_depth

  pub ValidItems : ℕ → Items → Type 0
  ValidItems depth no_items = Unit {0}
  ValidItems depth (item v vs) = Valid depth v × ValidItems depth vs

  -- No key is among those before it.
  pub ValidFields : ℕ → List Text → Fields → Type 0
  ValidFields depth keys no_fields = Unit {0}
  ValidFields depth keys (field k v fs) =
      All (λ j. j ≢ k) keys
      × (length k ≤ max_string_bytes)
      × Valid depth v
      × ValidFields depth (k ∷ keys) fs

-- Every value of the Rust type is so: strings are UTF-8, words are in range.
unfoldable mutual
  pub WellTyped : Value → Type 0
  WellTyped null = Unit {0}
  WellTyped (bool b) = Unit {0}
  WellTyped (integer z) = IsI64 z
  WellTyped (float w) = IsU64 w
  WellTyped (string s) = All IsByte s × (is_utf8 s ≡ true)
  WellTyped (bytes bs) = All IsByte bs
  WellTyped (array vs) = WellTypedItems vs
  WellTyped (map fs) = WellTypedFields fs
  WellTyped (handle h) =
      IsU64 h.object_id × IsU64 h.generation × All IsByte h.type_name × (is_utf8 h.type_name ≡ true)
  WellTyped (error x) = Unit {0}

  pub WellTypedItems : Items → Type 0
  WellTypedItems no_items = Unit {0}
  WellTypedItems (item v vs) = WellTyped v × WellTypedItems vs

  pub WellTypedFields : Fields → Type 0
  WellTypedFields no_fields = Unit {0}
  WellTypedFields (field k v fs) =
      All IsByte k × (is_utf8 k ≡ true) × WellTyped v × WellTypedFields fs

-- What may be encoded: the limits at every depth, and both budgets.
abbrev pub Encodable : Value → Type 0
Encodable v = Valid 0 v × (content v ≤ max_total_content_bytes) × (nodes v ≤ max_total_values)
