-- ===== src/Codec/Decoding/Complete.antt =====
-- The decoder reads the canonical form of every valid value that fits its budgets.
use aura_rust_runtime_host.Base.{
  ℕ, zero, suc, ◌+◌, ◌≤◌, ◌≡◌, ◌∙◌, refl, true, false, Bool, List, [], ◌∷◌, ◌++◌, append_assoc, ok,
  length, Result, arith, leb, if◌then◌else◌, contains-eq_false,
}
use aura_rust_runtime_host.Base.Int.{ℤ}
use aura_rust_runtime_host.Codec.Bytes.{
  to_be_bytes, length-to_be_bytes, from_be_bytes-to_be_bytes, i64_bits, i64_from_bits-i64_bits,
  i64_bits-IsU64, IsI64, IsU64,
}
use aura_rust_runtime_host.Codec.Errors.{
  Error, wire_code, BridgeErrorKind, invalid_argument, from_wire_code-wire_code,
}
use aura_rust_runtime_host.Codec.Utf8.{is_utf8}
use aura_rust_runtime_host.Codec.Handles.{HandleValue_new-eq_ok, length-wire_code}
use aura_rust_runtime_host.Codec.Values.{
  Text, Value, Items, Fields, null, bool, integer, float, string, bytes, array, map, handle, error,
  no_items, item, no_fields, field, HandleValue, len_items, len_fields, max_total_content_bytes,
  max_depth, max_string_bytes, max_byte_bytes, max_total_values, is_finite,
}
use aura_rust_runtime_host.Codec.Decoder.{
  Decoder, byte, begin_value, decode_value, decode_body, decode_items, decode_fields, decode_bool,
  decode_integer, decode_float, decode_bytes, decode_handle, decode_error, D,
}
use aura_rust_runtime_host.Codec.Format.{
  wire, wire_items, wire_fields, wire_text, content, content_items, content_fields, nodes,
  nodes_items, nodes_fields, Valid, ValidItems, ValidFields, ValidHandle, WellTyped, WellTypedItems,
  WellTypedFields,
}
use aura_rust_runtime_host.Codec.Decoding.Reads.{
  at, expect-hit, take_bytes-append, read_length-append, read_uint64-append, add_content-ok,
  read_content_string-append, metadata_string-append, container_length-append,
}

at-eq :
    {A : Type 0} (a : A) (rest : List ℕ) {c c' n n' : ℕ}
    → c ≡ c'
    → n ≡ n'
    → ◌≡◌ {A = Result Error (A × Decoder)} (ok (a, at rest c n)) (ok (a, at rest c' n'))
at-eq a rest p q = λ i. ok (a, at rest (p i) (q i))

-- The guard and the two header bytes of a value.
decode_value-header :
    (levels t : ℕ) (body : List ℕ) (c n : ℕ)
    → n + 1 ≤ max_total_values
    → decode_value (suc levels) (at (0x92 ∷ t ∷ body) c n)
      ≡ decode_body (decode_value levels) t (at body c (n + 1))
unfolding decode_value begin_value byte
decode_value-header levels t body c n h =
    let room : leb max_total_values n ≡ false = ground arith in
    rw (room, expect-hit 0x92 (t ∷ body) c (n + 1)) refl

-- What a value's own bytes, behind its tag, decode to.
abbrev BodyAt : D Value → ℕ → List ℕ → Value → Type 0
BodyAt read t body v =
    (rest : List ℕ) (c n : ℕ)
    → c + content v ≤ max_total_content_bytes
    → decode_body read t (at (body ++ rest) c n) ≡ ok (v, at rest (c + content v) n)

wire_code-utf8 : (k : BridgeErrorKind) → is_utf8 (wire_code k) ≡ true
unfolding wire_code is_utf8
wire_code-utf8 invalid_argument = refl
wire_code-utf8 _ = refl

module _ (read : D Value) where
  null-BodyAt : BodyAt read 0 (0xc0 ∷ []) null
  unfolding decode_body content
  null-BodyAt rest c n h = rw (expect-hit 0xc0 rest c n) (at-eq null rest (omega arith) refl)

  bool-BodyAt : (b : Bool) → BodyAt read 1 ((if b then 0xc3 else 0xc2) ∷ []) (bool b)
  unfolding decode_body decode_bool byte content
  bool-BodyAt true rest c n h = at-eq (bool true) rest (omega arith) refl
  bool-BodyAt false rest c n h = at-eq (bool false) rest (omega arith) refl

  integer-BodyAt : (z : ℤ) → IsI64 z → BodyAt read 2 (0xd3 ∷ to_be_bytes 8 (i64_bits z)) (integer z)
  unfolding decode_body decode_integer content
  integer-BodyAt z w rest c n h =
      rw
        (
          expect-hit 0xd3 (to_be_bytes 8 (i64_bits z) ++ rest) c n,
          take_bytes-append (to_be_bytes 8 (i64_bits z)) rest 8 c n (length-to_be_bytes 8 _),
          from_be_bytes-to_be_bytes 8 (i64_bits z) (i64_bits-IsU64 z w),
          i64_from_bits-i64_bits z w,
        )
        (at-eq (integer z) rest (omega arith) refl)

  float-BodyAt :
      (w : ℕ) → IsU64 w → is_finite w ≡ true → BodyAt read 3 (0xcb ∷ to_be_bytes 8 w) (float w)
  unfolding decode_body decode_float content
  float-BodyAt w u f rest c n h =
      rw
        (
          expect-hit 0xcb (to_be_bytes 8 w ++ rest) c n,
          take_bytes-append (to_be_bytes 8 w) rest 8 c n (length-to_be_bytes 8 w),
          from_be_bytes-to_be_bytes 8 w u,
          f,
        )
        (at-eq (float w) rest (omega arith) refl)

  string-BodyAt :
      (s : Text)
      → length s ≤ max_string_bytes
      → is_utf8 s ≡ true
      → BodyAt read 4 (wire_text s) (string s)
  unfolding decode_body content
  string-BodyAt s l u rest c n h =
      rw (read_content_string-append max_string_bytes s rest c n l (omega arith) u h) refl

  bytes-BodyAt :
      (bs : List ℕ)
      → length bs ≤ max_byte_bytes
      → BodyAt read 5 (0xc6 ∷ (to_be_bytes 4 (length bs) ++ bs)) (bytes bs)
  unfolding decode_body decode_bytes content
  bytes-BodyAt bs l rest c n h =
      rw
        (
          expect-hit 0xc6 ((to_be_bytes 4 (length bs) ++ bs) ++ rest) c n,
          append_assoc (to_be_bytes 4 (length bs)) bs rest,
          read_length-append (length bs) (bs ++ rest) c n (omega arith),
          add_content-ok (length bs) max_byte_bytes c n (bs ++ rest) l h,
          take_bytes-append bs rest (length bs) (c + length bs) n refl,
        )
        refl

  error-BodyAt : (x : Error) → BodyAt read 9 (wire_text (wire_code x.code)) (error x)
  unfolding decode_body decode_error content
  error-BodyAt x rest c n h =
      rw
        (
          metadata_string-append 128 (wire_code x.code) rest c n (length-wire_code x.code)
              (omega (arith, length-wire_code x.code)) (wire_code-utf8 x.code),
          from_wire_code-wire_code x.code,
        )
        (at-eq (error x) rest (omega arith) refl)

  handle-BodyAt :
      (x : HandleValue)
      → WellTyped (handle x)
      → ValidHandle x
      → BodyAt read 8
          (0x93
            ∷ 0xcf
            ∷ (to_be_bytes 8 x.object_id
                ++ 0xcf ∷ (to_be_bytes 8 x.generation ++ wire_text x.type_name)))
          (handle x)
  unfolding decode_body decode_handle content WellTyped
  handle-BodyAt x w v rest c n h =
      rw
        (
          expect-hit 0x93 _ c n,
          append_assoc (to_be_bytes 8 x.object_id)
              (0xcf ∷ (to_be_bytes 8 x.generation ++ wire_text x.type_name)) rest,
          read_uint64-append x.object_id
              (0xcf ∷ (to_be_bytes 8 x.generation ++ wire_text x.type_name) ++ rest) c n w.0,
          append_assoc (to_be_bytes 8 x.generation) (wire_text x.type_name) rest,
          read_uint64-append x.generation (wire_text x.type_name ++ rest) c n w.1,
          metadata_string-append 128 x.type_name rest c n v.5 (omega arith) w.3,
          HandleValue_new-eq_ok x v,
        )
        (at-eq (handle x) rest (omega arith) refl)

mutual
  unfolding Valid WellTyped wire content nodes decode_body decode_items decode_fields

  pub decode_value_complete :
      (v : Value) (levels depth : ℕ) (rest : List ℕ) (c n : ℕ)
      → levels + depth ≡ suc max_depth
      → WellTyped v
      → Valid depth v
      → c + content v ≤ max_total_content_bytes
      → n + nodes v ≤ max_total_values
      → decode_value levels (at (wire v ++ rest) c n)
        ≡ ok (v, at rest (c + content v) (n + nodes v))
  decode_value_complete null zero depth rest c n l w v hc hn = absurd (omega arith)
  decode_value_complete null (suc levels) depth rest c n l w v hc hn =
      decode_value-header levels 0 _ c n hn ∙ null-BodyAt (decode_value levels) rest c (n + 1) hc
  decode_value_complete (bool b) zero depth rest c n l w v hc hn = absurd (omega arith)
  decode_value_complete (bool b) (suc levels) depth rest c n l w v hc hn =
      decode_value-header levels 1 _ c n hn ∙ bool-BodyAt (decode_value levels) b rest c (n + 1) hc
  decode_value_complete (integer z) zero depth rest c n l w v hc hn = absurd (omega arith)
  decode_value_complete (integer z) (suc levels) depth rest c n l w v hc hn =
      decode_value-header levels 2 _ c n hn
      ∙ integer-BodyAt (decode_value levels) z w rest c (n + 1) hc
  decode_value_complete (float x) zero depth rest c n l w v hc hn = absurd (omega arith)
  decode_value_complete (float x) (suc levels) depth rest c n l w v hc hn =
      decode_value-header levels 3 _ c n hn
      ∙ float-BodyAt (decode_value levels) x w v.1 rest c (n + 1) hc
  decode_value_complete (string s) zero depth rest c n l w v hc hn = absurd (omega arith)
  decode_value_complete (string s) (suc levels) depth rest c n l w v hc hn =
      decode_value-header levels 4 _ c n hn
      ∙ string-BodyAt (decode_value levels) s v.1 w.1 rest c (n + 1) hc
  decode_value_complete (bytes bs) zero depth rest c n l w v hc hn = absurd (omega arith)
  decode_value_complete (bytes bs) (suc levels) depth rest c n l w v hc hn =
      decode_value-header levels 5 _ c n hn
      ∙ bytes-BodyAt (decode_value levels) bs v.1 rest c (n + 1) hc
  decode_value_complete (handle x) zero depth rest c n l w v hc hn = absurd (omega arith)
  decode_value_complete (handle x) (suc levels) depth rest c n l w v hc hn =
      decode_value-header levels 8 _ c n hn
      ∙ handle-BodyAt (decode_value levels) x w v.1 rest c (n + 1) hc
  decode_value_complete (error x) zero depth rest c n l w v hc hn = absurd (omega arith)
  decode_value_complete (error x) (suc levels) depth rest c n l w v hc hn =
      decode_value-header levels 9 _ c n hn ∙ error-BodyAt (decode_value levels) x rest c (n + 1) hc
  decode_value_complete (array vs) zero depth rest c n l w v hc hn = absurd (omega arith)
  decode_value_complete (array vs) (suc levels) depth rest c n l w v hc hn =
      decode_value-header levels 6 _ c n (omega arith)
      ∙ rw
          (
            append_assoc (to_be_bytes 4 (len_items vs)) (wire_items vs) rest,
            container_length-append (len_items vs) (wire_items vs ++ rest) c (n + 1) v.1,
            decode_items_complete vs levels (depth + 1) rest c (n + 1) (omega arith) w v.2 hc
                (omega arith),
          )
          (at-eq (array vs) rest refl (omega arith))
  decode_value_complete (map fs) zero depth rest c n l w v hc hn = absurd (omega arith)
  decode_value_complete (map fs) (suc levels) depth rest c n l w v hc hn =
      decode_value-header levels 7 _ c n (omega arith)
      ∙ rw
          (
            append_assoc (to_be_bytes 4 (len_fields fs)) (wire_fields fs) rest,
            container_length-append (len_fields fs) (wire_fields fs ++ rest) c (n + 1) v.1,
            decode_fields_complete fs [] levels (depth + 1) rest c (n + 1) (omega arith) w v.2 hc
                (omega arith),
          )
          (at-eq (map fs) rest refl (omega arith))

  decode_items_complete :
      (vs : Items) (levels depth : ℕ) (rest : List ℕ) (c n : ℕ)
      → levels + depth ≡ suc max_depth
      → WellTypedItems vs
      → ValidItems depth vs
      → c + content_items vs ≤ max_total_content_bytes
      → n + nodes_items vs ≤ max_total_values
      → decode_items (decode_value levels) (len_items vs) (at (wire_items vs ++ rest) c n)
        ≡ ok (vs, at rest (c + content_items vs) (n + nodes_items vs))
  decode_items_complete no_items levels depth rest c n l w v hc hn =
      at-eq no_items rest (omega arith) (omega arith)
  decode_items_complete (item x vs) levels depth rest c n l w v hc hn =
      rw
        (
          append_assoc (wire x) (wire_items vs) rest,
          decode_value_complete x levels depth (wire_items vs ++ rest) c n l w.0 v.0 (omega arith)
              (omega arith),
          decode_items_complete vs levels depth rest (c + content x) (n + nodes x) l w.1 v.1
              (omega arith) (omega arith),
        )
        (at-eq (item x vs) rest (omega arith) (omega arith))

  decode_fields_complete :
      (fs : Fields) (keys : List Text) (levels depth : ℕ) (rest : List ℕ) (c n : ℕ)
      → levels + depth ≡ suc max_depth
      → WellTypedFields fs
      → ValidFields depth keys fs
      → c + content_fields fs ≤ max_total_content_bytes
      → n + nodes_fields fs ≤ max_total_values
      → decode_fields (decode_value levels) keys (len_fields fs) (at (wire_fields fs ++ rest) c n)
        ≡ ok (fs, at rest (c + content_fields fs) (n + nodes_fields fs))
  decode_fields_complete no_fields keys levels depth rest c n l w v hc hn =
      at-eq no_fields rest (omega arith) (omega arith)
  decode_fields_complete (field k x fs) keys levels depth rest c n l w v hc hn =
      rw
        (
          expect-hit 0x92 _ c n,
          append_assoc (to_be_bytes 4 (length k) ++ k) (wire x ++ wire_fields fs) rest,
          read_content_string-append max_string_bytes k ((wire x ++ wire_fields fs) ++ rest) c n v.1
              (omega arith) w.1 (omega arith),
          contains-eq_false keys k v.0,
          append_assoc (wire x) (wire_fields fs) rest,
          decode_value_complete x levels depth (wire_fields fs ++ rest) (c + length k) n l w.2 v.2
              (omega arith) (omega arith),
          decode_fields_complete fs (k ∷ keys) levels depth rest (c + length k + content x)
              (n + nodes x) l w.3 v.3 (omega arith) (omega arith),
        )
        (at-eq (field k x fs) rest (omega arith) (omega arith))
