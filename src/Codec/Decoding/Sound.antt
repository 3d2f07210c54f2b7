-- ===== src/Codec/Decoding/Sound.antt =====
-- Whatever the decoder accepts is the canonical form of a valid value within budget.
use Prim.Native.Nat.add
use mathlib.Core.Path.{subst, subst₂}
use aura_rust_runtime_host.Base.{
  ℕ, zero, suc, ◌+◌, ◌≤◌, ◌≡◌, ◌∙◌, refl, sym, ap, true, false, Bool, List, [], ◌∷◌, ok, length,
  arith, ◌==◌, ==_iff, if◌then◌else◌, All, inl, inr, Bool-cases, contains, contains_none,
}
use aura_rust_runtime_host.Codec.Utf8.{is_utf8}
use aura_rust_runtime_host.Codec.Bytes.{IsByte, to_be_bytes}
use aura_rust_runtime_host.Codec.Values.{
  Text, Value, Items, Fields, array, map, no_items, item, no_fields, field, len_items, len_fields,
  max_depth, max_string_bytes, max_container_entries,
}
use aura_rust_runtime_host.Codec.Decoder.{
  Decoder, D, byte, expect, begin_value, decode_value, decode_body, decode_items, decode_fields,
  read_content_string, container_length, pure, malformed, ◌>>=◌,
}
use aura_rust_runtime_host.Codec.Format.{
  wire, wire_items, wire_fields, wire_text, content, content_items, content_fields, nodes,
  nodes_items, nodes_fields, Valid, ValidItems, ValidFields, WellTyped, WellTypedItems,
  WellTypedFields,
}
use aura_rust_runtime_host.Codec.Decoding.Inversion.{
  Clean, Took, Took-trans, Took-eq, resume-eq-ok, byte-inv, expect-inv, read_content_string-inv,
  container_length-inv,
}
use aura_rust_runtime_host.Codec.Decoding.Leaves.{
  ReadValue, ReadBody, pure-eq_ok, null-ReadBody, bool-ReadBody, integer-ReadBody, float-ReadBody,
  string-ReadBody, bytes-ReadBody, handle-ReadBody, error-ReadBody,
}

-- What a read of one value one level down says, at every state.
abbrev ReadsAt : ℕ → D Value → Type 0
ReadsAt depth read =
    (d d' : Decoder) (v : Value) → Clean d → read d ≡ ok (v, d') → ReadValue depth d v d'

record ReadItems (depth rounds : ℕ) (d : Decoder) (vs : Items) (d' : Decoder) : Type 0 where
  valid : ValidItems depth vs
  typed : WellTypedItems vs
  counted : len_items vs ≡ rounds
  took : Took d d' (wire_items vs) (content_items vs) (nodes_items vs)
  clean : Clean d'

record ReadFields (depth : ℕ) (keys : List Text) (rounds : ℕ) (d : Decoder) (fs : Fields)
    (d' : Decoder) : Type 0 where
  valid : ValidFields depth keys fs
  typed : WellTypedFields fs
  counted : len_fields fs ≡ rounds
  took : Took d d' (wire_fields fs) (content_fields fs) (nodes_fields fs)
  clean : Clean d'

ReadItems-none : (depth : ℕ) (d : Decoder) → Clean d → ReadItems depth 0 d no_items d
unfolding Valid WellTyped wire content nodes
ReadItems-none depth d cl = record {
  valid = tt;
  typed = tt;
  counted = refl;
  took = record { took_rest = refl; took_content = omega arith; took_values = omega arith };
  clean = cl;
}

ReadItems-item :
    (depth rounds : ℕ) (d e f : Decoder) (v : Value) (vs : Items)
    → ReadValue depth d v e
    → ReadItems depth rounds e vs f
    → ReadItems depth (suc rounds) d (item v vs) f
unfolding Valid WellTyped wire content nodes
ReadItems-item depth rounds d e f v vs a b = record {
  valid = (a.valid, b.valid);
  typed = (a.typed, b.typed);
  counted = ap suc b.counted;
  took = Took-trans a.took b.took;
  clean = b.clean;
}

decode_items-ReadItems :
    (depth : ℕ) (read : D Value)
    → ReadsAt depth read
    → (rounds : ℕ) (d d' : Decoder) (vs : Items) → Clean d
    → decode_items read rounds d ≡ ok (vs, d')
    → ReadItems depth rounds d vs d'
unfolding decode_items
decode_items-ReadItems depth read reads zero d d' vs clean h =
    let (same, state) = pure-eq_ok h in
    subst₂ (λ x s. ReadItems depth 0 d x s) same state (ReadItems-none depth d clean)
decode_items-ReadItems depth read reads (suc rounds) d d' vs clean h =
    let (v, e, p, k) = resume-eq-ok (read d) _ h in
    let (ws, f, q, l) = resume-eq-ok (decode_items read rounds e) _ k in
    let first = reads d e v clean p in
    let others = decode_items-ReadItems depth read reads rounds e f ws first.clean q in
    let (same, state) = pure-eq_ok l in
    subst₂ (λ x s. ReadItems depth (suc rounds) d x s) same state
      (ReadItems-item depth rounds d e f v ws first others)

ReadFields-none :
    (depth : ℕ) (keys : List Text) (d : Decoder) → Clean d → ReadFields depth keys 0 d no_fields d
unfolding Valid WellTyped wire content nodes
ReadFields-none depth keys d cl = record {
  valid = tt;
  typed = tt;
  counted = refl;
  took = record { took_rest = refl; took_content = omega arith; took_values = omega arith };
  clean = cl;
}

ReadFields-field :
    (depth : ℕ) (keys : List Text) (rounds : ℕ) (d e f g : Decoder) (k : Text) (v : Value)
    (fs : Fields)
    → contains keys k ≡ false
    → length k ≤ max_string_bytes
    → All IsByte k
    → is_utf8 k ≡ true
    → Took d e (0x92 ∷ wire_text k) (length k) 0
    → ReadValue depth e v f
    → ReadFields depth (k ∷ keys) rounds f fs g
    → ReadFields depth keys (suc rounds) d (field k v fs) g
unfolding Valid WellTyped wire content nodes
ReadFields-field depth keys rounds d e f g k v fs new short all utf8 key a b = record {
  valid = (contains_none keys k new, short, a.valid, b.valid);
  typed = (all, utf8, a.typed, b.typed);
  counted = ap suc b.counted;
  took = Took-eq refl refl (add.zero _) (Took-trans key (Took-trans a.took b.took));
  clean = b.clean;
}

refused_rest :
    {A : Type 0} (b : Bool) (m : D A) {d : Decoder} {r : A × Decoder}
    → (if b then malformed else m) d ≡ ok r
    → (b ≡ false) × (m d ≡ ok r)
refused_rest true m h = cc
refused_rest false m h = (refl, h)

decode_fields-ReadFields :
    (depth : ℕ) (read : D Value)
    → ReadsAt depth read
    → (keys : List Text) (rounds : ℕ) (d d' : Decoder) (fs : Fields) → Clean d
    → decode_fields read keys rounds d ≡ ok (fs, d')
    → ReadFields depth keys rounds d fs d'
unfolding decode_fields
decode_fields-ReadFields depth read reads keys zero d d' fs clean h =
    let (same, state) = pure-eq_ok h in
    subst₂ (λ x s. ReadFields depth keys 0 d x s) same state (ReadFields-none depth keys d clean)
decode_fields-ReadFields depth read reads keys (suc rounds) d d' fs clean h =
    let (u, e, p, k) = resume-eq-ok (expect 0x92 d) _ h in
    let (key, f, q, l) = resume-eq-ok (read_content_string max_string_bytes e) _ k in
    let (new, m) = refused_rest (contains keys key) _ l in
    let (v, g, r, n) = resume-eq-ok (read f) _ m in
    let (gs, j, o, w) = resume-eq-ok (decode_fields read (key ∷ keys) rounds g) _ n in
    let (t, clean1) = expect-inv d e clean 0x92 u p in
    let (t1, clean2, short, a, utf8) = read_content_string-inv e f max_string_bytes key clean1 q in
    let first = reads f g v clean2 r in
    let others =
      decode_fields-ReadFields depth read reads (key ∷ keys) rounds g j gs first.clean o in
    let (same, state) = pure-eq_ok w in
    subst₂ (λ x s. ReadFields depth keys (suc rounds) d x s) same state
      (ReadFields-field depth keys rounds d f g j key v gs new short a utf8
        (Took-eq refl (omega arith) (omega arith) (Took-trans t t1)) first others)

array_of :
    (depth : ℕ) (shallow : depth ≤ max_depth) (d e f : Decoder) (len : ℕ) (vs : Items)
    → Took d e (0xdd ∷ to_be_bytes 4 len) 0 0
    → len ≤ max_container_entries
    → ReadItems (depth + 1) len e vs f
    → ReadBody depth 6 d (array vs) f
unfolding Valid WellTyped wire content nodes
array_of depth shallow d e f len vs t within items = record {
  valid = (shallow, rw items.counted within, items.valid);
  typed = items.typed;
  rest = rw items.counted (ap (λ w. 0x92 ∷ 6 ∷ w) (Took-trans t items.took).took_rest);
  counted = omega (arith, t.took_content, items.took.took_content);
  numbered = omega (arith, t.took_values, items.took.took_values);
  clean = items.clean;
}

map_of :
    (depth : ℕ) (shallow : depth ≤ max_depth) (d e f : Decoder) (len : ℕ) (fs : Fields)
    → Took d e (0xdd ∷ to_be_bytes 4 len) 0 0
    → len ≤ max_container_entries
    → ReadFields (depth + 1) [] len e fs f
    → ReadBody depth 7 d (map fs) f
unfolding Valid WellTyped wire content nodes
map_of depth shallow d e f len fs t within fields = record {
  valid = (shallow, rw fields.counted within, fields.valid);
  typed = fields.typed;
  rest = rw fields.counted (ap (λ w. 0x92 ∷ 7 ∷ w) (Took-trans t fields.took).took_rest);
  counted = omega (arith, t.took_content, fields.took.took_content);
  numbered = omega (arith, t.took_values, fields.took.took_values);
  clean = fields.clean;
}

module _ (depth : ℕ) (shallow : depth ≤ max_depth) (d d' : Decoder) (v : Value) (clean : Clean d)
    (read : D Value) (reads : ReadsAt (depth + 1) read) where
  array-ReadBody :
      (container_length >>= λ len. decode_items read len >>= λ vs. pure (array vs)) d ≡ ok (v, d')
      → ReadBody depth 6 d v d'
  array-ReadBody h =
      let (len, e, p, k) = resume-eq-ok (container_length d) _ h in
      let (vs, f, q, l) = resume-eq-ok (decode_items read len e) _ k in
      let (t, clean1, within) = container_length-inv d e len clean p in
      let items = decode_items-ReadItems (depth + 1) read reads len e f vs clean1 q in
      let (same, state) = pure-eq_ok l in
      subst₂ (λ x s. ReadBody depth 6 d x s) same state
        (array_of depth shallow d e f len vs t within items)

  map-ReadBody :
      (container_length >>= λ len. decode_fields read [] len >>= λ fs. pure (map fs)) d ≡ ok (v, d')
      → ReadBody depth 7 d v d'
  map-ReadBody h =
      let (len, e, p, k) = resume-eq-ok (container_length d) _ h in
      let (fs, f, q, l) = resume-eq-ok (decode_fields read [] len e) _ k in
      let (t, clean1, within) = container_length-inv d e len clean p in
      let fields = decode_fields-ReadFields (depth + 1) read reads [] len e f fs clean1 q in
      let (same, state) = pure-eq_ok l in
      subst₂ (λ x s. ReadBody depth 7 d x s) same state
        (map_of depth shallow d e f len fs t within fields)

  dispatch :
      (t k : ℕ) (m other : D Value)
      → (m d ≡ ok (v, d') → ReadBody depth k d v d')
      → (other d ≡ ok (v, d') → ReadBody depth t d v d')
      → (if t == k then m else other) d ≡ ok (v, d')
      → ReadBody depth t d v d'
  dispatch t k m other hit miss h = elim (Bool-cases (t == k)) [
    | inl e ↦ subst (λ x. ReadBody depth x d v d') (sym ((==_iff t k).0 e)) (hit (rw e at h))
    | inr e ↦ miss (rw e at h)
  ]

  decode_body-ReadBody : (t : ℕ) → decode_body read t d ≡ ok (v, d') → ReadBody depth t d v d'
  unfolding decode_body
  decode_body-ReadBody t = dispatch t 0 _ _ (null-ReadBody depth shallow d d' v clean) (
      dispatch t 1 _ _ (bool-ReadBody depth shallow d d' v clean) (
        dispatch t 2 _ _ (integer-ReadBody depth shallow d d' v clean) (
          dispatch t 3 _ _ (float-ReadBody depth shallow d d' v clean) (
            dispatch t 4 _ _ (string-ReadBody depth shallow d d' v clean) (
              dispatch t 5 _ _ (bytes-ReadBody depth shallow d d' v clean) (
                dispatch t 6 _ _ array-ReadBody (
                  dispatch t 7 _ _ map-ReadBody (
                    dispatch t 8 _ _ (handle-ReadBody depth shallow d d' v clean) (
                      dispatch t 9 _ _ (error-ReadBody depth shallow d d' v clean)
                        (λ h. cc))))))))))

begin_value-inv :
    (d d' : Decoder) (x : Unit {0})
    → Clean d
    → begin_value d ≡ ok (x, d')
    → Took d d' (0x92 ∷ []) 0 1 × Clean d'
unfolding begin_value expect byte
begin_value-inv d d' x clean h = ground arith

-- A body behind its header is a value.
value_of :
    (depth t : ℕ) (d e f d' : Decoder) (v : Value)
    → Took d e (0x92 ∷ []) 0 1
    → Took e f (t ∷ []) 0 0
    → ReadBody depth t f v d'
    → ReadValue depth d v d'
value_of depth t d e f d' v p q b = record {
  valid = b.valid;
  typed = b.typed;
  took = record {
    took_rest = p.took_rest ∙ ap (λ r. 0x92 ∷ r) q.took_rest ∙ b.rest;
    took_content = omega (arith, p.took_content, q.took_content, b.counted);
    took_values = omega (arith, p.took_values, q.took_values, b.numbered);
  };
  clean = b.clean;
}

-- With as many levels left as its depth leaves, a read that succeeds is a read of that value.
pub decode_value-ReadsAt :
    (levels depth : ℕ) → levels + depth ≡ suc max_depth → ReadsAt depth (decode_value levels)
unfolding decode_value
decode_value-ReadsAt zero depth l d d' v clean h = cc
decode_value-ReadsAt (suc levels) depth l d d' v clean h =
    let (u, e, p, k) = resume-eq-ok (begin_value d) _ h in
    let (t, f, q, m) = resume-eq-ok (byte e) _ k in
    let (header, clean1) = begin_value-inv d e u clean p in
    let (tag, clean2) = byte-inv e f clean1 t q in
    value_of depth t d e f d' v header tag (
      decode_body-ReadBody depth (omega arith) f d' v clean2 (decode_value levels)
        (decode_value-ReadsAt levels (depth + 1) (omega arith)) t m)
