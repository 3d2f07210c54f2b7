-- ===== src/Codec/Decoding/Leaves.antt =====
-- The values without children: what a successful read behind their tag says.
use mathlib.Core.Path.{subst₂}
use aura_rust_runtime_host.Base.{
  ℕ, ◌+◌, ◌≤◌, ◌≡◌, ◌∙◌, refl, sym, ap, true, false, not, Bool, List, [], ◌∷◌, ◌++◌, append_assoc,
  append-nil, ok, err, Result, arith, ◌==◌, ==_iff, if◌then◌else◌, inl, inr, Bool-cases, Option,
  some, none,
}
use aura_rust_runtime_host.Codec.Bytes.{
  to_be_bytes, from_be_bytes, i64_from_bits, i64_bits-i64_from_bits,
}
use aura_rust_runtime_host.Codec.Errors.{Error, Error_new, from_wire_code, from_wire_code_sound}
use aura_rust_runtime_host.Codec.Handles.{HandleValue_new-ValidHandle}
use aura_rust_runtime_host.Codec.Values.{
  Value, null, bool, integer, float, string, bytes, handle, error, HandleValue_new, max_depth,
  max_string_bytes, max_byte_bytes, is_finite,
}
use aura_rust_runtime_host.Codec.Decoder.{
  Decoder, byte, expect, take_bytes, read_length, read_uint64, add_content, decode_bool,
  decode_integer, decode_float, decode_bytes, decode_handle, decode_error, read_content_string,
  metadata_string, pure, malformed, ◌>>=◌, ◌>>◌, some_or_malformed, ok_or_malformed,
}
use aura_rust_runtime_host.Codec.Format.{wire, wire_text, content, nodes, Valid, WellTyped}
use aura_rust_runtime_host.Codec.Decoding.Inversion.{
  Clean, Took, Took-trans, Took-eq, resume-eq-ok, byte-inv, expect-inv, take_bytes-inv,
  read_word-inv, read_length-inv, read_uint64-inv, add_content-inv, read_content_string-inv,
  metadata_string-inv, refuse_if-eq_ok,
}

not-eq_false : {b : Bool} → not b ≡ false → b ≡ true
not-eq_false {b} h = ground arith

-- `v` was read from `d`, at `depth`, and `d'` is the state behind it.
pub record ReadValue (depth : ℕ) (d : Decoder) (v : Value) (d' : Decoder) : Type 0 where
  pub valid : Valid depth v
  pub typed : WellTyped v
  pub took : Took d d' (wire v) (content v) (nodes v)
  pub clean : Clean d'

-- The same, from behind the tag `t`.
pub record ReadBody (depth t : ℕ) (d : Decoder) (v : Value) (d' : Decoder) : Type 0 where
  pub valid : Valid depth v
  pub typed : WellTyped v
  pub rest : 0x92 ∷ t ∷ d.rest ≡ wire v ++ d'.rest
  pub counted : d'.content_bytes ≡ d.content_bytes + content v
  pub numbered : d'.values + 1 ≡ d.values + nodes v
  pub clean : Clean d'

-- Behind the tag a value without children took `bs` and added `c` to the content.
leaf :
    (depth t : ℕ) (d d' : Decoder) (v : Value) {bs : List ℕ} {c : ℕ}
    → Valid depth v
    → WellTyped v
    → Took d d' bs c 0
    → Clean d'
    → 0x92 ∷ t ∷ bs ≡ wire v
    → c ≡ content v
    → nodes v ≡ 1
    → ReadBody depth t d v d'
leaf depth t d d' v {bs} {c} a w k cl p q r = record {
  valid = a;
  typed = w;
  rest = ap (λ x. 0x92 ∷ t ∷ x) k.took_rest ∙ ap (λ x. x ++ d'.rest) p;
  counted = omega (arith, k.took_content);
  numbered = omega (arith, k.took_values);
  clean = cl;
}

bool_of :
    (b : ℕ) {v : Value} {e d' : Decoder}
    → (if b == 0xc2 then pure (bool false) else if b == 0xc3 then pure (bool true) else malformed) e
      ≡ ok (v, d')
    → (x : Bool) × (b ≡ (if x then 0xc3 else 0xc2)) × (bool x ≡ v) × (e ≡ d')
bool_of b h = elim (Bool-cases (b == 0xc2)) [
  | inl p ↦ let h1 = rw p at h in (false, (==_iff b 0xc2).0 p, cc, cc)
  | inr n ↦ elim (Bool-cases (b == 0xc3)) [
    | inl p ↦ let h1 = rw (n, p) at h in (true, (==_iff b 0xc3).0 p, cc, cc)
    | inr m ↦ let h1 = rw (n, m) at h in cc
  ]
]

pub pure-eq_ok :
    {A : Type 0} {a b : A} {d d' : Decoder} → pure a d ≡ ok (b, d') → (a ≡ b) × (d ≡ d')
pure-eq_ok h = (cc, cc)

some_or_malformed-eq_ok :
    {A : Type 0} (o : Option A) {a : A} {d d' : Decoder}
    → some_or_malformed o d ≡ ok (a, d')
    → (o ≡ some a) × (d ≡ d')
some_or_malformed-eq_ok (some a) h = (cc, cc)
some_or_malformed-eq_ok none h = cc

ok_or_malformed-eq_ok :
    {A : Type 0} (r : Result Error A) {a : A} {d d' : Decoder}
    → ok_or_malformed r d ≡ ok (a, d')
    → (r ≡ ok a) × (d ≡ d')
ok_or_malformed-eq_ok (ok a) h = (cc, cc)
ok_or_malformed-eq_ok (err e) h = cc

module _ (depth : ℕ) (shallow : depth ≤ max_depth) (d d' : Decoder) (v : Value)
    (clean : Clean d) where
  pub bool-ReadBody : decode_bool d ≡ ok (v, d') → ReadBody depth 1 d v d'
  unfolding decode_bool
  bool-ReadBody h =
      let (b, e, p, k) = resume-eq-ok (byte d) _ h in
      let (t, after) = byte-inv d e clean b p in
      let (x, spelled, same, state) = bool_of b k in
      subst₂ (λ y s. ReadBody depth 1 d y s) same state
        (leaf depth 1 d e (bool x) (unfold Valid in shallow) (unfold WellTyped in tt) t after
          (unfold wire in ap (λ w. 0x92 ∷ 1 ∷ w ∷ []) spelled) (unfold content in refl)
          (unfold nodes in refl))

  pub null-ReadBody : (expect 0xc0 >> pure null) d ≡ ok (v, d') → ReadBody depth 0 d v d'
  null-ReadBody h =
      let (u, e, p, k) = resume-eq-ok (expect 0xc0 d) _ h in
      let (t, after) = expect-inv d e clean 0xc0 u p in
      subst₂ (λ y s. ReadBody depth 0 d y s) (cc) (cc)
        (leaf depth 0 d e null (unfold Valid in shallow) (unfold WellTyped in tt) t after
          (unfold wire in refl) (unfold content in refl) (unfold nodes in refl))

  pub integer-ReadBody : decode_integer d ≡ ok (v, d') → ReadBody depth 2 d v d'
  unfolding decode_integer
  integer-ReadBody h =
      let (u, e, p, k) = resume-eq-ok (expect 0xd3 d) _ h in
      let (bs, f, q, l) = resume-eq-ok (take_bytes 8 e) _ k in
      let (t, after) = expect-inv d e clean 0xd3 u p in
      let (t1, after1, lt) = read_word-inv e f 8 bs after q in
      let (same, ranged) = i64_bits-i64_from_bits (from_be_bytes 0 bs) lt in
      subst₂ (λ x s. ReadBody depth 2 d x s) (cc) (cc)
        (leaf depth 2 d f (integer (i64_from_bits (from_be_bytes 0 bs))) (unfold Valid in shallow)
          (unfold WellTyped in ranged) (Took-trans t t1) after1
          (unfold wire in ap (λ w. 0x92 ∷ 2 ∷ 0xd3 ∷ to_be_bytes 8 w) (sym same))
          (unfold content in refl) (unfold nodes in refl))

  pub float-ReadBody : decode_float d ≡ ok (v, d') → ReadBody depth 3 d v d'
  unfolding decode_float
  float-ReadBody h =
      let (u, e, p, k) = resume-eq-ok (expect 0xcb d) _ h in
      let (bs, f, q, l) = resume-eq-ok (take_bytes 8 e) _ k in
      let (t, after) = expect-inv d e clean 0xcb u p in
      let (t1, after1, lt) = read_word-inv e f 8 bs after q in
      let bits = from_be_bytes 0 bs in
      let (finite, same, state) = refuse_if-eq_ok (not (is_finite bits)) (float bits) l in
      subst₂ (λ x s. ReadBody depth 3 d x s) same state
        (leaf depth 3 d f (float bits) (unfold Valid in (shallow, not-eq_false finite))
          (unfold WellTyped in lt) (Took-trans t t1) after1 (unfold wire in refl)
          (unfold content in refl) (unfold nodes in refl))

  pub string-ReadBody :
      (read_content_string max_string_bytes >>= λ s. pure (string s)) d ≡ ok (v, d')
      → ReadBody depth 4 d v d'
  string-ReadBody h =
      let (s, e, p, k) = resume-eq-ok (read_content_string max_string_bytes d) _ h in
      let (t, after, l, a, u) = read_content_string-inv d e max_string_bytes s clean p in
      subst₂ (λ x s. ReadBody depth 4 d x s) (cc) (cc)
        (leaf depth 4 d e (string s) (unfold Valid in (shallow, l)) (unfold WellTyped in (a, u)) t
          after (unfold wire in refl) (unfold content in refl) (unfold nodes in refl))

  pub bytes-ReadBody : decode_bytes d ≡ ok (v, d') → ReadBody depth 5 d v d'
  unfolding decode_bytes
  bytes-ReadBody h =
      let (u, e, p, k) = resume-eq-ok (expect 0xc6 d) _ h in
      let (len, f, q, l) = resume-eq-ok (read_length e) _ k in
      let (u', g, r, m) = resume-eq-ok (add_content len max_byte_bytes f) _ l in
      let (bs, j, o, n) = resume-eq-ok (take_bytes len g) _ m in
      let (t, after) = expect-inv d e clean 0xc6 u p in
      let (t1, after1, lt) = read_length-inv e f len after q in
      let (t2, after2, le) = add_content-inv f g len max_byte_bytes u' after1 r in
      let (t3, after3, same, a) = take_bytes-inv g j after2 len bs o in
      let taken = Took-trans (Took-trans (Took-trans t t1) t2) t3 in
      subst₂ (λ x s. ReadBody depth 5 d x s) (cc) (cc)
        (leaf depth 5 d j (bytes bs) (unfold Valid in (shallow, rw same le)) (unfold WellTyped in a)
          (Took-eq refl refl (omega arith) taken) after3
          (unfold wire in rw (same, append-nil (to_be_bytes 4 len))) (unfold content in omega arith)
          (unfold nodes in refl))

  pub error-ReadBody : decode_error d ≡ ok (v, d') → ReadBody depth 9 d v d'
  unfolding decode_error
  error-ReadBody h =
      let (s, e, p, k) = resume-eq-ok (metadata_string 128 d) _ h in
      let (code, f, q, l) = resume-eq-ok (some_or_malformed (from_wire_code s) e) _ k in
      let (t, after, lt, a, u) = metadata_string-inv d e 128 s clean p in
      let (known, state) = some_or_malformed-eq_ok (from_wire_code s) q in
      let spelled = from_wire_code_sound s code known in
      subst₂ (λ x s. ReadBody depth 9 d x s) (cc) (state ∙ cc)
        (leaf depth 9 d e (error (Error_new code)) (unfold Valid in shallow)
          (unfold WellTyped in tt) t after (unfold wire in ap (λ w. 0x92 ∷ 9 ∷ wire_text w) spelled)
          (unfold content in refl) (unfold nodes in refl))

  pub handle-ReadBody : decode_handle d ≡ ok (v, d') → ReadBody depth 8 d v d'
  unfolding decode_handle
  handle-ReadBody h =
      let (u, e, p, k) = resume-eq-ok (expect 0x93 d) _ h in
      let (object_id, f, q, l) = resume-eq-ok (read_uint64 e) _ k in
      let (generation, g, r, m) = resume-eq-ok (read_uint64 f) _ l in
      let (type_name, j, o, n) = resume-eq-ok (metadata_string 128 g) _ m in
      let (x, y, w, z) =
        resume-eq-ok (ok_or_malformed (HandleValue_new object_id generation type_name) j) _ n in
      let (t, after) = expect-inv d e clean 0x93 u p in
      let (t1, after1, lt1) = read_uint64-inv e f object_id after q in
      let (t2, after2, lt2) = read_uint64-inv f g generation after1 r in
      let (t3, after3, lt3, a, utf8) = metadata_string-inv g j 128 type_name after2 o in
      let (made, state) =
        ok_or_malformed-eq_ok (HandleValue_new object_id generation type_name) w in
      let (ok_handle, i1, i2, i3) =
        HandleValue_new-ValidHandle object_id generation type_name x made in
      let (same, state1) = pure-eq_ok z in
      let taken = Took-trans (Took-trans (Took-trans t t1) t2) t3 in
      subst₂ (λ x s. ReadBody depth 8 d x s) same (state ∙ state1)
        (leaf depth 8 d j (handle x) (unfold Valid in (shallow, ok_handle))
          (unfold WellTyped in (rw i1 lt1, rw i2 lt2, rw i3 a, rw i3 utf8)) taken after3
          (unfold wire in
            rw (i1, i2, i3)
              (ap (λ w. 0x92 ∷ 8 ∷ 0x93 ∷ 0xcf ∷ w)
                (append_assoc (to_be_bytes 8 object_id) (0xcf ∷ to_be_bytes 8 generation)
                  (wire_text type_name))))
          (unfold content in omega arith) (unfold nodes in refl))
