-- ===== src/Codec/Decoding/Inversion.antt =====
-- What a successful read of each of the decoder's primitives says of the input.
use mathlib.Core.Path.{subst₂}
use aura_rust_runtime_host.Base.{
  ℕ, ◌+◌, ◌^◌, ◌≤◌, ◌<◌, ◌≡◌, refl, sym, true, false, Bool, List, [], ◌∷◌, ◌++◌, append_assoc,
  append-nil, ok, err, Result, length, take, drop, take-append-drop, length-take, arith, ltb,
  if◌then◌else◌, All,
}
use aura_rust_runtime_host.Codec.Bytes.{
  IsByte, to_be_bytes, from_be_bytes, to_be_bytes-from_be_bytes, from_be_bytes-lt,
}
use aura_rust_runtime_host.Codec.Errors.{Error}
use aura_rust_runtime_host.Codec.Utf8.{is_utf8}
use aura_rust_runtime_host.Codec.Values.{
  Text, max_total_content_bytes, max_total_values, max_container_entries,
}
use aura_rust_runtime_host.Codec.Decoder.{
  Decoder, D, resume, pure, malformed, byte, expect, take_bytes, read_length, read_uint64,
  add_content, string_length, read_string, read_content_string, metadata_string, container_length,
}
use aura_rust_runtime_host.Codec.Format.{wire_text}

-- What the decoder keeps: bytes are left, and the budgets are not passed.
pub record Clean (d : Decoder) : Type 0 where
  pub rest_bytes : All IsByte d.rest
  pub in_content : d.content_bytes ≤ max_total_content_bytes
  pub in_values : d.values ≤ max_total_values

-- From `d` to `d'` the bytes `bs` were read, and the counters rose.
pub record Took (d d' : Decoder) (bs : List ℕ) (c n : ℕ) : Type 0 where
  pub took_rest : d.rest ≡ bs ++ d'.rest
  pub took_content : d'.content_bytes ≡ d.content_bytes + c
  pub took_values : d'.values ≡ d.values + n

pub Took-trans :
    {d e f : Decoder} {xs ys : List ℕ} {c c' n n' : ℕ}
    → Took d e xs c n
    → Took e f ys c' n'
    → Took d f (xs ++ ys) (c + c') (n + n')
Took-trans {d} {e} {f} {xs} {ys} p q = ground (arith, append_assoc xs ys f.rest)

pub All-append_parts : (xs ys : List ℕ) → All IsByte (xs ++ ys) → All IsByte xs × All IsByte ys
All-append_parts [] ys h = (tt, h)
All-append_parts (x ∷ xs) ys h = let parts = All-append_parts xs ys h.1 in ((h.0, parts.0), parts.1)

pub resume-eq-ok :
    {A B : Type 0} (r : Result Error (A × Decoder)) (f : A → D B) {b : B} {d' : Decoder}
    → resume r f ≡ ok (b, d')
    → (a : A) × (d : Decoder) × (r ≡ ok (a, d)) × (f a d ≡ ok (b, d'))
resume-eq-ok (ok (a, d)) f h = (a, d, refl, h)
resume-eq-ok (err e) f h = cc

-- A guard in front of a result.
pub refuse_if-eq_ok :
    {A : Type 0} (b : Bool) (a : A) {x : A} {d d' : Decoder}
    → (if b then malformed else pure a) d ≡ ok (x, d')
    → (b ≡ false) × (a ≡ x) × (d ≡ d')
refuse_if-eq_ok true a h = cc
refuse_if-eq_ok false a h = (refl, cc, cc)

pub accept_if-eq_ok :
    {A : Type 0} (b : Bool) (a : A) {x : A} {d d' : Decoder}
    → (if b then pure a else malformed) d ≡ ok (x, d')
    → (b ≡ true) × (a ≡ x) × (d ≡ d')
accept_if-eq_ok true a h = (refl, cc, cc)
accept_if-eq_ok false a h = cc

module _ (d d' : Decoder) (clean : Clean d) where
  pub byte-inv : (b : ℕ) → byte d ≡ ok (b, d') → Took d d' (b ∷ []) 0 0 × Clean d'
  unfolding byte
  byte-inv b h = ground arith

  pub expect-inv :
      (b : ℕ) (x : Unit {0}) → expect b d ≡ ok (x, d') → Took d d' (b ∷ []) 0 0 × Clean d'
  unfolding expect byte
  expect-inv b x h = ground arith

  take_bytes-parts :
      (len : ℕ) (bs : List ℕ)
      → take_bytes len d ≡ ok (bs, d')
      → (len ≤ length d.rest) × (bs ≡ take len d.rest) × (d' ≡ record d { rest = drop len d.rest })
  unfolding take_bytes
  take_bytes-parts len bs h = ground arith

  pub take_bytes-inv :
      (len : ℕ) (bs : List ℕ)
      → take_bytes len d ≡ ok (bs, d')
      → Took d d' bs 0 0 × Clean d' × (length bs ≡ len) × All IsByte bs
  take_bytes-inv len bs h =
      let (l, p, q) = take_bytes-parts len bs h in
      let whole = take-append-drop len d.rest in
      let parts : All IsByte (take len d.rest) × All IsByte (drop len d.rest) =
        All-append_parts (take len d.rest) (drop len d.rest) (rw whole clean.rest_bytes) in
      rw (p, q)
        (
          record { took_rest = sym whole; took_content = omega arith; took_values = omega arith },
          record {
            rest_bytes = parts.1;
            in_content = clean.in_content;
            in_values = clean.in_values;
          },
          length-take len d.rest l,
          parts.0,
        )

-- The word that a run of bytes spells, and its bytes.
word_of :
    (k : ℕ) (bs : List ℕ)
    → length bs ≡ k
    → All IsByte bs
    → (to_be_bytes k (from_be_bytes 0 bs) ≡ bs) × (from_be_bytes 0 bs < 256 ^ k)
word_of k bs l a = (rw (← l) (to_be_bytes-from_be_bytes bs a), from_be_bytes-lt k bs a l)

pub read_word-inv :
    (d d' : Decoder) (k : ℕ) (bs : List ℕ)
    → Clean d
    → take_bytes k d ≡ ok (bs, d')
    → Took d d' (to_be_bytes k (from_be_bytes 0 bs)) 0 0 × Clean d' × (from_be_bytes 0 bs < 256 ^ k)
read_word-inv d d' k bs clean h =
    let (t, after, l, a) = take_bytes-inv d d' clean k bs h in
    let word = word_of k bs l a in (rw word.0 t, after, word.1)

pub read_length-inv :
    (d d' : Decoder) (len : ℕ)
    → Clean d
    → read_length d ≡ ok (len, d')
    → Took d d' (to_be_bytes 4 len) 0 0 × Clean d' × (len < 2 ^ 32)
unfolding read_length
read_length-inv d d' len clean h =
    let (bs, e, p, k) = resume-eq-ok (take_bytes 4 d) _ h in
    subst₂ (λ w s. Took d s (to_be_bytes 4 w) 0 0 × Clean s × (w < 2 ^ 32)) (cc) (cc)
      (read_word-inv d e 4 bs clean p)

pub read_uint64-inv :
    (d d' : Decoder) (w : ℕ)
    → Clean d
    → read_uint64 d ≡ ok (w, d')
    → Took d d' (0xcf ∷ to_be_bytes 8 w) 0 0 × Clean d' × (w < 2 ^ 64)
unfolding read_uint64
read_uint64-inv d d' w clean h =
    let (u, e, p, k) = resume-eq-ok (expect 0xcf d) _ h in
    let (bs, f, q, l) = resume-eq-ok (take_bytes 8 e) _ k in
    let (t, clean') = expect-inv d e clean 0xcf u p in
    let (t', clean'', lt) = read_word-inv e f 8 bs clean' q in
    subst₂ (λ x s. Took d s (0xcf ∷ to_be_bytes 8 x) 0 0 × Clean s × (x < 2 ^ 64)) (cc) (cc)
      (Took-trans t t', clean'', lt)

pub add_content-inv :
    (d d' : Decoder) (len limit : ℕ) (x : Unit {0})
    → Clean d
    → add_content len limit d ≡ ok (x, d')
    → Took d d' [] len 0 × Clean d' × (len ≤ limit)
unfolding add_content
add_content-inv d d' len limit x clean h = ground arith

string_length-inv :
    (d d' : Decoder) (limit len : ℕ)
    → Clean d
    → string_length limit d ≡ ok (len, d')
    → Took d d' (0xdb ∷ to_be_bytes 4 len) 0 0 × Clean d' × (len ≤ limit)
unfolding string_length
string_length-inv d d' limit len clean h =
    let (u, e, p, k) = resume-eq-ok (expect 0xdb d) _ h in
    let (n, f, q, l) = resume-eq-ok (read_length e) _ k in
    let (t, clean') = expect-inv d e clean 0xdb u p in
    let (t', clean'', lt) = read_length-inv e f n clean' q in
    let (within, same, state) = refuse_if-eq_ok (ltb limit n) n l in
    subst₂ (λ x s. Took d s (0xdb ∷ to_be_bytes 4 x) 0 0 × Clean s × (x ≤ limit)) same state
      (Took-trans t t', clean'', ground arith)

read_string-inv :
    (d d' : Decoder) (len : ℕ) (s : Text)
    → Clean d
    → read_string len d ≡ ok (s, d')
    → Took d d' s 0 0 × Clean d' × (length s ≡ len) × All IsByte s × (is_utf8 s ≡ true)
unfolding read_string
read_string-inv d d' len s clean h =
    let (bs, e, p, k) = resume-eq-ok (take_bytes len d) _ h in
    let (t, after, l, a) = take_bytes-inv d e clean len bs p in
    let (utf8, same, state) = accept_if-eq_ok (is_utf8 bs) bs k in
    subst₂ (λ x s. Took d s x 0 0 × Clean s × (length x ≡ len) × All IsByte x × (is_utf8 x ≡ true))
      same state (t, after, l, a, utf8)

-- Counters written otherwise are the same counters.
pub Took-eq :
    {d d' : Decoder} {bs bs' : List ℕ} {c c' n n' : ℕ}
    → bs ≡ bs'
    → c ≡ c'
    → n ≡ n'
    → Took d d' bs c n
    → Took d d' bs' c' n'
Took-eq p q r t = ground arith

-- The reads behind a length: of a string, with or without its share of the content budget.
pub read_content_string-inv :
    (d d' : Decoder) (limit : ℕ) (s : Text)
    → Clean d
    → read_content_string limit d ≡ ok (s, d')
    → Took d d' (wire_text s) (length s) 0
      × Clean d'
      × (length s ≤ limit)
      × All IsByte s
      × (is_utf8 s ≡ true)
unfolding read_content_string
read_content_string-inv d d' limit s clean h =
    let (len, e, p, k) = resume-eq-ok (string_length limit d) _ h in
    let (u, f, q, l) = resume-eq-ok (add_content len limit e) _ k in
    let (t, clean1, lt) = string_length-inv d e limit len clean p in
    let (t1, clean2, lt1) = add_content-inv e f len limit u clean1 q in
    let (t2, clean3, same, a, v) = read_string-inv f d' len s clean2 l in
    (
      Took-eq (rw (same, append-nil (to_be_bytes 4 len))) (omega arith) (omega arith)
          (Took-trans (Took-trans t t1) t2),
      clean3,
      rw same lt,
      a,
      v,
    )

pub metadata_string-inv :
    (d d' : Decoder) (limit : ℕ) (s : Text)
    → Clean d
    → metadata_string limit d ≡ ok (s, d')
    → Took d d' (wire_text s) 0 0
      × Clean d'
      × (length s ≤ limit)
      × All IsByte s
      × (is_utf8 s ≡ true)
unfolding metadata_string
metadata_string-inv d d' limit s clean h =
    let (len, e, p, k) = resume-eq-ok (string_length limit d) _ h in
    let (t, clean1, lt) = string_length-inv d e limit len clean p in
    let (t1, clean2, same, a, v) = read_string-inv e d' len s clean1 k in
    (Took-eq (rw same) (omega arith) (omega arith) (Took-trans t t1), clean2, rw same lt, a, v)

pub container_length-inv :
    (d d' : Decoder) (len : ℕ)
    → Clean d
    → container_length d ≡ ok (len, d')
    → Took d d' (0xdd ∷ to_be_bytes 4 len) 0 0 × Clean d' × (len ≤ max_container_entries)
unfolding container_length
container_length-inv d d' len clean h =
    let (u, e, p, k) = resume-eq-ok (expect 0xdd d) _ h in
    let (n, f, q, l) = resume-eq-ok (read_length e) _ k in
    let (t, clean1) = expect-inv d e clean 0xdd u p in
    let (t1, clean2, lt) = read_length-inv e f n clean1 q in
    let (within, same, state) = refuse_if-eq_ok (ltb max_container_entries n) n l in
    subst₂ (λ x s. Took d s (0xdd ∷ to_be_bytes 4 x) 0 0 × Clean s × (x ≤ max_container_entries))
      same state (Took-trans t t1, clean2, ground arith)
