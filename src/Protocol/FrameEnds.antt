-- ===== src/Protocol/FrameEnds.antt =====
-- crates/hmcl-runtime-protocol/src/lib.rs: `read_frame` where the stream ends.
use aura_rust_runtime_host.Base.{
  ℕ, zero, suc, ◌<◌, ◌≡◌, ◌≢◌, refl, sym, ap, ◌∙◌, ◌||◌, Option, none, some, List, [], ◌∷◌, ◌++◌,
  String, Result, ok, err, ltb, ◌==◌, length, All, arith, Bool-cases, inl, inr, ◌↔◌,
}
use aura_rust_runtime_host.Codec.Bytes.{
  to_be_bytes, from_be_bytes, from_be_bytes-to_be_bytes, length-to_be_bytes,
}
use aura_rust_runtime_host.Protocol.Messages.{
  interrupted, unexpected_eof, other, ProtocolError, invalid_data,
}
use aura_rust_runtime_host.Protocol.Envelope.{Message, message_from_wire}
use aura_rust_runtime_host.Protocol.Frames.{
  Event, byte, failure, Reader, first_byte, prepend, read_exact, as_some, decode_body, read_body,
  read_header, read_first, read_frame, max_frame_bytes,
}
use aura_rust_runtime_host.Protocol.FrameRoundTrip.{
  delivers, delivers-append, FrameSize, four_bytes, read_frame_step,
}

-- Interrupted reads only.
abbrev pub Interrupted : Event → Type 0
Interrupted e = e ≡ failure interrupted

first_byte-none : (r s : Reader) → first_byte r ≡ (ok none, s) → All Interrupted r × (s ≡ [])
unfolding first_byte
first_byte-none [] s h = (tt, cc)
first_byte-none (byte b ∷ r) s h = cc
first_byte-none (failure interrupted ∷ r) s h = let (a, e) = first_byte-none r s h in ((refl, a), e)
first_byte-none (failure unexpected_eof ∷ r) s h = cc
first_byte-none (failure (other k) ∷ r) s h = cc

first_byte-Interrupted : (r : Reader) → All Interrupted r → first_byte r ≡ (ok none, [])
unfolding first_byte
first_byte-Interrupted [] a = refl
first_byte-Interrupted (e ∷ r) (p, a) = rw p (first_byte-Interrupted r a)

decode_body-not_none :
    (x : Result ProtocolError (List ℕ) × Reader) (s : Reader) → decode_body x ≢ (ok none, s)
unfolding decode_body
decode_body-not_none (ok body, r) s h = as_some-not_none (message_from_wire body) (ap (λ p. p.0) h)
  where
    as_some-not_none : (x : Result ProtocolError Message) → as_some x ≢ ok none
    as_some-not_none (ok m) h = cc
    as_some-not_none (err e) h = cc
decode_body-not_none (err e, r) s h = cc

read_body-not_none : (n : ℕ) (r s : Reader) → read_body n r ≢ (ok none, s)
unfolding read_body
read_body-not_none n r s h = elim (Bool-cases (n == 0 || ltb max_frame_bytes n)) [
  | inl e ↦ absurd (ground arith)
  | inr e ↦ decode_body-not_none (read_exact n "truncated frame body" r) s (rw e at h)
]

read_header-not_none :
    (b : ℕ) (x : Result ProtocolError (List ℕ) × Reader) (s : Reader)
    → read_header b x ≢ (ok none, s)
unfolding read_header
read_header-not_none b (ok rest, r) s h = read_body-not_none (from_be_bytes 0 (b ∷ rest)) r s h
read_header-not_none b (err e, r) s h = cc

read_first-none :
    (x : Result ProtocolError (Option ℕ) × Reader) (s : Reader)
    → read_first x ≡ (ok none, s)
    → x ≡ (ok none, s)
unfolding read_first
read_first-none (ok none, r) s h = ap (λ t. (ok none, t)) (ap (λ p. p.1) h)
read_first-none (ok (some b), r) s h = absurd (read_header-not_none b _ s h)
read_first-none (err e, r) s h = cc

-- No message, and this reader behind it, is what `read_frame` returns exactly when the stream has
-- nothing but interrupted reads and the reader is at its end.
pub read_frame-none_iff :
    (r s : Reader) → (read_frame r ≡ (ok none, s)) ↔ (All Interrupted r × (s ≡ []))
unfolding read_frame read_first
read_frame-none_iff r s = (
  λ h. first_byte-none r s (read_first-none (first_byte r) s h),
  λ (a, e). rw (first_byte-Interrupted r a, e) refl,
)

-- A read behind which the stream ends too early.
read_exact-truncated :
    (n : ℕ) (s : String) (bs : List ℕ)
    → length bs < n
    → read_exact n s (delivers bs) ≡ (err (invalid_data s), [])
unfolding read_exact
read_exact-truncated zero s bs h = absurd (omega arith)
read_exact-truncated (suc n) s [] h = refl
read_exact-truncated (suc n) s (b ∷ bs) h =
    ap (prepend b) (read_exact-truncated n s bs (omega arith))

-- A stream that ends behind one to three bytes of a header is a truncated header.
pub read_frame-truncated_header :
    (a : ℕ) (rest : List ℕ)
    → length rest < 3
    → read_frame (delivers (a ∷ rest)) ≡ (err (invalid_data "truncated frame header"), [])
unfolding read_frame first_byte read_first read_header
read_frame-truncated_header a rest h =
    rw (read_exact-truncated 3 "truncated frame header" rest h) refl

read_body-truncated :
    (n : ℕ) (got : List ℕ)
    → FrameSize n
    → length got < n
    → read_body n (delivers got) ≡ (err (invalid_data "truncated frame body"), [])
unfolding read_body decode_body
read_body-truncated n got h l = elim (Bool-cases (n == 0 || ltb max_frame_bytes n)) [
  | inl e ↦ absurd (ground arith)
  | inr e ↦ rw (e, read_exact-truncated n "truncated frame body" got l) refl
]

-- A stream that ends before the body of a frame of an allowed length is whole is a truncated body.
pub read_frame-truncated_body :
    (n : ℕ) (got : List ℕ)
    → FrameSize n
    → length got < n
    → read_frame (delivers (to_be_bytes 4 n ++ got))
      ≡ (err (invalid_data "truncated frame body"), [])
read_frame-truncated_body n got h l =
    let (a, rest, p, q) = four_bytes (to_be_bytes 4 n) (length-to_be_bytes 4 n) in
    let word : from_be_bytes 0 (a ∷ rest) ≡ n =
      ap (from_be_bytes 0) (sym p) ∙ from_be_bytes-to_be_bytes 4 n (omega arith) in
    rw (p, delivers-append rest got)
      (rw (read_frame_step a rest (delivers got) q, word) (read_body-truncated n got h l))
