-- ===== src/Protocol/FrameRoundTrip.antt =====
-- crates/hmcl-runtime-protocol/src/lib.rs: `read_frame` on what `write_frame` wrote.
use aura_rust_runtime_host.Base.{
  ℕ, ◌≤◌, ◌<◌, ◌≡◌, refl, sym, ap, ◌∙◌, ◌||◌, some, List, [], ◌∷◌, ◌++◌, append_assoc, String,
  Result, ok, err, ltb, ◌==◌, length, arith, Bool-cases, inl, inr,
}
use aura_rust_runtime_host.Codec.Bytes.{
  to_be_bytes, from_be_bytes, from_be_bytes-to_be_bytes, length-to_be_bytes,
}
use aura_rust_runtime_host.Protocol.Messages.{ProtocolError}
use aura_rust_runtime_host.Protocol.Envelope.{Message, message_to_wire, message_from_wire}
use aura_rust_runtime_host.Protocol.Typing.{TypedBody}
use aura_rust_runtime_host.Protocol.MessageRoundTrip.{
  ValidMessage, message_from_wire-message_to_wire,
}
use aura_rust_runtime_host.Protocol.Frames.{
  byte, Reader, first_byte, prepend, read_exact, as_some, decode_body, read_body, read_header,
  read_first, read_frame, write_body, write_frame, vec_write_all, max_frame_bytes,
}

-- A reader that gives these bytes.
abbrev pub delivers : List ℕ → Reader
delivers [] = []
delivers (b ∷ bs) = byte b ∷ delivers bs

pub delivers-append : (xs ys : List ℕ) → delivers (xs ++ ys) ≡ delivers xs ++ delivers ys
delivers-append [] ys = refl
delivers-append (x ∷ xs) ys = ap (λ t. byte x ∷ t) (delivers-append xs ys)

pub read_exact-delivers :
    (bs : List ℕ) (s : String) (r : Reader)
    → read_exact (length bs) s (delivers bs ++ r) ≡ (ok bs, r)
unfolding read_exact
read_exact-delivers [] s r = refl
read_exact-delivers (b ∷ bs) s r = ap (prepend b) (read_exact-delivers bs s r)

-- The bytes of a frame: the body behind its length in four bytes.
abbrev pub frame_of : List ℕ → List ℕ
frame_of body = to_be_bytes 4 (length body) ++ body

abbrev pub FrameSize : ℕ → Type 0
FrameSize n = (0 < n) × (n ≤ max_frame_bytes)

-- A list of four, element by element.
pub four_bytes :
    (bs : List ℕ) → length bs ≡ 4 → (a : ℕ) × (rest : List ℕ) × (bs ≡ a ∷ rest) × (length rest ≡ 3)
four_bytes [] h = absurd (omega arith)
four_bytes (b ∷ bs) h = (b, bs, refl, omega arith)

read_body-in_bounds :
    (body : List ℕ) (r : Reader)
    → FrameSize (length body)
    → read_body (length body) (delivers body ++ r) ≡ (as_some (message_from_wire body), r)
unfolding read_body decode_body
read_body-in_bounds body r h =
    elim (Bool-cases (length body == 0 || ltb max_frame_bytes (length body))) [
      | inl e ↦ absurd (ground arith)
      | inr e ↦ rw (e, read_exact-delivers body "truncated frame body" r) refl
    ]

pub read_frame_step :
    (a : ℕ) (rest : List ℕ) (r : Reader)
    → length rest ≡ 3
    → read_frame (byte a ∷ (delivers rest ++ r)) ≡ read_body (from_be_bytes 0 (a ∷ rest)) r
unfolding read_frame first_byte read_first read_header
read_frame_step a rest r h =
    let p = read_exact-delivers rest "truncated frame header" r in rw (rw h at p) refl

-- Reading a frame gives what its body decodes to, and leaves what follows the frame.
pub read_frame-frame_of :
    (body : List ℕ) (r : Reader)
    → FrameSize (length body)
    → read_frame (delivers (frame_of body) ++ r) ≡ (as_some (message_from_wire body), r)
read_frame-frame_of body r h =
    let (a, rest, p, q) =
      four_bytes (to_be_bytes 4 (length body)) (length-to_be_bytes 4 (length body)) in
    let word : from_be_bytes 0 (a ∷ rest) ≡ length body =
      ap (from_be_bytes 0) (sym p) ∙ from_be_bytes-to_be_bytes 4 (length body) (omega arith) in
    rw (p, delivers-append rest body, append_assoc (delivers rest) (delivers body) r)
      (rw (read_frame_step a rest (delivers body ++ r) q, word) (read_body-in_bounds body r h))

-- What `write_frame` appends is the frame of the encoded message, of a size in bounds.
pub write_frame-eq-ok :
    (m : Message) (out written : List ℕ)
    → write_frame vec_write_all m out ≡ (ok tt, written)
    → (body : List ℕ) × (message_to_wire m ≡ ok body)
      × FrameSize (length body)
      × (written ≡ out ++ frame_of body)
unfolding write_frame
write_frame-eq-ok m out written h = write_body-eq-ok (message_to_wire m) out written h
  where
    write_body-eq-ok :
        (r : Result ProtocolError (List ℕ)) (out written : List ℕ)
        → write_body vec_write_all r out ≡ (ok tt, written)
        → (body : List ℕ) × (r ≡ ok body)
          × FrameSize (length body)
          × (written ≡ out ++ frame_of body)
    write_body-eq-ok (ok body) out written h =
        let glue = append_assoc out (to_be_bytes 4 (length body)) body in
        (body, refl, ground arith, ground arith)
    write_body-eq-ok (err e) out written h = cc

-- Where `write_frame` went through on a valid message of the Rust type, what it appended is a frame
-- that reads back as the message, and leaves whatever follows it in the reader.
pub read_frame-write_frame :
    (m : Message) (out written : List ℕ)
    → TypedBody m.body
    → ValidMessage m.request_id m.body
    → write_frame vec_write_all m out ≡ (ok tt, written)
    → (frame : List ℕ) × (written ≡ out ++ frame)
      × ((r : Reader) → read_frame (delivers frame ++ r) ≡ (ok (some m), r))
read_frame-write_frame m out written t v h =
    let (body, e, s, w) = write_frame-eq-ok m out written h in
    let d = message_from_wire-message_to_wire m body t v e in
    (frame_of body, w, λ r. read_frame-frame_of body r s ∙ ap (λ x. (as_some x, r)) d)
