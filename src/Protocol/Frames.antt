-- ===== src/Protocol/Frames.antt =====
-- crates/hmcl-runtime-protocol/src/lib.rs: length-prefixed frames over a reader and a writer.
use aura_rust_runtime_host.Base.{
  ℕ, zero, suc, ◌*◌, ◌^◌, ◌||◌, Option, none, some, List, [], ◌∷◌, ◌++◌, String, Result, ok, err,
  ltb, leb, ◌==◌, if◌then◌else◌, length,
}
use aura_rust_runtime_host.Codec.Bytes.{to_be_bytes, from_be_bytes}
use aura_rust_runtime_host.Protocol.Messages.{
  IoErrorKind, interrupted, unexpected_eof, other, ProtocolError, io, invalid_data,
}
use aura_rust_runtime_host.Protocol.Envelope.{Message, message_to_wire, message_from_wire}

abbrev pub max_frame_bytes : ℕ
max_frame_bytes = 16 * 1024 * 1024

-- What `Read::read` gives, one byte at a time: a byte, or a failure of a kind. The end of the list
-- is the end of the file.
pub data Event : Type 0 where
  byte : ℕ → Event
  failure : IoErrorKind → Event

abbrev pub Reader : Type 0
Reader = List Event

-- The loop of `read_frame` on the first byte of the header.
unfoldable pub first_byte : Reader → Result ProtocolError (Option ℕ) × Reader
first_byte [] = (ok none, [])
first_byte (byte b ∷ r) = (ok (some b), r)
first_byte (failure interrupted ∷ r) = first_byte r
first_byte (failure unexpected_eof ∷ r) = (err (io unexpected_eof), r)
first_byte (failure (other k) ∷ r) = (err (io (other k)), r)

-- A byte before what was read.
abbrev pub prepend :
    ℕ → Result ProtocolError (List ℕ) × Reader → Result ProtocolError (List ℕ) × Reader
prepend b (ok bs, r) = (ok (b ∷ bs), r)
prepend b (err e, r) = (err e, r)

-- `Read::read_exact` retries an interrupted read and fails with `UnexpectedEof` at the end.
unfoldable pub read_exact : ℕ → String → Reader → Result ProtocolError (List ℕ) × Reader
read_exact zero truncated r = (ok [], r)
read_exact (suc n) truncated [] = (err (invalid_data truncated), [])
read_exact (suc n) truncated (byte b ∷ r) = prepend b (read_exact n truncated r)
read_exact (suc n) truncated (failure interrupted ∷ r) = read_exact (suc n) truncated r
read_exact (suc n) truncated (failure unexpected_eof ∷ r) = (err (invalid_data truncated), r)
read_exact (suc n) truncated (failure (other k) ∷ r) = (err (io (other k)), r)

abbrev pub as_some : Result ProtocolError Message → Result ProtocolError (Option Message)
as_some (ok m) = ok (some m)
as_some (err e) = err e

-- `read_frame` behind the header, and behind the body.
unfoldable pub decode_body :
    Result ProtocolError (List ℕ) × Reader → Result ProtocolError (Option Message) × Reader
decode_body (ok body, r) = (as_some (message_from_wire body), r)
decode_body (err e, r) = (err e, r)

unfoldable pub read_body : ℕ → Reader → Result ProtocolError (Option Message) × Reader
unfolding decode_body read_exact
read_body length r =
    if length == 0 || ltb max_frame_bytes length
    then (err (invalid_data "frame length is outside bounds"), r)
    else decode_body (read_exact length "truncated frame body" r)

unfoldable pub read_header :
    ℕ → Result ProtocolError (List ℕ) × Reader → Result ProtocolError (Option Message) × Reader
unfolding read_body
read_header first (ok rest, r) = read_body (from_be_bytes 0 (first ∷ rest)) r
read_header first (err e, r) = (err e, r)

unfoldable pub read_first :
    Result ProtocolError (Option ℕ) × Reader → Result ProtocolError (Option Message) × Reader
unfolding read_header
read_first (ok none, r) = (ok none, r)
read_first (ok (some b), r) = read_header b (read_exact 3 "truncated frame header" r)
read_first (err e, r) = (err e, r)

unfoldable pub read_frame : Reader → Result ProtocolError (Option Message) × Reader
unfolding first_byte read_first
read_frame r = read_first (first_byte r)

-- Any writer: `write_all` of a type of the caller's.
module _ {W : Type 0} (write_all : List ℕ → W → Result IoErrorKind (Unit {0}) × W) where
  -- A second write, where the first one went through.
  abbrev pub and_write :
      List ℕ → Result IoErrorKind (Unit {0}) × W → Result ProtocolError (Unit {0}) × W
  and_write body (ok u, w) = lift (write_all body w)
    where
      lift : Result IoErrorKind (Unit {0}) × W → Result ProtocolError (Unit {0}) × W
      lift (ok u, w) = (ok u, w)
      lift (err k, w) = (err (io k), w)
  and_write body (err k, w) = (err (io k), w)

  abbrev pub write_body : Result ProtocolError (List ℕ) → W → Result ProtocolError (Unit {0}) × W
  write_body (ok body) w =
      if leb (2 ^ 32) (length body)
      then (err (invalid_data "frame length overflow"), w)
      else if length body == 0 || ltb max_frame_bytes (length body)
      then (err (invalid_data "frame length is outside bounds"), w)
      else and_write body (write_all (to_be_bytes 4 (length body)) w)
  write_body (err e) w = (err e, w)

  unfoldable pub write_frame : Message → W → Result ProtocolError (Unit {0}) × W
  write_frame message w = write_body (message_to_wire message) w

-- `Write` of a `Vec<u8>`: it appends, and never fails.
abbrev pub vec_write_all : List ℕ → List ℕ → Result IoErrorKind (Unit {0}) × List ℕ
vec_write_all bs w = (ok tt, w ++ bs)
