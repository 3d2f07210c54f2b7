-- ===== src/Codec/Decoding/Reads.antt =====
-- What the decoder's primitives read off the front of a canonical input.
use aura_rust_runtime_host.Base.{
  ℕ, ◌+◌, ◌^◌, ◌≤◌, ◌<◌, ◌≡◌, refl, true, List, ◌∷◌, ◌++◌, append_assoc, ok, length, length-append,
  take-length-append, drop-length-append, arith, le→leb,
}
use aura_rust_runtime_host.Codec.Bytes.{to_be_bytes, length-to_be_bytes, from_be_bytes-to_be_bytes}
use aura_rust_runtime_host.Codec.Utf8.{is_utf8}
use aura_rust_runtime_host.Codec.Values.{Text, max_total_content_bytes, max_container_entries}
use aura_rust_runtime_host.Codec.Decoder.{
  Decoder, byte, expect, take_bytes, read_length, read_uint64, add_content, string_length,
  read_string, read_content_string, metadata_string, container_length,
}
use aura_rust_runtime_host.Codec.Format.{wire_text}

-- The state with `bs` left to read.
abbrev pub at : List ℕ → ℕ → ℕ → Decoder
at bs c n = record { rest = bs; content_bytes = c; values = n }

pub expect-hit :
    (b : ℕ) (rest : List ℕ) (c n : ℕ) → expect b (at (b ∷ rest) c n) ≡ ok (tt, at rest c n)
unfolding expect byte
expect-hit b rest c n = ground arith

pub take_bytes-append :
    (bs rest : List ℕ) (len c n : ℕ)
    → length bs ≡ len
    → take_bytes len (at (bs ++ rest) c n) ≡ ok (bs, at rest c n)
unfolding take_bytes
take_bytes-append bs rest len c n e = rw (
  ← e,
  le→leb (length bs) (length (bs ++ rest)) (omega (arith, length-append bs rest)),
  take-length-append bs rest,
  drop-length-append bs rest,
)

pub read_length-append :
    (len : ℕ) (rest : List ℕ) (c n : ℕ)
    → len < 2 ^ 32
    → read_length (at (to_be_bytes 4 len ++ rest) c n) ≡ ok (len, at rest c n)
unfolding read_length
read_length-append len rest c n h = rw (
  take_bytes-append (to_be_bytes 4 len) rest 4 c n (length-to_be_bytes 4 len),
  from_be_bytes-to_be_bytes 4 len h,
)

pub read_uint64-append :
    (w : ℕ) (rest : List ℕ) (c n : ℕ)
    → w < 2 ^ 64
    → read_uint64 (at (0xcf ∷ (to_be_bytes 8 w ++ rest)) c n) ≡ ok (w, at rest c n)
unfolding read_uint64
read_uint64-append w rest c n h = rw (
  expect-hit 0xcf (to_be_bytes 8 w ++ rest) c n,
  take_bytes-append (to_be_bytes 8 w) rest 8 c n (length-to_be_bytes 8 w),
  from_be_bytes-to_be_bytes 8 w h,
)

pub add_content-ok :
    (len limit c n : ℕ) (rest : List ℕ)
    → len ≤ limit
    → c + len ≤ max_total_content_bytes
    → add_content len limit (at rest c n) ≡ ok (tt, at rest (c + len) n)
unfolding add_content
add_content-ok len limit c n rest h k = ground arith

string_length-append :
    (limit len : ℕ) (rest : List ℕ) (c n : ℕ)
    → len ≤ limit
    → len < 2 ^ 32
    → string_length limit (at (0xdb ∷ (to_be_bytes 4 len ++ rest)) c n) ≡ ok (len, at rest c n)
unfolding string_length
string_length-append limit len rest c n h k =
    rw (expect-hit 0xdb (to_be_bytes 4 len ++ rest) c n, read_length-append len rest c n k)
      (ground arith)

read_string-append :
    (s rest : List ℕ) (c n : ℕ)
    → is_utf8 s ≡ true
    → read_string (length s) (at (s ++ rest) c n) ≡ ok (s, at rest c n)
unfolding read_string
read_string-append s rest c n u = rw (take_bytes-append s rest (length s) c n refl, u)

pub read_content_string-append :
    (limit : ℕ) (s : Text) (rest : List ℕ) (c n : ℕ)
    → length s ≤ limit
    → length s < 2 ^ 32
    → is_utf8 s ≡ true
    → c + length s ≤ max_total_content_bytes
    → read_content_string limit (at (wire_text s ++ rest) c n) ≡ ok (s, at rest (c + length s) n)
unfolding read_content_string
read_content_string-append limit s rest c n h k u b =
    rw
      (
        append_assoc (to_be_bytes 4 (length s)) s rest,
        string_length-append limit (length s) (s ++ rest) c n h k,
        add_content-ok (length s) limit c n (s ++ rest) h b,
      )
      (read_string-append s rest (c + length s) n u)

pub metadata_string-append :
    (limit : ℕ) (s : Text) (rest : List ℕ) (c n : ℕ)
    → length s ≤ limit
    → length s < 2 ^ 32
    → is_utf8 s ≡ true
    → metadata_string limit (at (wire_text s ++ rest) c n) ≡ ok (s, at rest c n)
unfolding metadata_string
metadata_string-append limit s rest c n h k u =
    rw
      (
        append_assoc (to_be_bytes 4 (length s)) s rest,
        string_length-append limit (length s) (s ++ rest) c n h k,
      )
      (read_string-append s rest c n u)

pub container_length-append :
    (len : ℕ) (rest : List ℕ) (c n : ℕ)
    → len ≤ max_container_entries
    → container_length (at (0xdd ∷ (to_be_bytes 4 len ++ rest)) c n) ≡ ok (len, at rest c n)
unfolding container_length
container_length-append len rest c n h =
    rw
      (
        expect-hit 0xdd (to_be_bytes 4 len ++ rest) c n,
        read_length-append len rest c n (omega arith),
      )
      (ground arith)
