-- ===== src/Codec/Utf8.antt =====
-- `std::str::from_utf8`, `str::trim` and the ASCII classes, on byte strings.
use aura_rust_runtime_host.Base.{
  ℕ, zero, suc, Bool, true, false, ◌&&◌, ◌||◌, Option, none, some, List, [], ◌∷◌, ltb, leb, ◌==◌,
  if◌then◌else◌,
}

abbrev pub in_range : ℕ → ℕ → ℕ → Bool
in_range lo hi b = leb lo b && leb b hi

-- After a lead byte: how many continuation bytes follow, and the range of the first of them.
unfoldable pub lead_byte : ℕ → Option (ℕ × ℕ × ℕ)
lead_byte b =
    if ltb b 0x80
    then some (0, 0x80, 0xbf)
    else if in_range 0xc2 0xdf b
    then some (1, 0x80, 0xbf)
    else if b == 0xe0
    then some (2, 0xa0, 0xbf)
    else if b == 0xed
    then some (2, 0x80, 0x9f)
    else if in_range 0xe1 0xef b
    then some (2, 0x80, 0xbf)
    else if b == 0xf0
    then some (3, 0x90, 0xbf)
    else if in_range 0xf1 0xf3 b
    then some (3, 0x80, 0xbf)
    else if b == 0xf4
    then some (3, 0x80, 0x8f)
    else none

unfoldable pub utf8_from : ℕ → ℕ → ℕ → List ℕ → Bool
unfolding lead_byte
utf8_from zero lo hi [] = true
utf8_from (suc n) lo hi [] = false
utf8_from zero lo hi (b ∷ bs) = elim (lead_byte b) [
  | none ↦ false
  | some (n, l, h) ↦ utf8_from n l h bs
]
utf8_from (suc n) lo hi (b ∷ bs) = in_range lo hi b && utf8_from n 0x80 0xbf bs

-- `from_utf8(bs).is_ok()`
unfoldable pub is_utf8 : List ℕ → Bool
unfolding utf8_from
is_utf8 bs = utf8_from 0 0x80 0xbf bs

-- `value.trim().is_empty()`: every character has the Unicode property White_Space.
unfoldable pub is_blank : List ℕ → Bool
is_blank [] = true
is_blank (a ∷ []) = in_range 0x09 0x0d a || a == 0x20
is_blank (a ∷ b ∷ []) =
    let ascii = (in_range 0x09 0x0d a || a == 0x20) && is_blank (b ∷ []) in
    ascii || (a == 0xc2 && (b == 0x85 || b == 0xa0))
is_blank (a ∷ b ∷ c ∷ bs) =
    let ascii = (in_range 0x09 0x0d a || a == 0x20) && is_blank (b ∷ c ∷ bs) in
    let two = (a == 0xc2 && (b == 0x85 || b == 0xa0)) && is_blank (c ∷ bs) in
    let three =
      ((a == 0xe1 && b == 0x9a && c == 0x80)
        || (a == 0xe2 && b == 0x80 && (in_range 0x80 0x8a c || c == 0xa8 || c == 0xa9 || c == 0xaf))
        || (a == 0xe2 && b == 0x81 && c == 0x9f)
        || (a == 0xe3 && b == 0x80 && c == 0x80))
      && is_blank bs in
    ascii || two || three

abbrev pub is_ascii_lowercase : ℕ → Bool
is_ascii_lowercase b = in_range b'a' b'z' b

abbrev pub is_ascii_digit : ℕ → Bool
is_ascii_digit b = in_range b'0' b'9' b
