-- ===== src/Abi/Words.antt =====
-- Words in the byte order of the machine: `u32::from_ne_bytes` and the fields of a table in memory.
use aura_rust_runtime_host.Base.{
  ℕ, zero, suc, ◌+◌, ◌*◌, ◌/◌, ◌%◌, ◌^◌, ◌<◌, ◌≡◌, refl, Bool, true, false, List, [], ◌∷◌, length,
  arith, pow256_suc,
}
use aura_rust_runtime_host.Codec.Bytes.{
  to_be_bytes, from_be_bytes, length-to_be_bytes, from_be_bytes-to_be_bytes,
}

unfoldable pub to_le_bytes : ℕ → ℕ → List ℕ
to_le_bytes zero n = []
to_le_bytes (suc k) n = (n % 256) ∷ to_le_bytes k (n / 256)

unfoldable pub from_le_bytes : List ℕ → ℕ
from_le_bytes [] = 0
from_le_bytes (b ∷ bs) = b + 256 * from_le_bytes bs

length-to_le_bytes : (k n : ℕ) → length (to_le_bytes k n) ≡ k
unfolding to_le_bytes
length-to_le_bytes zero n = refl
length-to_le_bytes (suc k) n = omega (arith, length-to_le_bytes k (n / 256))

from_le_bytes-to_le_bytes : (k n : ℕ) → n < 256 ^ k → from_le_bytes (to_le_bytes k n) ≡ n
unfolding to_le_bytes from_le_bytes
from_le_bytes-to_le_bytes zero n h = omega arith
from_le_bytes-to_le_bytes (suc k) n h =
    let low = from_le_bytes-to_le_bytes k (n / 256) (omega (arith, pow256_suc k)) in
    omega (arith, low)

-- Whether the machine puts the highest byte first.
abbrev pub BigEndian : Type 0
BigEndian = Bool

unfoldable pub to_ne_bytes : BigEndian → ℕ → ℕ → List ℕ
unfolding to_be_bytes to_le_bytes
to_ne_bytes true k n = to_be_bytes k n
to_ne_bytes false k n = to_le_bytes k n

unfoldable pub from_ne_bytes : BigEndian → List ℕ → ℕ
unfolding from_be_bytes from_le_bytes
from_ne_bytes true bs = from_be_bytes 0 bs
from_ne_bytes false bs = from_le_bytes bs

pub length-to_ne_bytes : (big : BigEndian) (k n : ℕ) → length (to_ne_bytes big k n) ≡ k
unfolding to_ne_bytes
length-to_ne_bytes true k n = length-to_be_bytes k n
length-to_ne_bytes false k n = length-to_le_bytes k n

pub from_ne_bytes-to_ne_bytes :
    (big : BigEndian) (k n : ℕ) → n < 256 ^ k → from_ne_bytes big (to_ne_bytes big k n) ≡ n
unfolding to_ne_bytes from_ne_bytes
from_ne_bytes-to_ne_bytes true k n h = from_be_bytes-to_be_bytes k n h
from_ne_bytes-to_ne_bytes false k n h = from_le_bytes-to_le_bytes k n h
