-- ===== src/Codec/Bytes.antt =====
-- Machine words and their big-endian bytes: `to_be_bytes` and `from_be_bytes` of u32, u64 and i64.
use Prim.Native.Nat.add
use aura_rust_runtime_host.Base.{
  ℕ, Bool, true, ◌&&◌, zero, suc, ◌+◌, ◌-◌, ◌*◌, ◌/◌, ◌%◌, ◌^◌, ◌<◌, ◌≡◌, refl, sym, ap, ◌∙◌, List,
  [], ◌∷◌, ◌++◌, append_assoc, append-nil, arith, length, length-append, All, All-append, inl, inr,
  ltb, ltb→lt, Bool-cases, if◌then◌else◌, pow256_suc,
}
use aura_rust_runtime_host.Base.Int.{ℤ, pos, negsuc}

abbrev pub IsByte : ℕ → Type 0
IsByte b = b < 256

abbrev pub are_bytes : List ℕ → Bool
are_bytes [] = true
are_bytes (b ∷ bs) = ltb b 256 && are_bytes bs

pub are_bytes-All : (bs : List ℕ) → are_bytes bs ≡ true → All IsByte bs
are_bytes-All [] h = tt
are_bytes-All (b ∷ bs) h = (ltb→lt b 256 (ground arith), are_bytes-All bs (ground arith))

abbrev pub IsU32 : ℕ → Type 0
IsU32 n = n < 2 ^ 32

abbrev pub IsU64 : ℕ → Type 0
IsU64 n = n < 2 ^ 64

-- The `k` low bytes of a word, highest first.
unfoldable pub to_be_bytes : ℕ → ℕ → List ℕ
to_be_bytes zero n = []
to_be_bytes (suc k) n = to_be_bytes k (n / 256) ++ n % 256 ∷ []

unfoldable pub from_be_bytes : ℕ → List ℕ → ℕ
from_be_bytes acc [] = acc
from_be_bytes acc (b ∷ bs) = from_be_bytes (acc * 256 + b) bs

pub length-to_be_bytes : (k n : ℕ) → length (to_be_bytes k n) ≡ k
unfolding to_be_bytes
length-to_be_bytes zero n = refl
length-to_be_bytes (suc k) n =
    omega (
      arith,
      length-append (to_be_bytes k (n / 256)) (n % 256 ∷ []),
      length-to_be_bytes k (n / 256),
    )

pub to_be_bytes-IsByte : (k n : ℕ) → All IsByte (to_be_bytes k n)
unfolding to_be_bytes
to_be_bytes-IsByte zero n = tt
to_be_bytes-IsByte (suc k) n =
    All-append IsByte (to_be_bytes k (n / 256)) (n % 256 ∷ []) (to_be_bytes-IsByte k (n / 256))
      (omega arith)

from_be_bytes-append :
    (acc : ℕ) (xs ys : List ℕ)
    → from_be_bytes acc (xs ++ ys) ≡ from_be_bytes (from_be_bytes acc xs) ys
unfolding from_be_bytes
from_be_bytes-append acc [] ys = refl
from_be_bytes-append acc (x ∷ xs) ys = from_be_bytes-append (acc * 256 + x) xs ys

pub from_be_bytes-to_be_bytes : (k n : ℕ) → n < 256 ^ k → from_be_bytes 0 (to_be_bytes k n) ≡ n
unfolding from_be_bytes to_be_bytes
from_be_bytes-to_be_bytes zero n h = omega arith
from_be_bytes-to_be_bytes (suc k) n h =
    rw (from_be_bytes-append 0 (to_be_bytes k (n / 256)) (n % 256 ∷ []))
      (omega (arith, from_be_bytes-to_be_bytes k (n / 256) (omega (arith, pow256_suc k))))

low_byte_of :
    (j acc b : ℕ) (bs : List ℕ)
    → IsByte b
    → to_be_bytes (suc j) (acc * 256 + b) ++ bs ≡ to_be_bytes j acc ++ b ∷ bs
unfolding to_be_bytes
low_byte_of j acc b bs h =
    let high : (acc * 256 + b) / 256 ≡ acc = omega arith in
    let low : (acc * 256 + b) % 256 ≡ b = omega arith in
    rw (high, low) (append_assoc (to_be_bytes j acc) (b ∷ []) bs)

-- Reading `bs` behind a word of `j` bytes shifts that word up.
to_be_bytes-from_be_bytes_acc :
    (j acc : ℕ) (bs : List ℕ)
    → All IsByte bs
    → to_be_bytes (length bs + j) (from_be_bytes acc bs) ≡ to_be_bytes j acc ++ bs
unfolding from_be_bytes
to_be_bytes-from_be_bytes_acc j acc [] h =
    ap (λ t. to_be_bytes t acc) {x = 0 + j} (omega arith) ∙ sym (append-nil (to_be_bytes j acc))
to_be_bytes-from_be_bytes_acc j acc (b ∷ bs) h =
    ap (λ t. to_be_bytes t (from_be_bytes (acc * 256 + b) bs)) {x = suc (length bs) + j}
      (omega arith)
    ∙ to_be_bytes-from_be_bytes_acc (suc j) (acc * 256 + b) bs h.1
    ∙ low_byte_of j acc b bs h.0

no_bytes : (bs : List ℕ) → to_be_bytes 0 0 ++ bs ≡ bs
unfolding to_be_bytes
no_bytes bs = refl

pub from_be_bytes-lt_acc :
    (acc k : ℕ) (bs : List ℕ)
    → All IsByte bs
    → acc < 256 ^ k
    → from_be_bytes acc bs < 256 ^ (length bs + k)
unfolding from_be_bytes
from_be_bytes-lt_acc acc k [] h hk = rw add.zero hk
from_be_bytes-lt_acc acc k (b ∷ bs) h hk =
    let shift : suc (length bs) + k ≡ length bs + suc k = omega arith in
    rw shift (from_be_bytes-lt_acc (acc * 256 + b) (suc k) bs h.1 (omega (arith, pow256_suc k)))

pub from_be_bytes-lt :
    (k : ℕ) (bs : List ℕ) → All IsByte bs → length bs ≡ k → from_be_bytes 0 bs < 256 ^ k
from_be_bytes-lt k bs h e =
    let whole : length bs + 0 ≡ k = omega arith in
    rw whole at (from_be_bytes-lt_acc 0 0 bs h (omega arith))

pub to_be_bytes-from_be_bytes :
    (bs : List ℕ) → All IsByte bs → to_be_bytes (length bs) (from_be_bytes 0 bs) ≡ bs
to_be_bytes-from_be_bytes bs h =
    ap (λ t. to_be_bytes t (from_be_bytes 0 bs)) {y = length bs + 0} (omega arith)
    ∙ to_be_bytes-from_be_bytes_acc 0 0 bs h
    ∙ no_bytes bs

-- An i64 is carried by its two's complement pattern.
abbrev pub IsI64 : ℤ → Type 0
IsI64 (pos n) = n < 2 ^ 63
IsI64 (negsuc n) = n < 2 ^ 63

unfoldable pub i64_bits : ℤ → ℕ
i64_bits (pos n) = n
i64_bits (negsuc n) = 2 ^ 64 - 1 - n

unfoldable pub i64_from_bits : ℕ → ℤ
i64_from_bits w = if ltb w (2 ^ 63) then pos w else negsuc (2 ^ 64 - 1 - w)

pub i64_from_bits-i64_bits : (z : ℤ) → IsI64 z → i64_from_bits (i64_bits z) ≡ z
unfolding i64_bits i64_from_bits
i64_from_bits-i64_bits (pos n) h = ground arith
i64_from_bits-i64_bits (negsuc n) h = ground arith

pub i64_bits-i64_from_bits :
    (w : ℕ) → IsU64 w → (i64_bits (i64_from_bits w) ≡ w) × IsI64 (i64_from_bits w)
unfolding i64_bits i64_from_bits
i64_bits-i64_from_bits w h = elim (Bool-cases (ltb w (2 ^ 63))) [
  | inl e ↦ rw e (refl, ltb→lt _ _ e)
  | inr e ↦ rw e (ground arith, ground arith)
]

pub i64_bits-IsU64 : (z : ℤ) → IsI64 z → IsU64 (i64_bits z)
unfolding i64_bits
i64_bits-IsU64 (pos n) h = omega arith
i64_bits-IsU64 (negsuc n) h = omega arith
