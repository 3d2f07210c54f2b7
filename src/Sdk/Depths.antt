-- ===== src/Sdk/Depths.antt =====
-- crates/hmcl-plugin-sdk/src/lib.rs: the depths that the threads record.
use aura_rust_runtime_host.Base.{
  ℕ, ◌+◌, ◌≤◌, ◌<◌, ◌≡◌, ◌≢◌, refl, ap, ◌∙◌, true, false, List, [], ◌∷◌, ◌==◌, arith, Bool-cases,
  inl, inr,
}
use aura_rust_runtime_host.Futures.Table.{
  lookup, contains_key, remove, insert, remove-absent, contains_key-remove,
  contains_key-remove_same, lookup-contains_key,
}
use mathlib.Core.Path.{subst}
use aura_rust_runtime_host.Sdk.Leases.{or_zero, depth_of}

unfoldable pub total : List (ℕ × ℕ) → ℕ
total [] = 0
total ((t, d) ∷ rest) = d + total rest

-- One entry for a thread, and none of depth zero.
unfoldable pub IsDepths : List (ℕ × ℕ) → Type 0
IsDepths [] = Unit
IsDepths ((t, d) ∷ rest) = (contains_key rest t ≡ false) × (0 < d) × IsDepths rest

pub total-remove :
    (t : List (ℕ × ℕ)) (key : ℕ) → IsDepths t → total (remove t key) + depth_of t key ≡ total t
unfolding total remove depth_of lookup IsDepths
total-remove [] key w = refl
total-remove ((k, d) ∷ t) key (a, b, w) = elim (Bool-cases (k == key)) [
  | inl e ↦
      let same : k ≡ key = ground arith in
      let gone = remove-absent t key (subst (λ x. contains_key t x ≡ false) same a) in
      rw (e, gone) (omega arith)
  | inr e ↦ let step = total-remove t key w in rw e (omega (arith, step))
]

pub remove-IsDepths : (t : List (ℕ × ℕ)) (key : ℕ) → IsDepths t → IsDepths (remove t key)
unfolding remove IsDepths
remove-IsDepths [] key w = w
remove-IsDepths ((k, d) ∷ t) key (a, b, w) = elim (Bool-cases (k == key)) [
  | inl e ↦ rw e (remove-IsDepths t key w)
  | inr e ↦
      let other : key ≢ k = λ q. absurd (ground arith) in
      rw e (contains_key-remove t key k other ∙ a, b, remove-IsDepths t key w)
]

pub insert-IsDepths :
    (t : List (ℕ × ℕ)) (key d : ℕ) → 0 < d → IsDepths t → IsDepths (insert t key d)
unfolding insert IsDepths
insert-IsDepths t key d h w = (contains_key-remove_same t key, h, remove-IsDepths t key w)

pub total-insert :
    (t : List (ℕ × ℕ)) (key d : ℕ)
    → IsDepths t
    → total (insert t key d) + depth_of t key ≡ d + total t
unfolding insert total
total-insert t key d w = omega (arith, total-remove t key w)

pub depth_of-total : (t : List (ℕ × ℕ)) (key : ℕ) → IsDepths t → depth_of t key ≤ total t
depth_of-total t key w = omega (arith, total-remove t key w)

-- A thread has an entry exactly when it holds a lease.
pub contains_key-depth_of :
    (t : List (ℕ × ℕ)) (key : ℕ) → IsDepths t → contains_key t key ≡ true → 0 < depth_of t key
unfolding contains_key depth_of lookup IsDepths
contains_key-depth_of [] key w h = cc
contains_key-depth_of ((k, d) ∷ t) key (a, b, w) h = elim (Bool-cases (k == key)) [
  | inl e ↦ rw e b
  | inr e ↦ rw e (contains_key-depth_of t key w (rw e at h))
]

pub depth_of-absent : (t : List (ℕ × ℕ)) (key : ℕ) → contains_key t key ≡ false → depth_of t key ≡ 0
unfolding depth_of
depth_of-absent t key h = ap or_zero (lookup-contains_key t key h)

-- Where no thread holds a lease, there are no entries.
pub total-eq_zero : (t : List (ℕ × ℕ)) → IsDepths t → total t ≡ 0 → t ≡ []
unfolding total IsDepths
total-eq_zero [] w h = refl
total-eq_zero ((k, d) ∷ t) (a, b, w) h = absurd (omega arith)

pub all_zero-total :
    (t : List (ℕ × ℕ)) → IsDepths t → ((key : ℕ) → depth_of t key ≡ 0) → total t ≡ 0
unfolding total IsDepths depth_of lookup
all_zero-total [] w h = refl
all_zero-total ((k, d) ∷ t) (a, b, w) h = let z = h k in absurd (ground arith)
