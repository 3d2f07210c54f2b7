-- ===== src/Futures/Table.antt =====
-- A map from 64-bit identifiers, as an association list: `HashMap` as the program uses it.
use aura_rust_runtime_host.Base.{
  ℕ, ◌≡◌, ◌≢◌, refl, sym, ap, ◌∙◌, Bool, true, false, ◌||◌, Option, none, some, List, [], ◌∷◌, ◌==◌,
  if◌then◌else◌, arith, length, suc, ◌≤◌, ◌<◌,
}

module _ {ℓ} {A : Type ℓ} where
  unfoldable pub lookup : List (ℕ × A) → ℕ → Option A
  lookup [] key = none
  lookup ((k, a) ∷ t) key = if k == key then some a else lookup t key

  unfoldable pub contains_key : List (ℕ × A) → ℕ → Bool
  contains_key [] key = false
  contains_key ((k, a) ∷ t) key = (k == key) || contains_key t key

  unfoldable pub remove : List (ℕ × A) → ℕ → List (ℕ × A)
  remove [] key = []
  remove ((k, a) ∷ t) key = let rest = remove t key in if k == key then rest else (k, a) ∷ rest

  -- The old entry of the key goes.
  unfoldable pub insert : List (ℕ × A) → ℕ → A → List (ℕ × A)
  unfolding remove
  insert t key a = (key, a) ∷ remove t key

  pub lookup-contains_key :
      (t : List (ℕ × A)) (key : ℕ) → contains_key t key ≡ false → lookup t key ≡ none
  unfolding lookup contains_key
  lookup-contains_key [] key h = refl
  lookup-contains_key ((k, a) ∷ t) key h = ground (arith, lookup-contains_key t key)

  pub contains_key-lookup :
      (t : List (ℕ × A)) (key : ℕ) (a : A) → lookup t key ≡ some a → contains_key t key ≡ true
  unfolding lookup contains_key
  contains_key-lookup [] key a h = cc
  contains_key-lookup ((k, b) ∷ t) key a h = ground (arith, contains_key-lookup t key a)

  pub lookup-remove_same : (t : List (ℕ × A)) (key : ℕ) → lookup (remove t key) key ≡ none
  unfolding lookup remove
  lookup-remove_same [] key = refl
  lookup-remove_same ((k, a) ∷ t) key = ground (arith, lookup-remove_same t key)

  pub lookup-remove_other :
      (t : List (ℕ × A)) (key other : ℕ)
      → key ≢ other
      → lookup (remove t key) other ≡ lookup t other
  unfolding lookup remove
  lookup-remove_other [] key other h = refl
  lookup-remove_other ((k, a) ∷ t) key other h = ground (arith, lookup-remove_other t key other)

  pub length-remove : (t : List (ℕ × A)) (key : ℕ) → length (remove t key) ≤ length t
  unfolding remove
  length-remove [] key = omega arith
  length-remove ((k, a) ∷ t) key = ground (arith, length-remove t key)

  pub remove-absent : (t : List (ℕ × A)) (key : ℕ) → contains_key t key ≡ false → remove t key ≡ t
  unfolding remove contains_key
  remove-absent [] key h = refl
  remove-absent ((k, a) ∷ t) key h = ground (arith, remove-absent t key)

  pub lookup-insert_same :
      (t : List (ℕ × A)) (key : ℕ) (a : A) → lookup (insert t key a) key ≡ some a
  unfolding lookup insert
  lookup-insert_same t key a = ground arith

  pub lookup-insert_other :
      (t : List (ℕ × A)) (key other : ℕ) (a : A)
      → key ≢ other
      → lookup (insert t key a) other ≡ lookup t other
  unfolding lookup insert
  lookup-insert_other t key other a h = ground (arith, lookup-remove_other t key other)

  pub contains_key-remove :
      (t : List (ℕ × A)) (key other : ℕ)
      → key ≢ other
      → contains_key (remove t key) other ≡ contains_key t other
  unfolding contains_key remove
  contains_key-remove [] key other h = refl
  contains_key-remove ((k, a) ∷ t) key other h = ground (arith, contains_key-remove t key other)

  pub contains_key-remove_same :
      (t : List (ℕ × A)) (key : ℕ) → contains_key (remove t key) key ≡ false
  unfolding contains_key remove
  contains_key-remove_same [] key = refl
  contains_key-remove_same ((k, a) ∷ t) key = ground (arith, contains_key-remove_same t key)

  pub contains_key-insert_same :
      (t : List (ℕ × A)) (key : ℕ) (a : A) → contains_key (insert t key a) key ≡ true
  unfolding contains_key insert
  contains_key-insert_same t key a = ground arith

  pub contains_key-insert_other :
      (t : List (ℕ × A)) (key other : ℕ) (a : A)
      → key ≢ other
      → contains_key (insert t key a) other ≡ contains_key t other
  unfolding contains_key insert
  contains_key-insert_other t key other a h = ground (arith, contains_key-remove t key other h)

  -- Removing a key that is there makes the table shorter.
  pub length-remove_present :
      (t : List (ℕ × A)) (key : ℕ) → contains_key t key ≡ true → length (remove t key) < length t
  unfolding contains_key remove
  length-remove_present [] key h = cc
  length-remove_present ((k, a) ∷ t) key h =
      ground (arith, length-remove_present t key, length-remove t key)

  pub length-insert :
      (t : List (ℕ × A)) (key : ℕ) (a : A) → length (insert t key a) ≤ suc (length t)
  unfolding insert
  length-insert t key a = let m = length-remove t key in omega arith

  -- A key that is there is not one that is not.
  pub absent-other :
      (t : List (ℕ × A)) (key other : ℕ) (a : A)
      → contains_key t key ≡ false
      → lookup t other ≡ some a
      → key ≢ other
  absent-other t key other a h p e =
      let q = contains_key-lookup t other a p in
      let r : contains_key t other ≡ false = ap (contains_key t) (sym e) ∙ h in cc
