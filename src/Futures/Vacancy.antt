-- ===== src/Futures/Vacancy.antt =====
-- crates/hmcl-plugin-sdk/src/future.rs: `vacant_id` finds an identifier that no entry has.
use aura_rust_runtime_host.Base.{
  ℕ, zero, suc, ◌+◌, ◌-◌, ◌%◌, ◌≤◌, ◌<◌, ◌≡◌, ◌≢◌, sym, ◌∙◌, true, false, none, some, List, ◌==◌,
  arith, length, Bool-cases, Option-cases, inl, inr,
}
use aura_rust_runtime_host.Futures.Table.{
  contains_key, remove, contains_key-remove, length-remove_present,
}
use aura_rust_runtime_host.Futures.Registry.{successor, vacant_from, u64_max}

-- The identifiers that a registry may give: one up to the largest 64-bit word.
abbrev pub IsId : ℕ → Type 0
IsId n = (0 < n) × (n ≤ u64_max)

pub successor-IsId : (n : ℕ) → IsId n → IsId (successor n)
unfolding successor
successor-IsId n h = ground arith

-- The identifier `j` steps behind `c`, on the ring of the identifiers.
abbrev step : ℕ → ℕ → ℕ
step c j = suc ((c - 1 + j) % u64_max)

step-successor : (c j : ℕ) → IsId c → step (successor c) j ≡ step c (suc j)
unfolding successor
step-successor c j h = elim (Bool-cases (c == u64_max)) [
  | inl e ↦ rw e (ground arith)
  | inr e ↦ rw e (ground arith)
]

-- The first candidate and those behind it.
candidates :
    (n : ℕ) (t : List (ℕ × ℕ)) (c : ℕ)
    → IsId c
    → contains_key t c ≡ true
    → ((j : ℕ) → j < n → contains_key t (step (successor c) j) ≡ true)
    → (j : ℕ) → j < suc n
    → contains_key t (step c j) ≡ true
candidates n t c h present later zero l = let same : step c 0 ≡ c = omega arith in rw same present
candidates n t c h present later (suc j) l = rw (sym (step-successor c j h)) (later j (omega arith))

-- Where no candidate was vacant, all of them are keys.
vacant_from-none :
    (n : ℕ) (t : List (ℕ × ℕ)) (c : ℕ)
    → IsId c
    → vacant_from n t c ≡ none
    → (j : ℕ) → j < n
    → contains_key t (step c j) ≡ true
unfolding vacant_from
vacant_from-none zero t c h e = λ j l. absurd (omega arith)
vacant_from-none (suc n) t c h e = elim (Bool-cases (contains_key t c)) [
  | inr absent ↦ absurd (ground arith)
  | inl present ↦
      candidates n t c h present
        (vacant_from-none n t (successor c) (successor-IsId c h) (rw present at e))
]

-- A table has room for at most as many distinct keys as it has entries.
keys-length :
    (n : ℕ) (t : List (ℕ × ℕ)) (key : ℕ → ℕ)
    → ((i j : ℕ) → i < j → j < n → key i ≢ key j)
    → ((j : ℕ) → j < n → contains_key t (key j) ≡ true)
    → n ≤ length t
keys-length zero t key distinct present = omega arith
keys-length (suc n) t key distinct present =
    let shorter = length-remove_present t (key n) (present n (omega arith)) in
    let others = λ (j : ℕ) (l : j < n).
      contains_key-remove t (key n) (key j) (λ e. distinct j n l (omega arith) (sym e))
      ∙ present j (omega arith) in
    let rest =
      keys-length n (remove t (key n)) key (λ i j l m. distinct i j l (omega arith)) others in
    omega (arith, shorter, rest)

step-distinct : (c i j : ℕ) → IsId c → i < j → j < u64_max → step c i ≢ step c j
step-distinct c i j h l m e = omega arith

-- With fewer entries than there are identifiers, the search among one candidate more than entries
-- does not fail.
vacant_from-ends :
    (t : List (ℕ × ℕ)) (c : ℕ)
    → IsId c
    → length t < u64_max
    → vacant_from (suc (length t)) t c ≢ none
vacant_from-ends t c h l e =
    let many =
      keys-length (suc (length t)) t (step c) (λ i j p q. step-distinct c i j h p (omega arith))
        (vacant_from-none (suc (length t)) t c h e) in
    omega (arith, many)

-- What it finds is an identifier, and no key.
pub vacant_from-some :
    (n : ℕ) (t : List (ℕ × ℕ)) (c id : ℕ)
    → IsId c
    → vacant_from n t c ≡ some id
    → IsId id × (contains_key t id ≡ false)
unfolding vacant_from
vacant_from-some zero t c id h e = cc
vacant_from-some (suc n) t c id h e = elim (Bool-cases (contains_key t c)) [
  | inl present ↦ vacant_from-some n t (successor c) id (successor-IsId c h) (rw present at e)
  | inr absent ↦ ground arith
]

-- With fewer entries than there are identifiers, the search among one candidate more than entries
-- ends with an identifier from one up to the largest 64-bit word that no entry has.
pub vacant_from-found :
    (t : List (ℕ × ℕ)) (c : ℕ)
    → IsId c
    → length t < u64_max
    → (id : ℕ) × (vacant_from (suc (length t)) t c ≡ some id)
      × IsId id
      × (contains_key t id ≡ false)
vacant_from-found t c h l = elim (Option-cases (vacant_from (suc (length t)) t c)) [
  | inl e ↦ absurd (vacant_from-ends t c h l e)
  | inr (id, e) ↦
      let (i, absent) = vacant_from-some (suc (length t)) t c id h e in (id, e, i, absent)
]
