-- ===== src/Futures/Pair.antt =====
-- crates/hmcl-plugin-sdk/src/future.rs: `CallbackRegistry::pair`.
use aura_rust_runtime_host.Base.{
  ℕ, suc, ◌≤◌, ◌≡◌, ◌≢◌, refl, sym, ap, ◌∙◌, Bool, true, false, ◌||◌, some, ok, err, ◌==◌, leb,
  if◌then◌else◌, arith, length, Bool-cases, inl, inr, ◌⊎◌,
}
use aura_rust_runtime_host.Codec.Errors.{Error_new, unavailable}
use aura_rust_runtime_host.Futures.Table.{
  lookup, contains_key, insert, lookup-insert_same, lookup-insert_other, length-insert,
  absent-other,
}
use aura_rust_runtime_host.Futures.Registry.{
  pending, Registry, Capability, set_state, successor, vacant_id, pair, max_pending_callbacks,
}
use aura_rust_runtime_host.Futures.Vacancy.{IsId, successor-IsId, vacant_from-found}
use mathlib.Core.Path.{subst}
use aura_rust_runtime_host.Futures.States.{Sound, Issued, set_state_same, set_state_other}

-- The registry behind a pair that took an identifier.
abbrev pub paired : Registry → ℕ → Registry
paired r id = record r {
  next_id = successor id;
  entries = insert r.entries id r.allocated;
  allocated = suc r.allocated;
  states = set_state r.states r.allocated pending;
}

next_candidate :
    (r : Registry) → IsId r.next_id → (if r.next_id == 0 then 1 else r.next_id) ≡ r.next_id
next_candidate r n = ground arith

abbrev pub full : Registry → Bool
full r = r.closed || leb max_pending_callbacks (length r.entries)

-- Below capacity, `pair` takes an identifier that no entry has.
pub pair_open :
    (r : Registry)
    → IsId r.next_id
    → length r.entries ≤ max_pending_callbacks
    → full r ≡ false
    → (id : ℕ) × IsId id
      × (contains_key r.entries id ≡ false)
      × (pair r ≡ (ok (record { id = id; entry = r.allocated }), paired r id))
unfolding pair vacant_id
pair_open r n room h =
    let (id, e, i, absent) = vacant_from-found r.entries r.next_id n (omega arith) in
    let found : vacant_id r ≡ some id = rw (next_candidate r n) e in
    (id, i, absent, rw (h, found) refl)

-- At capacity, or closed, it changes nothing.
pub pair-full : (r : Registry) → full r ≡ true → pair r ≡ (err (Error_new unavailable), r)
unfolding pair
pair-full r h = rw h refl

fresh_entry :
    (r : Registry) (w : Sound r) (id e : ℕ) → lookup r.entries id ≡ some e → r.allocated ≢ e
fresh_entry r w id e h p = let (l, _) = w.live id e h in omega arith

-- What is registered behind a pair: the new entry, or one of before.
pub paired-lookup :
    (r : Registry) (id i e : ℕ)
    → lookup (paired r id).entries i ≡ some e
    → ((id ≡ i) × (r.allocated ≡ e)) ⊎ ((id ≢ i) × (lookup r.entries i ≡ some e))
paired-lookup r id i e h = elim (Bool-cases (id == i)) [
  | inl p ↦
      let q : id ≡ i = ground arith in
      let k = lookup-insert_same r.entries id r.allocated in inl (q, ground (arith, k))
  | inr p ↦
      let q : id ≢ i = ground arith in
      inr (q, sym (lookup-insert_other r.entries id i r.allocated q) ∙ h)
]

paired-Sound :
    (r : Registry) (id : ℕ)
    → Sound r
    → full r ≡ false
    → IsId id
    → contains_key r.entries id ≡ false
    → Sound (paired r id)
paired-Sound r id w h i absent = record {
  next = successor-IsId id i;
  room = shorter (length-insert r.entries id r.allocated);
  shut = λ c. absurd (ground arith);
  live = λ j e p. elim (paired-lookup r id j e p) [
    | inl (_, q) ↦ (
      omega (arith, q),
      ap (set_state r.states r.allocated pending) (sym q)
          ∙ set_state_same r.states r.allocated pending,
    )
    | inr (_, q) ↦
        let (l, s) = w.live j e q in
        (omega arith, set_state_other r.states r.allocated e pending (fresh_entry r w j e q) ∙ s)
  ];
  once = λ j k e p q. elim (paired-lookup r id j e p) [
    | inl (a, b) ↦ elim (paired-lookup r id k e q) [
      | inl (c, d) ↦ sym a ∙ c
      | inr (_, d) ↦ absurd (fresh_entry r w k e d b)
    ]
    | inr (_, b) ↦ elim (paired-lookup r id k e q) [
      | inl (_, d) ↦ absurd (fresh_entry r w j e b d)
      | inr (_, d) ↦ w.once j k e b d
    ]
  ];
}
  where
    shorter :
        length (paired r id).entries ≤ suc (length r.entries)
        → length (paired r id).entries ≤ max_pending_callbacks
    shorter m = ground arith

paired-Issued :
    (r : Registry) (id : ℕ) (c : Capability)
    → Sound r
    → contains_key r.entries id ≡ false
    → Issued r c
    → Issued (paired r id) c
paired-Issued r id c w absent k = record {
  made = let m = k.made in omega arith;
  waits = λ p.
      let m = k.made in
      let old =
        k.waits
          (sym (set_state_other r.states r.allocated c.entry pending (λ e. omega arith)) ∙ p) in
      let q = absent-other r.entries id c.id c.entry absent old in
      lookup-insert_other r.entries id c.id r.allocated q ∙ old;
}

-- The pair it gives out is registered, and waits.
pub pair-Sound : (r : Registry) → Sound r → Sound (pair r).1
pair-Sound r w = elim (Bool-cases (full r)) [
  | inl f ↦ subst Sound (sym (ap (λ p. p.1) (pair-full r f))) w
  | inr f ↦
      let (id, i, absent, e) = pair_open r w.next w.room f in
      subst Sound (sym (ap (λ p. p.1) e)) (paired-Sound r id w f i absent)
]

pub pair-Issued : (r : Registry) (c : Capability) → Sound r → Issued r c → Issued (pair r).1 c
pair-Issued r c w k = elim (Bool-cases (full r)) [
  | inl f ↦ subst (λ x. Issued x c) (sym (ap (λ p. p.1) (pair-full r f))) k
  | inr f ↦
      let (id, i, absent, e) = pair_open r w.next w.room f in
      subst (λ x. Issued x c) (sym (ap (λ p. p.1) e)) (paired-Issued r id c w absent k)
]

-- On a sound registry, `pair` fails where it is closed or full, and changes nothing. Else the
-- identifier it takes was no key, its entry is registered and waits, and every other identifier keeps
-- its entry.
pub pair_lem :
    (r : Registry)
    → Sound r
    → ((full r ≡ true) × (pair r ≡ (err (Error_new unavailable), r)))
      ⊎ ((full r ≡ false)
          × (c : Capability) × (next : Registry) × (pair r ≡ (ok c, next))
          × IsId c.id
          × (contains_key r.entries c.id ≡ false)
          × Issued next c
          × (next.states c.entry ≡ pending)
          × ((i : ℕ) → c.id ≢ i → lookup next.entries i ≡ lookup r.entries i))
pair_lem r w = elim (Bool-cases (full r)) [
  | inl f ↦ inl (f, pair-full r f)
  | inr f ↦
      let (id, i, absent, e) = pair_open r w.next w.room f in
      inr (
        f,
        record { id = id; entry = r.allocated },
        paired r id,
        e,
        i,
        absent,
        record { made = omega arith; waits = λ p. lookup-insert_same r.entries id r.allocated },
        set_state_same r.states r.allocated pending,
        λ j q. lookup-insert_other r.entries id j r.allocated q,
      )
]
