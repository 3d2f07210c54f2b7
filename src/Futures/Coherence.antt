-- ===== src/Futures/Coherence.antt =====
-- crates/hmcl-plugin-sdk/src/future.rs: what overlapping calls maintain.
use aura_rust_runtime_host.Base.{
  ℕ, ◌≤◌, ◌<◌, ◌≡◌, ◌≢◌, ◌⊎◌, refl, sym, ap, ◌∙◌, true, some, List, [], ◌==◌, arith, length,
  Bool-cases, inl, inr,
}
use mathlib.Core.Path.{subst}
use aura_rust_runtime_host.Futures.Table.{
  lookup, remove, lookup-remove_same, lookup-remove_other, length-remove,
}
use aura_rust_runtime_host.Futures.Registry.{
  EntryState, pending, cancelled_state, set_state, max_pending_callbacks,
}
use aura_rust_runtime_host.Futures.Vacancy.{IsId}
use aura_rust_runtime_host.Futures.States.{set_state_same, set_state_other}
use aura_rust_runtime_host.Futures.Sections.{update, Sections, fresh}

-- What a future is registered for: it waits, or the `cancel` that won it is yet to take it off.
abbrev pub Stays : Sections → ℕ → Type 0
Stays s e =
    (s.registry.states e ≡ pending)
    ⊎ ((s.registry.states e ≡ cancelled_state) × (s.removing e ≡ true))

-- The registry keeps its capacity, and is empty once closed. A registered entry was made, is
-- registered under its own identifier, and waits, or a `cancel` is about to take it off. An entry that
-- waits is registered, or a `close` is about to cancel it. A `cancel` in its midst has settled its
-- entry; a `close` in its midst has closed the registry.
pub record Coherent (s : Sections) : Type 0 where
  pub next : IsId s.registry.next_id
  pub room : length s.registry.entries ≤ max_pending_callbacks
  pub shut : s.registry.closed ≡ true → s.registry.entries ≡ []
  pub live :
      (id e : ℕ)
      → lookup s.registry.entries id ≡ some e
      → (e < s.registry.allocated) × (s.ids e ≡ id) × Stays s e
  pub waits :
      (e : ℕ)
      → e < s.registry.allocated
      → s.registry.states e ≡ pending
      → (lookup s.registry.entries (s.ids e) ≡ some e) ⊎ (s.draining e ≡ true)
  pub removes :
      (e : ℕ) → s.removing e ≡ true → (e < s.registry.allocated) × (s.registry.states e ≢ pending)
  pub drains :
      (e : ℕ) → s.draining e ≡ true → (e < s.registry.allocated) × (s.registry.closed ≡ true)

pub fresh-Coherent : Coherent fresh
unfolding lookup
fresh-Coherent = record {
  next = omega arith;
  room = omega arith;
  shut = λ h. refl;
  live = λ i e h. absurd cc;
  waits = λ e l h. absurd (omega arith);
  removes = λ e h. absurd cc;
  drains = λ e h. absurd cc;
}

pub update_same {ℓ} : {A : Type ℓ} (f : ℕ → A) (k : ℕ) (a : A) → update f k a k ≡ a
unfolding update
update_same f k a = ground arith

pub update_other {ℓ} : {A : Type ℓ} (f : ℕ → A) (k j : ℕ) (a : A) → k ≢ j → update f k a j ≡ f j
unfolding update
update_other f k j a h = ground arith

pub nat-cases : (a b : ℕ) → (a ≡ b) ⊎ (a ≢ b)
nat-cases a b = elim (Bool-cases (a == b)) [
  | inl e ↦ inl (ground arith)
  | inr e ↦ inr (ground arith)
]

-- Behind a terminal state of one entry, an entry that waits is another one, and waited before.
pub still_pending :
    (states : ℕ → EntryState) (e f : ℕ) (x : EntryState)
    → x ≢ pending
    → set_state states e x f ≡ pending
    → (e ≢ f) × (states f ≡ pending)
still_pending states e f x n h = elim (nat-cases e f) [
  | inl z ↦ absurd (
      n (sym (set_state_same states e x) ∙ subst (λ j. set_state states e x j ≡ pending) (sym z) h))
  | inr d ↦ (d, sym (set_state_other states e f x d) ∙ h)
]

-- The registry of the sections with other states.
abbrev pub with_states : Sections → (ℕ → EntryState) → Sections
with_states s states = record s { registry = record (s.registry) { states = states } }

-- A settled entry that is not registered.
pub unregistered-Coherent :
    (s : Sections) (e : ℕ) (x : EntryState)
    → Coherent s
    → x ≢ pending
    → ((i : ℕ) → lookup s.registry.entries i ≢ some e)
    → Coherent (with_states s (set_state s.registry.states e x))
unregistered-Coherent s e x w n gone = record {
  next = w.next;
  room = w.room;
  shut = w.shut;
  live = λ i f h.
      let (l, p, q) = w.live i f h in
      let d : e ≢ f = λ z. gone i (h ∙ ap some (sym z)) in
      (l, p, rw (set_state_other s.registry.states e f x d) q);
  waits = λ f l h. let (d, p) = still_pending s.registry.states e f x n h in w.waits f l p;
  removes = λ f h.
      let (l, q) = w.removes f h in
      (l, λ p. let (d, z) = still_pending s.registry.states e f x n p in q z);
  drains = w.drains;
}

-- A registered entry that settles with a value, and is taken off the registry.
abbrev pub taken_off : Sections → ℕ → (ℕ → EntryState) → Sections
taken_off s e states = record s {
  registry = record (s.registry) { entries = remove s.registry.entries (s.ids e); states = states };
}

pub remove-eq_some :
    (t : List (ℕ × ℕ)) (k i e : ℕ)
    → lookup (remove t k) i ≡ some e
    → (k ≢ i) × (lookup t i ≡ some e)
remove-eq_some t k i e h = elim (nat-cases k i) [
  | inl z ↦
      let gone = lookup-remove_same t k in
      let there = subst (λ j. lookup (remove t k) j ≡ some e) (sym z) h in absurd cc
  | inr d ↦ (d, sym (lookup-remove_other t k i d) ∙ h)
]

remove-shut : (t : List (ℕ × ℕ)) (k : ℕ) → t ≡ [] → remove t k ≡ []
unfolding remove
remove-shut t k h = rw h refl

-- `states` may differ at `e` alone, where it is terminal.
pub taken_off-Coherent :
    (s : Sections) (e : ℕ) (states : ℕ → EntryState)
    → Coherent s
    → ((f : ℕ) → e ≢ f → states f ≡ s.registry.states f)
    → states e ≢ pending
    → lookup s.registry.entries (s.ids e) ≡ some e
    → Coherent (taken_off s e states)
taken_off-Coherent s e states w same n there = record {
  next = w.next;
  room =
      let r = w.room in let l = length-remove s.registry.entries (s.ids e) in omega (arith, r, l);
  shut = λ c. remove-shut s.registry.entries (s.ids e) (w.shut c);
  live = λ i f h.
      let (d, g) = remove-eq_some s.registry.entries (s.ids e) i f h in
      let (l, p, q) = w.live i f g in (l, p, rw (same f (λ z. d (ap s.ids z ∙ p))) q);
  waits = λ f l h.
      let (d, p) = other f h in
      elim (w.waits f l p) [
        | inl g ↦ inl (
            lookup-remove_other s.registry.entries (s.ids e) (s.ids f) (λ z. d (one_entry f z g))
            ∙ g)
        | inr g ↦ inr g
      ];
  removes = λ f h. let (l, q) = w.removes f h in (l, λ p. let (d, z) = other f p in q z);
  drains = w.drains;
}
  where
    other : (f : ℕ) → states f ≡ pending → (e ≢ f) × (s.registry.states f ≡ pending)
    other f h = let d : e ≢ f = λ z. n (ap states z ∙ h) in (d, sym (same f d) ∙ h)

    one_entry : (f : ℕ) → s.ids e ≡ s.ids f → lookup s.registry.entries (s.ids f) ≡ some f → e ≡ f
    one_entry f z g = let both = subst (λ i. lookup s.registry.entries i ≡ some e) z there in cc
