-- ===== src/Futures/States.antt =====
-- crates/hmcl-plugin-sdk/src/future.rs: what a registry maintains, and what its callers hold.
use aura_rust_runtime_host.Base.{
  ℕ, ◌≤◌, ◌<◌, ◌≡◌, ◌≢◌, refl, sym, ap, ◌∙◌, true, some, List, [], ◌∷◌, ◌==◌, arith, length,
  Bool-cases, inl, inr,
}
use aura_rust_runtime_host.Futures.Table.{lookup}
use aura_rust_runtime_host.Futures.Registry.{
  EntryState, pending, complete, cancelled_state, Registry, Registry_new, Capability, set_state,
  cancel_pending, cancel_all, max_pending_callbacks,
}
use aura_rust_runtime_host.Futures.Vacancy.{IsId}

-- Registered entries are those that still wait, each under one identifier, within the capacity.
pub record Sound (r : Registry) : Type 0 where
  pub next : IsId r.next_id
  pub room : length r.entries ≤ max_pending_callbacks
  pub shut : r.closed ≡ true → r.entries ≡ []
  pub live : (id e : ℕ) → lookup r.entries id ≡ some e → (e < r.allocated) × (r.states e ≡ pending)
  pub once : (i j e : ℕ) → lookup r.entries i ≡ some e → lookup r.entries j ≡ some e → i ≡ j

-- A capability that `pair` gave out: while its entry waits, it is the one registered.
pub record Issued (r : Registry) (c : Capability) : Type 0 where
  pub made : c.entry < r.allocated
  pub waits : r.states c.entry ≡ pending → lookup r.entries c.id ≡ some c.entry

pub Registry_new-Sound : Sound Registry_new
unfolding lookup
Registry_new-Sound = record {
  next = omega arith;
  room = omega arith;
  shut = λ h. refl;
  live = λ id e h. absurd cc;
  once = λ i j e h k. absurd cc;
}

pub set_state_same : (s : ℕ → EntryState) (e : ℕ) (x : EntryState) → set_state s e x e ≡ x
unfolding set_state
set_state_same s e x = ground arith

pub set_state_other :
    (s : ℕ → EntryState) (e other : ℕ) (x : EntryState)
    → e ≢ other
    → set_state s e x other ≡ s other
unfolding set_state
set_state_other s e other x h = ground arith

-- What the loop of `close` leaves of a state that was terminal.
pub cancel_all_terminal :
    (t : List (ℕ × ℕ)) (s : ℕ → EntryState) (e : ℕ) → s e ≢ pending → cancel_all t s e ≡ s e
unfolding cancel_all
cancel_all_terminal [] s e h = refl
cancel_all_terminal ((id, f) ∷ t) s e h =
    let same = one_terminal s f e h in
    cancel_all_terminal t (set_state s f (cancel_pending (s f))) e (rw same h) ∙ same
  where
    keeps : (x : EntryState) → x ≢ pending → cancel_pending x ≡ x
    keeps pending h = absurd (h refl)
    keeps (complete v) h = refl
    keeps cancelled_state h = refl

    one_terminal :
        (s : ℕ → EntryState) (f e : ℕ)
        → s e ≢ pending
        → set_state s f (cancel_pending (s f)) e ≡ s e
    one_terminal s f e h = elim (Bool-cases (f == e)) [
      | inl p ↦
          let q : f ≡ e = ground arith in
          rw q (set_state_same s e (cancel_pending (s e)) ∙ keeps (s e) h)
      | inr p ↦ set_state_other s f e (cancel_pending (s f)) (ground arith)
    ]

pub cancel_pending-terminal : (x : EntryState) → cancel_pending x ≢ pending
cancel_pending-terminal pending h = cc
cancel_pending-terminal (complete v) h = cc
cancel_pending-terminal cancelled_state h = cc

-- No drained entry waits any more.
pub cancel_all-lookup :
    (t : List (ℕ × ℕ)) (s : ℕ → EntryState) (id e : ℕ)
    → lookup t id ≡ some e
    → cancel_all t s e ≢ pending
unfolding cancel_all lookup
cancel_all-lookup [] s id e h p = cc
cancel_all-lookup ((k, f) ∷ t) s id e h p = elim (Bool-cases (k == id)) [
  | inr away ↦ cancel_all-lookup t _ id e (rw away at h) p
  | inl here ↦
      let q : f ≡ e = ground arith in
      let gone : set_state s f (cancel_pending (s f)) e ≢ pending = λ m.
        cancel_pending-terminal (s f) (
          sym (set_state_same s f (cancel_pending (s f)))
          ∙ ap (set_state s f (cancel_pending (s f))) q
          ∙ m) in
      gone (sym (cancel_all_terminal t (set_state s f (cancel_pending (s f))) e gone) ∙ p)
]
