-- ===== src/Futures/Interleavings.antt =====
-- crates/hmcl-plugin-sdk/src/future.rs: overlapping calls, in any order of their sections.
use aura_rust_runtime_host.Base.{
  ℕ, suc, ◌≤◌, ◌<◌, ◌≡◌, ◌≢◌, sym, ap, ◌∙◌, false, some, ok, arith, length, Bool-cases, inl, inr,
}
use mathlib.Core.Path.{subst}
use aura_rust_runtime_host.Futures.Table.{
  lookup, lookup-insert_same, lookup-insert_other, length-insert,
}
use aura_rust_runtime_host.Futures.Registry.{
  pending, Registry, Capability, set_state, pair, max_pending_callbacks,
}
use aura_rust_runtime_host.Futures.Vacancy.{IsId}
use aura_rust_runtime_host.Futures.States.{set_state_same, set_state_other}
use aura_rust_runtime_host.Futures.Sections.{
  update, Sections, fresh, Step, paired, completed, cancel_begun, cancel_ended, drained,
  drained_cancelled, Reaches, start, after,
}
use aura_rust_runtime_host.Futures.Coherence.{
  Coherent, fresh-Coherent, update_same, update_other, nat-cases,
}
use aura_rust_runtime_host.Futures.Table.{contains_key, insert, absent-other}
use aura_rust_runtime_host.Futures.Pair.{full, pair-full, pair_open, paired-lookup}
use aura_rust_runtime_host.Futures.Pair
use aura_rust_runtime_host.Futures.Vacancy.{successor-IsId}
use aura_rust_runtime_host.Futures.Completing.{complete-Coherent}
use aura_rust_runtime_host.Futures.Cancelling.{
  begin_cancel-Coherent, end_cancel-Coherent, drain-Coherent, cancel_drained-Coherent,
}

-- The section of a `pair` that took an identifier.
abbrev with_pair : Sections → ℕ → Sections
with_pair s id = record s {
  registry = Pair.paired s.registry id;
  ids = update s.ids s.registry.allocated id;
}

with_pair-Coherent :
    (s : Sections) (id : ℕ)
    → Coherent s
    → full s.registry ≡ false
    → IsId id
    → contains_key s.registry.entries id ≡ false
    → Coherent (with_pair s id)
with_pair-Coherent s id w h i absent = record {
  next = successor-IsId id i;
  room = shorter (length-insert s.registry.entries id new);
  shut = λ c. absurd (ground arith);
  live = λ j f g. elim (paired-lookup s.registry id j f g) [
    | inl (p, q) ↦ (
      omega (arith, q),
      subst (λ k. update s.ids new id k ≡ j) q (update_same s.ids new id ∙ p),
      inl (
          subst (λ k. set_state s.registry.states new pending k ≡ pending) q
            (set_state_same s.registry.states new pending)),
    )
    | inr (_, q) ↦
        let (l, p, y) = w.live j f q in
        let d : new ≢ f = λ z. omega (arith, z) in
        (
          omega arith,
          update_other s.ids new f id d ∙ p,
          rw (set_state_other s.registry.states new f pending d) y,
        )
  ];
  waits = λ f l p. elim (nat-cases new f) [
    | inl z ↦ inl (
        subst (λ k. lookup (insert s.registry.entries id new) (update s.ids new id k) ≡ some k) z
          (ap (lookup (insert s.registry.entries id new)) (update_same s.ids new id)
            ∙ lookup-insert_same s.registry.entries id new))
    | inr d ↦
        elim (w.waits f (older f l d)
          (sym (set_state_other s.registry.states new f pending d) ∙ p)) [
            | inl g ↦ inl (
                ap (lookup (insert s.registry.entries id new)) (update_other s.ids new f id d)
                ∙ lookup-insert_other s.registry.entries id (s.ids f) new
                    (absent-other s.registry.entries id (s.ids f) f absent g)
                ∙ g)
            | inr g ↦ inr g
          ]
  ];
  removes = λ f g.
      let (l, q) = w.removes f g in
      let d : new ≢ f = λ z. omega (arith, z) in
      (omega arith, λ p. q (sym (set_state_other s.registry.states new f pending d) ∙ p));
  drains = λ f g. let (l, c) = w.drains f g in (omega arith, c);
}
  where
    new : ℕ
    new = s.registry.allocated

    older :
        (f : ℕ) → f < suc s.registry.allocated → s.registry.allocated ≢ f → f < s.registry.allocated
    older f l d = omega arith

    shorter :
        length (insert s.registry.entries id s.registry.allocated) ≤ suc (length s.registry.entries)
        → length (insert s.registry.entries id s.registry.allocated) ≤ max_pending_callbacks
    shorter m = ground arith

pair-Coherent :
    (s : Sections) (c : Capability) (next : Registry)
    → Coherent s
    → pair s.registry ≡ (ok c, next)
    → Coherent (record s { registry = next; ids = update s.ids c.entry c.id })
pair-Coherent s c next w h = elim (Bool-cases (full s.registry)) [
  | inl f ↦ let z = sym (pair-full s.registry f) ∙ h in absurd cc
  | inr f ↦
      let (id, i, absent, e) = pair_open s.registry w.next w.room f in
      let z = sym e ∙ h in
      let given : record { id = id; entry = s.registry.allocated } ≡ c = cc in
      let behind : Pair.paired s.registry id ≡ next = ap (λ x. x.1) z in
      subst (λ d. Coherent (record s { registry = next; ids = update s.ids d.entry d.id })) given
        (subst
          (λ r. Coherent (record s { registry = r; ids = update s.ids s.registry.allocated id }))
          behind (with_pair-Coherent s id w f i absent))
]

Step-Coherent : {s t : Sections} → Step s t → Coherent s → Coherent t
Step-Coherent (paired {s = s} c next h) w = pair-Coherent s c next w h
Step-Coherent (completed {s = s} e v l) w = complete-Coherent s e v w
Step-Coherent (cancel_begun {s = s} e l p) w = begin_cancel-Coherent s e w l
Step-Coherent (cancel_ended {s = s} e h) w = end_cancel-Coherent s e w h
Step-Coherent (drained {s = s}) w = drain-Coherent s w
Step-Coherent (drained_cancelled {s = s} e h) w = cancel_drained-Coherent s e w h

-- However the critical sections of pairs, completions, cancellations and closings of a new registry
-- come between one another: the registry keeps its capacity and is empty once closed, and a registered
-- entry was made, is registered under its own identifier alone, and waits, unless the cancel that won
-- it has yet to take it off. An entry that waits is registered, unless a close that drained it has yet
-- to cancel it. A cancel between its sections has settled its entry, and a close between its sections
-- has closed the registry.
pub Reaches-Coherent : (s : Sections) → Reaches fresh s → Coherent s
Reaches-Coherent _ start = fresh-Coherent
Reaches-Coherent _ (after {s} run step) = Step-Coherent step (Reaches-Coherent s run)
