-- ===== src/Futures/History.antt =====
-- crates/hmcl-plugin-sdk/src/future.rs: a registry that is in use, and the calls
-- on it, one after another.
use aura_rust_runtime_host.Base.{◌≡◌, ◌≢◌, refl, sym, ap, ◌∙◌, true, none, Result, arith, inl, inr}
use aura_rust_runtime_host.Codec.Errors.{Error}
use aura_rust_runtime_host.Codec.Values.{Value}
use aura_rust_runtime_host.Futures.Table.{lookup}
use aura_rust_runtime_host.Futures.Registry.{
  EntryState, pending, complete, cancelled_state, Registry, Capability, pair, close,
  Callback_complete, poll, poll_state, cancel,
}
use mathlib.Core.Path.{subst}
use aura_rust_runtime_host.Futures.States.{Sound, Issued, cancel_all_terminal, cancel_all-lookup}
use aura_rust_runtime_host.Futures.Pair.{pair-Sound, pair-Issued}
use aura_rust_runtime_host.Futures.Settle.{
  settled-Sound, settled-Issued, complete_waiting, complete_terminal, cancel_waiting,
  cancel_terminal, EntryState-cases,
}

close-Sound : (r : Registry) → Sound r → Sound (close r)
unfolding close lookup
close-Sound r w = record {
  next = w.next;
  room = omega arith;
  shut = λ p. refl;
  live = λ i e h. absurd cc;
  once = λ i j e h k. absurd cc;
}

close-Issued : (r : Registry) (c : Capability) → Issued r c → Issued (close r) c
unfolding close
close-Issued r c k = record {
  made = k.made;
  waits = λ p. elim (EntryState-cases (r.states c.entry)) [
    | inl q ↦ absurd (cancel_all-lookup r.entries r.states c.id c.entry (k.waits q) p)
    | inr q ↦ absurd (q (sym (cancel_all_terminal r.entries r.states c.entry q) ∙ p))
  ];
}

pub poll_state-none : (x : EntryState) → poll_state x ≡ none → x ≡ pending
unfolding poll_state
poll_state-none pending h = refl
poll_state-none (complete v) h = cc
poll_state-none cancelled_state h = cc

-- No future that a sound registry gave out waits behind `close`.
pub close-poll : (r : Registry) (c : Capability) → Sound r → Issued r c → poll (close r) c ≢ none
unfolding close poll
close-poll r c w k h = elim (EntryState-cases (r.states c.entry)) [
  | inl q ↦ cancel_all-lookup r.entries r.states c.id c.entry (k.waits q) (poll_state-none _ h)
  | inr q ↦ q (sym (cancel_all_terminal r.entries r.states c.entry q) ∙ poll_state-none _ h)
]

-- One call on a live registry, with a capability that it gave out.
pub data Step : Registry → Registry → Type 0 where
  paired : {r : Registry} → Step r (pair r).1
  completed :
      {r : Registry} (c : Capability) (v : Result Error Value)
      → Issued r c
      → Step r (Callback_complete true r c v).1
  cancelled_one : {r : Registry} (c : Capability) → Issued r c → Step r (cancel r c).1
  closed_all : {r : Registry} → Step r (close r)

pub data Reaches : Registry → Registry → Type 0 where
  start : {r : Registry} → Reaches r r
  after : {r s t : Registry} → Reaches r s → Step s t → Reaches r t

complete-Sound :
    (r : Registry) (c : Capability) (v : Result Error Value)
    → Sound r
    → Issued r c
    → Sound (Callback_complete true r c v).1
complete-Sound r c v w k = elim (EntryState-cases (r.states c.entry)) [
  | inl p ↦
      subst Sound (sym (ap (λ x. x.1) (complete_waiting r c v w k p)))
        (settled-Sound r c (complete v) w (k.waits p))
  | inr n ↦ let (e, p) = complete_terminal true r c v n in subst Sound (sym (ap (λ x. x.1) p)) w
]

cancel-Sound : (r : Registry) (c : Capability) → Sound r → Issued r c → Sound (cancel r c).1
cancel-Sound r c w k = elim (EntryState-cases (r.states c.entry)) [
  | inl p ↦
      subst Sound (sym (ap (λ x. x.1) (cancel_waiting r c k p)))
        (settled-Sound r c cancelled_state w (k.waits p))
  | inr n ↦ subst Sound (sym (ap (λ x. x.1) (cancel_terminal r c n))) w
]

step-Sound : {r s : Registry} → Step r s → Sound r → Sound s
step-Sound (paired {r = r}) w = pair-Sound r w
step-Sound (completed {r = r} c v k) w = complete-Sound r c v w k
step-Sound (cancelled_one {r = r} c k) w = cancel-Sound r c w k
step-Sound (closed_all {r = r}) w = close-Sound r w

-- A registry that a sound one reaches by calls that follow one another is sound: the registered entries
-- are those that wait, each under one identifier, and never more than the capacity.
pub Reaches-Sound : (r s : Registry) → Sound r → Reaches r s → Sound s
Reaches-Sound r _ w start = w
Reaches-Sound r _ w (after h t) = step-Sound t (Reaches-Sound r _ w h)

complete-Issued :
    (r : Registry) (c : Capability) (v : Result Error Value) (d : Capability)
    → Sound r
    → Issued r c
    → Issued r d
    → Issued (Callback_complete true r c v).1 d
complete-Issued r c v d w k l = elim (EntryState-cases (r.states c.entry)) [
  | inl p ↦
      subst (λ x. Issued x d) (sym (ap (λ x. x.1) (complete_waiting r c v w k p)))
        (settled-Issued r c (complete v) d w (λ m. cc) (k.waits p) l)
  | inr n ↦
      let (e, p) = complete_terminal true r c v n in
      subst (λ x. Issued x d) (sym (ap (λ x. x.1) p)) l
]

cancel-Issued :
    (r : Registry) (c d : Capability) → Sound r → Issued r c → Issued r d → Issued (cancel r c).1 d
cancel-Issued r c d w k l = elim (EntryState-cases (r.states c.entry)) [
  | inl p ↦
      subst (λ x. Issued x d) (sym (ap (λ x. x.1) (cancel_waiting r c k p)))
        (settled-Issued r c cancelled_state d w (λ m. cc) (k.waits p) l)
  | inr n ↦ subst (λ x. Issued x d) (sym (ap (λ x. x.1) (cancel_terminal r c n))) l
]

step-Issued : {r s : Registry} (d : Capability) → Step r s → Sound r → Issued r d → Issued s d
step-Issued d (paired {r = r}) w l = pair-Issued r d w l
step-Issued d (completed {r = r} c v k) w l = complete-Issued r c v d w k l
step-Issued d (cancelled_one {r = r} c k) w l = cancel-Issued r c d w k l
step-Issued d (closed_all {r = r}) w l = close-Issued r d l

pub Reaches-Issued :
    (r s : Registry) (d : Capability) → Sound r → Issued r d → Reaches r s → Issued s d
Reaches-Issued r _ d w l start = l
Reaches-Issued r _ d w l (after h t) =
    step-Issued d t (Reaches-Sound r _ w h) (Reaches-Issued r _ d w l h)
