-- ===== src/Futures/Terminal.antt =====
-- crates/hmcl-plugin-sdk/src/future.rs: a future settles once, and stays as it settled.
use aura_rust_runtime_host.Base.{
  ℕ, ◌<◌, ◌≡◌, ◌≢◌, refl, sym, ap, ◌∙◌, true, some, Result, ok, err, arith, Bool-cases, inl, inr,
}
use aura_rust_runtime_host.Codec.Errors.{Error}
use aura_rust_runtime_host.Codec.Values.{Value}
use aura_rust_runtime_host.Futures.Registry.{
  EntryState, pending, complete, cancelled_state, Registry, Capability, pair, close,
  Callback_complete, poll, poll_state, cancel,
}
use aura_rust_runtime_host.Futures.States.{
  Sound, Issued, set_state_same, set_state_other, cancel_all_terminal,
}
use aura_rust_runtime_host.Futures.Pair.{pair_open, pair-full, full}
use aura_rust_runtime_host.Futures.Settle.{
  settled, complete_waiting, complete_terminal, cancel_waiting, cancel_terminal, EntryState-cases,
}
use aura_rust_runtime_host.Futures.History.{
  Step, paired, completed, cancelled_one, closed_all, Reaches, start, after, Reaches-Sound,
  Reaches-Issued,
}

-- Settling one entry leaves the terminal ones.
settled_other :
    (r : Registry) (c : Capability) (x : EntryState) (e : ℕ)
    → r.states c.entry ≡ pending
    → r.states e ≢ pending
    → (settled r c x).states e ≡ r.states e
settled_other r c x e p n = set_state_other r.states c.entry e x (λ m. n (sym (ap r.states m) ∙ p))

module _ (e : ℕ) where
  abbrev SameAt : Registry → Registry → Type 0
  SameAt r s = s.states e ≡ r.states e

  pair-keeps : (r : Registry) → Sound r → e < r.allocated → SameAt r (pair r).1
  pair-keeps r w l = elim (Bool-cases (full r)) [
    | inl f ↦ ap (λ p. p.1.states e) (pair-full r f)
    | inr f ↦
        let (id, i, absent, q) = pair_open r w.next w.room f in
        ap (λ p. p.1.states e) q
        ∙ set_state_other r.states r.allocated e pending (λ m. omega (arith, m))
  ]

  complete-keeps :
      (r : Registry) (c : Capability) (v : Result Error Value)
      → Sound r
      → Issued r c
      → r.states e ≢ pending
      → SameAt r (Callback_complete true r c v).1
  complete-keeps r c v w k n = elim (EntryState-cases (r.states c.entry)) [
    | inl p ↦
        ap (λ x. x.1.states e) (complete_waiting r c v w k p) ∙ settled_other r c (complete v) e p n
    | inr m ↦ let (x, p) = complete_terminal true r c v m in ap (λ x. x.1.states e) p
  ]

  cancel-keeps :
      (r : Registry) (c : Capability) → Issued r c → r.states e ≢ pending → SameAt r (cancel r c).1
  cancel-keeps r c k n = elim (EntryState-cases (r.states c.entry)) [
    | inl p ↦
        ap (λ x. x.1.states e) (cancel_waiting r c k p) ∙ settled_other r c cancelled_state e p n
    | inr m ↦ ap (λ x. x.1.states e) (cancel_terminal r c m)
  ]

  close-keeps : (r : Registry) → r.states e ≢ pending → SameAt r (close r)
  unfolding close
  close-keeps r n = cancel_all_terminal r.entries r.states e n

  step-keeps :
      {r s : Registry} → Step r s → Sound r → e < r.allocated → r.states e ≢ pending → SameAt r s
  step-keeps (paired {r = r}) w l n = pair-keeps r w l
  step-keeps (completed {r = r} c v k) w l n = complete-keeps r c v w k n
  step-keeps (cancelled_one {r = r} c k) w l n = cancel-keeps r c k n
  step-keeps (closed_all {r = r}) w l n = close-keeps r n

-- A terminal entry that was given out never changes again, whatever calls follow.
pub Reaches-terminal :
    (r s : Registry) (c : Capability)
    → Sound r
    → Issued r c
    → r.states c.entry ≢ pending
    → Reaches r s
    → s.states c.entry ≡ r.states c.entry
Reaches-terminal r _ c w k n start = refl
Reaches-terminal r _ c w k n (after {s = s} h t) =
    let same = Reaches-terminal r s c w k n h in
    let there = (Reaches-Issued r s c w k h).made in
    step-keeps c.entry t (Reaches-Sound r s w h) there (λ p. n (sym same ∙ p)) ∙ same

-- A result that a future of a sound registry showed, it shows behind any calls.
pub poll-Reaches :
    (r s : Registry) (c : Capability) (v : Result Error Value)
    → Sound r
    → Issued r c
    → poll r c ≡ some v
    → Reaches r s
    → poll s c ≡ some v
unfolding poll poll_state
poll-Reaches r s c v w k h t =
    let n : r.states c.entry ≢ pending = λ p. let z = sym h ∙ ap poll_state p in cc in
    ap poll_state (Reaches-terminal r s c w k n t) ∙ h

-- Behind a completion that succeeded, on a sound registry that gave out the callback, the future shows
-- the value whatever calls follow, and a later completion fails and changes nothing.
pub Callback_complete_once :
    (r s : Registry) (c : Capability) (v u : Result Error Value)
    → Sound r
    → Issued r c
    → (Callback_complete true r c v).0 ≡ ok tt
    → Reaches (Callback_complete true r c v).1 s
    → (poll s c ≡ some v) × ((e : Error) × (Callback_complete true s c u ≡ (err e, s)))
unfolding poll poll_state
Callback_complete_once r s c v u w k h t = elim (EntryState-cases (r.states c.entry)) [
  | inr n ↦
      let (e, p) = complete_terminal true r c v n in let z = sym h ∙ ap (λ x. x.0) p in absurd cc
  | inl p ↦
      let q = complete_waiting r c v w k p in
      let here =
        Reaches-Sound r (Callback_complete true r c v).1 w (after start (completed c v k)) in
      let mine =
        Reaches-Issued r (Callback_complete true r c v).1 c w k (after start (completed c v k)) in
      let now : (Callback_complete true r c v).1.states c.entry ≡ complete v =
        ap (λ x. x.1.states c.entry) q ∙ set_state_same r.states c.entry (complete v) in
      let ever = Reaches-terminal _ s c here mine (λ m. let z = sym now ∙ m in cc) t ∙ now in
      (ap poll_state ever, complete_terminal true s c u (λ m. let z = sym ever ∙ m in cc))
]
