-- ===== src/Futures/Completing.antt =====
-- crates/hmcl-plugin-sdk/src/future.rs: the section of `Callback::complete`.
use aura_rust_runtime_host.Base.{
  ℕ, ◌≡◌, ◌≢◌, refl, sym, ap, ◌∙◌, true, false, not, ◌||◌, some, err, Result, arith, Bool-cases,
  inl, inr, Option-cases,
}
use mathlib.Core.Path.{subst}
use aura_rust_runtime_host.Codec.Errors.{Error, Error_new, cancelled}
use aura_rust_runtime_host.Codec.Values.{Value}
use aura_rust_runtime_host.Futures.Table.{lookup, remove}
use aura_rust_runtime_host.Futures.Registry.{
  pending, complete, cancelled_state, Registry, Capability, set_state, put_state, is_entry,
  is_registered, complete_pending, complete_at, Callback_complete,
}
use aura_rust_runtime_host.Futures.States.{set_state_same, set_state_other}
use aura_rust_runtime_host.Futures.Settle.{EntryState-cases, registered, complete_terminal}
use aura_rust_runtime_host.Futures.Sections.{Sections, capability}
use aura_rust_runtime_host.Futures.Coherence.{Coherent, unregistered-Coherent, taken_off-Coherent}

pub is_registered-eq_true :
    (r : Registry) (c : Capability)
    → is_registered r c ≡ true
    → lookup r.entries c.id ≡ some c.entry
unfolding is_registered is_entry
is_registered-eq_true r c h = elim (Option-cases (lookup r.entries c.id)) [
  | inl e ↦ let z = rw e at h in absurd cc
  | inr (f, e) ↦ let z = rw e at h in let same : f ≡ c.entry = ground arith in e ∙ ap some same
]

-- An entry that is not registered under its own identifier is registered under none.
pub not_registered :
    (s : Sections) (e : ℕ)
    → Coherent s
    → is_registered s.registry (capability s e) ≡ false
    → (i : ℕ) → lookup s.registry.entries i ≢ some e
not_registered s e w h i g =
    let (l, p, q) = w.live i e g in
    let own : lookup s.registry.entries (s.ids e) ≡ some e =
      subst (λ j. lookup s.registry.entries j ≡ some e) (sym p) g in
    let z = registered s.registry (capability s e) own in cc

pub none_registered :
    (s : Sections) (e : ℕ)
    → Coherent s
    → s.registry.closed ≡ true
    → (i : ℕ) → lookup s.registry.entries i ≢ some e
unfolding lookup
none_registered s e w c i g = let z = subst (λ t. lookup t i ≡ some e) (w.shut c) g in cc

complete_refused :
    (r : Registry) (c : Capability) (v : Result Error Value)
    → r.states c.entry ≡ pending
    → (r.closed || not (is_registered r c)) ≡ true
    → (Callback_complete true r c v).1 ≡ put_state r c cancelled_state
unfolding Callback_complete complete_at complete_pending
complete_refused r c v p g = ap (λ x. (complete_at true r c v x).1) p ∙ ap (λ x. x.1) (refused g)
  where
    refused :
        (r.closed || not (is_registered r c)) ≡ true
        → complete_pending true r c v ≡ (err (Error_new cancelled), put_state r c cancelled_state)
    refused g = rw g refl

complete_accepted :
    (r : Registry) (c : Capability) (v : Result Error Value)
    → r.states c.entry ≡ pending
    → (r.closed || not (is_registered r c)) ≡ false
    → (Callback_complete true r c v).1
      ≡ record (put_state r c (complete v)) { entries = remove r.entries c.id }
unfolding Callback_complete complete_at complete_pending
complete_accepted r c v p g = ap (λ x. (complete_at true r c v x).1) p ∙ (rw g refl)

pub complete-Coherent :
    (s : Sections) (e : ℕ) (v : Result Error Value)
    → Coherent s
    → Coherent (record s { registry = (Callback_complete true s.registry (capability s e) v).1 })
complete-Coherent s e v w =
    let r = s.registry in
    let c = capability s e in
    let at : Registry → Type 0 = λ q. Coherent (record s { registry = q }) in
    elim (EntryState-cases (r.states e)) [
      | inr n ↦ let (x, p) = complete_terminal true r c v n in subst at (sym (ap (λ z. z.1) p)) w
      | inl p ↦ elim (Bool-cases (r.closed || not (is_registered r c))) [
        | inl g ↦
            subst at (sym (complete_refused r c v p g))
              (unregistered-Coherent s e cancelled_state w (λ z. cc) (refused_gone g))
        | inr g ↦ subst at (sym (complete_accepted r c v p g)) (
            taken_off-Coherent s e (set_state r.states e (complete v)) w
              (λ f d. set_state_other r.states e f (complete v) d)
              (λ z. let y = set_state_same r.states e (complete v) in absurd cc)
              (is_registered-eq_true r c (ground arith)))
      ]
    ]
  where
    refused_gone :
        (s.registry.closed || not (is_registered s.registry (capability s e))) ≡ true
        → (i : ℕ) → lookup s.registry.entries i ≢ some e
    refused_gone g = elim (Bool-cases s.registry.closed) [
      | inl c ↦ none_registered s e w c
      | inr c ↦ not_registered s e w (ground arith)
    ]
