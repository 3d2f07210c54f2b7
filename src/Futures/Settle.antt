-- ===== src/Futures/Settle.antt =====
-- crates/hmcl-plugin-sdk/src/future.rs: completion and cancellation of one entry.
use aura_rust_runtime_host.Base.{
  ℕ, ◌≡◌, ◌≢◌, refl, sym, ap, ◌∙◌, Bool, true, false, some, Result, ok, err, ◌==◌, arith,
  Bool-cases, inl, inr, ◌⊎◌,
}
use aura_rust_runtime_host.Codec.Errors.{Error, Error_new, cancelled, callback_failed}
use aura_rust_runtime_host.Codec.Values.{Value}
use aura_rust_runtime_host.Futures.Table.{
  lookup, remove, lookup-remove_same, lookup-remove_other, length-remove,
}
use aura_rust_runtime_host.Futures.Registry.{
  EntryState, pending, complete, cancelled_state, Registry, Capability, set_state, is_registered,
  remove_entry, put_state, complete_pending, complete_at, is_entry, cancel_at, Callback_complete,
  cancel,
}
use aura_rust_runtime_host.Futures.States.{Sound, Issued, set_state_same, set_state_other}

-- Two registered entries under different identifiers are different.
lookup_apart :
    (r : Registry) (c : Capability) (i e : ℕ)
    → Sound r
    → lookup r.entries c.id ≡ some c.entry
    → lookup (remove r.entries c.id) i ≡ some e
    → (lookup r.entries i ≡ some e) × (c.entry ≢ e)
lookup_apart r c i e w h k = elim (Bool-cases (c.id == i)) [
  | inl p ↦
      let q : c.id ≡ i = ground arith in
      let gone = lookup-remove_same r.entries c.id in absurd (ground arith)
  | inr p ↦
      let q : c.id ≢ i = ground arith in
      let there = sym (lookup-remove_other r.entries c.id i q) ∙ k in
      (there, λ m. q (w.once c.id i e (h ∙ ap some m) there))
]

-- An entry that waited is given a terminal state and taken off the registry.
abbrev pub settled : Registry → Capability → EntryState → Registry
settled r c x = record r { states = set_state r.states c.entry x; entries = remove r.entries c.id }

pub settled-Sound :
    (r : Registry) (c : Capability) (x : EntryState)
    → Sound r
    → lookup r.entries c.id ≡ some c.entry
    → Sound (settled r c x)
unfolding remove
settled-Sound r c x w h = record {
  next = w.next;
  room = let m = length-remove r.entries c.id in let n = w.room in omega (arith, m, n);
  shut = λ p. ap (λ t. remove t c.id) (w.shut p);
  live = λ i e k.
      let (there, apart) = lookup_apart r c i e w h k in
      let (l, s) = w.live i e there in (l, set_state_other r.states c.entry e x apart ∙ s);
  once = λ i j e k l.
      let (a, _) = lookup_apart r c i e w h k in
      let (b, _) = lookup_apart r c j e w h l in w.once i j e a b;
}

pub settled-Issued :
    (r : Registry) (c : Capability) (x : EntryState) (d : Capability)
    → Sound r
    → x ≢ pending
    → lookup r.entries c.id ≡ some c.entry
    → Issued r d
    → Issued (settled r c x) d
settled-Issued r c x d w n h k = record {
  made = k.made;
  waits = λ p.
      let differ : c.entry ≢ d.entry → c.id ≢ d.id = λ q m.
        let z = ap (lookup r.entries) m in
        let old = k.waits (sym (set_state_other r.states c.entry d.entry x q) ∙ p) in
        q (let t = sym h ∙ z ∙ old in cc) in
      elim (Bool-cases (c.entry == d.entry)) [
        | inl e ↦
            let q : c.entry ≡ d.entry = ground arith in
            absurd (
              n (sym (set_state_same r.states c.entry x) ∙ ap (set_state r.states c.entry x) q ∙ p))
        | inr e ↦
            let q : c.entry ≢ d.entry = ground arith in
            let old = k.waits (sym (set_state_other r.states c.entry d.entry x q) ∙ p) in
            lookup-remove_other r.entries c.id d.id (differ q) ∙ old
      ];
}

pub EntryState-cases : (x : EntryState) → (x ≡ pending) ⊎ (x ≢ pending)
EntryState-cases pending = inl refl
EntryState-cases (complete v) = inr (λ h. cc)
EntryState-cases cancelled_state = inr (λ h. cc)

pub registered :
    (r : Registry) (c : Capability)
    → lookup r.entries c.id ≡ some c.entry
    → is_registered r c ≡ true
unfolding is_registered is_entry
registered r c h = ap (λ o. is_entry o c.entry) h ∙ (ground arith)

open_where_waiting :
    (r : Registry) (c : Capability)
    → Sound r
    → lookup r.entries c.id ≡ some c.entry
    → r.closed ≡ false
unfolding lookup
open_where_waiting r c w h = elim (Bool-cases r.closed) [
  | inr p ↦ p
  | inl p ↦ let z = ap (λ t. lookup t c.id) (w.shut p) in absurd (ground arith)
]

-- A waiting callback of a live registry completes: it settles its entry.
pub complete_waiting :
    (r : Registry) (c : Capability) (v : Result Error Value)
    → Sound r
    → Issued r c
    → r.states c.entry ≡ pending
    → Callback_complete true r c v ≡ (ok tt, settled r c (complete v))
unfolding Callback_complete complete_at complete_pending
complete_waiting r c v w k p =
    let h = k.waits p in
    ap (complete_at true r c v) p ∙ (rw (open_where_waiting r c w h, registered r c h) refl)

complete_at-terminal :
    (upgraded : Bool) (r : Registry) (c : Capability) (v : Result Error Value) (x : EntryState)
    → x ≢ pending
    → (e : Error) × (complete_at upgraded r c v x ≡ (err e, r))
unfolding complete_at
complete_at-terminal upgraded r c v pending n = absurd (n refl)
complete_at-terminal upgraded r c v (complete u) n = (Error_new callback_failed, refl)
complete_at-terminal upgraded r c v cancelled_state n = (Error_new cancelled, refl)

-- A callback whose entry is terminal changes nothing, and fails.
pub complete_terminal :
    (upgraded : Bool) (r : Registry) (c : Capability) (v : Result Error Value)
    → r.states c.entry ≢ pending
    → (e : Error) × (Callback_complete upgraded r c v ≡ (err e, r))
unfolding Callback_complete
complete_terminal upgraded r c v n = complete_at-terminal upgraded r c v (r.states c.entry) n

pub cancel_waiting :
    (r : Registry) (c : Capability)
    → Issued r c
    → r.states c.entry ≡ pending
    → cancel r c ≡ (true, settled r c cancelled_state)
unfolding cancel cancel_at remove_entry
cancel_waiting r c k p =
    ap (cancel_at r c) p ∙ (rw (registered (put_state r c cancelled_state) c (k.waits p)) refl)

cancel_at-terminal :
    (r : Registry) (c : Capability) (x : EntryState) → x ≢ pending → cancel_at r c x ≡ (false, r)
unfolding cancel_at
cancel_at-terminal r c pending n = absurd (n refl)
cancel_at-terminal r c (complete u) n = refl
cancel_at-terminal r c cancelled_state n = refl

pub cancel_terminal :
    (r : Registry) (c : Capability) → r.states c.entry ≢ pending → cancel r c ≡ (false, r)
unfolding cancel
cancel_terminal r c n = cancel_at-terminal r c (r.states c.entry) n
