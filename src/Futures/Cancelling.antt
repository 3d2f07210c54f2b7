-- ===== src/Futures/Cancelling.antt =====
-- crates/hmcl-plugin-sdk/src/future.rs: the sections of `PluginFuture::cancel` and of `close`.
use aura_rust_runtime_host.Base.{
  ℕ, ◌<◌, ◌≡◌, ◌≢◌, refl, sym, ap, ◌∙◌, true, false, some, arith, Bool-cases, inl, inr,
}
use mathlib.Core.Path.{subst}
use aura_rust_runtime_host.Futures.Table.{lookup}
use aura_rust_runtime_host.Futures.Registry.{
  EntryState, pending, cancelled_state, set_state, cancel_pending, is_registered, remove_entry,
}
use aura_rust_runtime_host.Futures.States.{set_state_same, set_state_other}
use aura_rust_runtime_host.Futures.Settle.{registered}
use aura_rust_runtime_host.Futures.Sections.{
  update, Sections, capability, begin_cancel, end_cancel, drain, cancel_drained,
}
use aura_rust_runtime_host.Futures.Coherence.{
  Coherent, update_same, update_other, nat-cases, still_pending, with_states, unregistered-Coherent,
  taken_off, taken_off-Coherent, remove-eq_some,
}
use aura_rust_runtime_host.Futures.States.{cancel_pending-terminal}
use aura_rust_runtime_host.Futures.Completing.{
  is_registered-eq_true, not_registered, none_registered,
}

pub begin_cancel-Coherent :
    (s : Sections) (e : ℕ) → Coherent s → e < s.registry.allocated → Coherent (begin_cancel s e)
unfolding begin_cancel
begin_cancel-Coherent s e w made = record {
  next = w.next;
  room = w.room;
  shut = w.shut;
  live = λ i f h.
      let (l, p, q) = w.live i f h in
      (
        l,
        p,
        elim (nat-cases e f) [
          | inl z ↦ inr (
              subst
                (λ j.
                  (set_state states e cancelled_state j ≡ cancelled_state)
                  × (update s.removing e true j ≡ true))
                z (set_state_same states e cancelled_state, update_same s.removing e true))
          | inr d ↦
              rw (set_state_other states e f cancelled_state d, update_other s.removing e f true d)
                q
        ],
      );
  waits =
      λ f l h. let (d, p) = still_pending states e f cancelled_state (λ z. cc) h in w.waits f l p;
  removes = λ f h. (
    removing_made f h,
    λ p.
        let (d, z) = still_pending states e f cancelled_state (λ y. cc) p in
        let (l, q) = w.removes f (sym (update_other s.removing e f true d) ∙ h) in q z,
  );
  drains = w.drains;
}
  where
    states : ℕ → EntryState
    states = s.registry.states

    removing_made : (f : ℕ) → update s.removing e true f ≡ true → f < s.registry.allocated
    removing_made f h = elim (nat-cases e f) [
      | inl z ↦ subst (λ j. j < s.registry.allocated) z made
      | inr d ↦ (w.removes f (sym (update_other s.removing e f true d) ∙ h)).0
    ]

-- The `removing` mark of an entry that is not registered may go.
unmark_removing :
    (s : Sections) (e : ℕ)
    → Coherent s
    → ((i : ℕ) → lookup s.registry.entries i ≢ some e)
    → Coherent (record s { removing = update s.removing e false })
unmark_removing s e w gone = record {
  next = w.next;
  room = w.room;
  shut = w.shut;
  live = λ i f h.
      let (l, p, q) = w.live i f h in
      let d : e ≢ f = λ z. gone i (h ∙ ap some (sym z)) in
      (l, p, rw (update_other s.removing e f false d) q);
  waits = w.waits;
  removes = λ f h. elim (nat-cases e f) [
    | inl z ↦
        let y = subst (λ j. update s.removing e false j ≡ true) (sym z) h in
        let x = update_same s.removing e false in absurd cc
    | inr d ↦ w.removes f (sym (update_other s.removing e f false d) ∙ h)
  ];
  drains = w.drains;
}

pub end_cancel-Coherent :
    (s : Sections) (e : ℕ) → Coherent s → s.removing e ≡ true → Coherent (end_cancel s e)
unfolding end_cancel remove_entry
end_cancel-Coherent s e w h =
    let (l, n) = w.removes e h in
    elim (Bool-cases (is_registered s.registry (capability s e))) [
      | inl g ↦ rw g (
          unmark_removing (taken_off s e s.registry.states) e
            (taken_off-Coherent s e s.registry.states w (λ f d. refl) n
              (is_registered-eq_true s.registry (capability s e) g))
            (λ i z.
              let (d, y) = remove-eq_some s.registry.entries (s.ids e) i e z in
              let (k, p, q) = w.live i e y in d p))
      | inr g ↦ rw g (unmark_removing s e w (not_registered s e w g))
    ]

pub drain-Coherent : (s : Sections) → Coherent s → Coherent (drain s)
unfolding drain lookup
drain-Coherent s w = record {
  next = w.next;
  room = omega arith;
  shut = λ h. refl;
  live = λ i e h. absurd cc;
  waits = λ e l h. elim (w.waits e l h) [
    | inl g ↦ inr (rw (registered s.registry (capability s e) g) refl)
    | inr g ↦ inr (ground arith)
  ];
  removes = w.removes;
  drains = λ e h. elim (Bool-cases (is_registered s.registry (capability s e))) [
    | inl g ↦
        let (l, p, q) = w.live (s.ids e) e (is_registered-eq_true s.registry (capability s e) g) in
        (l, refl)
    | inr g ↦ ((w.drains e (ground arith)).0, refl)
  ];
}

-- The `draining` mark of a settled entry may go.
unmark_draining :
    (s : Sections) (e : ℕ)
    → Coherent s
    → s.registry.states e ≢ pending
    → Coherent (record s { draining = update s.draining e false })
unmark_draining s e w n = record {
  next = w.next;
  room = w.room;
  shut = w.shut;
  live = w.live;
  waits = λ f l h.
      let d : e ≢ f = λ z. n (ap s.registry.states z ∙ h) in
      elim (w.waits f l h) [
        | inl g ↦ inl g
        | inr g ↦ inr (update_other s.draining e f false d ∙ g)
      ];
  removes = w.removes;
  drains = λ f h. elim (nat-cases e f) [
    | inl z ↦
        let y = subst (λ j. update s.draining e false j ≡ true) (sym z) h in
        let x = update_same s.draining e false in absurd cc
    | inr d ↦ w.drains f (sym (update_other s.draining e f false d) ∙ h)
  ];
}

pub cancel_drained-Coherent :
    (s : Sections) (e : ℕ) → Coherent s → s.draining e ≡ true → Coherent (cancel_drained s e)
unfolding cancel_drained
cancel_drained-Coherent s e w h =
    let (l, c) = w.drains e h in
    let x = cancel_pending (s.registry.states e) in
    let n = cancel_pending-terminal (s.registry.states e) in
    unmark_draining (with_states s (set_state s.registry.states e x)) e
      (unregistered-Coherent s e x w n (none_registered s e w c))
      (λ z. n (sym (set_state_same s.registry.states e x) ∙ z))
