-- ===== src/Sdk/Shutdown.antt =====
-- crates/hmcl-plugin-sdk/src/lib.rs: what a shutdown may rely on.
use aura_rust_runtime_host.Base.{
  ◌<◌, ◌≡◌, ◌≢◌, ◌⊎◌, refl, sym, ap, ◌∙◌, true, false, none, some, ◌==◌, arith, Bool-cases, inl,
  inr,
}
use mathlib.Core.Path.{subst}
use aura_rust_runtime_host.Sdk.Sessions.{
  waiting, unwrapping, owned, Session, new_session, enter, drop_clone, leave, block, wake,
  finish_wait, try_unwrap,
}
use aura_rust_runtime_host.Sdk.SoleOwner.{
  Step, entered, clone_dropped, left, taken, blocked, woken, waited, unwrapped, Reaches, start,
  after, Sound, IsStage, enter-eq_some, Step-Sound, Reaches-new_session,
}

stage_facts :
    (s : Session)
    → Sound s
    → s.stage ≡ unwrapping ⊎ s.stage ≡ owned
    → (s.installed ≡ false) × (s.owners ≡ 1) × (s.in_flight ≡ 0)
unfolding IsStage
stage_facts s w (inl e) =
    let (a, b, c, d) : IsStage unwrapping s = subst (λ g. IsStage g s) e w.stands in (a, c, d)
stage_facts s w (inr e) =
    let (a, b, c, d) : IsStage owned s = subst (λ g. IsStage g s) e w.stands in (a, c, d)

-- Whenever a shutdown has waited, it is the only owner of its session: `Arc::try_unwrap` gives it the
-- plugin, and its error branch is never taken.
pub try_unwrap-stage :
    (s : Session) → Reaches new_session s → s.stage ≡ unwrapping → (try_unwrap s).stage ≡ owned
unfolding try_unwrap
try_unwrap-stage s run e =
    let (a, c, d) = stage_facts s (Reaches-new_session s run) (inl e) in
    let sole : (s.owners == 1) ≡ true = ground arith in rw sole refl

enter-shut : (s : Session) → s.installed ≡ false → enter s ≡ none
unfolding enter
enter-shut s h = rw h refl

block-stage : (s t : Session) → block s ≡ some t → t.stage ≡ s.stage
unfolding block
block-stage s t h = elim (Bool-cases (s.in_flight == 0)) [
  | inl e ↦ let z = rw e at h in absurd cc
  | inr e ↦ let z = rw e at h in cc
]

owned-Step : {s t : Session} → Step s t → Sound s → s.stage ≡ owned → t.stage ≡ owned
unfolding drop_clone leave wake
owned-Step {s} {t} (entered h) w e = let (a, q) = enter-eq_some s t h in ap (λ x. x.stage) q ∙ e
owned-Step (clone_dropped h) w e = e
owned-Step (left h) w e = e
owned-Step {s} (taken h) w e = let (a, c, d) = stage_facts s w (inr e) in absurd (ground arith)
owned-Step {s} {t} (blocked f i h) w e = block-stage s t h ∙ e
owned-Step woken w e = e
owned-Step {s} (waited f i h) w e = absurd (waiting-not_owned (sym f ∙ e))
  where
    waiting-not_owned : waiting ≢ owned
    waiting-not_owned q = cc
owned-Step {s} (unwrapped f) w e = absurd (unwrapping-not_owned (sym f ∙ e))
  where
    unwrapping-not_owned : unwrapping ≢ owned
    unwrapping-not_owned q = cc

owned-Reaches :
    {s t : Session} → Reaches s t → Sound s → s.stage ≡ owned → (t.stage ≡ owned) × Sound t
owned-Reaches start w e = (e, w)
owned-Reaches (after run step) w e =
    let (f, v) = owned-Reaches run w e in (owned-Step step v f, Step-Sound step v)

-- Once a shutdown owns the plugin, no invocation is inside of it, none has yet to leave the gate, and
-- none is admitted, then and in every state that follows.
pub owned-final :
    (s t : Session)
    → Reaches new_session s
    → s.stage ≡ owned
    → Reaches s t
    → (t.holding ≡ 0) × (t.leaving ≡ 0) × (enter t ≡ none)
owned-final s t run e more =
    let (f, w) = owned-Reaches more (Reaches-new_session s run) e in
    let (a, c, d) = stage_facts t w (inr f) in
    let n = w.count in (omega arith, omega arith, enter-shut t a)

waiting_facts : (s : Session) → Sound s → s.stage ≡ waiting → s.installed ≡ false
unfolding IsStage
waiting_facts s w e = let (a, b, c) : IsStage waiting s = subst (λ g. IsStage g s) e w.stands in a

finish_wait-zero :
    (s : Session) → s.in_flight ≡ 0 → finish_wait s ≡ some (record s { stage = unwrapping })
unfolding finish_wait
finish_wait-zero s h = ground arith

-- A shutdown whose wait is over: it is not blocked, its wait ends, and it owns the plugin then.
abbrev pub GetsPlugin : Session → Type 0
GetsPlugin s =
    (s.asleep ≡ false) × (t : Session) × (finish_wait s ≡ some t) × ((try_unwrap t).stage ≡ owned)

awake : (s : Session) → Sound s → s.in_flight ≡ 0 → s.asleep ≡ false
awake s w z = elim (Bool-cases s.asleep) [
  | inl e ↦ let l = w.slept e in absurd (omega arith)
  | inr e ↦ e
]

-- While a shutdown waits, no invocation is admitted. Either an invocation that was admitted before has
-- yet to drop its clone or to leave the gate, or the shutdown is awake, even where it had blocked on
-- the condition variable, and gets its plugin: no wake-up is lost.
pub no_lost_wakeup :
    (s : Session)
    → Reaches new_session s
    → s.stage ≡ waiting
    → (enter s ≡ none) × ((0 < s.holding) ⊎ (0 < s.leaving) ⊎ GetsPlugin s)
no_lost_wakeup s run e =
    let w = Reaches-new_session s run in
    let c = w.count in
    (
      enter-shut s (waiting_facts s w e),
      elim (Bool-cases (s.in_flight == 0)) [
        | inl q ↦
            let z : s.in_flight ≡ 0 = ground arith in
            let f = awake s w z in
            let ends = finish_wait-zero s z in
            inr (
              inr (
                f,
                record s { stage = unwrapping },
                ends,
                try_unwrap-stage (record s { stage = unwrapping }) (after run (waited e f ends))
                    refl,
              ))
        | inr q ↦ elim (Bool-cases (s.holding == 0)) [
          | inl r ↦ inr (inl (ground arith))
          | inr r ↦ inl (ground arith)
        ]
      ],
    )
