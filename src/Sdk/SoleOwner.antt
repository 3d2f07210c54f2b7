-- ===== src/Sdk/SoleOwner.antt =====
-- crates/hmcl-plugin-sdk/src/lib.rs: when a shutdown owns its session alone.
use aura_rust_runtime_host.Base.{
  ◌+◌, ◌<◌, ◌≡◌, ◌≢◌, refl, sym, ◌∙◌, Bool, true, false, some, ◌==◌, arith, Bool-cases, inl, inr,
}
use mathlib.Core.Path.{subst}
use aura_rust_runtime_host.Sdk.Leases.{usize_max}
use aura_rust_runtime_host.Sdk.Sessions.{
  Stage, running, waiting, unwrapping, owned, abandoned, Session, new_session, admit, keep_clone,
  enter, drop_clone, leave, block, wake, take_session, finish_wait, try_unwrap,
}

-- One step of one thread. A drop is a step of a lease that is there.
pub data Step : Session → Session → Type 0 where
  entered : {s t : Session} → enter s ≡ some t → Step s t
  clone_dropped : {s : Session} → 0 < s.holding → Step s (drop_clone s)
  left : {s : Session} → 0 < s.leaving → Step s (leave s)
  taken : {s : Session} → s.installed ≡ true → Step s (take_session s)
  blocked : {s t : Session} → s.stage ≡ waiting → s.asleep ≡ false → block s ≡ some t → Step s t
  woken : {s : Session} → Step s (wake s)
  waited :
      {s t : Session} → s.stage ≡ waiting → s.asleep ≡ false → finish_wait s ≡ some t → Step s t
  unwrapped : {s : Session} → s.stage ≡ unwrapping → Step s (try_unwrap s)

pub data Reaches : Session → Session → Type 0 where
  start : {s : Session} → Reaches s s
  after : {r s t : Session} → Reaches r s → Step s t → Reaches r t

-- What `stage` says of the slot, the gate and the owners besides the invocations.
unfoldable pub IsStage : Stage → Session → Type 0
IsStage running s = (s.installed ≡ true) × (s.accepting ≡ true) × (s.owners ≡ s.holding + 1)
IsStage waiting s = (s.installed ≡ false) × (s.accepting ≡ false) × (s.owners ≡ s.holding + 1)
IsStage unwrapping s =
    (s.installed ≡ false) × (s.accepting ≡ false) × (s.owners ≡ 1) × (s.in_flight ≡ 0)
IsStage owned s = (s.installed ≡ false) × (s.accepting ≡ false) × (s.owners ≡ 1) × (s.in_flight ≡ 0)
IsStage abandoned s = ⊥

pub record Sound (s : Session) : Type 0 where
  pub count : s.in_flight ≡ s.holding + s.leaving
  pub stands : IsStage s.stage s
  pub slept : s.asleep ≡ true → 0 < s.in_flight

new_session-Sound : Sound new_session
unfolding new_session IsStage
new_session-Sound = record { count = refl; stands = (refl, refl, refl); slept = λ e. absurd cc }

pub enter-eq_some :
    (s t : Session)
    → enter s ≡ some t
    → (s.installed ≡ true)
      × (t ≡ record s {
        in_flight = s.in_flight + 1;
        owners = s.owners + 1;
        holding = s.holding + 1;
      })
unfolding enter admit keep_clone
enter-eq_some s t h = elim (Bool-cases s.installed) [
  | inr e ↦ absurd (ground arith)
  | inl e ↦ elim (Bool-cases s.accepting) [
    | inr f ↦ absurd (ground arith)
    | inl f ↦ elim (Bool-cases (s.in_flight == usize_max)) [
      | inl g ↦ let z = rw (e, f, g) at h in cc
      | inr g ↦ let z = rw (e, f, g) at h in (e, cc)
    ]
  ]
]

pub finish_wait-eq_some :
    (s t : Session)
    → finish_wait s ≡ some t
    → (s.in_flight ≡ 0) × (t ≡ record s { stage = unwrapping })
unfolding finish_wait
finish_wait-eq_some s t h = elim (Bool-cases (s.in_flight == 0)) [
  | inl e ↦ let z = rw e at h in (ground arith, cc)
  | inr e ↦ let z = rw e at h in cc
]

block-eq_some :
    (s t : Session) → block s ≡ some t → (0 < s.in_flight) × (t ≡ record s { asleep = true })
unfolding block
block-eq_some s t h = elim (Bool-cases (s.in_flight == 0)) [
  | inl e ↦ let z = rw e at h in absurd cc
  | inr e ↦ let z = rw e at h in (ground arith, cc)
]

enter-Stage :
    (g : Stage) (s : Session)
    → s.installed ≡ true
    → IsStage g s
    → IsStage g
        (record s { in_flight = s.in_flight + 1; owners = s.owners + 1; holding = s.holding + 1 })
unfolding IsStage
enter-Stage running s e (a, b, c) = (a, b, omega arith)
enter-Stage waiting s e (a, b, c) = absurd (ground arith)
enter-Stage unwrapping s e (a, b, c, d) = absurd (ground arith)
enter-Stage owned s e (a, b, c, d) = absurd (ground arith)
enter-Stage abandoned s e w = w

drop_clone-Stage :
    (g : Stage) (s : Session)
    → 0 < s.holding
    → s.in_flight ≡ s.holding + s.leaving
    → IsStage g s
    → IsStage g (drop_clone s)
unfolding IsStage drop_clone
drop_clone-Stage running s h k (a, b, c) = (a, b, omega arith)
drop_clone-Stage waiting s h k (a, b, c) = (a, b, omega arith)
drop_clone-Stage unwrapping s h k (a, b, c, d) = absurd (omega arith)
drop_clone-Stage owned s h k (a, b, c, d) = absurd (omega arith)
drop_clone-Stage abandoned s h k w = w

leave-Stage :
    (g : Stage) (s : Session)
    → 0 < s.leaving
    → s.in_flight ≡ s.holding + s.leaving
    → IsStage g s
    → IsStage g (leave s)
unfolding IsStage leave
leave-Stage running s h k (a, b, c) = (a, b, c)
leave-Stage waiting s h k (a, b, c) = (a, b, c)
leave-Stage unwrapping s h k (a, b, c, d) = absurd (omega arith)
leave-Stage owned s h k (a, b, c, d) = absurd (omega arith)
leave-Stage abandoned s h k w = w

asleep-Stage :
    (g : Stage) (s : Session) (b : Bool) → IsStage g s → IsStage g (record s { asleep = b })
unfolding IsStage
asleep-Stage running s b w = w
asleep-Stage waiting s b w = w
asleep-Stage unwrapping s b w = w
asleep-Stage owned s b w = w
asleep-Stage abandoned s b w = w

take_session-Stage :
    (g : Stage) (s : Session) → s.installed ≡ true → IsStage g s → IsStage waiting (take_session s)
unfolding IsStage take_session
take_session-Stage running s h (a, b, c) = (refl, refl, c)
take_session-Stage waiting s h (a, b, c) = absurd (ground arith)
take_session-Stage unwrapping s h (a, b, c, d) = absurd (ground arith)
take_session-Stage owned s h (a, b, c, d) = absurd (ground arith)
take_session-Stage abandoned s h w = absurd w

pub Step-Sound : {s t : Session} → Step s t → Sound s → Sound t
unfolding drop_clone leave wake take_session try_unwrap IsStage
Step-Sound {s} {t} (entered h) w =
    let (e, q) = enter-eq_some s t h in
    let c = w.count in
    subst Sound (sym q) (record {
      count = omega arith;
      stands = enter-Stage s.stage s e w.stands;
      slept = λ a. omega arith;
    })
Step-Sound {s} (clone_dropped h) w =
    let c = w.count in
    record {
      count = omega arith;
      stands = drop_clone-Stage s.stage s h c w.stands;
      slept = w.slept;
    }
Step-Sound {s} (left h) w =
    let c = w.count in
    record {
      count = omega arith;
      stands = leave-Stage s.stage s h c w.stands;
      slept = λ a. ground arith;
    }
Step-Sound {s} {t} (blocked e f h) w =
    let (z, q) = block-eq_some s t h in
    subst Sound (sym q)
      (record { count = w.count; stands = asleep-Stage s.stage s true w.stands; slept = λ a. z })
Step-Sound {s} woken w = record {
  count = w.count;
  stands = asleep-Stage s.stage s false w.stands;
  slept = λ a. absurd cc;
}
Step-Sound {s} (taken h) w = record {
  count = w.count;
  stands = take_session-Stage s.stage s h w.stands;
  slept = w.slept;
}
Step-Sound {s} {t} (waited e f h) w =
    let (z, q) = finish_wait-eq_some s t h in
    let c = w.count in
    let (a, b, d) : IsStage waiting s = subst (λ g. IsStage g s) e w.stands in
    subst Sound (sym q) (record {
      count = c;
      stands = (a, b, omega arith, z);
      slept = λ i. absurd (sleepless (sym f ∙ i));
    })
  where
    sleepless : false ≢ true
    sleepless i = cc
Step-Sound {s} (unwrapped e) w =
    let (a, b, c, d) : IsStage unwrapping s = subst (λ g. IsStage g s) e w.stands in
    let sole : (s.owners == 1) ≡ true = ground arith in
    record { count = w.count; stands = rw sole (a, b, c, d); slept = w.slept }

pub Reaches-Sound : {s t : Session} → Reaches s t → Sound s → Sound t
Reaches-Sound start w = w
Reaches-Sound (after run step) w = Step-Sound step (Reaches-Sound run w)

pub Reaches-new_session : (s : Session) → Reaches new_session s → Sound s
Reaches-new_session s run = Reaches-Sound run new_session-Sound
