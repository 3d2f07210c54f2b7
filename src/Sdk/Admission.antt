-- ===== src/Sdk/Admission.antt =====
-- crates/hmcl-plugin-sdk/src/lib.rs: what the leases of a context promise.
use aura_rust_runtime_host.Base.{
  ℕ, ◌+◌, ◌-◌, ◌≤◌, ◌<◌, ◌≡◌, ◌≢◌, ◌⊎◌, refl, sym, true, false, Option, none, some, List, ok, err,
  ◌==◌, arith, Bool-cases, inl, inr,
}
use mathlib.Core.Path.{subst}
use aura_rust_runtime_host.Codec.Errors.{Error_new, unavailable}
use aura_rust_runtime_host.Futures.Table.{lookup, contains_key}
use aura_rust_runtime_host.Sdk.Leases.{
  usize_max, HostState, new_host, or_zero, depth_of, grant, lease, lower, drop_from, drop_lease,
  refuse_leases, is_quiesced,
}
use aura_rust_runtime_host.Sdk.Depths.{
  total, IsDepths, total-remove, remove-IsDepths, insert-IsDepths, total-insert, depth_of-total,
  contains_key-depth_of, total-eq_zero,
}

-- The count is the sum of what the threads hold.
pub record Sound (s : HostState) : Type 0 where
  pub entries : IsDepths s.depths
  pub count : s.in_flight ≡ total s.depths
  pub bounded : s.in_flight ≤ usize_max

-- One step of some thread.
pub data Step : HostState → HostState → Type 0 where
  leased : {s t : HostState} (thread : ℕ) → lease s thread ≡ ok t → Step s t
  dropped : {s t : HostState} (thread : ℕ) → drop_lease s thread ≡ some t → Step s t
  shut : {s : HostState} → Step s (refuse_leases s)

pub data Reaches : HostState → HostState → Type 0 where
  start : {s : HostState} → Reaches s s
  after : {r s t : HostState} → Reaches r s → Step s t → Reaches r t

pub new_host-Sound : Sound new_host
unfolding new_host IsDepths total
new_host-Sound = record { entries = tt; count = refl; bounded = omega arith }

-- A lease that is granted: the context is active or the thread holds one, and the count has room.
pub lease-eq_ok :
    (s t : HostState) (thread : ℕ)
    → Sound s
    → lease s thread ≡ ok t
    → (s.active ≡ true ⊎ 0 < depth_of s.depths thread)
      × (s.in_flight ≢ usize_max)
      × (t ≡ grant s thread)
unfolding lease
lease-eq_ok s t thread w h = elim (Bool-cases (s.in_flight == usize_max)) [
  | inl full ↦ absurd (ground arith)
  | inr room ↦ elim (Bool-cases s.active) [
    | inl e ↦ let z = rw (e, room) at h in (inl e, (λ q. absurd (ground arith)), cc)
    | inr e ↦ elim (Bool-cases (contains_key s.depths thread)) [
      | inl f ↦
          let z = rw (e, f, room) at h in
          (
            inr (contains_key-depth_of s.depths thread w.entries f),
            (λ q. absurd (ground arith)),
            cc,
          )
      | inr f ↦ absurd (ground arith)
    ]
  ]
]

pub grant-Sound :
    (s : HostState) (thread : ℕ) → Sound s → s.in_flight ≢ usize_max → Sound (grant s thread)
unfolding grant
grant-Sound s thread w room =
    let sum = total-insert s.depths thread (depth_of s.depths thread + 1) w.entries in
    let c = w.count in
    let b = w.bounded in
    record {
      entries =
          insert-IsDepths s.depths thread (depth_of s.depths thread + 1) (omega arith) w.entries;
      count = omega arith;
      bounded = omega arith;
    }

lower-IsDepths :
    (t : List (ℕ × ℕ)) (thread depth : ℕ) → 0 < depth → IsDepths t → IsDepths (lower t thread depth)
unfolding lower
lower-IsDepths t thread depth h w = elim (Bool-cases (depth == 1)) [
  | inl e ↦ rw e (remove-IsDepths t thread w)
  | inr e ↦ rw e (insert-IsDepths t thread (depth - 1) (ground arith) w)
]

total-lower :
    (t : List (ℕ × ℕ)) (thread : ℕ)
    → IsDepths t
    → 0 < depth_of t thread
    → total (lower t thread (depth_of t thread)) + 1 ≡ total t
unfolding lower
total-lower t thread w h =
    let a = total-remove t thread w in
    let b = total-insert t thread (depth_of t thread - 1) w in
    elim (Bool-cases (depth_of t thread == 1)) [
      | inl e ↦ rw e (ground arith)
      | inr e ↦ rw e (ground arith)
    ]

-- What the drop leaves.
unfoldable pub dropped_state : HostState → ℕ → HostState
unfolding lower depth_of
dropped_state s thread = record s {
  in_flight = s.in_flight - 1;
  depths = lower s.depths thread (depth_of s.depths thread);
}

drop_from-eq_some :
    (s t : HostState) (thread : ℕ) (found : Option ℕ)
    → drop_from s thread found ≡ some t
    → (0 < or_zero found)
      × (t ≡ record s {
        in_flight = s.in_flight - 1;
        depths = lower s.depths thread (or_zero found);
      })
unfolding drop_from
drop_from-eq_some s t thread none h = cc
drop_from-eq_some s t thread (some d) h = elim (Bool-cases (d == 0)) [
  | inl e ↦ absurd (ground arith)
  | inr e ↦ elim (Bool-cases (s.in_flight == 0)) [
    | inl f ↦ let z = rw (e, f) at h in cc
    | inr f ↦ let z = rw (e, f) at h in (ground arith, cc)
  ]
]

pub drop_lease-eq_some :
    (s t : HostState) (thread : ℕ)
    → drop_lease s thread ≡ some t
    → (0 < depth_of s.depths thread) × (t ≡ dropped_state s thread)
unfolding drop_lease depth_of dropped_state
drop_lease-eq_some s t thread h = drop_from-eq_some s t thread (lookup s.depths thread) h

drop_from-held :
    (s : HostState) (thread : ℕ) (found : Option ℕ)
    → 0 < or_zero found
    → 0 < s.in_flight
    → drop_from s thread found
      ≡ some
          (record s { in_flight = s.in_flight - 1; depths = lower s.depths thread (or_zero found) })
unfolding drop_from
drop_from-held s thread none h k = absurd (omega arith)
drop_from-held s thread (some d) h k = ground arith

dropped_state-Sound :
    (s : HostState) (thread : ℕ)
    → Sound s
    → 0 < depth_of s.depths thread
    → Sound (dropped_state s thread)
unfolding dropped_state
dropped_state-Sound s thread w h =
    let sum = total-lower s.depths thread w.entries h in
    let c = w.count in
    let b = w.bounded in
    record {
      entries = lower-IsDepths s.depths thread (depth_of s.depths thread) h w.entries;
      count = omega arith;
      bounded = omega arith;
    }

-- A thread that holds a lease drops it without a panic, whatever the admission, and the state stays
-- sound.
pub drop_lease-held :
    (s : HostState) (thread : ℕ)
    → Sound s
    → 0 < depth_of s.depths thread
    → (t : HostState) × (drop_lease s thread ≡ some t) × Sound t
unfolding drop_lease depth_of dropped_state
drop_lease-held s thread w h =
    let some_in_flight : 0 < s.in_flight =
      let c = w.count in let m = depth_of-total s.depths thread w.entries in omega arith in
    (
      dropped_state s thread,
      drop_from-held s thread (lookup s.depths thread) h some_in_flight,
      dropped_state-Sound s thread w h,
    )

Step-Sound : {s t : HostState} → Step s t → Sound s → Sound t
unfolding refuse_leases
Step-Sound {s} {t} (leased thread h) w =
    let (admitted, room, e) = lease-eq_ok s t thread w h in
    subst Sound (sym e) (grant-Sound s thread w room)
Step-Sound {s} {t} (dropped thread h) w =
    let (held, e) = drop_lease-eq_some s t thread h in
    subst Sound (sym e) (dropped_state-Sound s thread w held)
Step-Sound shut w = record { entries = w.entries; count = w.count; bounded = w.bounded }

pub Reaches-Sound : {s t : HostState} → Reaches s t → Sound s → Sound t
Reaches-Sound start w = w
Reaches-Sound (after run step) w = Step-Sound step (Reaches-Sound run w)

-- In every state that a new context reaches, the number in flight is the sum of the leases that the
-- threads hold, each thread has at most one entry, none of them zero.
pub Reaches-new_host : (s : HostState) → Reaches new_host s → Sound s
Reaches-new_host s run = Reaches-Sound run new_host-Sound

-- The state in which the wait of `deactivate` ends.
abbrev pub Over : HostState → Type 0
Over s = (s.active ≡ false) × (is_quiesced s ≡ true)

pub Over-lease :
    (s : HostState) (thread : ℕ) → Sound s → Over s → lease s thread ≡ err (Error_new unavailable)
unfolding lease is_quiesced
Over-lease s thread w (a, q) =
    let e = total-eq_zero s.depths w.entries (let c = w.count in ground arith) in
    let f : contains_key s.depths thread ≡ false = rw e refl in rw (a, f) refl

pub Over-drop_lease : (s : HostState) (thread : ℕ) → Sound s → Over s → drop_lease s thread ≡ none
unfolding drop_lease drop_from lookup is_quiesced
Over-drop_lease s thread w (a, q) =
    let e = total-eq_zero s.depths w.entries (let c = w.count in ground arith) in rw e refl
