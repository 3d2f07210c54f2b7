-- ===== src/Sdk/LeaseGate.antt =====
-- crates/hmcl-plugin-sdk/src/lib.rs: what the leases of a context are, without the tables: a gate
-- that knows how many leases each thread holds.
use aura_rust_runtime_host.Base.{
  ℕ, ◌+◌, ◌-◌, ◌<◌, ◌≡◌, ◌≢◌, ◌↔◌, ◌⊎◌, refl, sym, ap, ◌∙◌, Bool, true, false, List, ok, ◌==◌,
  if◌then◌else◌, arith, Bool-cases, inl, inr,
}
use mathlib.Core.Path.{subst, fun_ext}
use aura_rust_runtime_host.Futures.Table.{
  lookup, contains_key, lookup-remove_same, lookup-remove_other,
}
use aura_rust_runtime_host.Sdk.Leases.{
  HostState, new_host, depth_of, grant, lease, lower, refuse_leases, is_quiesced,
}
use aura_rust_runtime_host.Sdk.Depths.{all_zero-total, depth_of-total, depth_of-absent}
use aura_rust_runtime_host.Sdk.Admission.{
  Sound, Step, leased, dropped, shut, Reaches, start, after, dropped_state, lease-eq_ok,
  drop_lease-eq_some, Reaches-new_host,
}

pub record LeaseGate : Type 0 where
  pub is_open : Bool
  pub held : ℕ → ℕ

abbrev pub set_held : LeaseGate → ℕ → ℕ → LeaseGate
set_held g thread n = record g { held = λ t. if thread == t then n else g.held t }

-- A thread enters an open gate, or one that it is inside of. It leaves as often as it has entered.
pub data GateStep : LeaseGate → LeaseGate → Type 0 where
  entered :
      {g : LeaseGate} (thread : ℕ)
      → g.is_open ≡ true ⊎ 0 < g.held thread
      → GateStep g (set_held g thread (g.held thread + 1))
  left :
      {g : LeaseGate} (thread : ℕ)
      → 0 < g.held thread
      → GateStep g (set_held g thread (g.held thread - 1))
  closed : {g : LeaseGate} → GateStep g (record g { is_open = false })

pub data GateReaches : LeaseGate → LeaseGate → Type 0 where
  gate_start : {g : LeaseGate} → GateReaches g g
  gate_after : {f g h : LeaseGate} → GateReaches f g → GateStep g h → GateReaches f h

abbrev pub new_gate : LeaseGate
new_gate = record { is_open = true; held = λ t. 0 }

-- The gate that a state is.
abbrev pub gate_of : HostState → LeaseGate
gate_of s = record { is_open = s.active; held = depth_of s.depths }

depth_of-grant :
    (s : HostState) (thread t : ℕ)
    → depth_of (grant s thread).depths t
      ≡ (if thread == t then depth_of s.depths thread + 1 else depth_of s.depths t)
unfolding depth_of grant lookup
depth_of-grant s thread t = elim (Bool-cases (thread == t)) [
  | inl e ↦ rw e refl
  | inr e ↦
      let other : thread ≢ t = λ q. absurd (ground arith) in
      rw (e, lookup-remove_other s.depths thread t other) refl
]

depth_of-lower :
    (depths : List (ℕ × ℕ)) (thread d t : ℕ)
    → 0 < d
    → depth_of (lower depths thread d) t ≡ (if thread == t then d - 1 else depth_of depths t)
unfolding depth_of lower
depth_of-lower depths thread d t h = elim (Bool-cases (d == 1)) [
  | inl e ↦ elim (Bool-cases (thread == t)) [
    | inl f ↦
        let same : thread ≡ t = ground arith in
        rw (e, f, sym same, lookup-remove_same depths thread) (ground arith)
    | inr f ↦
        let other : thread ≢ t = λ q. absurd (ground arith) in
        rw (e, f, lookup-remove_other depths thread t other) refl
  ]
  | inr e ↦ elim (Bool-cases (thread == t)) [
    | inl f ↦ rw (e, f) refl
    | inr f ↦
        let other : thread ≢ t = λ q. absurd (ground arith) in
        rw (e, f, lookup-remove_other depths thread t other) refl
  ]
]

gate_of-grant :
    (s : HostState) (thread : ℕ)
    → gate_of (grant s thread) ≡ set_held (gate_of s) thread (depth_of s.depths thread + 1)
unfolding grant
gate_of-grant s thread =
    ap (λ f. record { is_open = s.active; held = f }) (fun_ext (depth_of-grant s thread))

gate_of-dropped_state :
    (s : HostState) (thread : ℕ)
    → 0 < depth_of s.depths thread
    → gate_of (dropped_state s thread) ≡ set_held (gate_of s) thread (depth_of s.depths thread - 1)
unfolding dropped_state
gate_of-dropped_state s thread h =
    ap (λ f. record { is_open = s.active; held = f })
      (fun_ext (λ t. depth_of-lower s.depths thread (depth_of s.depths thread) t h))

gate_of-Step : {s t : HostState} → Step s t → Sound s → GateStep (gate_of s) (gate_of t)
unfolding refuse_leases
gate_of-Step {s} {t} (leased thread h) w =
    let (admitted, room, e) = lease-eq_ok s t thread w h in
    subst (GateStep (gate_of s)) (sym (ap gate_of e ∙ gate_of-grant s thread))
      (entered thread admitted)
gate_of-Step {s} {t} (dropped thread h) w =
    let (held, e) = drop_lease-eq_some s t thread h in
    subst (GateStep (gate_of s)) (sym (ap gate_of e ∙ gate_of-dropped_state s thread held))
      (left thread held)
gate_of-Step shut w = closed

gate_of-new_host : gate_of new_host ≡ new_gate
unfolding new_host depth_of lookup
gate_of-new_host = refl

gate_of-run : {s : HostState} → Reaches new_host s → GateReaches new_gate (gate_of s)
gate_of-run start = subst (GateReaches new_gate) (sym gate_of-new_host) gate_start
gate_of-run (after run step) =
    gate_after (gate_of-run run) (gate_of-Step step (Reaches-new_host _ run))

is_quiesced-held :
    (s : HostState)
    → Reaches new_host s
    → (is_quiesced s ≡ true) ↔ ((thread : ℕ) → (gate_of s).held thread ≡ 0)
unfolding is_quiesced
is_quiesced-held s run =
    let w = Reaches-new_host s run in
    let c = w.count in
    (
      λ q thread. let m = depth_of-total s.depths thread w.entries in ground arith,
      λ f. let z = all_zero-total s.depths w.entries f in ground arith,
    )

-- Every run of the leases, from a new context, is a run of the gate that only knows how many leases
-- each thread holds: a lease that is granted is an entry that the gate allows, and a lease that is
-- dropped the departure of a thread that is inside. The wait of `deactivate` ends exactly when no
-- thread is inside of the gate.
pub gate_of-Reaches :
    (s : HostState)
    → Reaches new_host s
    → GateReaches new_gate (gate_of s)
      × ((is_quiesced s ≡ true) ↔ ((thread : ℕ) → (gate_of s).held thread ≡ 0))
gate_of-Reaches s run = (gate_of-run run, is_quiesced-held s run)

-- A thread that is inside, or that finds the gate open, is granted a lease.
pub lease-admitted :
    (s : HostState) (thread : ℕ)
    → Reaches new_host s
    → s.active ≡ true ⊎ 0 < (gate_of s).held thread
    → s.in_flight < 18446744073709551615
    → lease s thread ≡ ok (grant s thread)
unfolding lease
lease-admitted s thread run (inl a) room = rw a (ground arith)
lease-admitted s thread run (inr h) room = elim (Bool-cases (contains_key s.depths thread)) [
  | inl e ↦ rw e (ground arith)
  | inr e ↦ absurd (let z = depth_of-absent s.depths thread e in omega arith)
]
