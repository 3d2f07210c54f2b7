-- ===== src/Examples/Leases.antt =====
-- crates/hmcl-plugin-sdk/src/lib.rs: a context that two threads use, and a session that is shut down.
use aura_rust_runtime_host.Base.{ℕ, ◌≡◌, ◌↔◌, refl, true, false, some, [], ◌∷◌, ok, err}
use aura_rust_runtime_host.Codec.Errors.{Error_new, unavailable}
use aura_rust_runtime_host.Futures.Table.{lookup, contains_key, insert, remove}
use aura_rust_runtime_host.Sdk.Leases.{
  HostState, new_host, lease, grant, drop_lease, drop_from, lower, depth_of, refuse_leases,
  is_quiesced,
}
use aura_rust_runtime_host.Sdk.Admission.{Reaches, start, after, leased, dropped, shut, Over}
use aura_rust_runtime_host.Sdk.Quiescence.{Over-final}
use aura_rust_runtime_host.Sdk.LeaseGate.{GateReaches, new_gate, gate_of, gate_of-Reaches}

abbrev in_use : HostState
in_use = record { active = true; in_flight = 1; depths = (7, 1) ∷ [] }

-- Thread 7 is inside twice, thread 8 once.
abbrev nested : HostState
nested = record { active = true; in_flight = 2; depths = (7, 2) ∷ [] }

abbrev shared : HostState
shared = record { active = true; in_flight = 3; depths = (8, 1) ∷ (7, 2) ∷ [] }

abbrev finished : HostState
finished = record { active = false; in_flight = 0; depths = [] }

first_lease : lease new_host 7 ≡ ok in_use
unfolding lease new_host grant depth_of contains_key insert lookup
first_lease = refl

second_lease : lease in_use 7 ≡ ok nested
unfolding lease grant depth_of contains_key insert lookup
second_lease = refl

third_lease : lease nested 8 ≡ ok shared
unfolding lease grant depth_of contains_key insert lookup
third_lease = refl

last_drop : drop_lease (refuse_leases in_use) 7 ≡ some finished
unfolding drop_lease drop_from lower refuse_leases lookup remove
last_drop = refl

shared_run : Reaches new_host shared
shared_run =
    after (after (after start (leased 7 first_lease)) (leased 7 second_lease))
      (leased 8 third_lease)

finished_run : Reaches new_host finished
finished_run = after (after (after start (leased 7 first_lease)) shut) (dropped 7 last_drop)

finished-Over : Over finished
unfolding is_quiesced
finished-Over = (refl, refl)

Over-final_example :
    (refuse_leases finished ≡ finished)
    × (lease (refuse_leases finished) 7 ≡ err (Error_new unavailable))
Over-final_example =
    Over-final finished (refuse_leases finished) 7 finished_run finished-Over (after start shut)

gate_of-Reaches_example :
    GateReaches new_gate (gate_of shared)
    × ((is_quiesced shared ≡ true) ↔ ((thread : ℕ) → (gate_of shared).held thread ≡ 0))
gate_of-Reaches_example = gate_of-Reaches shared shared_run
