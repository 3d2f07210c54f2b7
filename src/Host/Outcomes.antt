-- ===== src/Host/Outcomes.antt =====
-- crates/hmcl-rust-host-native/src/embedded.rs: the table of a payload's states.
use aura_rust_runtime_host.Base.{ℕ, ◌≡◌, Bool, true, false, Option, none, some, Result, ok, err}
use aura_rust_runtime_host.Abi.Statuses.{Status, is_ok}
use aura_rust_runtime_host.Abi.Tables.{HostTable}
use aura_rust_runtime_host.Host.Errors.{HostError}
use aura_rust_runtime_host.Host.Buffers.{HostCallbacks}
use aura_rust_runtime_host.Host.Payload.{
  PayloadState, loaded, enabled, disabled, shutdown_failed, shut_down, Payload, Called, enable_at,
  disable_at, shutdown_for_unload_at, force_shutdown_at,
}

-- What a callback of the plugin answers: it is missing, or its status is `Ok` or another one.
pub data Answer : Type 0 where
  missing accepted refused : Answer

-- Whether a call succeeds, and the state it leaves the payload in.
abbrev pub Outcome : Type 0
Outcome = Bool × PayloadState

-- `enable`, by the state and the answer of `initialize`.
abbrev pub enable_table : PayloadState → Answer → Outcome
enable_table loaded accepted = (true, enabled)
enable_table loaded refused = (false, loaded)
enable_table loaded missing = (false, loaded)
enable_table disabled answer = (true, enabled)
enable_table enabled answer = (true, enabled)
enable_table shutdown_failed answer = (false, shutdown_failed)
enable_table shut_down answer = (false, shut_down)

abbrev pub disable_table : PayloadState → Outcome
disable_table loaded = (false, loaded)
disable_table enabled = (true, disabled)
disable_table disabled = (true, disabled)
disable_table shutdown_failed = (false, shutdown_failed)
disable_table shut_down = (false, shut_down)

-- The one call of the plugin's `shutdown`, in a state that it has not ended.
abbrev pub quit_table : PayloadState → Answer → Outcome
quit_table s accepted = (true, shut_down)
quit_table s refused = (false, shutdown_failed)
quit_table s missing = (false, s)

-- `shutdown_for_unload`, by the state and the answer of `shutdown`.
abbrev pub unload_table : PayloadState → Answer → Outcome
unload_table loaded answer = (true, shut_down)
unload_table enabled answer = (false, enabled)
unload_table disabled answer = quit_table disabled answer
unload_table shutdown_failed answer = (true, shut_down)
unload_table shut_down answer = (true, shut_down)

-- `force_shutdown`, by the state and the answer of `shutdown`.
abbrev pub force_table : PayloadState → Answer → Outcome
force_table loaded answer = (true, shut_down)
force_table enabled answer = quit_table enabled answer
force_table disabled answer = quit_table disabled answer
force_table shutdown_failed answer = (true, shut_down)
force_table shut_down answer = (true, shut_down)

abbrev pub succeeds : {A : Type 0} → Result HostError A → Bool
succeeds (ok a) = true
succeeds (err e) = false

abbrev pub outcome_of : {A P : Type 0} → Called P A → Outcome
outcome_of called = (succeeds called.0, called.1.0.state)

abbrev pub answer_of : Bool → Answer
answer_of true = accepted
answer_of false = refused

module _ {P : Type 0} where
  -- The answer of `initialize` to a payload in a world, and that of `shutdown`.
  abbrev pub initialize_answer :
      Payload P
      → P
      → Option
          (HostTable (HostCallbacks × P) → ℕ → ℕ → HostCallbacks × P → Status × (HostCallbacks × P))
      → Answer
  initialize_answer p world none = missing
  initialize_answer p world (some f) =
      answer_of (is_ok (f p.host_table p.host.plugin_id p.host.session (p.host, world)).0)

  abbrev pub shutdown_answer :
      Payload P → P → Option (ℕ → HostCallbacks × P → Status × (HostCallbacks × P)) → Answer
  shutdown_answer p world none = missing
  shutdown_answer p world (some f) = answer_of (is_ok (f p.host.plugin_id (p.host, world)).0)

  -- The four operations at a state, beside their tables.
  abbrev Follows : PayloadState → Payload P → P → Type 0
  Follows s p world =
      (outcome_of (enable_at s p world)
        ≡ enable_table s (initialize_answer p world p.plugin_table.initialize))
      × (outcome_of (disable_at s p world) ≡ disable_table s)
      × (outcome_of (shutdown_for_unload_at s p world)
          ≡ unload_table s (shutdown_answer p world p.plugin_table.shutdown))
      × (outcome_of (force_shutdown_at s p world)
          ≡ force_table s (shutdown_answer p world p.plugin_table.shutdown))
