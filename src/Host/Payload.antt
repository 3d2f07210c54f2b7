-- ===== src/Host/Payload.antt =====
-- crates/hmcl-rust-host-native/src/embedded.rs: one embedded payload. The plugin's code is not
-- under the repository: its callbacks are functions, of the Host's buffers and of a world `P` that
-- stands for all they act on.
use aura_rust_runtime_host.Base.{
  ℕ, Bool, true, false, not, ◌||◌, Option, none, some, List, Result, ok, err, ltb, ◌==◌,
  if◌then◌else◌,
}
use aura_rust_runtime_host.Codec.Values.{Text}
use aura_rust_runtime_host.Abi.Statuses.{Status, is_ok}
use aura_rust_runtime_host.Abi.Buffers.{Slice, borrowed_slice, OwnedBuffer, empty_buffer}
use aura_rust_runtime_host.Abi.Tables.{
  bridge_abi_v1, plugin_api_v1_prefix_size, HostTable, PluginTable, PluginTable_required_prefix,
  Query, Filled,
}
use aura_rust_runtime_host.Host.Errors.{
  HostError, query_status, unsupported_plugin_abi, invalid_plugin_table, plugin_status,
  invalid_state, missing_query_symbol,
}
use aura_rust_runtime_host.Host.Buffers.{HostCallbacks, HostCallbacks_new, arm, take_output}

pub data PayloadState : Type 0 where
  loaded enabled disabled shutdown_failed shut_down : PayloadState

pub record Payload (P : Type 0) : Type 0 where
  pub host : HostCallbacks
  pub host_table : HostTable (HostCallbacks × P)
  pub plugin_table : PluginTable (HostCallbacks × P)
  pub state : PayloadState

-- What a call on a payload gives, and the payload and the world behind it.
abbrev pub Called : Type 0 → Type 0 → Type 0
Called P A = Result HostError A × (Payload P × P)

abbrev pub is_missing {ℓ} : {A : Type ℓ} → Option A → Bool
is_missing none = true
is_missing (some a) = false

module _ {P : Type 0} where
  -- `EmbeddedPayload::load` behind the query.
  unfoldable pub check_table :
      HostTable (HostCallbacks × P)
      → (Status × PluginTable (HostCallbacks × P)) × (HostCallbacks × P)
      → Result HostError (Payload P) × P
  check_table host_table ((status, table), (host, world)) =
      if not (is_ok status)
      then (err (query_status status), world)
      else if not (table.abi_version == bridge_abi_v1)
      then (err (unsupported_plugin_abi table.abi_version), world)
      else if ltb table.struct_size plugin_api_v1_prefix_size
          || is_missing table.initialize
          || is_missing table.invoke
          || is_missing table.shutdown
      then (err invalid_plugin_table, world)
      else (
        ok (record {
          host = arm host;
          host_table = host_table;
          plugin_table = table;
          state = loaded;
        }),
        world,
      )

  -- `found` is what the loader made of the library: its failure, or the query symbol, if there.
  unfoldable pub Payload_load :
      HostTable (HostCallbacks × P)
      → Result HostError (Option (Query (HostCallbacks × P)))
      → ℕ
      → ℕ
      → P
      → Result HostError (Payload P) × P
  unfolding check_table
  Payload_load host_table (err e) plugin_id session world = (err e, world)
  Payload_load host_table (ok none) plugin_id session world = (err missing_query_symbol, world)
  Payload_load host_table (ok (some query)) plugin_id session world = check_table host_table (
      query host_table (PluginTable_required_prefix (HostCallbacks × P))
        (HostCallbacks_new plugin_id session, world))

  -- A status that must be `Ok` for the payload to take a state.
  unfoldable pub initialized : Payload P → Status × (HostCallbacks × P) → Called P (Unit {0})
  initialized p (status, (host, world)) =
      if is_ok status
      then (ok tt, (record p { host = host; state = enabled }, world))
      else (err (plugin_status status), (record p { host = host }, world))

  unfoldable pub initialize_payload :
      Payload P
      → P
      → Option
          (HostTable (HostCallbacks × P) → ℕ → ℕ → HostCallbacks × P → Status × (HostCallbacks × P))
      → Called P (Unit {0})
  unfolding initialized
  initialize_payload p world none = (err invalid_plugin_table, (p, world))
  initialize_payload p world (some f) =
      initialized p (f p.host_table p.host.plugin_id p.host.session (p.host, world))

  -- `match self.state` of `enable`.
  unfoldable pub enable_at : PayloadState → Payload P → P → Called P (Unit {0})
  unfolding initialize_payload
  enable_at loaded p world = initialize_payload p world p.plugin_table.initialize
  enable_at disabled p world = (ok tt, (record p { state = enabled }, world))
  enable_at enabled p world = (ok tt, (p, world))
  enable_at shutdown_failed p world = (err (invalid_state "payload has shut down"), (p, world))
  enable_at shut_down p world = (err (invalid_state "payload has shut down"), (p, world))

  unfoldable pub enable : Payload P → P → Called P (Unit {0})
  unfolding enable_at
  enable p world = enable_at p.state p world

  unfoldable pub disable_at : PayloadState → Payload P → P → Called P (Unit {0})
  disable_at enabled p world = (ok tt, (record p { state = disabled }, world))
  disable_at disabled p world = (ok tt, (p, world))
  disable_at loaded p world = (err (invalid_state "payload is not enabled"), (p, world))
  disable_at shutdown_failed p world = (err (invalid_state "payload has shut down"), (p, world))
  disable_at shut_down p world = (err (invalid_state "payload has shut down"), (p, world))

  unfoldable pub disable : Payload P → P → Called P (Unit {0})
  unfolding disable_at
  disable p world = disable_at p.state p world

  abbrev pub with_host :
      Payload P → P → Result HostError (List ℕ) × HostCallbacks → Called P (List ℕ)
  with_host p world (r, host) = (r, (record p { host = host }, world))

  -- `invoke` behind the plugin's callback.
  unfoldable pub invoked : Payload P → Filled (HostCallbacks × P) → Called P (List ℕ)
  unfolding take_output
  invoked p ((status, output), (host, world)) =
      if not (is_ok status)
      then (err (plugin_status status), (record p { host = host }, world))
      else with_host p world (take_output host output)

  unfoldable pub invoke_callback :
      Payload P
      → P
      → Text
      → List ℕ
      → ℕ
      → Option (Slice → Slice → ℕ → OwnedBuffer → HostCallbacks × P → Filled (HostCallbacks × P))
      → Called P (List ℕ)
  unfolding invoked
  invoke_callback p world operation input callback none = (err invalid_plugin_table, (p, world))
  invoke_callback p world operation input callback (some f) =
      invoked p
        (f (borrowed_slice operation) (borrowed_slice input) callback empty_buffer (p.host, world))

  unfoldable pub invoke_at : PayloadState → Payload P → P → Text → List ℕ → ℕ → Called P (List ℕ)
  unfolding invoke_callback
  invoke_at enabled p world operation input callback =
      invoke_callback p world operation input callback p.plugin_table.invoke
  invoke_at _ p world operation input callback =
      (err (invalid_state "payload is not enabled"), (p, world))

  unfoldable pub invoke_payload : Payload P → P → Text → List ℕ → ℕ → Called P (List ℕ)
  unfolding invoke_at
  invoke_payload p world operation input callback =
      invoke_at p.state p world operation input callback

  -- `shutdown_once` behind the plugin's callback.
  unfoldable pub shutdown_status : Payload P → Status × (HostCallbacks × P) → Called P (Unit {0})
  shutdown_status p (status, (host, world)) =
      if is_ok status
      then (ok tt, (record p { host = host; state = shut_down }, world))
      else (err (plugin_status status), (record p { host = host; state = shutdown_failed }, world))

  unfoldable pub shutdown_callback :
      Payload P
      → P
      → Option (ℕ → HostCallbacks × P → Status × (HostCallbacks × P))
      → Called P (Unit {0})
  unfolding shutdown_status
  shutdown_callback p world none = (err invalid_plugin_table, (p, world))
  shutdown_callback p world (some f) = shutdown_status p (f p.host.plugin_id (p.host, world))

  unfoldable pub shutdown_once : Payload P → P → Called P (Unit {0})
  unfolding shutdown_callback
  shutdown_once p world = shutdown_callback p world p.plugin_table.shutdown

  unfoldable pub shutdown_for_unload_at : PayloadState → Payload P → P → Called P (Unit {0})
  unfolding shutdown_once
  shutdown_for_unload_at enabled p world =
      (err (invalid_state "payload is still enabled"), (p, world))
  shutdown_for_unload_at loaded p world = (ok tt, (record p { state = shut_down }, world))
  shutdown_for_unload_at shut_down p world = (ok tt, (record p { state = shut_down }, world))
  shutdown_for_unload_at disabled p world = shutdown_once p world
  shutdown_for_unload_at shutdown_failed p world = (ok tt, (record p { state = shut_down }, world))

  unfoldable pub shutdown_for_unload : Payload P → P → Called P (Unit {0})
  unfolding shutdown_for_unload_at
  shutdown_for_unload p world = shutdown_for_unload_at p.state p world

  unfoldable pub force_shutdown_at : PayloadState → Payload P → P → Called P (Unit {0})
  unfolding shutdown_once
  force_shutdown_at enabled p world = shutdown_once p world
  force_shutdown_at disabled p world = shutdown_once p world
  force_shutdown_at _ p world = (ok tt, (record p { state = shut_down }, world))

  unfoldable pub force_shutdown : Payload P → P → Called P (Unit {0})
  unfolding force_shutdown_at
  force_shutdown p world = force_shutdown_at p.state p world
