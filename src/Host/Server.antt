-- ===== src/Host/Server.antt =====
-- crates/hmcl-rust-host-process/src/server.rs: the commands of the parent process.
use aura_rust_runtime_host.Base.{
  ℕ, zero, suc, Bool, true, false, not, ◌&&◌, Option, List, [], ◌∷◌, Result, ok, err, ltb, leb,
  if◌then◌else◌, length, take, drop, utf8_bytes,
}
use aura_rust_runtime_host.Codec.Values.{Text}
use aura_rust_runtime_host.Protocol.Messages.{MessageBody, done, result, error}
use aura_rust_runtime_host.Host.Errors.{
  HostError, io, library, entrypoint_escape, missing_query_symbol, query_status,
  unsupported_plugin_abi, invalid_plugin_table, plugin_status, unknown_payload, invalid_state,
  engine_closed, invalid_host_result, java_bridge, jni_panic,
}
use aura_rust_runtime_host.Host.Paths.{FilePath}
use aura_rust_runtime_host.Host.Buffers.{HostCallbacks}
use aura_rust_runtime_host.Abi.Tables.{Query}
use aura_rust_runtime_host.Host.Transport.{BridgeTransport}
use aura_rust_runtime_host.Host.Bridge.{
  Streams, ProcessBridge, ProcessBridge_new, process_transport,
}
use aura_rust_runtime_host.Host.Engine.{
  EngineState, EngineState_default, load_payload, enable_payload, disable_payload, Engine_invoke,
  unload_payload, Engine_close,
}

-- The world of the engine: the streams and the bridge, which a payload's callbacks share with the
-- server, and what else the plugin acts on. No payload has a bridge before the first load.
abbrev pub World : Type 0 → Type 0
World Q = (Streams × ProcessBridge) × Q

abbrev pub beside_outside :
    {Q A : Type 0}
    → Q
    → Result HostError A × (Streams × ProcessBridge)
    → Result HostError A × World Q
beside_outside q (r, shared) = (r, (shared, q))

-- The bridge of a server's payload.
abbrev pub server_transport : (Q : Type 0) → BridgeTransport (World Q)
server_transport Q = record {
  invoke_bridge = λ plugin session operation input (shared, q).
      beside_outside q (process_transport.invoke_bridge plugin session operation input shared);
  retain_bridge = λ session object_id generation (shared, q).
      beside_outside q (process_transport.retain_bridge session object_id generation shared);
  release_bridge = λ session object_id generation (shared, q).
      beside_outside q (process_transport.release_bridge session object_id generation shared);
}

abbrev pub fresh_bridge : {Q : Type 0} → ℕ → ℕ → World Q → World Q
fresh_bridge plugin_id session ((streams, bridge), q) =
    ((streams, ProcessBridge_new plugin_id session), q)

pub data State (Q : Type 0) : Type 0 where
  await_hello await_load : State Q
  loaded : (engine : EngineState (World Q)) (payload_id : ℕ) → State Q
  closed : State Q

unfoldable pub error_code : HostError → Text
error_code (io k) = utf8_bytes "payload-io"
error_code library = utf8_bytes "library-load"
error_code entrypoint_escape = utf8_bytes "entrypoint-escape"
error_code missing_query_symbol = utf8_bytes "missing-query"
error_code (query_status status) = utf8_bytes "query-status"
error_code (unsupported_plugin_abi version) = utf8_bytes "unsupported-abi"
error_code invalid_plugin_table = utf8_bytes "invalid-plugin-table"
error_code (plugin_status status) = utf8_bytes "plugin-status"
error_code (unknown_payload id) = utf8_bytes "unknown-payload"
error_code (invalid_state message) = utf8_bytes "invalid-state"
error_code engine_closed = utf8_bytes "engine-closed"
error_code invalid_host_result = utf8_bytes "invalid-host-result"
error_code java_bridge = utf8_bytes "bridge-callback"
error_code jni_panic = utf8_bytes "native-panic"

-- Whether the text behind a position starts a character: `is_char_boundary`.
abbrev pub starts_char : List ℕ → Bool
starts_char [] = true
starts_char (b ∷ bs) = not (leb 0x80 b && ltb b 0xc0)

-- `while !message.is_char_boundary(end) { end -= 1; }`
unfoldable pub boundary_at : ℕ → Text → ℕ
boundary_at zero message = 0
boundary_at (suc end) message =
    let before = boundary_at end message in
    if starts_char (drop (suc end) message) then suc end else before

unfoldable pub truncate : Text → Text
unfolding boundary_at
truncate message =
    if ltb 4096 (length message) then take (boundary_at 4096 message) message else message

-- `display` is `HostError::to_string`, which the `thiserror` crate derives.
module _ (display : HostError → Text) where
  unfoldable pub error_body : HostError → MessageBody
  unfolding error_code truncate
  error_body e = error (error_code e) (truncate (display e))

  abbrev pub or_error_body : Result HostError MessageBody → MessageBody
  or_error_body (ok body) = body
  or_error_body (err e) = error_body e

-- `Path::new` of a text, the file system, what the loader makes of a library, where the allocator puts
-- a box, and the texts of failures.
pub record Platform (Q : Type 0) : Type 0 where
  pub path_of : Text → FilePath
  pub canonicalize : FilePath → Result HostError FilePath
  pub is_file : FilePath → Bool
  pub open_library : FilePath → Result HostError (Option (Query (HostCallbacks × World Q)))
  pub address : List (ℕ × List ℕ) → ℕ
  pub display : HostError → Text

abbrev pub acknowledge : Result HostError (Unit {0}) → Result HostError MessageBody
acknowledge (ok u) = ok done
acknowledge (err e) = err e

abbrev pub as_output : Result HostError (List ℕ) → Result HostError MessageBody
as_output (ok output) = ok (result output)
as_output (err e) = err e

abbrev pub succeeded {ℓ} : {A : Type ℓ} → Result HostError A → Bool
succeeded (ok a) = true
succeeded (err e) = false

module _ {Q : Type 0} where
  -- `loaded`
  unfoldable pub require_loaded : State Q → Result HostError (EngineState (World Q) × ℕ)
  require_loaded (loaded engine payload_id) = ok (engine, payload_id)
  require_loaded await_hello = err (invalid_state "hello is required")
  require_loaded await_load = err (invalid_state "payload is not loaded")
  require_loaded closed = err engine_closed

  unfoldable pub Server_hello : State Q → Result HostError MessageBody × State Q
  Server_hello await_hello = (ok done, await_load)
  Server_hello state = (err (invalid_state "hello already completed"), state)

  -- A payload that failed to load leaves the server waiting for a load.
  unfoldable pub loaded_payload :
      Result HostError ℕ × (EngineState (World Q) × World Q)
      → Result HostError MessageBody × (State Q × World Q)
  loaded_payload (ok id, (engine, world)) = (ok done, (loaded engine id, world))
  loaded_payload (err e, (engine, world)) = (err e, (await_load, world))

  unfoldable pub Server_load :
      Platform Q
      → State Q
      → World Q
      → Text
      → Text
      → ℕ
      → ℕ
      → Result HostError MessageBody × (State Q × World Q)
  unfolding loaded_payload load_payload
  Server_load platform await_load world package_root entrypoint plugin_id session = loaded_payload (
      load_payload platform.address (server_transport Q) platform.open_library platform.canonicalize
        platform.is_file (EngineState_default (World Q)) (fresh_bridge plugin_id session world)
        (platform.path_of package_root) (platform.path_of entrypoint) plugin_id session)
  Server_load platform state world package_root entrypoint plugin_id session =
      (err (invalid_state "payload load is not available"), (state, world))

  -- A command on the loaded payload, which stays loaded.
  abbrev pub on_loaded :
      {A : Type 0}
      → (EngineState (World Q)
          → World Q
          → ℕ
          → Result HostError A × (EngineState (World Q) × World Q))
      → State Q
      → World Q
      → Result HostError (EngineState (World Q) × ℕ)
      → Result HostError A × (State Q × World Q)
  on_loaded command state world (err e) = (err e, (state, world))
  on_loaded command state world (ok (engine, id)) =
      let (r, (after, behind)) = command engine world id in (r, (loaded after id, behind))

  unfoldable pub Server_enable :
      State Q → World Q → Result HostError (Unit {0}) × (State Q × World Q)
  unfolding require_loaded enable_payload
  Server_enable state world = on_loaded enable_payload state world (require_loaded state)

  unfoldable pub Server_disable :
      State Q → World Q → Result HostError (Unit {0}) × (State Q × World Q)
  unfolding require_loaded disable_payload
  Server_disable state world = on_loaded disable_payload state world (require_loaded state)

  unfoldable pub Server_invoke :
      State Q → World Q → Text → List ℕ → ℕ → Result HostError (List ℕ) × (State Q × World Q)
  unfolding require_loaded Engine_invoke
  Server_invoke state world operation input callback_id =
      on_loaded (λ engine w id. Engine_invoke engine w id operation input callback_id) state world
        (require_loaded state)

  abbrev pub closed_if_ok :
      Result HostError (Unit {0}) × (State Q × World Q)
      → Result HostError (Unit {0}) × (State Q × World Q)
  closed_if_ok (ok u, (state, world)) = (ok u, (closed, world))
  closed_if_ok (err e, (state, world)) = (err e, (state, world))

  unfoldable pub Server_shutdown :
      State Q → World Q → Result HostError (Unit {0}) × (State Q × World Q)
  unfolding require_loaded unload_payload
  Server_shutdown state world =
      closed_if_ok (on_loaded unload_payload state world (require_loaded state))

  abbrev pub closed_engine :
      ℕ → Result HostError (Unit {0}) × (EngineState (World Q) × World Q) → State Q × World Q
  closed_engine payload_id (r, (engine, world)) = (loaded engine payload_id, world)

  unfoldable pub close_on_eof : State Q → World Q → State Q × World Q
  unfolding Engine_close
  close_on_eof (loaded engine payload_id) world =
      closed_engine payload_id (Engine_close engine world)
  close_on_eof state world = (state, world)
