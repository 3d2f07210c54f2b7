-- ===== src/Host/Engine.antt =====
-- crates/hmcl-rust-host-native/src/embedded.rs: the engine and its registry of payloads. Every
-- function is one call of the engine, from the state it finds to the state it leaves.
use aura_rust_runtime_host.Base.{
  ℕ, suc, Bool, true, false, ◌||◌, Option, none, some, List, [], ◌∷◌, ◌++◌, Result, ok, err, ◌==◌,
  if◌then◌else◌,
}
use aura_rust_runtime_host.Codec.Values.{Text}
use aura_rust_runtime_host.Futures.Registry.{u64_max}
use aura_rust_runtime_host.Futures.Table.{lookup, insert, remove}
use aura_rust_runtime_host.Host.Buffers.{HostCallbacks}
use aura_rust_runtime_host.Abi.Tables.{Query}
use aura_rust_runtime_host.Host.Transport.{BridgeTransport}
use aura_rust_runtime_host.Host.Callbacks.{table}
use aura_rust_runtime_host.Host.Errors.{HostError, invalid_state, unknown_payload, engine_closed}
use aura_rust_runtime_host.Host.Paths.{FilePath, resolve_entrypoint}
use aura_rust_runtime_host.Host.Payload.{
  Payload, Payload_load, Called, enable, disable, invoke_payload, shutdown_for_unload,
  force_shutdown,
}

pub record EngineState (P : Type 0) : Type 0 where
  pub next_payload_id : ℕ
  pub load_order : List ℕ
  pub payloads : List (ℕ × Payload P)
  pub closed : Bool

abbrev pub EngineState_default : (P : Type 0) → EngineState P
EngineState_default P = record {
  next_payload_id = 1;
  load_order = [];
  payloads = [];
  closed = false;
}

abbrev pub Answered : Type 0 → Type 0 → Type 0
Answered P A = Result HostError A × (EngineState P × P)

-- `load_order.retain(|current| *current != payload_id)`
unfoldable pub retain_other : ℕ → List ℕ → List ℕ
retain_other id [] = []
retain_other id (x ∷ xs) = let rest = retain_other id xs in if x == id then rest else x ∷ rest

-- `load_order.iter().rev()`
abbrev pub reverse : List ℕ → List ℕ
reverse [] = []
reverse (x ∷ xs) = reverse xs ++ x ∷ []

abbrev pub first_failure : Option HostError → Result HostError (Unit {0}) → Option HostError
first_failure (some e) r = some e
first_failure none (ok u) = none
first_failure none (err e) = some e

abbrev pub as_result : Option HostError → Result HostError (Unit {0})
as_result none = ok tt
as_result (some e) = err e

module _ {P : Type 0} where
  -- `load_payload` behind the load of the library.
  unfoldable pub register : EngineState P → Result HostError (Payload P) × P → Answered P ℕ
  unfolding insert
  register engine (err e, world) = (err e, (engine, world))
  register engine (ok payload, world) =
      if engine.next_payload_id == u64_max
      then (err (invalid_state "payload identifier space exhausted"), (engine, world))
      else (
        ok engine.next_payload_id,
        (
          record engine {
            next_payload_id = suc engine.next_payload_id;
            payloads = insert engine.payloads engine.next_payload_id payload;
            load_order = engine.load_order ++ engine.next_payload_id ∷ [];
          },
          world,
        ),
      )

  -- Where the allocator puts a box, and what the loader makes of a path, are not under the
  -- repository.
  module _ (address : List (ℕ × List ℕ) → ℕ) (bridge : BridgeTransport P)
      (open_library : FilePath → Result HostError (Option (Query (HostCallbacks × P)))) where
    unfoldable pub load_resolved :
        EngineState P → P → Result HostError FilePath → ℕ → ℕ → Answered P ℕ
    unfolding register
    load_resolved engine world (err e) plugin_id session = (err e, (engine, world))
    load_resolved engine world (ok path) plugin_id session =
        if engine.closed
        then (err engine_closed, (engine, world))
        else register engine
            (Payload_load (table address bridge) (open_library path) plugin_id session world)

    unfoldable pub load_payload :
        (FilePath → Result HostError FilePath)
        → (FilePath → Bool)
        → EngineState P
        → P
        → FilePath
        → FilePath
        → ℕ
        → ℕ
        → Answered P ℕ
    unfolding load_resolved
    load_payload canonicalize is_file engine world package_root entrypoint plugin_id session =
        if plugin_id == 0 || session == 0
        then (err (invalid_state "plugin and session identifiers must be nonzero"), (engine, world))
        else load_resolved engine world
            (resolve_entrypoint canonicalize is_file package_root entrypoint) plugin_id session

  abbrev pub find_payload : ℕ → Option (Payload P) → Result HostError (Payload P)
  find_payload id none = err (unknown_payload id)
  find_payload id (some p) = ok p

  unfoldable pub payload : EngineState P → ℕ → Result HostError (Payload P)
  unfolding lookup
  payload engine id =
      if engine.closed then err engine_closed else find_payload id (lookup engine.payloads id)

  -- A call on a payload that was found, which stays in the registry as the call left it.
  abbrev pub put_back {ℓ} :
      {A : Type ℓ}
      → EngineState P
      → ℕ
      → Result HostError A × (Payload P × P)
      → Result HostError A × (EngineState P × P)
  put_back engine id (r, (p, world)) =
      (r, (record engine { payloads = insert engine.payloads id p }, world))

  abbrev pub on_payload :
      {A : Type 0}
      → EngineState P
      → P
      → ℕ
      → (Payload P → P → Called P A)
      → Result HostError (Payload P)
      → Answered P A
  on_payload engine world id call (err e) = (err e, (engine, world))
  on_payload engine world id call (ok p) = put_back engine id (call p world)

  unfoldable pub enable_payload : EngineState P → P → ℕ → Answered P (Unit {0})
  unfolding payload enable
  enable_payload engine world id = on_payload engine world id enable (payload engine id)

  unfoldable pub disable_payload : EngineState P → P → ℕ → Answered P (Unit {0})
  unfolding payload disable
  disable_payload engine world id = on_payload engine world id disable (payload engine id)

  unfoldable pub Engine_invoke : EngineState P → P → ℕ → Text → List ℕ → ℕ → Answered P (List ℕ)
  unfolding payload invoke_payload
  Engine_invoke engine world id operation input callback =
      on_payload engine world id (λ p w. invoke_payload p w operation input callback)
        (payload engine id)

  -- `unload_payload` behind the shutdown: the payload goes where it succeeded.
  unfoldable pub unloaded : ℕ → Answered P (Unit {0}) → Answered P (Unit {0})
  unfolding remove retain_other
  unloaded id (ok u, (engine, world)) = (
    ok u,
    (
      record engine {
        payloads = remove engine.payloads id;
        load_order = retain_other id engine.load_order;
      },
      world,
    ),
  )
  unloaded id (err e, (engine, world)) = (err e, (engine, world))

  abbrev pub unload_found :
      EngineState P → P → ℕ → Result HostError (Payload P) → Answered P (Unit {0})
  unload_found engine world id (err e) = (err e, (engine, world))
  unload_found engine world id (ok p) =
      unloaded id (put_back engine id (shutdown_for_unload p world))

  unfoldable pub unload_payload : EngineState P → P → ℕ → Answered P (Unit {0})
  unfolding unloaded payload
  unload_payload engine world id = unload_found engine world id (payload engine id)

  -- `filter_map(|id| state.payloads.get(id).cloned())`
  unfoldable pub present : List (ℕ × Payload P) → List ℕ → List (Payload P)
  unfolding lookup
  present payloads [] = []
  present payloads (id ∷ ids) =
      let rest = present payloads ids in
      elim (lookup payloads id) [ none ↦ rest | some p ↦ p ∷ rest ]

  -- The loop of `close` over the payloads.
  unfoldable pub close_all :
      List (Payload P) → Option HostError → P → Result HostError (Unit {0}) × P
  unfolding force_shutdown
  close_all [] failure world = (as_result failure, world)
  close_all (p ∷ ps) failure world =
      let called = force_shutdown p world in
      close_all ps (first_failure failure called.0) called.1.1

  abbrev pub with_state : EngineState P → Result HostError (Unit {0}) × P → Answered P (Unit {0})
  with_state engine (r, world) = (r, (engine, world))

  unfoldable pub Engine_close : EngineState P → P → Answered P (Unit {0})
  unfolding close_all present
  Engine_close engine world =
      if engine.closed
      then (ok tt, (engine, world))
      else with_state (record engine { closed = true; load_order = []; payloads = [] })
          (close_all (present engine.payloads (reverse engine.load_order)) none world)
