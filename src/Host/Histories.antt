-- ===== src/Host/Histories.antt =====
-- crates/hmcl-rust-host-native/src/embedded.rs: what any calls of the engine leave of its registry.
use aura_rust_runtime_host.Base.{
  ℕ, sym, Bool, ◌||◌, Option, List, Result, ok, err, ◌==◌, if◌then◌else◌, Bool-cases, inl, inr,
}
use mathlib.Core.Path.{subst}
use aura_rust_runtime_host.Codec.Values.{Text}
use aura_rust_runtime_host.Host.Buffers.{HostCallbacks}
use aura_rust_runtime_host.Abi.Tables.{Query}
use aura_rust_runtime_host.Host.Transport.{BridgeTransport}
use aura_rust_runtime_host.Host.Errors.{HostError, engine_closed}
use aura_rust_runtime_host.Host.Paths.{FilePath, resolve_entrypoint}
use aura_rust_runtime_host.Host.Payload.{Payload_load, enable, disable, invoke_payload}
use aura_rust_runtime_host.Host.Callbacks.{table}
use aura_rust_runtime_host.Host.Engine.{
  EngineState, EngineState_default, register, load_resolved, load_payload, enable_payload,
  disable_payload, Engine_invoke, unload_payload, Engine_close,
}
use aura_rust_runtime_host.Host.Registry.{Consistent, EngineState_default-Consistent}
use aura_rust_runtime_host.Host.Upkeep.{
  on_payload-Consistent, unload_payload-Consistent, Engine_close-Consistent, register-Consistent,
}

module _ {P : Type 0} where
  module _ (address : List (ℕ × List ℕ) → ℕ) (bridge : BridgeTransport P)
      (open_library : FilePath → Result HostError (Option (Query (HostCallbacks × P)))) where
    load_resolved-Consistent :
        (e : EngineState P) (world : P) (path : Result HostError FilePath) (plugin_id session : ℕ)
        → Consistent e
        → Consistent (load_resolved address bridge open_library e world path plugin_id session).1.0
    unfolding load_resolved
    load_resolved-Consistent e world (err x) plugin_id session w = w
    load_resolved-Consistent e world (ok path) plugin_id session w = elim (Bool-cases e.closed) [
      | inl h ↦
          rw h (record { same = w.same; unique = w.unique; given = w.given; positive = w.positive })
      | inr h ↦
          subst
            (λ b.
              Consistent
                (if b
                  then (err engine_closed, (e, world))
                  else register e (
                      Payload_load (table address bridge) (open_library path) plugin_id session
                        world)).1.0)
            (sym h)
            (register-Consistent e
              (Payload_load (table address bridge) (open_library path) plugin_id session world) w)
    ]

    load_payload-Consistent :
        (canonicalize : FilePath → Result HostError FilePath) (is_file : FilePath → Bool)
        (e : EngineState P) (world : P) (root entrypoint : FilePath) (plugin_id session : ℕ)
        → Consistent e
        → Consistent
            (load_payload address bridge open_library canonicalize is_file e world root entrypoint
              plugin_id session).1.0
    unfolding load_payload
    load_payload-Consistent canonicalize is_file e world root entrypoint plugin_id session w =
        elim (Bool-cases (plugin_id == 0 || session == 0)) [
          | inl h ↦ rw h w
          | inr h ↦ rw h (
              load_resolved-Consistent e world
                (resolve_entrypoint canonicalize is_file root entrypoint) plugin_id session w)
        ]

    -- One call of the engine, whatever its arguments and the world.
    pub data Call : EngineState P → EngineState P → Type 0 where
      loads :
          {e : EngineState P} (canonicalize : FilePath → Result HostError FilePath)
          (is_file : FilePath → Bool) (world : P) (root entrypoint : FilePath)
          (plugin_id session : ℕ)
          → Call e
              (load_payload address bridge open_library canonicalize is_file e world root entrypoint
                plugin_id session).1.0
      enables : {e : EngineState P} (world : P) (id : ℕ) → Call e (enable_payload e world id).1.0
      disables : {e : EngineState P} (world : P) (id : ℕ) → Call e (disable_payload e world id).1.0
      invokes :
          {e : EngineState P} (world : P) (id : ℕ) (operation : Text) (input : List ℕ)
          (callback : ℕ)
          → Call e (Engine_invoke e world id operation input callback).1.0
      unloads : {e : EngineState P} (world : P) (id : ℕ) → Call e (unload_payload e world id).1.0
      closes : {e : EngineState P} (world : P) → Call e (Engine_close e world).1.0

    pub data Calls : EngineState P → EngineState P → Type 0 where
      start : {e : EngineState P} → Calls e e
      after : {d e f : EngineState P} → Calls d e → Call e f → Calls d f

    Call-Consistent : {e f : EngineState P} → Call e f → Consistent e → Consistent f
    unfolding enable_payload disable_payload Engine_invoke
    Call-Consistent {e} (loads canonicalize is_file world root entrypoint plugin_id session) w =
        load_payload-Consistent canonicalize is_file e world root entrypoint plugin_id session w
    Call-Consistent {e} (enables world id) w = on_payload-Consistent e world id enable w
    Call-Consistent {e} (disables world id) w = on_payload-Consistent e world id disable w
    Call-Consistent {e} (invokes world id operation input callback) w =
        on_payload-Consistent e world id (λ p x. invoke_payload p x operation input callback) w
    Call-Consistent {e} (unloads world id) w = unload_payload-Consistent e world id w
    Call-Consistent {e} (closes world) w = Engine_close-Consistent e world w

    -- Whatever the engine is called with, and whatever the payloads and the loader do: the order of
    -- loading lists the keys of the map, each exactly once, and every identifier in use is positive
    -- and below the next one.
    pub Calls-Consistent : (e : EngineState P) → Calls (EngineState_default P) e → Consistent e
    Calls-Consistent e start = EngineState_default-Consistent
    Calls-Consistent e (after {e = d} run call) = Call-Consistent call (Calls-Consistent d run)
