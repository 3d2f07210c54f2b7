-- ===== src/Host/Exports.antt =====
-- crates/hmcl-rust-host-native/src/jni_api.rs: what the native library exports to Java. A handle that is
-- not zero leads to the engine that is live. What an export calls does not panic by itself, so that only
-- `jni_result` has a panic to report.
use aura_rust_runtime_host.Base.{
  ℕ, Bool, true, false, Option, none, some, List, Result, ok, err, ◌==◌, if◌then◌else◌,
}
use aura_rust_runtime_host.Base.Int.{ℤ, pos}
use aura_rust_runtime_host.Codec.Bytes.{i64_bits, i64_from_bits}
use aura_rust_runtime_host.Codec.Values.{Text}
use aura_rust_runtime_host.Abi.Tables.{Query}
use aura_rust_runtime_host.Host.Buffers.{HostCallbacks}
use aura_rust_runtime_host.Host.Errors.{HostError, engine_closed, jni_panic}
use aura_rust_runtime_host.Host.Paths.{FilePath}
use aura_rust_runtime_host.Host.Engine.{
  EngineState, EngineState_default, Answered, load_payload, enable_payload, disable_payload,
  Engine_invoke, unload_payload, Engine_close,
}
use aura_rust_runtime_host.Host.Java.{
  JavaEnv, or_bridge, java_transport, JavaBridge_new, clear_pending_exception,
}

module _ {P O : Type 0} (env : JavaEnv P O) where
  unfoldable pub throw_io : HostError → P → P
  unfolding clear_pending_exception
  throw_io e w = env.throw_new e (clear_pending_exception env w)

  -- The engine's box is at `handle`; where there is no engine, Java gets zero and an exception.
  unfoldable pub created : ℤ → Result HostError (Unit {0}) × P → ℤ × (Option (EngineState P) × P)
  unfolding throw_io
  created handle (ok u, w) = (handle, (some (EngineState_default P), w))
  created handle (err e, w) = (pos 0, (none, throw_io e w))

  unfoldable pub create_engine : ℤ → P → ℤ × (Option (EngineState P) × P)
  unfolding created JavaBridge_new
  create_engine handle w = created handle (JavaBridge_new env w)

  -- `engine(handle)?`
  abbrev pub engine_at : ℤ → Result HostError (Unit {0})
  engine_at (pos n) = if n == 0 then err engine_closed else ok tt
  engine_at z = ok tt

  -- What an action under `catch_unwind` ends with: its result, or nothing where it panicked.
  abbrev pub Caught : Type 0 → Type 0
  Caught A = Option (Result HostError A) × (EngineState P × P)

  -- `jni_result`: the value, or the fallback and an exception.
  unfoldable pub jni_result : {A : Type 0} → A → Caught A → A × (EngineState P × P)
  unfolding throw_io
  jni_result fallback (some (ok a), s) = (a, s)
  jni_result fallback (some (err e), (engine, w)) = (fallback, (engine, throw_io e w))
  jni_result fallback (none, (engine, w)) = (fallback, (engine, throw_io jni_panic w))

  -- An action that ends without a panic.
  abbrev pub ended : {A : Type 0} → Answered P A → Caught A
  ended (r, s) = (some r, s)

  -- What an export does behind its handle.
  abbrev pub behind_handle :
      {A : Type 0}
      → Result HostError (Unit {0})
      → EngineState P
      → P
      → (EngineState P → P → Answered P A)
      → Answered P A
  behind_handle (err e) engine w call = (err e, (engine, w))
  behind_handle (ok u) engine w call = call engine w

  abbrev pub with_argument :
      {A B : Type 0}
      → EngineState P
      → Result HostError A × P
      → (A → P → Answered P B)
      → Answered P B
  with_argument engine (err e, w) call = (err e, (engine, w))
  with_argument engine (ok a, w) call = call a w

  abbrev pub java_string : O → P → Result HostError Text × P
  java_string o w = or_bridge (env.get_string o w)

  unfoldable pub check_engine_health : ℤ → EngineState P × P → Bool × (EngineState P × P)
  unfolding jni_result
  check_engine_health handle (engine, w) =
      jni_result false
        (ended (behind_handle (engine_at handle) engine w (λ e v. (ok true, (e, v)))))

  unfoldable pub enable_embedded_payload :
      ℤ → ℤ → EngineState P × P → (Unit {0}) × (EngineState P × P)
  unfolding jni_result enable_payload i64_bits
  enable_embedded_payload handle payload_id (engine, w) = jni_result tt (
      ended (
        behind_handle (engine_at handle) engine w
          (λ e v. enable_payload e v (i64_bits payload_id))))

  unfoldable pub disable_embedded_payload :
      ℤ → ℤ → EngineState P × P → (Unit {0}) × (EngineState P × P)
  unfolding jni_result disable_payload i64_bits
  disable_embedded_payload handle payload_id (engine, w) = jni_result tt (
      ended (
        behind_handle (engine_at handle) engine w
          (λ e v. disable_payload e v (i64_bits payload_id))))

  unfoldable pub unload_embedded_payload :
      ℤ → ℤ → EngineState P × P → (Unit {0}) × (EngineState P × P)
  unfolding jni_result unload_payload i64_bits
  unload_embedded_payload handle payload_id (engine, w) = jni_result tt (
      ended (
        behind_handle (engine_at handle) engine w
          (λ e v. unload_payload e v (i64_bits payload_id))))

  -- The bytes of a result become a Java array.
  abbrev pub as_array : Answered P (List ℕ) → Answered P (Option O)
  as_array (err e, s) = (err e, s)
  as_array (ok bytes, (engine, w)) =
      with_argument engine (or_bridge (env.byte_array_from_slice bytes w))
        (λ o v. (ok (some o), (engine, v)))

  -- No array is the null that is returned with an exception.
  unfoldable pub invoke_embedded_payload :
      ℤ → ℤ → O → O → ℤ → EngineState P × P → Option O × (EngineState P × P)
  unfolding jni_result Engine_invoke i64_bits
  invoke_embedded_payload handle payload_id operation input callback_id (engine, w) =
      jni_result none (
        ended (
          with_argument engine (java_string operation w) (λ text v.
            with_argument engine (or_bridge (env.convert_byte_array input v)) (λ bytes u.
              behind_handle (engine_at handle) engine u (λ e x.
                as_array
                  (Engine_invoke e x (i64_bits payload_id) text bytes (i64_bits callback_id)))))))

  -- `destroyEngine`, whose failures are dropped.
  unfoldable pub destroy_engine : ℤ → EngineState P × P → EngineState P × P
  unfolding Engine_close
  destroy_engine (pos n) (engine, w) = if n == 0 then (engine, w) else (Engine_close engine w).1
  destroy_engine z (engine, w) = (Engine_close engine w).1

  module _ (address : List (ℕ × List ℕ) → ℕ)
      (open_library : FilePath → Result HostError (Option (Query (HostCallbacks × P))))
      (path_of : Text → FilePath) (canonicalize : FilePath → Result HostError FilePath)
      (is_file : FilePath → Bool) where
    abbrev pub as_long : Answered P ℕ → Answered P ℤ
    as_long (ok id, s) = (ok (i64_from_bits id), s)
    as_long (err e, s) = (err e, s)

    unfoldable pub load_embedded_payload :
        ℤ → O → O → ℤ → ℤ → EngineState P × P → ℤ × (EngineState P × P)
    unfolding jni_result load_payload i64_bits i64_from_bits java_transport
    load_embedded_payload handle package_root entrypoint plugin_id session (engine, w) =
        jni_result (pos 0) (
          ended (
            with_argument engine (java_string package_root w) (λ root v.
              with_argument engine (java_string entrypoint v) (λ entry u.
                behind_handle (engine_at handle) engine u (λ e x. as_long (
                  load_payload address (java_transport env) open_library canonicalize is_file e x
                    (path_of root) (path_of entry) (i64_bits plugin_id) (i64_bits session)))))))
