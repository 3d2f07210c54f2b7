-- ===== src/Host/Reports.antt =====
-- crates/hmcl-rust-host-native/src/jni_api.rs: what Java learns of a call.
use aura_rust_runtime_host.Base.{◌≡◌, ◌⊎◌, refl, true, false, none, ok, err, Bool-cases, inl, inr}
use aura_rust_runtime_host.Base.Int.{ℤ, pos}
use aura_rust_runtime_host.Codec.Bytes.{i64_bits}
use aura_rust_runtime_host.Host.Errors.{HostError, engine_closed, jni_panic}
use aura_rust_runtime_host.Host.Engine.{
  EngineState, Answered, enable_payload, disable_payload, unload_payload,
}
use aura_rust_runtime_host.Host.Java.{JavaEnv, clear_pending_exception}
use aura_rust_runtime_host.Host.Exports.{
  throw_io, engine_at, ended, jni_result, enable_embedded_payload, disable_embedded_payload,
  unload_embedded_payload,
}

-- What the Java virtual machine documents of its exceptions: clearing leaves none pending, and
-- throwing where none is pending leaves one.
pub record Exceptions {P O : Type 0} (env : JavaEnv P O) : Type 0 where
  pub cleared : (w : P) → env.exception_check (env.exception_clear w) ≡ false
  pub thrown :
      (e : HostError) (w : P)
      → env.exception_check w ≡ false
      → env.exception_check (env.throw_new e w) ≡ true

module _ {P O : Type 0} (env : JavaEnv P O) where
  -- A failure leaves the engine as the call left it, the fallback for a value, and its exception.
  abbrev pub Thrown :
      {A : Type 0} → A → HostError → EngineState P × P → A × (EngineState P × P) → Type 0
  Thrown fallback e left out =
      (out ≡ (fallback, (left.0, throw_io env e left.1))) × (env.exception_check out.1.1 ≡ true)

  -- A result is returned as it is, and the export adds nothing to what the call left.
  abbrev pub Reported : {A : Type 0} → A → Answered P A → A × (EngineState P × P) → Type 0
  Reported {A} fallback r out =
      ((a : A) × (r.0 ≡ ok a) × (out ≡ (a, r.1)))
      ⊎ ((e : HostError) × (r.0 ≡ err e) × Thrown fallback e r.1 out)

module _ {P O : Type 0} (env : JavaEnv P O) (documented : Exceptions env) where
  cleared_exception : (w : P) → env.exception_check (clear_pending_exception env w) ≡ false
  unfolding clear_pending_exception
  cleared_exception w = elim (Bool-cases (env.exception_check w)) [
    | inl h ↦ rw h (documented.cleared w)
    | inr h ↦ rw (h, h) refl
  ]

  throw_io-pending : (e : HostError) (w : P) → env.exception_check (throw_io env e w) ≡ true
  unfolding throw_io
  throw_io-pending e w = documented.thrown e (clear_pending_exception env w) (cleared_exception w)

  jni_result-Reported :
      {A : Type 0} (fallback : A) (r : Answered P A)
      → Reported env fallback r (jni_result env fallback (ended env r))
  unfolding jni_result
  jni_result-Reported fallback (ok a, s) = inl (a, refl, refl)
  jni_result-Reported fallback (err e, (engine, w)) = inr (e, refl, (refl, throw_io-pending e w))

  -- Behind a live handle, the exports of enable, disable and unload return what the engine's call
  -- returned and leave what it left, or, where it failed, throw its failure, which is then pending in
  -- Java. On the handle zero they do not call the engine, and throw that it is closed. An action that
  -- panics has the fallback returned and the failure of a panic thrown.
  pub exports-Reported :
      (handle payload_id : ℤ) (engine : EngineState P) (w : P)
      → engine_at env handle ≡ ok tt
      → Reported env tt
          (enable_payload engine w (i64_bits payload_id))
          (enable_embedded_payload env handle payload_id (engine, w))
        × Reported env tt
            (disable_payload engine w (i64_bits payload_id))
            (disable_embedded_payload env handle payload_id (engine, w))
        × Reported env tt
            (unload_payload engine w (i64_bits payload_id))
            (unload_embedded_payload env handle payload_id (engine, w))
        × Thrown env tt engine_closed
            (engine, w)
            (enable_embedded_payload env (pos 0) payload_id (engine, w))
        × Thrown env tt engine_closed
            (engine, w)
            (disable_embedded_payload env (pos 0) payload_id (engine, w))
        × Thrown env tt engine_closed
            (engine, w)
            (unload_embedded_payload env (pos 0) payload_id (engine, w))
        × Thrown env tt jni_panic (engine, w) (jni_result env tt (none, (engine, w)))
  unfolding enable_embedded_payload disable_embedded_payload unload_embedded_payload jni_result
  exports-Reported handle payload_id engine w live = rw live (
    jni_result-Reported tt (enable_payload engine w (i64_bits payload_id)),
    jni_result-Reported tt (disable_payload engine w (i64_bits payload_id)),
    jni_result-Reported tt (unload_payload engine w (i64_bits payload_id)),
    (refl, throw_io-pending engine_closed w),
    (refl, throw_io-pending engine_closed w),
    (refl, throw_io-pending engine_closed w),
    (refl, throw_io-pending jni_panic w),
  )
