-- ===== src/Host/Java.antt =====
-- crates/hmcl-rust-host-native/src/bridge.rs: the bridge to the launcher's Java side. The jni crate and
-- the virtual machine are not under the repository: what the bridge calls of them is a record of
-- functions of the world `P`, over references to Java objects `O`.
use aura_rust_runtime_host.Base.{
  ℕ, Bool, true, false, Option, none, some, List, Result, ok, err, if◌then◌else◌, utf8_bytes,
}
use aura_rust_runtime_host.Base.Int.{ℤ}
use aura_rust_runtime_host.Codec.Bytes.{i64_from_bits}
use aura_rust_runtime_host.Codec.Values.{Text}
use aura_rust_runtime_host.Host.Errors.{HostError, java_bridge}
use aura_rust_runtime_host.Host.Transport.{BridgeTransport}

-- A call that fails gives nothing, or false. `exception_check` is false where it fails.
pub record JavaEnv (P O : Type 0) : Type 0 where
  pub get_java_vm : P → Bool × P
  pub new_global_ref : P → Bool × P
  pub attach : P → Bool × P
  pub new_string : Text → P → Option O × P
  pub byte_array_from_slice : List ℕ → P → Option O × P
  pub convert_byte_array : O → P → Option (List ℕ) × P
  pub get_string : O → P → Option Text × P
  pub is_null : O → Bool
  pub call_invoke : ℤ → O → O → P → Option O × P
  pub call_handle : Text → ℤ → ℤ → ℤ → P → Bool × P
  pub exception_check : P → Bool
  pub exception_clear : P → P
  pub throw_new : HostError → P → P

abbrev pub J : Type 0 → Type 0 → Type 0
J P A = P → Result HostError A × P

module _ {P : Type 0} where
  abbrev pub resume : {A B : Type 0} → Result HostError A × P → (A → J P B) → Result HostError B × P
  resume (ok a, w) k = k a w
  resume (err e, w) k = (err e, w)

  infixl 5 ◌>>=◌ ◌>>◌
  abbrev pub ◌>>=◌ : {A B : Type 0} → J P A → (A → J P B) → J P B
  (m >>= k) w = resume (m w) k

  abbrev pub ◌>>◌ : {A B : Type 0} → J P A → J P B → J P B
  m >> k = m >>= λ _. k

  -- `map_err(|_| HostError::JavaBridge)`
  abbrev pub or_bridge : {A : Type 0} → Option A × P → Result HostError A × P
  or_bridge (some a, w) = (ok a, w)
  or_bridge (none, w) = (err java_bridge, w)

  abbrev pub done : Bool × P → Result HostError (Unit {0}) × P
  done (true, w) = (ok tt, w)
  done (false, w) = (err java_bridge, w)

module _ {P O : Type 0} (env : JavaEnv P O) where
  -- `JavaBridge::new`, whose result holds what `attach` and the calls use.
  unfoldable pub JavaBridge_new : J P (Unit {0})
  JavaBridge_new = (λ w. done (env.get_java_vm w)) >> (λ w. done (env.new_global_ref w))

  -- `JavaBridge::environment`
  unfoldable pub environment : J P (Unit {0})
  environment w = done (env.attach w)

  unfoldable pub clear_pending_exception : P → P
  clear_pending_exception w = if env.exception_check w then env.exception_clear w else w

  -- What is made of a call's outcome: a failure leaves no exception behind.
  unfoldable pub called_object : Option O × P → Result HostError O × P
  unfolding clear_pending_exception
  called_object (some result, w) =
      if env.is_null result then (err java_bridge, w) else (ok result, w)
  called_object (none, w) = (err java_bridge, clear_pending_exception w)

  unfoldable pub called_void : Bool × P → Result HostError (Unit {0}) × P
  unfolding clear_pending_exception
  called_void (true, w) = (ok tt, w)
  called_void (false, w) = (err java_bridge, clear_pending_exception w)

  unfoldable pub java_invoke : ℕ → Text → List ℕ → J P (List ℕ)
  unfolding environment called_object i64_from_bits
  java_invoke session operation input = do
    environment
    text ← λ w. or_bridge (env.new_string operation w)
    bytes ← λ w. or_bridge (env.byte_array_from_slice input w)
    result ← λ w. called_object (env.call_invoke (i64_from_bits session) text bytes w)
    λ w. or_bridge (env.convert_byte_array result w)

  unfoldable pub java_handle_call : Text → ℕ → ℕ → ℕ → J P (Unit {0})
  unfolding environment called_void i64_from_bits
  java_handle_call method session object_id generation = do
    environment
    λ w. called_void (
        env.call_handle method (i64_from_bits session) (i64_from_bits object_id)
          (i64_from_bits generation) w)

  -- `impl BridgeTransport for JavaBridge`
  unfoldable pub java_transport : BridgeTransport P
  unfolding java_invoke java_handle_call
  java_transport = record {
    invoke_bridge = λ plugin session operation input w. java_invoke session operation input w;
    retain_bridge = λ session object_id generation w.
        java_handle_call (utf8_bytes "retainBridgeHandle") session object_id generation w;
    release_bridge = λ session object_id generation w.
        java_handle_call (utf8_bytes "releaseBridgeHandle") session object_id generation w;
  }
