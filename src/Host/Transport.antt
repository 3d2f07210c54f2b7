-- ===== src/Host/Transport.antt =====
-- crates/hmcl-rust-host-native/src/embedded.rs: the trait by which payloads reach the launcher.
use aura_rust_runtime_host.Base.{ℕ, List, Result}
use aura_rust_runtime_host.Codec.Values.{Text}
use aura_rust_runtime_host.Host.Errors.{HostError}

-- `BridgeTransport`, over the world that an implementation acts on.
pub record BridgeTransport (P : Type 0) : Type 0 where
  pub invoke_bridge : ℕ → ℕ → Text → List ℕ → P → Result HostError (List ℕ) × P
  pub retain_bridge : ℕ → ℕ → ℕ → P → Result HostError (Unit {0}) × P
  pub release_bridge : ℕ → ℕ → ℕ → P → Result HostError (Unit {0}) × P
