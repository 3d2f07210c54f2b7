-- ===== src/Host/Errors.antt =====
-- crates/hmcl-rust-host-native/src/error.rs: the failures of the native Host.
use aura_rust_runtime_host.Base.{ℕ, String}
use aura_rust_runtime_host.Base.Int.{ℤ}
use aura_rust_runtime_host.Protocol.Messages.{IoErrorKind}

pub data HostError : Type 0 where
  io : IoErrorKind → HostError
  library : HostError
  entrypoint_escape : HostError
  missing_query_symbol : HostError
  query_status : ℤ → HostError
  unsupported_plugin_abi : ℕ → HostError
  invalid_plugin_table : HostError
  plugin_status : ℤ → HostError
  unknown_payload : ℕ → HostError
  invalid_state : String → HostError
  engine_closed : HostError
  invalid_host_result : HostError
  java_bridge : HostError
  jni_panic : HostError
