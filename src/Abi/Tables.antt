-- ===== src/Abi/Tables.antt =====
-- crates/hmcl-runtime-abi/src/lib.rs: the two function tables. A callback acts on the memory and the
-- world that its caller and it share, `W`; the context pointer is part of the callback.
use aura_rust_runtime_host.Base.{ℕ, Option, none}
use aura_rust_runtime_host.Abi.Statuses.{Status}
use aura_rust_runtime_host.Abi.Buffers.{Slice, OwnedBuffer, HandleId}

abbrev pub bridge_abi_v1 : ℕ
bridge_abi_v1 = 1

abbrev pub host_api_v1_prefix_size : ℕ
host_api_v1_prefix_size = 64

abbrev pub plugin_api_v1_prefix_size : ℕ
plugin_api_v1_prefix_size = 40

-- What a callback with an output pointer leaves: its status, the buffer behind the pointer, and the
-- world. The buffer is given to it as it was.
abbrev pub Filled : Type 0 → Type 0
Filled W = (Status × OwnedBuffer) × W

pub record HostTable (W : Type 0) : Type 0 where
  pub struct_size : ℕ
  pub abi_version : ℕ
  pub allocate : Option (ℕ → OwnedBuffer → W → Filled W)
  pub release_buffer : Option (OwnedBuffer → W → Filled W)
  pub log : Option (ℕ → Slice → W → Status × W)
  pub invoke : Option (ℕ → ℕ → Slice → Slice → OwnedBuffer → W → Filled W)
  pub retain_handle : Option (HandleId → W → Status × W)
  pub release_handle : Option (HandleId → W → Status × W)

abbrev pub HostTable_required_prefix : (W : Type 0) → HostTable W
HostTable_required_prefix W = record {
  struct_size = host_api_v1_prefix_size;
  abi_version = bridge_abi_v1;
  allocate = none;
  release_buffer = none;
  log = none;
  invoke = none;
  retain_handle = none;
  release_handle = none;
}

-- A plugin's table, where a callback may be missing.
pub record PluginTable (W : Type 0) : Type 0 where
  pub struct_size : ℕ
  pub abi_version : ℕ
  pub initialize : Option (HostTable W → ℕ → ℕ → W → Status × W)
  pub invoke : Option (Slice → Slice → ℕ → OwnedBuffer → W → Filled W)
  pub shutdown : Option (ℕ → W → Status × W)

abbrev pub PluginTable_required_prefix : (W : Type 0) → PluginTable W
PluginTable_required_prefix W = record {
  struct_size = plugin_api_v1_prefix_size;
  abi_version = bridge_abi_v1;
  initialize = none;
  invoke = none;
  shutdown = none;
}

-- The entry point that a library exports: it fills in the table that it is given.
abbrev pub Query : Type 0 → Type 0
Query W = HostTable W → PluginTable W → W → (Status × PluginTable W) × W
