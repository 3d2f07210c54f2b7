-- ===== src/Sdk/Query.antt =====
-- crates/hmcl-plugin-sdk/src/lib.rs: `query_plugin`, which `hmcl_plugin!` exports. What it reads of the two
-- tables is the first eight bytes of each, in the byte order of the machine.
use aura_rust_runtime_host.Base.{ℕ, List, ◌++◌, some, if◌then◌else◌}
use aura_rust_runtime_host.Abi.Statuses.{Status, status_ok, is_ok}
use aura_rust_runtime_host.Abi.Buffers.{Slice, OwnedBuffer, valid_pointer}
use aura_rust_runtime_host.Abi.Tables.{
  HostTable, PluginTable, PluginTable_required_prefix, Filled, Query,
}
use aura_rust_runtime_host.Abi.Words.{BigEndian, to_ne_bytes}
use aura_rust_runtime_host.Abi.Negotiation.{negotiate_plugin_api_v1}

unfoldable pub header_image : BigEndian → ℕ → ℕ → List ℕ
unfolding to_ne_bytes
header_image big struct_size abi_version =
    to_ne_bytes big 4 struct_size ++ to_ne_bytes big 4 abi_version

-- The entry points are those of one plugin type, over the world `W` of its runtime and the Host.
module _ {W : Type 0} (initialize_entry : HostTable W → ℕ → ℕ → W → Status × W)
    (invoke_entry : Slice → Slice → ℕ → OwnedBuffer → W → Filled W)
    (shutdown_entry : ℕ → W → Status × W) where
  unfoldable pub entry_table : PluginTable W
  entry_table = record (PluginTable_required_prefix W) {
    initialize = some initialize_entry;
    invoke = some invoke_entry;
    shutdown = some shutdown_entry;
  }

  abbrev pub write_table : Status → PluginTable W → W → (Status × PluginTable W) × W
  write_table status old w =
      if is_ok status then ((status_ok, entry_table), w) else ((status, old), w)

  unfoldable pub query_plugin : BigEndian → Query W
  unfolding negotiate_plugin_api_v1 header_image entry_table
  query_plugin big host out w =
      write_table
        (negotiate_plugin_api_v1 big valid_pointer
          (header_image big host.struct_size host.abi_version) valid_pointer
          (header_image big out.struct_size out.abi_version)).0
        out w
