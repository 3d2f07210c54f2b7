-- ===== src/Sdk/Loading.antt =====
-- How the Host loads a library that exports `hmcl_plugin!`: `EmbeddedPayload::load` of
-- crates/hmcl-rust-host-native/src/embedded.rs on the query of crates/hmcl-plugin-sdk/src/lib.rs.
use aura_rust_runtime_host.Base.{ℕ, ◌≡◌, refl, ap, true, false, List, some, ok}
use aura_rust_runtime_host.Abi.Statuses.{Status, status_ok}
use aura_rust_runtime_host.Abi.Buffers.{Slice, OwnedBuffer, valid_pointer}
use aura_rust_runtime_host.Abi.Tables.{HostTable, Filled, PluginTable_required_prefix}
use aura_rust_runtime_host.Abi.Words.{BigEndian, to_ne_bytes, from_ne_bytes}
use aura_rust_runtime_host.Abi.Negotiation.{negotiate_plugin_api_v1}
use aura_rust_runtime_host.Host.Buffers.{HostCallbacks, HostCallbacks_new, arm}
use aura_rust_runtime_host.Host.Transport.{BridgeTransport}
use aura_rust_runtime_host.Host.Callbacks.{table}
use aura_rust_runtime_host.Host.Payload.{Payload_load, check_table, loaded}
use aura_rust_runtime_host.Sdk.Query.{header_image, entry_table, query_plugin, write_table}

negotiates :
    (big : BigEndian)
    → (negotiate_plugin_api_v1 big valid_pointer
        (header_image big 64 1)
        valid_pointer
        (header_image big 40 1)).0
      ≡ status_ok
unfolding negotiate_plugin_api_v1 header_image to_ne_bytes from_ne_bytes
negotiates true = refl
negotiates false = refl

module _ {P : Type 0} (address : List (ℕ × List ℕ) → ℕ) (bridge : BridgeTransport P) where
  module _
      (initialize_entry : HostTable (HostCallbacks × P)
        → ℕ
        → ℕ
        → HostCallbacks × P
        → Status × (HostCallbacks × P))
      (invoke_entry : Slice
        → Slice
        → ℕ
        → OwnedBuffer
        → HostCallbacks × P
        → Filled (HostCallbacks × P))
      (shutdown_entry : ℕ → HostCallbacks × P → Status × (HostCallbacks × P)) where
    query_plugin-table :
        (big : BigEndian) (w : HostCallbacks × P)
        → query_plugin initialize_entry invoke_entry shutdown_entry big
            (table address bridge)
            (PluginTable_required_prefix (HostCallbacks × P))
            w
          ≡ ((status_ok, entry_table initialize_entry invoke_entry shutdown_entry), w)
    unfolding query_plugin table
    query_plugin-table big w =
        ap
          (λ status.
            write_table initialize_entry invoke_entry shutdown_entry status
              (PluginTable_required_prefix (HostCallbacks × P)) w)
          (negotiates big)

    -- A library that exports `hmcl_plugin!` is loaded, in either byte order, whatever the plugin: its
    -- query and the Host agree, the table that it fills in passes the Host's checks, the payload is not
    -- yet enabled, and the plugin's code has not run.
    pub Payload_load-query_plugin :
        (big : BigEndian) (plugin_id session : ℕ) (world : P)
        → Payload_load
            (table address bridge)
            (ok (some (query_plugin initialize_entry invoke_entry shutdown_entry big)))
            plugin_id
            session
            world
          ≡ (
            ok (record {
              host = arm (HostCallbacks_new plugin_id session);
              host_table = table address bridge;
              plugin_table = entry_table initialize_entry invoke_entry shutdown_entry;
              state = loaded;
            }),
            world,
          )
    unfolding Payload_load check_table entry_table
    Payload_load-query_plugin big plugin_id session world =
        ap (check_table (table address bridge))
          (query_plugin-table big (HostCallbacks_new plugin_id session, world))
