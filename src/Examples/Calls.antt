-- ===== src/Examples/Calls.antt =====
-- A plugin's calls and answers on the Host's own table, and an engine with one payload.
use aura_rust_runtime_host.Base.{
  bytes_eq, ℕ, ◌≡◌, refl, true, false, some, none, List, [], ◌∷◌, Result, ok, Option, arith,
  utf8_bytes,
}
use aura_rust_runtime_host.Base.Int.{pos}
use aura_rust_runtime_host.Codec.Utf8.{is_utf8}
use aura_rust_runtime_host.Codec.Values.{null, HandleValue}
use aura_rust_runtime_host.Codec.Encoder.{to_wire}
use aura_rust_runtime_host.Codec.Decoder.{from_wire}
use aura_rust_runtime_host.Futures.Table.{contains_key}
use aura_rust_runtime_host.Abi.Statuses.{Status, status_ok}
use aura_rust_runtime_host.Abi.Buffers.{
  Slice, HandleId, OwnedBuffer, empty_buffer, borrowed_slice, valid_pointer,
}
use aura_rust_runtime_host.Abi.Tables.{
  HostTable, Filled, HostTable_required_prefix, PluginTable, Query,
}
use aura_rust_runtime_host.Host.Errors.{HostError}
use aura_rust_runtime_host.Host.Buffers.{HostCallbacks, HostCallbacks_new, arm, take_output}
use aura_rust_runtime_host.Host.Transport.{BridgeTransport}
use aura_rust_runtime_host.Host.Callbacks.{table}
use aura_rust_runtime_host.Host.Paths.{FilePath}
use aura_rust_runtime_host.Host.Payload.{Payload_load, loaded}
use aura_rust_runtime_host.Sdk.Query.{query_plugin, entry_table}
use aura_rust_runtime_host.Sdk.Loading.{Payload_load-query_plugin}
use aura_rust_runtime_host.Host.Engine.{
  EngineState, EngineState_default, load_payload, enable_payload, unload_payload,
}
use aura_rust_runtime_host.Host.Registry.{Consistent}
use aura_rust_runtime_host.Host.Histories.{start, after, loads, enables, unloads, Calls-Consistent}
use aura_rust_runtime_host.Sdk.Leases.{HostState, new_host}
use aura_rust_runtime_host.Sdk.Admission.{new_host-Sound}
use aura_rust_runtime_host.Sdk.Context.{Context, from_copied, pure, record_cleanup_failure}
use aura_rust_runtime_host.Sdk.Objects.{from_borrowed, drop_handle}
use aura_rust_runtime_host.Sdk.References.{HasHandles, from_borrowed-drop_handle}
use aura_rust_runtime_host.Sdk.Calls.{invoke}
use aura_rust_runtime_host.Sdk.LeasedCalls.{Usable}
use aura_rust_runtime_host.Sdk.HostMemory.{host_memory}
use aura_rust_runtime_host.Sdk.Delivery.{invoke-answered}
use aura_rust_runtime_host.Sdk.Runtime.{Plugin, Session, answer, invoke_plugin}
use aura_rust_runtime_host.Sdk.Answers.{answer-delivered}
use aura_rust_runtime_host.Sdk.Outcomes.{Kept, plugin_in, invoke_plugin-Kept}

abbrev null_wire : List ℕ
null_wire = 0x92 ∷ 0 ∷ 0xc0 ∷ []

-- A launcher that counts its calls and answers null.
abbrev counter : BridgeTransport ℕ
counter = record {
  invoke_bridge = λ plugin session operation input n. (ok null_wire, ℕ.suc n);
  retain_bridge = λ session object version n. (ok tt, ℕ.suc n);
  release_bridge = λ session object version n. (ok tt, ℕ.suc n);
}

abbrev at_64 : List (ℕ × List ℕ) → ℕ
at_64 boxes = 64

abbrev live_host : HostCallbacks
live_host = arm (HostCallbacks_new 1 2)

abbrev live_context : Context (HostCallbacks × ℕ)
live_context = from_copied (table at_64 counter) 1 2

live_context_Usable : Usable live_context.host
unfolding from_copied new_host
live_context_Usable = record { sound = new_host-Sound; is_active = refl; room = omega arith }

live_context_table : live_context.table ≡ table at_64 counter
unfolding from_copied
live_context_table = refl

live_context_plugin : live_context.plugin ≡ 1
unfolding from_copied
live_context_plugin = refl

live_context_token : live_context.token ≡ 2
unfolding from_copied
live_context_token = refl

free_address : contains_key live_host.allocations 64 ≡ false
unfolding contains_key
free_address = refl

run_is_text : is_utf8 (utf8_bytes "run") ≡ true
unfolding is_utf8
run_is_text = refl

null_encodes : to_wire null ≡ ok null_wire
unfolding to_wire
null_encodes = refl

invoke-answered_example :
    (admission : HostState) × (invoke host_memory 7
        (utf8_bytes "run")
        null
        (live_context, (live_host, 0))
      ≡ (some (from_wire null_wire), (record live_context { host = admission }, (live_host, 1))))
    × Usable admission
invoke-answered_example =
    invoke-answered at_64 counter 7 live_context live_host 0 1 (utf8_bytes "run") null null_wire
      null_wire live_context_Usable live_context_table live_context_plugin live_context_token refl
      free_address (omega arith) run_is_text null_encodes refl

-- A plugin that answers null, and panics when it is shut down.
abbrev fragile : Plugin ℕ (HostCallbacks × ℕ)
fragile = record {
  default = 0;
  initialize = λ p s. ((ℕ.suc p, some (ok tt)), s);
  invoke = λ p operation input callback. pure null;
  shutdown = λ p s. ((p, none), s);
  drop = λ p s. (true, s);
}

abbrev live_session : Session ℕ (HostCallbacks × ℕ)
live_session = record { plugin = 1; context = live_context }

answer-delivered_example :
    (output : OwnedBuffer) × (next : HostCallbacks) × (admission : HostState) × (answer fragile
        host_memory 7 live_session empty_buffer
        (some (ok null), (live_context, (live_host, 0)))
      ≡ (
        (status_ok, output),
        (
          some (record live_session { context = record live_context { host = admission } }),
          (next, 0),
        ),
      ))
    × ((take_output next output).0 ≡ ok null_wire)
    × Usable admission
answer-delivered_example =
    answer-delivered at_64 counter fragile 7 live_session empty_buffer null live_context live_host 0
      null_wire live_context_Usable live_context_table refl (omega arith) null_encodes

invoke_plugin-Kept_example :
    Kept fragile host_memory (plugin_in fragile host_memory (some live_session)) empty_buffer (
      invoke_plugin fragile host_memory 7 valid_pointer
        (borrowed_slice (utf8_bytes "run"))
        (borrowed_slice null_wire)
        0
        valid_pointer
        empty_buffer
        (some live_session, (live_host, 0)))
invoke_plugin-Kept_example =
    invoke_plugin-Kept fragile host_memory 7 valid_pointer valid_pointer
      (borrowed_slice (utf8_bytes "run")) (borrowed_slice null_wire) 0 empty_buffer
      (some live_session) (live_host, 0)

-- A library whose query fills in the whole table.
abbrev full_table : PluginTable (HostCallbacks × ℕ)
full_table = record {
  struct_size = 40;
  abi_version = 1;
  initialize = some (λ host plugin session w. (pos 0, w));
  invoke = some (λ operation input callback old w. ((pos 0, old), w));
  shutdown = some (λ plugin w. (pos 0, w));
}

abbrev open_full : FilePath → Result HostError (Option (Query (HostCallbacks × ℕ)))
open_full path = ok (some (λ host old w. ((pos 0, full_table), w)))

abbrev root_path : FilePath
root_path = record { absolute = true; components = utf8_bytes "pkg" ∷ [] }

abbrev library_path : FilePath
library_path = record { absolute = false; components = utf8_bytes "lib.so" ∷ [] }

abbrev linkless : FilePath → Result HostError FilePath
linkless path = ok path

abbrev with_payload : EngineState ℕ
with_payload =
    (load_payload at_64 counter open_full linkless (λ path. true) (EngineState_default ℕ) 0
      root_path library_path 1 2).1.0

Calls-Consistent_example : Consistent (unload_payload (enable_payload with_payload 0 1).1.0 0 1).1.0
Calls-Consistent_example =
    Calls-Consistent at_64 counter open_full
      (unload_payload (enable_payload with_payload 0 1).1.0 0 1).1.0
      (after
        (after (after start (loads linkless (λ path. true) 0 root_path library_path 1 2))
          (enables 0 1))
        (unloads 0 1))

-- Two callbacks that count, the second of which fails.
abbrev counts : HandleId → ℕ → Status × ℕ
counts handle n = (status_ok, ℕ.suc n)

abbrev fails : HandleId → ℕ → Status × ℕ
fails handle n = (pos 4, ℕ.suc n)

abbrev handle_context : Context ℕ
handle_context =
    from_copied
      (record (HostTable_required_prefix ℕ) {
        retain_handle = some counts;
        release_handle = some fails;
      })
      1 2

abbrev window : HandleValue
window = record { object_id = 5; generation = 1; type_name = utf8_bytes "window" }

handle_context_Usable : Usable handle_context.host
unfolding from_copied new_host
handle_context_Usable = record { sound = new_host-Sound; is_active = refl; room = omega arith }

handle_context-HasHandles : HasHandles counts fails handle_context
unfolding from_copied
handle_context-HasHandles = (refl, refl)

window_type : bytes_eq window.type_name (utf8_bytes "window") ≡ true
unfolding bytes_eq
window_type = refl

from_borrowed-drop_handle_example :
    (made gone : HostState) × (from_borrowed (utf8_bytes "window") 7 window (handle_context, 0)
      ≡ (some (ok (record { value = window })), (record handle_context { host = made }, 1)))
    × (drop_handle 7 (record { value = window }) (record handle_context { host = made }, 1)
        ≡ (some (ok tt), (record_cleanup_failure (record handle_context { host = gone }), 2)))
    × Usable gone
from_borrowed-drop_handle_example =
    from_borrowed-drop_handle counts fails (utf8_bytes "window") 7 handle_context 0 1 2 window
      (pos 4) handle_context_Usable handle_context-HasHandles window_type refl refl

abbrev initialize_nothing :
    HostTable (HostCallbacks × ℕ) → ℕ → ℕ → HostCallbacks × ℕ → Status × (HostCallbacks × ℕ)
initialize_nothing host plugin session w = (status_ok, w)

abbrev invoke_nothing :
    Slice → Slice → ℕ → OwnedBuffer → HostCallbacks × ℕ → Filled (HostCallbacks × ℕ)
invoke_nothing operation input callback old w = ((status_ok, old), w)

abbrev shutdown_nothing : ℕ → HostCallbacks × ℕ → Status × (HostCallbacks × ℕ)
shutdown_nothing plugin w = (status_ok, w)

Payload_load-query_plugin_example :
    Payload_load
      (table at_64 counter)
      (ok (some (query_plugin initialize_nothing invoke_nothing shutdown_nothing true)))
      1
      2
      0
    ≡ (
      ok (record {
        host = arm (HostCallbacks_new 1 2);
        host_table = table at_64 counter;
        plugin_table = entry_table initialize_nothing invoke_nothing shutdown_nothing;
        state = loaded;
      }),
      0,
    )
Payload_load-query_plugin_example =
    Payload_load-query_plugin at_64 counter initialize_nothing invoke_nothing shutdown_nothing true
      1 2 0
