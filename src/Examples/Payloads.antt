-- ===== src/Examples/Payloads.antt =====
-- crates/hmcl-rust-host-native/src/embedded.rs: a payload, its buffers and its path.
use aura_rust_runtime_host.Base.{
  ◌⊎◌, ℕ, ◌≡◌, ◌≢◌, refl, true, false, [], ◌∷◌, some, none, Result, ok, err, arith, inl, utf8_bytes,
  bytes_eq,
}
use aura_rust_runtime_host.Base.Int.{pos}
use aura_rust_runtime_host.Codec.Values.{Text}
use aura_rust_runtime_host.Protocol.Messages.{validate, MessageBody, hello}
use aura_rust_runtime_host.Codec.Utf8.{is_blank}
use aura_rust_runtime_host.Host.Errors.{HostError, invalid_host_result, java_bridge}
use aura_rust_runtime_host.Abi.Buffers.{OwnedBuffer}
use aura_rust_runtime_host.Abi.Tables.{PluginTable, HostTable_required_prefix}
use aura_rust_runtime_host.Host.Buffers.{
  HostCallbacks, HostCallbacks_new, allocate, release, take_output,
}
use aura_rust_runtime_host.Host.Payload.{
  Payload, PayloadState, shut_down, enable, disable, invoke_payload, shutdown_for_unload,
  force_shutdown,
}
use aura_rust_runtime_host.Host.Lifecycle.{Untouched, Payload-Ended}
use aura_rust_runtime_host.Host.Ownership.{start, allocated, take_output-allocate, buffer_once}
use aura_rust_runtime_host.Host.Paths.{FilePath, starts_with, resolve_entrypoint}
use aura_rust_runtime_host.Host.Confinement.{resolve_entrypoint-confined}
use aura_rust_runtime_host.Host.Serve.{handle}
use aura_rust_runtime_host.Host.Order.{Behind, handle-before_hello}
use aura_rust_runtime_host.Host.Bridge.{ProcessBridge_new}
use aura_rust_runtime_host.Host.Server.{
  error_body, truncate, World, Platform, await_hello, await_load,
}
use aura_rust_runtime_host.Host.Responses.{error_body-validate, truncate_lem, IsCut}

-- A plugin that counts its calls, and refuses to shut down.
abbrev counting : PluginTable (HostCallbacks × ℕ)
counting = record {
  struct_size = 40;
  abi_version = 1;
  initialize = some (λ table plugin session (host, n). (pos 0, (host, ℕ.suc n)));
  invoke = none;
  shutdown = some (λ plugin (host, n). (pos 5, (host, ℕ.suc n)));
}

abbrev payload_in : PayloadState → Payload ℕ
payload_in s = record {
  host = HostCallbacks_new 1 2;
  host_table = HostTable_required_prefix (HostCallbacks × ℕ);
  plugin_table = counting;
  state = s;
}

Payload-Ended_example :
    Untouched (payload_in shut_down) 0 (enable (payload_in shut_down) 0)
    × Untouched (payload_in shut_down) 0 (disable (payload_in shut_down) 0)
    × Untouched
        (payload_in shut_down)
        0
        (invoke_payload (payload_in shut_down) 0 (utf8_bytes "run") [] 0)
    × Untouched (payload_in shut_down) 0 (shutdown_for_unload (payload_in shut_down) 0)
    × Untouched (payload_in shut_down) 0 (force_shutdown (payload_in shut_down) 0)
Payload-Ended_example = Payload-Ended ℕ (payload_in shut_down) 0 (utf8_bytes "run") [] 0 (inl refl)

abbrev empty_host : HostCallbacks
empty_host = HostCallbacks_new 1 2

abbrev buffer_at : OwnedBuffer
buffer_at = record { data_pointer = 64; len = 2; capacity = 2 }

abbrev one_buffer : HostCallbacks
one_buffer = (allocate 64 empty_host 2 (some (8 ∷ 9 ∷ []))).1

one_buffer_allocated : allocate 64 empty_host 2 (some (8 ∷ 9 ∷ [])) ≡ (ok buffer_at, one_buffer)
unfolding allocate
one_buffer_allocated = refl

take_output-allocate_example : (take_output one_buffer buffer_at).0 ≡ ok (8 ∷ 9 ∷ [])
take_output-allocate_example =
    take_output-allocate 64 empty_host one_buffer (8 ∷ 9 ∷ []) buffer_at one_buffer_allocated

-- The buffer is taken, and another one is allocated elsewhere.
abbrev other_buffer : HostCallbacks
other_buffer = (allocate 96 (take_output one_buffer buffer_at).1 3 none).1

buffer_once_example :
    ((take_output other_buffer buffer_at).0 ≡ err invalid_host_result)
    × ((release other_buffer buffer_at).0 ≡ err invalid_host_result)
buffer_once_example =
    buffer_once one_buffer (take_output one_buffer buffer_at).1 other_buffer buffer_at (omega arith)
      (inl refl) (allocated start 96 3 none (λ e. absurd (omega arith)))

abbrev plugin_root : FilePath
plugin_root = record { absolute = true; components = utf8_bytes "pkg" ∷ [] }

abbrev entry : FilePath
entry = record { absolute = false; components = utf8_bytes "lib.so" ∷ [] }

abbrev library_file : FilePath
library_file = record { absolute = true; components = utf8_bytes "pkg" ∷ utf8_bytes "lib.so" ∷ [] }

-- A file system without links, in which every path is a file.
abbrev same_path : FilePath → Result HostError FilePath
same_path p = ok p

entry_found : resolve_entrypoint same_path (λ p. true) plugin_root entry ≡ ok library_file
unfolding resolve_entrypoint bytes_eq
entry_found = refl

resolve_entrypoint-confined_example :
    (root : FilePath) × (chosen : FilePath) × (same_path plugin_root ≡ ok root)
    × (same_path chosen ≡ ok library_file)
    × (starts_with library_file root ≡ true)
    × (true ≡ true)
resolve_entrypoint-confined_example =
    resolve_entrypoint-confined same_path (λ p. true) plugin_root entry library_file entry_found

abbrev one_text : HostError → Text
one_text e = utf8_bytes "failed"

one_text_shows : is_blank (truncate (one_text java_bridge)) ≡ false
unfolding truncate is_blank
one_text_shows = refl

error_body-validate_example : validate (error_body one_text java_bridge) ≡ ok tt
error_body-validate_example = error_body-validate one_text java_bridge one_text_shows

truncate_lem_example : IsCut 4096 (utf8_bytes "failed") (truncate (utf8_bytes "failed"))
truncate_lem_example = truncate_lem (utf8_bytes "failed")

-- A platform on which no library loads.
abbrev no_libraries : Platform ℕ
no_libraries = record {
  path_of = λ t. plugin_root;
  canonicalize = same_path;
  is_file = λ p. true;
  open_library = λ p. err java_bridge;
  address = λ boxes. 64;
  display = one_text;
}

abbrev enable_command : MessageBody
enable_command = MessageBody.enable

abbrev idle : World ℕ
idle = ((record { reader = []; writer = [] }, ProcessBridge_new 1 2), 0)

handle-before_hello_example :
    ((enable_command ≡ hello)
      × (handle no_libraries await_hello idle enable_command
          ≡ (ok (MessageBody.done, false), (await_load, idle))))
    ⊎ ((enable_command ≢ hello)
        × (Behind (handle no_libraries await_hello idle enable_command) ≡ (await_hello, idle)))
handle-before_hello_example = handle-before_hello ℕ no_libraries idle enable_command
