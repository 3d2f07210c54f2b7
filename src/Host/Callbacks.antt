-- ===== src/Host/Callbacks.antt =====
-- crates/hmcl-rust-host-native/src/embedded.rs: the callbacks that the Host gives to a payload.
use aura_rust_runtime_host.Base.{
  ℕ, Bool, not, ◌||◌, ◌&&◌, Option, none, some, List, Result, ok, err, ◌>>=◌, ◌==◌, if◌then◌else◌,
  length,
}
use aura_rust_runtime_host.Codec.Utf8.{is_utf8}
use aura_rust_runtime_host.Codec.Values.{Text}
use aura_rust_runtime_host.Abi.Statuses.{
  Status, status_ok, status_invalid_argument, status_host_error,
}
use aura_rust_runtime_host.Abi.Buffers.{
  Slice, read_slice, OwnedBuffer, empty_buffer, HandleId, Pointer, valid_pointer,
}
use aura_rust_runtime_host.Abi.Tables.{HostTable, Filled, HostTable_required_prefix}
use aura_rust_runtime_host.Host.Errors.{HostError}
use aura_rust_runtime_host.Host.Buffers.{HostCallbacks, allocate, release}
use aura_rust_runtime_host.Host.Transport.{BridgeTransport}

-- `boundary`, of what `catch_unwind` gives: the result of the action, or nothing where it panicked.
unfoldable pub boundary : Option (Result Status (Unit {0})) → Status
boundary (some (ok u)) = status_ok
boundary (some (err status)) = status
boundary none = status_host_error

unfoldable pub host_context : Pointer → HostCallbacks → Result Status HostCallbacks
host_context context host =
    if context.null || not context.aligned
    then err status_invalid_argument
    else if not host.armed
    then err status_host_error
    else ok host

-- What follows a check of the context, by its outcome.
abbrev pub on_live :
    {A : Type 0} → Result Status HostCallbacks → (Status → A) → (HostCallbacks → A) → A
on_live (err status) refused go = refused status
on_live (ok live) refused go = go live

abbrev pub or_invalid : Option (List ℕ) → Result Status (List ℕ)
or_invalid none = err status_invalid_argument
or_invalid (some bytes) = ok bytes

abbrev pub read_argument : Slice → Result Status (List ℕ)
read_argument slice = or_invalid (read_slice slice)

abbrev pub read_text : List ℕ → Result Status Text
read_text bytes = if is_utf8 bytes then ok bytes else err status_invalid_argument

abbrev pub is_usable : Pointer → Bool
is_usable p = not p.null && p.aligned

abbrev pub released_status : Result HostError (Unit {0}) → Status
released_status (ok u) = boundary (some (ok tt))
released_status (err e) = boundary (some (err status_invalid_argument))

-- `address` is where the Host's allocator puts a new box.
module _ {P : Type 0} (address : List (ℕ × List ℕ) → ℕ) where
  -- What `host_allocate` and `host_invoke` do with an allocation: the output, or the status.
  unfoldable pub give_buffer :
      Result HostError OwnedBuffer × HostCallbacks → OwnedBuffer → P → Filled (HostCallbacks × P)
  unfolding boundary
  give_buffer (ok buffer, host) old world = ((boundary (some (ok tt)), buffer), (host, world))
  give_buffer (err e, host) old world =
      ((boundary (some (err status_host_error)), old), (host, world))

  unfoldable pub host_allocate :
      Pointer → ℕ → Pointer → OwnedBuffer → HostCallbacks × P → Filled (HostCallbacks × P)
  unfolding host_context give_buffer allocate
  host_allocate context len out old (host, world) =
      on_live (host_context context host)
        (λ status. ((boundary (some (err status)), old), (host, world)))
        (λ live.
          if not (is_usable out)
          then ((boundary (some (err status_invalid_argument)), old), (host, world))
          else give_buffer (allocate (address live.allocations) live len none) old world)

  -- The caller's descriptor is emptied before the release.
  unfoldable pub host_release_buffer :
      Pointer → Pointer → OwnedBuffer → HostCallbacks × P → Filled (HostCallbacks × P)
  unfolding host_context release boundary
  host_release_buffer context at buffer (host, world) =
      on_live (host_context context host)
        (λ status. ((boundary (some (err status)), buffer), (host, world)))
        (λ live.
          if not (is_usable at)
          then ((boundary (some (err status_invalid_argument)), buffer), (host, world))
          else let (r, after) = release live buffer in
            ((released_status r, empty_buffer), (after, world)))

  unfoldable pub host_log : Pointer → ℕ → Slice → HostCallbacks × P → Status × (HostCallbacks × P)
  unfolding host_context boundary read_slice
  host_log context level message (host, world) = (
    boundary (
        some (do
          live ← host_context context host
          bytes ← read_argument message
          text ← read_text bytes
          ok tt)),
    (host, world),
  )

  module _ (bridge : BridgeTransport P) where
    -- `host_invoke` behind the launcher's answer.
    unfoldable pub give_result :
        HostCallbacks → OwnedBuffer → Result HostError (List ℕ) × P → Filled (HostCallbacks × P)
    unfolding give_buffer allocate
    give_result host old (err e, world) =
        ((boundary (some (err status_host_error)), old), (host, world))
    give_result host old (ok result, world) =
        give_buffer (allocate (address host.allocations) host (length result) (some result)) old
          world

    abbrev pub checked_arguments : Slice → Slice → Result Status (Text × List ℕ)
    checked_arguments operation input = do
      name ← read_argument operation
      text ← read_text name
      bytes ← read_argument input
      ok (text, bytes)

    abbrev pub invoke_launcher :
        HostCallbacks → P → OwnedBuffer → Result Status (Text × List ℕ) → Filled (HostCallbacks × P)
    invoke_launcher host world old (err status) =
        ((boundary (some (err status)), old), (host, world))
    invoke_launcher host world old (ok (operation, input)) =
        give_result host old
          (bridge.invoke_bridge host.plugin_id host.session operation input world)

    unfoldable pub host_invoke :
        Pointer
        → ℕ
        → ℕ
        → Slice
        → Slice
        → Pointer
        → OwnedBuffer
        → HostCallbacks × P
        → Filled (HostCallbacks × P)
    unfolding host_context give_result boundary read_slice
    host_invoke context plugin token operation input out old (host, world) =
        on_live (host_context context host)
          (λ status. ((boundary (some (err status)), old), (host, world)))
          (λ live.
            if not (plugin == live.plugin_id) || not (token == live.session) || not (is_usable out)
            then ((boundary (some (err status_invalid_argument)), old), (host, world))
            else invoke_launcher live world old (checked_arguments operation input))

    abbrev pub launcher_status : Result HostError (Unit {0}) × P → Status × P
    launcher_status (ok u, world) = (boundary (some (ok tt)), world)
    launcher_status (err e, world) = (boundary (some (err status_host_error)), world)

    abbrev pub beside : HostCallbacks → Status × P → Status × (HostCallbacks × P)
    beside host (status, world) = (status, (host, world))

    unfoldable pub host_retain_handle :
        Pointer → HandleId → HostCallbacks × P → Status × (HostCallbacks × P)
    unfolding host_context boundary
    host_retain_handle context handle (host, world) =
        on_live (host_context context host)
          (λ status. (boundary (some (err status)), (host, world)))
          (λ live. beside host (
            launcher_status (bridge.retain_bridge live.session handle.object handle.version world)))

    unfoldable pub host_release_handle :
        Pointer → HandleId → HostCallbacks × P → Status × (HostCallbacks × P)
    unfolding host_context boundary
    host_release_handle context handle (host, world) =
        on_live (host_context context host)
          (λ status. (boundary (some (err status)), (host, world)))
          (λ live. beside host (
            launcher_status
              (bridge.release_bridge live.session handle.object handle.version world)))

    -- `HostCallbacks::table`. The context is the Host's own, and its callers pass pointers to live
    -- descriptors.
    unfoldable pub table : HostTable (HostCallbacks × P)
    unfolding host_allocate host_release_buffer host_log host_invoke host_retain_handle
        host_release_handle
    table = record (HostTable_required_prefix (HostCallbacks × P)) {
      allocate = some (λ len old w. host_allocate valid_pointer len valid_pointer old w);
      release_buffer = some (λ b w. host_release_buffer valid_pointer valid_pointer b w);
      log = some (λ level message w. host_log valid_pointer level message w);
      invoke = some (λ plugin token operation input old w.
          host_invoke valid_pointer plugin token operation input valid_pointer old w);
      retain_handle = some (λ handle w. host_retain_handle valid_pointer handle w);
      release_handle = some (λ handle w. host_release_handle valid_pointer handle w);
    }
