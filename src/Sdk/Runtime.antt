-- ===== src/Sdk/Runtime.antt =====
-- crates/hmcl-plugin-sdk/src/lib.rs: what `hmcl_plugin!` exports, for calls that follow one another.
-- How they interleave is the subject of the sessions. The plugin's own code is not under the
-- repository: it is a record of functions, each of which may panic.
use aura_rust_runtime_host.Base.{
  ℕ, Bool, true, false, not, ◌||◌, ◌&&◌, Option, none, some, List, Result, ok, err, ltb, ◌==◌,
  if◌then◌else◌,
}
use aura_rust_runtime_host.Codec.Errors.{Error}
use aura_rust_runtime_host.Codec.Utf8.{is_utf8}
use aura_rust_runtime_host.Codec.Values.{Text, Value}
use aura_rust_runtime_host.Codec.Encoder.{to_wire}
use aura_rust_runtime_host.Codec.Decoder.{from_wire}
use aura_rust_runtime_host.Abi.Statuses.{
  Status, status_ok, status_invalid_argument, status_unsupported_abi, status_buffer_too_small,
  status_host_error, status_plugin_error, is_ok,
}
use aura_rust_runtime_host.Abi.Buffers.{Slice, read_slice, OwnedBuffer, Pointer}
use aura_rust_runtime_host.Abi.Tables.{HostTable, bridge_abi_v1, host_api_v1_prefix_size}
use aura_rust_runtime_host.Sdk.Context.{Context, Call, M, from_copied, deactivate}
use aura_rust_runtime_host.Sdk.Calls.{Memory, allocate_wire}

-- `Plugin`: `P` is the implementing type. A method that takes `&mut self` returns the new value.
pub record Plugin (P W : Type 0) : Type 0 where
  pub default : P
  pub initialize : P → Context W × W → (P × Call (Unit {0})) × (Context W × W)
  pub invoke : P → Text → Value → ℕ → M W Value
  pub shutdown : P → Context W × W → (P × Call (Unit {0})) × (Context W × W)
  -- Whether `drop` returns.
  pub drop : P → Context W × W → Bool × (Context W × W)

pub record Session (P W : Type 0) : Type 0 where
  pub plugin : P
  pub context : Context W

-- `PluginRuntime`: the session, where there is one, beside the world.
abbrev pub Runtime : Type 0 → Type 0 → Type 0
Runtime P W = Option (Session P W) × W

-- What an entry point gives, or nothing where it waits for leases of other threads.
abbrev pub Exported : Type 0 → Type 0 → Type 0
Exported P W = Option (Status × Runtime P W)

-- `read_slice` and `from_utf8` of `invoke_inner`, and the decoding of the input.
abbrev pub or_invalid {ℓ} : {A : Type ℓ} → Option A → Result Status A
or_invalid none = err status_invalid_argument
or_invalid (some a) = ok a

abbrev pub or_invalid_value : Result Error Value → Result Status Value
or_invalid_value (err e) = err status_invalid_argument
or_invalid_value (ok v) = ok v

abbrev pub with_value : Text → Result Status Value → Result Status (Text × Value)
with_value text (err status) = err status
with_value text (ok v) = ok (text, v)

abbrev pub both_slices :
    Result Status (List ℕ) → Result Status (List ℕ) → Result Status (List ℕ × List ℕ)
both_slices (err status) second = err status
both_slices (ok name) (err status) = err status
both_slices (ok name) (ok bytes) = ok (name, bytes)

unfoldable pub decode_slices : Result Status (List ℕ × List ℕ) → Result Status (Text × Value)
unfolding is_utf8 from_wire
decode_slices (err status) = err status
decode_slices (ok (name, bytes)) =
    if not (is_utf8 name)
    then err status_invalid_argument
    else with_value name (or_invalid_value (from_wire bytes))

unfoldable pub decode_arguments : Slice → Slice → Result Status (Text × Value)
unfolding read_slice decode_slices
decode_arguments operation input =
    decode_slices (both_slices (or_invalid (read_slice operation)) (or_invalid (read_slice input)))

-- The checks of `initialize_inner` on its pointers and on the header of the Host's table.
unfoldable pub check_host : Pointer → Pointer → ℕ → ℕ → Status
check_host context host struct_size abi_version =
    if context.null || host.null || not host.aligned
    then status_invalid_argument
    else if ltb struct_size 8
    then status_buffer_too_small
    else if ltb struct_size host_api_v1_prefix_size
    then status_buffer_too_small
    else if not (abi_version == bridge_abi_v1)
    then status_unsupported_abi
    else status_ok

module _ {P W : Type 0} (plugin : Plugin P W) where
  -- The drop of the guard that is still armed, on the way out with an error.
  abbrev pub after_guard : Option (Session P W) → W → Option (Context W) → Exported P W
  after_guard slot w none = none
  after_guard slot w (some c) = some (status_plugin_error, (slot, w))

  abbrev pub fail_initialize : Option (Session P W) → Context W × W → Exported P W
  fail_initialize slot (c, w) = after_guard slot w (deactivate c)

  -- `implementation.initialize` and what follows.
  unfoldable pub install : (P × Call (Unit {0})) × (Context W × W) → Exported P W
  unfolding deactivate
  install ((p, some (ok u)), (c, w)) =
      some (status_ok, (some (record { plugin = p; context = c }), w))
  install ((p, some (err e)), s) = fail_initialize none (plugin.drop p s).1
  install ((p, none), s) = fail_initialize none (plugin.drop p s).1

  unfoldable pub initialize_at : Option (Session P W) → Context W → W → Exported P W
  unfolding install deactivate
  initialize_at (some session) c w = fail_initialize (some session) (c, w)
  initialize_at none c w = install (plugin.initialize plugin.default (c, w))

  unfoldable pub initialize_plugin :
      Pointer → Pointer → HostTable W → ℕ → ℕ → Runtime P W → Exported P W
  unfolding check_host initialize_at from_copied
  initialize_plugin context host table plugin_id token (slot, w) =
      let status = check_host context host table.struct_size table.abi_version in
      if is_ok status
      then initialize_at slot (from_copied table plugin_id token) w
      else some (status, (slot, w))

  module _ (memory : Memory W) where
    -- The output, or the status, and the session that goes on.
    abbrev pub Answered : Type 0
    Answered = (Status × OwnedBuffer) × Runtime P W

    abbrev pub keep_session : Session P W → Context W → Option (Session P W)
    keep_session session c = some (record session { context = c })

    unfoldable pub write_output :
        Session P W → OwnedBuffer → Call OwnedBuffer × (Context W × W) → Answered
    write_output session old (none, (c, w)) =
        ((status_plugin_error, old), (keep_session session c, w))
    write_output session old (some (err e), (c, w)) =
        ((status_host_error, old), (keep_session session c, w))
    write_output session old (some (ok output), (c, w)) =
        ((status_ok, output), (keep_session session c, w))

    unfoldable pub allocate_output :
        ℕ → Session P W → OwnedBuffer → Context W × W → Result Error (List ℕ) → Answered
    unfolding write_output allocate_wire
    allocate_output thread session old (c, w) (err e) =
        ((status_plugin_error, old), (keep_session session c, w))
    allocate_output thread session old s (ok wire) =
        write_output session old (allocate_wire memory thread wire s)

    unfoldable pub answer : ℕ → Session P W → OwnedBuffer → Call Value × (Context W × W) → Answered
    unfolding allocate_output to_wire
    answer thread session old (none, (c, w)) =
        ((status_plugin_error, old), (keep_session session c, w))
    answer thread session old (some (err e), (c, w)) =
        ((status_plugin_error, old), (keep_session session c, w))
    answer thread session old (some (ok value), s) =
        allocate_output thread session old s (to_wire value)

    unfoldable pub invoke_session : ℕ → Text → Value → ℕ → OwnedBuffer → Runtime P W → Answered
    unfolding answer
    invoke_session thread operation input callback old (none, w) =
        ((status_plugin_error, old), (none, w))
    invoke_session thread operation input callback old (some session, w) =
        answer thread session old
          (plugin.invoke session.plugin operation input callback (session.context, w))

    unfoldable pub invoke_decoded :
        ℕ → ℕ → OwnedBuffer → Runtime P W → Result Status (Text × Value) → Answered
    unfolding invoke_session
    invoke_decoded thread callback old runtime (err status) = ((status, old), runtime)
    invoke_decoded thread callback old runtime (ok (operation, input)) =
        invoke_session thread operation input callback old runtime

    unfoldable pub invoke_plugin :
        ℕ → Pointer → Slice → Slice → ℕ → Pointer → OwnedBuffer → Runtime P W → Answered
    unfolding invoke_decoded decode_arguments
    invoke_plugin thread context operation input callback out old runtime =
        if context.null || out.null || not out.aligned
        then ((status_invalid_argument, old), runtime)
        else invoke_decoded thread callback old runtime (decode_arguments operation input)

  -- `matches!(shutdown, Ok(Ok(())))`
  abbrev pub succeeded : Call (Unit {0}) → Bool
  succeeded none = false
  succeeded (some (err e)) = false
  succeeded (some (ok u)) = true

  abbrev pub end_session : Bool → W → Option (Context W) → Exported P W
  end_session well w none = none
  end_session well w (some c) = some (if well then status_ok else status_plugin_error, (none, w))

  abbrev pub end_dropped : Bool → Bool × (Context W × W) → Exported P W
  end_dropped well (returned, (c, w)) = end_session (well && returned) w (deactivate c)

  -- The plugin is shut down, then dropped, then the context is deactivated.
  unfoldable pub end_plugin : (P × Call (Unit {0})) × (Context W × W) → Exported P W
  unfolding deactivate
  end_plugin ((p, r), s) = end_dropped (succeeded r) (plugin.drop p s)

  unfoldable pub shutdown_session : ℕ → Runtime P W → Exported P W
  unfolding end_plugin
  shutdown_session plugin_id (none, w) = some (status_plugin_error, (none, w))
  shutdown_session plugin_id (some session, w) =
      if not (session.context.plugin == plugin_id)
      then some (status_invalid_argument, (some session, w))
      else end_plugin (plugin.shutdown session.plugin (session.context, w))

  unfoldable pub shutdown_plugin : Pointer → ℕ → Runtime P W → Exported P W
  unfolding shutdown_session
  shutdown_plugin context plugin_id (slot, w) =
      if context.null
      then some (status_invalid_argument, (slot, w))
      else shutdown_session plugin_id (slot, w)
