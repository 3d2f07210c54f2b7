-- ===== src/Host/Buffers.antt =====
-- crates/hmcl-rust-host-native/src/embedded.rs: the buffers that the Host owns for a payload.
use aura_rust_runtime_host.Base.{
  ℕ, Bool, true, false, not, ◌||◌, ◌&&◌, Option, none, some, List, [], ◌∷◌, Result, ok, err, ltb,
  ◌==◌, if◌then◌else◌, length, take,
}
use aura_rust_runtime_host.Futures.Table.{lookup, insert, remove}
use aura_rust_runtime_host.Abi.Buffers.{OwnedBuffer, empty_buffer}
use aura_rust_runtime_host.Host.Errors.{HostError, invalid_host_result}

pub record HostCallbacks : Type 0 where
  pub plugin_id : ℕ
  pub session : ℕ
  pub allocations : List (ℕ × List ℕ)
  pub armed : Bool

abbrev pub HostCallbacks_new : ℕ → ℕ → HostCallbacks
HostCallbacks_new plugin_id session = record {
  plugin_id = plugin_id;
  session = session;
  allocations = [];
  armed = false;
}

abbrev pub arm : HostCallbacks → HostCallbacks
arm host = record host { armed = true }

abbrev pub zeros : ℕ → List ℕ
zeros ℕ.zero = []
zeros (ℕ.suc n) = 0 ∷ zeros n

-- The length of the initial bytes, or none.
abbrev pub initialized_len : Option (List ℕ) → ℕ
initialized_len none = 0
initialized_len (some bytes) = length bytes

-- `pointer` is the address that the allocator returned for the new box.
unfoldable pub allocate_box :
    ℕ → ℕ → ℕ → List ℕ → HostCallbacks → Result HostError OwnedBuffer × HostCallbacks
unfolding insert
allocate_box pointer capacity len box host = (
  ok (record { data_pointer = pointer; len = len; capacity = capacity }),
  record host { allocations = insert host.allocations pointer box },
)

unfoldable pub allocate :
    ℕ → HostCallbacks → ℕ → Option (List ℕ) → Result HostError OwnedBuffer × HostCallbacks
unfolding allocate_box
allocate pointer host len none =
    if len == 0 then (ok empty_buffer, host) else allocate_box pointer len 0 (zeros len) host
allocate pointer host len (some bytes) =
    if len == 0
    then (ok empty_buffer, host)
    else if not (length bytes == len)
    then (err invalid_host_result, host)
    else allocate_box pointer len (length bytes) bytes host

-- Whether a descriptor of a box is within it.
abbrev pub fits : OwnedBuffer → List ℕ → Bool
fits buffer box = not (not (length box == buffer.capacity) || ltb buffer.capacity buffer.len)

unfoldable pub release_box : OwnedBuffer → Option (List ℕ) → Result HostError (Unit {0})
release_box buffer none = err invalid_host_result
release_box buffer (some box) = if fits buffer box then ok tt else err invalid_host_result

unfoldable pub release : HostCallbacks → OwnedBuffer → Result HostError (Unit {0}) × HostCallbacks
unfolding release_box lookup remove
release host buffer =
    if buffer.capacity == 0
    then (
      if buffer.data_pointer == 0 && buffer.len == 0 then ok tt else err invalid_host_result,
      host,
    )
    else (
      release_box buffer (lookup host.allocations buffer.data_pointer),
      record host { allocations = remove host.allocations buffer.data_pointer },
    )

unfoldable pub take_box : OwnedBuffer → Option (List ℕ) → Result HostError (List ℕ)
take_box buffer none = err invalid_host_result
take_box buffer (some box) =
    if fits buffer box then ok (take buffer.len box) else err invalid_host_result

unfoldable pub take_output : HostCallbacks → OwnedBuffer → Result HostError (List ℕ) × HostCallbacks
unfolding take_box lookup remove
take_output host buffer =
    if buffer.capacity == 0
    then (
      if buffer.data_pointer == 0 && buffer.len == 0 then ok [] else err invalid_host_result,
      host,
    )
    else (
      take_box buffer (lookup host.allocations buffer.data_pointer),
      record host { allocations = remove host.allocations buffer.data_pointer },
    )
