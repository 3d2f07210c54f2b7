-- ===== src/Sdk/Calls.antt =====
-- crates/hmcl-plugin-sdk/src/lib.rs: the calls of a context on its Host, and the buffers that the
-- Host gives to them.
use aura_rust_runtime_host.Base.{
  ℕ, Bool, true, false, not, Option, none, some, List, [], Result, ok, err, ◌>>◌, ◌==◌,
  if◌then◌else◌, length,
}
use aura_rust_runtime_host.Codec.Errors.{Error, Error_new, invalid_result, stale_handle}
use aura_rust_runtime_host.Codec.Values.{Text, Value}
use aura_rust_runtime_host.Codec.Encoder.{to_wire}
use aura_rust_runtime_host.Codec.Decoder.{from_wire}
use aura_rust_runtime_host.Abi.Statuses.{Status, is_ok}
use aura_rust_runtime_host.Abi.Buffers.{
  OwnedBuffer, empty_buffer, has_valid_layout, satisfies_allocation_request, borrowed_slice,
  HandleId, Slice,
}
use aura_rust_runtime_host.Abi.Tables.{Filled}
use aura_rust_runtime_host.Sdk.Context.{
  Context, Call, M, Body, with_lease, or_unavailable, from_host_status, record_cleanup_failure,
}

-- The memory that a pointer of the Host's leads to.
pub record Memory (W : Type 0) : Type 0 where
  pub read : W → ℕ → ℕ → List ℕ
  pub write : W → ℕ → List ℕ → W

-- `retain_status`
unfoldable pub retain_status : Status → Result Error (Unit {0})
retain_status status = if is_ok status then ok tt else err (Error_new stale_handle)

-- `HostBuffer::release`, by the status of the callback.
unfoldable pub release_status : Status → Result Error (Unit {0})
unfolding from_host_status
release_status status = if is_ok status then ok tt else err (from_host_status status)

module _ {W : Type 0} where
  -- The drop of a `HostBuffer` that still has its buffer, behind the release.
  unfoldable pub dropped_buffer :
      {A : Type 0} → Result Error A → Context W → Filled W → Result Error A × (Context W × W)
  unfolding record_cleanup_failure
  dropped_buffer r c ((status, b), w) =
      (r, (if is_ok status then c else record_cleanup_failure c, w))

  -- The end of `invoke`: the release, and the decoding of the bytes that were copied.
  unfoldable pub released : List ℕ → Context W → Filled W → Result Error Value × (Context W × W)
  unfolding release_status from_wire
  released bytes c ((status, b), w) = (release_status status >> from_wire bytes, (c, w))

  abbrev pub retained : Context W → Status × W → Result Error (Unit {0}) × (Context W × W)
  retained c (status, w) = (retain_status status, (c, w))

  unfoldable pub retain_handle : ℕ → HandleId → M W (Unit {0})
  unfolding with_lease retain_status
  retain_handle thread handle = with_lease thread (λ c w.
      or_unavailable c.table.release_handle c w (λ release.
        or_unavailable c.table.retain_handle c w (λ retain. retained c (retain handle w))))

  unfoldable pub ensure_release_handle : ℕ → M W (Unit {0})
  unfolding with_lease
  ensure_release_handle thread =
      with_lease thread (λ c w. or_unavailable c.table.release_handle c w (λ f. (ok tt, (c, w))))

  unfoldable pub ensure_handle_callbacks : ℕ → M W (Unit {0})
  unfolding with_lease
  ensure_handle_callbacks thread = with_lease thread (λ c w.
      or_unavailable c.table.retain_handle c w
        (λ f. or_unavailable c.table.release_handle c w (λ g. (ok tt, (c, w)))))

  -- Whether the release failed: a missing callback is a failure.
  unfoldable pub failed_release :
      Option (HandleId → W → Status × W)
      → HandleId
      → Context W
      → W
      → Result Error Bool × (Context W × W)
  failed_release none handle c w = (ok true, (c, w))
  failed_release (some f) handle c w =
      let (status, after) = f handle w in (ok (not (is_ok status)), (c, after))

  -- No lease is no failure.
  abbrev pub or_released : Call Bool × (Context W × W) → Call Bool × (Context W × W)
  or_released (none, s) = (none, s)
  or_released (some (err e), s) = (some (ok false), s)
  or_released (some (ok failed), s) = (some (ok failed), s)

  unfoldable pub release_handle_for_drop : ℕ → HandleId → M W Bool
  unfolding with_lease failed_release
  release_handle_for_drop thread handle s =
      or_released (with_lease thread (λ c w. failed_release c.table.release_handle handle c w) s)

  module _ (memory : Memory W) where
    -- `HostBuffer::copy_bytes`
    unfoldable pub copy_bytes : OwnedBuffer → W → List ℕ
    copy_bytes b w = if b.len == 0 then [] else memory.read w b.data_pointer b.len

    -- The result behind the status: it is copied, and its buffer given back.
    unfoldable pub take_result :
        (OwnedBuffer → W → Filled W)
        → Context W
        → OwnedBuffer
        → W
        → Result Error Value × (Context W × W)
    unfolding has_valid_layout dropped_buffer released copy_bytes
    take_result release c b w =
        if not (has_valid_layout b)
        then dropped_buffer (err (Error_new invalid_result)) c (release b w)
        else released (copy_bytes b w) c (release b w)

    unfoldable pub received :
        (OwnedBuffer → W → Filled W) → Context W → Filled W → Result Error Value × (Context W × W)
    unfolding take_result from_host_status
    received release c ((status, b), w) =
        if not (is_ok status)
        then (err (from_host_status status), (c, w))
        else take_result release c b w

    abbrev pub Invoke : Type 0
    Invoke = ℕ → ℕ → Slice → Slice → OwnedBuffer → W → Filled W

    unfoldable pub invoke_encoded :
        Invoke
        → (OwnedBuffer → W → Filled W)
        → Text
        → Context W
        → W
        → Result Error (List ℕ)
        → Result Error Value × (Context W × W)
    unfolding received borrowed_slice
    invoke_encoded f release operation c w (err e) = (err e, (c, w))
    invoke_encoded f release operation c w (ok input) =
        received release c
          (f c.plugin c.token (borrowed_slice operation) (borrowed_slice input) empty_buffer w)

    unfoldable pub invoke_body : Text → Value → Body W Value
    unfolding invoke_encoded to_wire
    invoke_body operation input c w = or_unavailable c.table.invoke c w (λ f.
        or_unavailable c.table.release_buffer c w
          (λ release. invoke_encoded f release operation c w (to_wire input)))

    -- `PluginContext::invoke`
    unfoldable pub invoke : ℕ → Text → Value → M W Value
    unfolding with_lease invoke_body
    invoke thread operation input = with_lease thread (invoke_body operation input)

    abbrev pub put_bytes : W → OwnedBuffer → List ℕ → W
    put_bytes w b bytes = if length bytes == 0 then w else memory.write w b.data_pointer bytes

    unfoldable pub fill_buffer :
        (OwnedBuffer → W → Filled W)
        → List ℕ
        → Context W
        → OwnedBuffer
        → W
        → Result Error OwnedBuffer × (Context W × W)
    unfolding dropped_buffer satisfies_allocation_request
    fill_buffer release bytes c b w =
        if not (satisfies_allocation_request b (length bytes))
        then dropped_buffer (err (Error_new invalid_result)) c (release b w)
        else (ok (record b { len = length bytes }), (c, put_bytes w b bytes))

    unfoldable pub allocated :
        (OwnedBuffer → W → Filled W)
        → List ℕ
        → Context W
        → Filled W
        → Result Error OwnedBuffer × (Context W × W)
    unfolding fill_buffer from_host_status
    allocated release bytes c ((status, b), w) =
        if not (is_ok status)
        then (err (from_host_status status), (c, w))
        else fill_buffer release bytes c b w

    unfoldable pub allocate_body : List ℕ → Body W OwnedBuffer
    unfolding allocated
    allocate_body bytes c w = or_unavailable c.table.allocate c w (λ f.
        or_unavailable c.table.release_buffer c w
          (λ release. allocated release bytes c (f (length bytes) empty_buffer w)))

    unfoldable pub allocate_wire : ℕ → List ℕ → M W OwnedBuffer
    unfolding with_lease allocate_body
    allocate_wire thread bytes = with_lease thread (allocate_body bytes)
