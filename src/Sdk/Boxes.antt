-- ===== src/Sdk/Boxes.antt =====
-- crates/hmcl-rust-host-native/src/embedded.rs: the box of a result, as a context of the SDK sees it.
use aura_rust_runtime_host.Base.{
  ℕ, suc, ◌<◌, ◌≡◌, refl, ap, ◌∙◌, true, false, some, List, ◌∷◌, ok, ◌==◌, length, take, arith,
}
use aura_rust_runtime_host.Codec.Utf8.{is_utf8}
use aura_rust_runtime_host.Codec.Values.{Text}
use aura_rust_runtime_host.Futures.Table.{
  contains_key, remove, insert, remove-absent, lookup-insert_same,
}
use aura_rust_runtime_host.Abi.Statuses.{status_ok}
use aura_rust_runtime_host.Abi.Buffers.{
  OwnedBuffer, empty_buffer, borrowed_slice, read_slice-borrowed_slice, valid_pointer,
  has_valid_layout,
}
use aura_rust_runtime_host.Host.Buffers.{HostCallbacks, release, release_box, fits}
use aura_rust_runtime_host.Host.Transport.{BridgeTransport}
use aura_rust_runtime_host.Host.Callbacks.{
  host_invoke, host_context, give_result, give_buffer, host_release_buffer, boundary,
}
use aura_rust_runtime_host.Host.Ownership.{allocate_result, take_all}
use aura_rust_runtime_host.Sdk.Calls.{copy_bytes}
use aura_rust_runtime_host.Sdk.HostMemory.{host_memory, bytes_at}

abbrev pub Boxed : ℕ → List ℕ → OwnedBuffer
Boxed pointer bytes = record { data_pointer = pointer; len = length bytes; capacity = length bytes }

remove-insert :
    (t : List (ℕ × List ℕ)) (key : ℕ) (bytes : List ℕ)
    → contains_key t key ≡ false
    → remove (insert t key bytes) key ≡ t
unfolding remove insert
remove-insert t key bytes h =
    let e = remove-absent t key h in
    let same : (key == key) ≡ true = ground arith in rw (same, e, e) refl

release_box-all :
    (pointer : ℕ) (bytes : List ℕ) → release_box (Boxed pointer bytes) (some bytes) ≡ ok tt
unfolding release_box
release_box-all pointer bytes =
    let f : fits (Boxed pointer bytes) bytes ≡ true = ground arith in rw f refl

-- What a box leaves behind when it is given back at once.
pub release-new_box :
    (host : HostCallbacks) (pointer b : ℕ) (bs : List ℕ)
    → contains_key host.allocations pointer ≡ false
    → release
        (record host { allocations = insert host.allocations pointer (b ∷ bs) })
        (Boxed pointer (b ∷ bs))
      ≡ (ok tt, host)
unfolding release
release-new_box host pointer b bs h =
    let positive : (suc (length bs) == 0) ≡ false = ground arith in
    let found = lookup-insert_same host.allocations pointer (b ∷ bs) in
    let gone = remove-insert host.allocations pointer (b ∷ bs) h in
    let fine = release_box-all pointer (b ∷ bs) in rw (positive, found, gone, fine) refl

module _ {P : Type 0} (address : List (ℕ × List ℕ) → ℕ) (bridge : BridgeTransport P) where
  -- The Host's part of a call whose arguments pass: the launcher's answer, in a buffer.
  pub host_invoke-answered :
      (host : HostCallbacks) (world after : P) (operation : Text) (input result : List ℕ)
      → host.armed ≡ true
      → is_utf8 operation ≡ true
      → bridge.invoke_bridge host.plugin_id host.session operation input world ≡ (ok result, after)
      → host_invoke address bridge valid_pointer host.plugin_id host.session
          (borrowed_slice operation)
          (borrowed_slice input)
          valid_pointer
          empty_buffer
          (host, world)
        ≡ give_result address bridge host empty_buffer (ok result, after)
  unfolding host_invoke host_context
  host_invoke-answered host world after operation input result armed text answer =
      let p : (host.plugin_id == host.plugin_id) ≡ true = ground arith in
      let s : (host.session == host.session) ≡ true = ground arith in
      rw
        (
          armed,
          p,
          s,
          read_slice-borrowed_slice operation,
          text,
          read_slice-borrowed_slice input,
          answer,
        )
        refl

  abbrev pub with_box : HostCallbacks → List ℕ → HostCallbacks
  with_box host bytes = record host {
    allocations = insert host.allocations (address host.allocations) bytes;
  }

  pub give_result-boxed :
      (host : HostCallbacks) (after : P) (b : ℕ) (bs : List ℕ)
      → give_result address bridge host empty_buffer (ok (b ∷ bs), after)
        ≡ ((status_ok, Boxed (address host.allocations) (b ∷ bs)), (with_box host (b ∷ bs), after))
  unfolding give_result give_buffer boundary
  give_result-boxed host after b bs = rw (allocate_result (address host.allocations) host b bs) refl

  pub copy_bytes-boxed :
      (host : HostCallbacks) (after : P) (b : ℕ) (bs : List ℕ)
      → copy_bytes host_memory
          (Boxed (address host.allocations) (b ∷ bs))
          (with_box host (b ∷ bs), after)
        ≡ b ∷ bs
  unfolding copy_bytes host_memory
  copy_bytes-boxed host after b bs =
      let some_bytes : (suc (length bs) == 0) ≡ false = ground arith in
      rw some_bytes (
        ap (λ x. take (suc (length bs)) (bytes_at x))
          (lookup-insert_same host.allocations (address host.allocations) (b ∷ bs))
        ∙ take_all (b ∷ bs))

  host_release_buffer-armed :
      (host next : HostCallbacks) (world : P) (buffer : OwnedBuffer)
      → host.armed ≡ true
      → release host buffer ≡ (ok tt, next)
      → host_release_buffer address valid_pointer valid_pointer buffer (host, world)
        ≡ ((status_ok, empty_buffer), (next, world))
  unfolding host_release_buffer host_context boundary
  host_release_buffer-armed host next world buffer armed h =
      let z = rw armed at h in rw armed (rw z refl)

  pub host_release_buffer-boxed :
      (host : HostCallbacks) (after : P) (b : ℕ) (bs : List ℕ)
      → host.armed ≡ true
      → contains_key host.allocations (address host.allocations) ≡ false
      → host_release_buffer address valid_pointer valid_pointer
          (Boxed (address host.allocations) (b ∷ bs))
          (with_box host (b ∷ bs), after)
        ≡ ((status_ok, empty_buffer), (host, after))
  host_release_buffer-boxed host after b bs armed fresh =
      host_release_buffer-armed (with_box host (b ∷ bs)) host after
        (Boxed (address host.allocations) (b ∷ bs)) armed
        (release-new_box host (address host.allocations) b bs fresh)

  pub has_valid_layout-boxed :
      (pointer b : ℕ) (bs : List ℕ) → 0 < pointer → has_valid_layout (Boxed pointer (b ∷ bs)) ≡ true
  unfolding has_valid_layout
  has_valid_layout-boxed pointer b bs h = ground arith
