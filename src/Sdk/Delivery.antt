-- ===== src/Sdk/Delivery.antt =====
-- How a plugin's call reaches the launcher: the context of crates/hmcl-plugin-sdk/src/lib.rs on the
-- Host's table of crates/hmcl-rust-host-native/src/embedded.rs.
use aura_rust_runtime_host.Base.{ℕ, ◌<◌, ◌≡◌, refl, ap, ◌∙◌, true, false, some, List, [], ◌∷◌, ok}
use aura_rust_runtime_host.Codec.Utf8.{is_utf8}
use aura_rust_runtime_host.Codec.Values.{Text, Value}
use aura_rust_runtime_host.Codec.Encoder.{to_wire}
use aura_rust_runtime_host.Codec.Decoder.{from_wire}
use aura_rust_runtime_host.Futures.Table.{contains_key}
use aura_rust_runtime_host.Abi.Buffers.{
  OwnedBuffer, empty_buffer, borrowed_slice, valid_pointer, has_valid_layout,
}
use aura_rust_runtime_host.Abi.Tables.{Filled}
use aura_rust_runtime_host.Host.Buffers.{HostCallbacks, allocate, release}
use aura_rust_runtime_host.Host.Transport.{BridgeTransport}
use aura_rust_runtime_host.Host.Callbacks.{
  table, host_invoke, host_context, give_result, give_buffer, host_release_buffer, boundary,
}
use aura_rust_runtime_host.Sdk.Leases.{HostState, grant}
use aura_rust_runtime_host.Sdk.Context.{Context, or_unavailable}
use aura_rust_runtime_host.Sdk.Calls.{
  Invoke, invoke, invoke_body, invoke_encoded, received, take_result, released, copy_bytes,
}
use aura_rust_runtime_host.Sdk.LeasedCalls.{Usable, with_lease-Usable}
use aura_rust_runtime_host.Sdk.HostMemory.{host_memory}
use aura_rust_runtime_host.Sdk.Boxes.{
  host_invoke-answered, give_result-boxed, copy_bytes-boxed, host_release_buffer-boxed,
  has_valid_layout-boxed,
}

module _ {P : Type 0} (address : List (ℕ × List ℕ) → ℕ) (bridge : BridgeTransport P) where
  -- The buffer of a result is read whole, and given back.
  received-answered :
      (c : Context (HostCallbacks × P)) (host : HostCallbacks) (after : P) (result : List ℕ)
      → host.armed ≡ true
      → contains_key host.allocations (address host.allocations) ≡ false
      → 0 < address host.allocations
      → received host_memory
          (λ b w. host_release_buffer address valid_pointer valid_pointer b w)
          c
          (give_result address bridge host empty_buffer (ok result, after))
        ≡ (from_wire result, (c, (host, after)))
  unfolding received take_result released give_result give_buffer host_release_buffer host_context
      has_valid_layout copy_bytes release allocate boundary
  received-answered c host after [] armed fresh positive = rw armed refl
  received-answered c host after (b ∷ bs) armed fresh positive =
      let release : OwnedBuffer → HostCallbacks × P → Filled (HostCallbacks × P) =
        λ x w. host_release_buffer address valid_pointer valid_pointer x w in
      ap (received host_memory release c) (give_result-boxed address bridge host after b bs)
      ∙ rw
          (
            has_valid_layout-boxed address bridge (address host.allocations) b bs positive,
            copy_bytes-boxed address bridge host after b bs,
            host_release_buffer-boxed address bridge host after b bs armed fresh,
          )
          refl

  invoke_body-found :
      (c : Context (HostCallbacks × P)) (w : HostCallbacks × P) (operation : Text) (input : Value)
      (wire : List ℕ) (f : Invoke {W = HostCallbacks × P} host_memory)
      (release : OwnedBuffer → HostCallbacks × P → Filled (HostCallbacks × P))
      → c.table.invoke ≡ some f
      → c.table.release_buffer ≡ some release
      → to_wire input ≡ ok wire
      → invoke_body host_memory operation input c w
        ≡ received host_memory release c
            (f c.plugin c.token (borrowed_slice operation) (borrowed_slice wire) empty_buffer w)
  unfolding invoke_body invoke_encoded
  invoke_body-found c w operation input wire f release i r e =
      ap
        (λ o. or_unavailable o c w (λ g.
          or_unavailable c.table.release_buffer c w
            (λ h. invoke_encoded host_memory g h operation c w (to_wire input))))
        i
      ∙ ap
          (λ o.
            or_unavailable o c w
              (λ h. invoke_encoded host_memory f h operation c w (to_wire input)))
          r
      ∙ ap (invoke_encoded host_memory f release operation c w) e

  invoke_body-answered :
      (c : Context (HostCallbacks × P)) (host : HostCallbacks) (world after : P) (operation : Text)
      (input : Value) (wire result : List ℕ)
      → c.table ≡ table address bridge
      → c.plugin ≡ host.plugin_id
      → c.token ≡ host.session
      → host.armed ≡ true
      → contains_key host.allocations (address host.allocations) ≡ false
      → 0 < address host.allocations
      → is_utf8 operation ≡ true
      → to_wire input ≡ ok wire
      → bridge.invoke_bridge host.plugin_id host.session operation wire world ≡ (ok result, after)
      → invoke_body host_memory operation input c (host, world)
        ≡ (from_wire result, (c, (host, after)))
  unfolding table
  invoke_body-answered c host world after operation input wire result t i k armed fresh positive
        text encoded answer =
      let w : HostCallbacks × P = (host, world) in
      let f : Invoke {W = HostCallbacks × P} host_memory = λ plugin token o x old v.
        host_invoke address bridge valid_pointer plugin token o x valid_pointer old v in
      let release : OwnedBuffer → HostCallbacks × P → Filled (HostCallbacks × P) =
        λ x v. host_release_buffer address valid_pointer valid_pointer x v in
      invoke_body-found c w operation input wire f release (ap (λ x. x.invoke) t)
        (ap (λ x. x.release_buffer) t) encoded
      ∙ ap
          (λ p.
            received host_memory release c
              (f p c.token (borrowed_slice operation) (borrowed_slice wire) empty_buffer w))
          i
      ∙ ap
          (λ p.
            received host_memory release c
              (f host.plugin_id p (borrowed_slice operation) (borrowed_slice wire) empty_buffer w))
          k
      ∙ ap (received host_memory release c) (
          host_invoke-answered address bridge host world after operation wire result armed text
            answer)
      ∙ received-answered c host after result armed fresh positive

  -- A plugin's call of an operation, on a context of the Host's own table: where the launcher answers
  -- the encoded input, the call gives what the answer decodes to. The Host's boxes are those of
  -- before: every buffer of the call was given back. The context may take a lease again, and
  -- no cleanup has failed. The Host is armed, its allocator puts a new box at a free address that is
  -- not null, and the context may take a lease.
  pub invoke-answered :
      (thread : ℕ) (c : Context (HostCallbacks × P)) (host : HostCallbacks) (world after : P)
      (operation : Text) (input : Value) (wire result : List ℕ)
      → Usable c.host
      → c.table ≡ table address bridge
      → c.plugin ≡ host.plugin_id
      → c.token ≡ host.session
      → host.armed ≡ true
      → contains_key host.allocations (address host.allocations) ≡ false
      → 0 < address host.allocations
      → is_utf8 operation ≡ true
      → to_wire input ≡ ok wire
      → bridge.invoke_bridge host.plugin_id host.session operation wire world ≡ (ok result, after)
      → (admission : HostState) × (invoke host_memory thread operation input (c, (host, world))
          ≡ (some (from_wire result), (record c { host = admission }, (host, after))))
        × Usable admission
  unfolding invoke
  invoke-answered thread c host world after operation input wire result u t i k armed fresh positive
        text encoded answer =
      let body =
        invoke_body-answered (record c { host = grant c.host thread }) host world after operation
          input wire result t i k armed fresh positive text encoded answer in
      with_lease-Usable thread (invoke_body host_memory operation input) c
        (record c { host = grant c.host thread }) (host, world) (host, after) (from_wire result) u
        body refl
