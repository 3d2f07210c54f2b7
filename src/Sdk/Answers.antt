-- ===== src/Sdk/Answers.antt =====
-- How a plugin's answer reaches the engine: `invoke_inner` of crates/hmcl-plugin-sdk/src/lib.rs on the
-- boxes of crates/hmcl-rust-host-native/src/embedded.rs.
use aura_rust_runtime_host.Base.{
  ℕ, suc, ◌<◌, ◌≡◌, refl, ap, ◌∙◌, true, false, none, some, List, [], ◌∷◌, ◌++◌, ok, ◌==◌, length,
  drop, arith,
}
use aura_rust_runtime_host.Codec.Values.{Value}
use aura_rust_runtime_host.Codec.Encoder.{to_wire}
use aura_rust_runtime_host.Futures.Table.{lookup, insert, lookup-insert_same}
use aura_rust_runtime_host.Abi.Statuses.{status_ok}
use aura_rust_runtime_host.Abi.Buffers.{
  OwnedBuffer, empty_buffer, valid_pointer, has_valid_layout, satisfies_allocation_request,
}
use aura_rust_runtime_host.Abi.Tables.{Filled}
use aura_rust_runtime_host.Host.Buffers.{
  HostCallbacks, zeros, allocate, allocate_box, take_output, take_box,
}
use aura_rust_runtime_host.Host.Transport.{BridgeTransport}
use aura_rust_runtime_host.Host.Callbacks.{
  table, host_allocate, host_context, give_buffer, boundary, host_release_buffer,
}
use aura_rust_runtime_host.Host.Ownership.{take_box_all}
use aura_rust_runtime_host.Sdk.Leases.{HostState, grant}
use aura_rust_runtime_host.Sdk.Context.{Context, or_unavailable}
use aura_rust_runtime_host.Sdk.Calls.{allocate_wire, allocate_body, allocated, fill_buffer}
use aura_rust_runtime_host.Sdk.LeasedCalls.{Usable, with_lease-Usable}
use aura_rust_runtime_host.Sdk.HostMemory.{host_memory, overwrite}
use aura_rust_runtime_host.Sdk.Boxes.{Boxed}
use aura_rust_runtime_host.Sdk.Runtime.{Plugin, Session, answer, allocate_output, write_output}

-- The buffer that an answer is in, and the Host that has it.
abbrev pub answer_buffer : ℕ → List ℕ → OwnedBuffer
answer_buffer pointer [] = empty_buffer
answer_buffer pointer (b ∷ bs) = Boxed pointer (b ∷ bs)

abbrev fresh_box : ℕ → HostCallbacks → ℕ → HostCallbacks
fresh_box pointer host len = record host {
  allocations = insert host.allocations pointer (zeros len);
}

abbrev pub answer_host : ℕ → HostCallbacks → List ℕ → HostCallbacks
answer_host pointer host [] = host
answer_host pointer host (b ∷ bs) = record host {
  allocations = insert (insert host.allocations pointer (zeros (length (b ∷ bs)))) pointer (b ∷ bs);
}

drop-zeros : (bs : List ℕ) → drop (length bs) (zeros (length bs)) ≡ []
drop-zeros [] = refl
drop-zeros (b ∷ bs) = drop-zeros bs

append_nil : (bs : List ℕ) → bs ++ [] ≡ bs
append_nil [] = refl
append_nil (b ∷ bs) = ap (λ t. b ∷ t) (append_nil bs)

overwrite-zeros :
    (pointer : ℕ) (host : HostCallbacks) (bs : List ℕ)
    → overwrite
        (fresh_box pointer host (length bs))
        pointer
        bs
        (lookup (fresh_box pointer host (length bs)).allocations pointer)
      ≡ record host {
        allocations = insert (insert host.allocations pointer (zeros (length bs))) pointer bs;
      }
overwrite-zeros pointer host bs =
    ap (overwrite (fresh_box pointer host (length bs)) pointer bs)
      (lookup-insert_same host.allocations pointer (zeros (length bs)))
    ∙ ap
        (λ t. record host {
          allocations = insert (insert host.allocations pointer (zeros (length bs))) pointer t;
        })
        (ap (λ t. bs ++ t) (drop-zeros bs) ∙ append_nil bs)

-- What the engine takes out of that buffer.
take_output-answer :
    (pointer : ℕ) (host : HostCallbacks) (wire : List ℕ)
    → (take_output (answer_host pointer host wire) (answer_buffer pointer wire)).0 ≡ ok wire
unfolding take_output
take_output-answer pointer host [] = refl
take_output-answer pointer host (b ∷ bs) =
    let positive : (suc (length bs) == 0) ≡ false = ground arith in
    rw positive (
      ap (take_box (Boxed pointer (b ∷ bs))) (
        lookup-insert_same (insert host.allocations pointer (zeros (length (b ∷ bs)))) pointer
          (b ∷ bs))
      ∙ take_box_all pointer (b ∷ bs))

satisfies-zeros :
    (pointer b : ℕ) (bs : List ℕ)
    → 0 < pointer
    → satisfies_allocation_request
        (record { data_pointer = pointer; len = 0; capacity = suc (length bs) })
        (suc (length bs))
      ≡ true
unfolding satisfies_allocation_request has_valid_layout
satisfies-zeros pointer b bs h = ground arith

module _ {P : Type 0} (address : List (ℕ × List ℕ) → ℕ) (bridge : BridgeTransport P) where
  abbrev releases : OwnedBuffer → HostCallbacks × P → Filled (HostCallbacks × P)
  releases x v = host_release_buffer address valid_pointer valid_pointer x v

  host_allocate-armed :
      (host : HostCallbacks) (world : P) (len : ℕ)
      → host.armed ≡ true
      → host_allocate address valid_pointer len valid_pointer empty_buffer (host, world)
        ≡ give_buffer address (allocate (address host.allocations) host len none) empty_buffer world
  unfolding host_allocate host_context
  host_allocate-armed host world len armed = rw armed refl

  allocate_zeros :
      (pointer : ℕ) (host : HostCallbacks) (n : ℕ)
      → allocate pointer host (suc n) none ≡ (
        ok (record { data_pointer = pointer; len = 0; capacity = suc n }),
        fresh_box pointer host (suc n),
      )
  unfolding allocate allocate_box
  allocate_zeros pointer host n = let z : (suc n == 0) ≡ false = ground arith in rw z refl

  allocated-answer :
      (c : Context (HostCallbacks × P)) (host : HostCallbacks) (world : P) (wire : List ℕ)
      → 0 < address host.allocations
      → allocated host_memory releases wire c (
          give_buffer address
            (allocate (address host.allocations) host (length wire) none)
            empty_buffer
            world)
        ≡ (
          ok (answer_buffer (address host.allocations) wire),
          (c, (answer_host (address host.allocations) host wire, world)),
        )
  unfolding allocated fill_buffer give_buffer boundary allocate satisfies_allocation_request
      has_valid_layout host_memory
  allocated-answer c host world [] positive = refl
  allocated-answer c host world (b ∷ bs) positive =
      let pointer = address host.allocations in
      let some_bytes : (suc (length bs) == 0) ≡ false = ground arith in
      ap (λ x. allocated host_memory releases (b ∷ bs) c (give_buffer address x empty_buffer world))
        (allocate_zeros pointer host (length bs))
      ∙ rw (satisfies-zeros pointer b bs positive, some_bytes)
          (ap (λ h. (ok (Boxed pointer (b ∷ bs)), (c, (h, world))))
            (overwrite-zeros pointer host (b ∷ bs)))

  allocate_body-found :
      (c : Context (HostCallbacks × P)) (w : HostCallbacks × P) (wire : List ℕ)
      (f : ℕ → OwnedBuffer → HostCallbacks × P → Filled (HostCallbacks × P))
      → c.table.allocate ≡ some f
      → c.table.release_buffer ≡ some releases
      → allocate_body host_memory wire c w
        ≡ allocated host_memory releases wire c (f (length wire) empty_buffer w)
  unfolding allocate_body
  allocate_body-found c w wire f i r =
      ap
        (λ o. or_unavailable o c w (λ g.
          or_unavailable c.table.release_buffer c w
            (λ h. allocated host_memory h wire c (g (length wire) empty_buffer w))))
        i
      ∙ ap
          (λ o.
            or_unavailable o c w
              (λ h. allocated host_memory h wire c (f (length wire) empty_buffer w)))
          r

  allocate_body-answer :
      (c : Context (HostCallbacks × P)) (host : HostCallbacks) (world : P) (wire : List ℕ)
      → c.table ≡ table address bridge
      → host.armed ≡ true
      → 0 < address host.allocations
      → allocate_body host_memory wire c (host, world) ≡ (
        ok (answer_buffer (address host.allocations) wire),
        (c, (answer_host (address host.allocations) host wire, world)),
      )
  unfolding table
  allocate_body-answer c host world wire t armed positive =
      allocate_body-found c (host, world) wire
        (λ len old w. host_allocate address valid_pointer len valid_pointer old w)
        (ap (λ x. x.allocate) t) (ap (λ x. x.release_buffer) t)
      ∙ ap (allocated host_memory releases wire c)
          (host_allocate-armed host world (length wire) armed)
      ∙ allocated-answer c host world wire positive

  -- An answer of the plugin's code, on a session of the Host's own table: `invoke_inner` succeeds, and
  -- the engine takes out of its output the very bytes that the value was encoded to. The context may
  -- take a lease again. The Host is armed, its allocator's addresses are not null, and the
  -- context may take a lease.
  pub answer-delivered :
      {Q : Type 0} (plugin : Plugin Q (HostCallbacks × P)) (thread : ℕ)
      (session : Session Q (HostCallbacks × P)) (old : OwnedBuffer) (value : Value)
      (c : Context (HostCallbacks × P)) (host : HostCallbacks) (world : P) (wire : List ℕ)
      → Usable c.host
      → c.table ≡ table address bridge
      → host.armed ≡ true
      → 0 < address host.allocations
      → to_wire value ≡ ok wire
      → (output : OwnedBuffer) × (next : HostCallbacks) × (admission : HostState) × (answer plugin
            host_memory thread session old
            (some (ok value), (c, (host, world)))
          ≡ (
            (status_ok, output),
            (some (record session { context = record c { host = admission } }), (next, world)),
          ))
        × ((take_output next output).0 ≡ ok wire)
        × Usable admission
  unfolding answer allocate_output write_output allocate_wire
  answer-delivered plugin thread session old value c host world wire u t armed positive encoded =
      let pointer = address host.allocations in
      let body =
        allocate_body-answer (record c { host = grant c.host thread }) host world wire t armed
          positive in
      let (admission, q, s) =
        with_lease-Usable thread (allocate_body host_memory wire) c
          (record c { host = grant c.host thread }) (host, world)
          (answer_host pointer host wire, world) (ok (answer_buffer pointer wire)) u body refl in
      (
        answer_buffer pointer wire,
        answer_host pointer host wire,
        admission,
        ap (allocate_output plugin host_memory thread session old (c, (host, world))) encoded
            ∙ ap (write_output plugin host_memory session old) q,
        take_output-answer pointer host wire,
        s,
      )
