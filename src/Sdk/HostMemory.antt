-- ===== src/Sdk/HostMemory.antt =====
-- The Host's boxes as the memory that a plugin's code reads and writes through a buffer's pointer.
use aura_rust_runtime_host.Base.{ℕ, Option, none, some, List, [], ◌++◌, length, take, drop}
use aura_rust_runtime_host.Futures.Table.{lookup, insert}
use aura_rust_runtime_host.Host.Buffers.{HostCallbacks}
use aura_rust_runtime_host.Sdk.Calls.{Memory}

abbrev pub bytes_at : Option (List ℕ) → List ℕ
bytes_at none = []
bytes_at (some box) = box

abbrev pub overwrite : HostCallbacks → ℕ → List ℕ → Option (List ℕ) → HostCallbacks
overwrite host pointer bytes none = host
overwrite host pointer bytes (some box) = record host {
  allocations = insert host.allocations pointer (bytes ++ drop (length bytes) box);
}

-- A pointer is the address of a box: what is read is the start of the box, and what is written
-- replaces it.
unfoldable pub host_memory : {P : Type 0} → Memory (HostCallbacks × P)
unfolding lookup insert
host_memory = record {
  read = λ (host, world) pointer len. take len (bytes_at (lookup host.allocations pointer));
  write = λ (host, world) pointer bytes.
      (overwrite host pointer bytes (lookup host.allocations pointer), world);
}
