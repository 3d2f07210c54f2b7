-- ===== src/Abi/Agreement.antt =====
-- crates/hmcl-runtime-abi/src/lib.rs: when two sides agree, and what is read and written.
use aura_rust_runtime_host.Base.{ℕ, ◌≤◌, ◌≡◌, false, List, ok}
use aura_rust_runtime_host.Abi.Buffers.{Pointer}
use aura_rust_runtime_host.Abi.Tables.{bridge_abi_v1}
use aura_rust_runtime_host.Abi.Words.{BigEndian}
use aura_rust_runtime_host.Abi.Negotiation.{TableHeader, read_table_header, is_refused}

-- A table is compatible when its pointer may be read and its header says so.
abbrev pub Compatible : BigEndian → Pointer → List ℕ → ℕ → Type 0
Compatible big p memory size =
    (is_refused big p ≡ false)
    × ((header : TableHeader) × (read_table_header big memory ≡ ok header)
        × (size ≤ header.struct_size)
        × (header.abi_version ≡ bridge_abi_v1))
