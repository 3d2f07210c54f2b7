-- ===== src/Abi/Prefixes.antt =====
-- crates/hmcl-runtime-abi/src/lib.rs: the prefix that a negotiation writes.
use aura_rust_runtime_host.Base.{
  ℕ, zero, suc, ◌≡◌, ◌≢◌, refl, ap, true, false, ◌||◌, List, ◌++◌, ok, length, drop, length-append,
  arith, Bool-cases, inl, inr, ◌⊎◌, drop-length-append,
}
use aura_rust_runtime_host.Base.Int.{pos, negsuc}
use mathlib.Core.Path.{subst}
use aura_rust_runtime_host.Abi.Statuses.{Status, status_ok}
use aura_rust_runtime_host.Abi.Buffers.{Pointer}
use aura_rust_runtime_host.Abi.Tables.{bridge_abi_v1, plugin_api_v1_prefix_size}
use aura_rust_runtime_host.Abi.Words.{BigEndian, to_ne_bytes, from_ne_bytes, length-to_ne_bytes}
use aura_rust_runtime_host.Abi.Negotiation.{
  read_table_header, zero_bytes, plugin_prefix_bytes, negotiated_status, is_refused, write_prefix,
  negotiate_plugin_api_v1,
}

module _ (big : BigEndian) where
  length-zero_bytes : (n : ℕ) → length (zero_bytes big n) ≡ n
  length-zero_bytes zero = refl
  length-zero_bytes (suc n) = ap suc (length-zero_bytes n)

  pub length-plugin_prefix_bytes : length (plugin_prefix_bytes big) ≡ plugin_api_v1_prefix_size
  unfolding plugin_prefix_bytes
  length-plugin_prefix_bytes =
      let a =
        length-append (to_ne_bytes big 4 plugin_api_v1_prefix_size)
          (to_ne_bytes big 4 bridge_abi_v1 ++ zero_bytes big 32) in
      let b = length-append (to_ne_bytes big 4 bridge_abi_v1) (zero_bytes big 32) in
      omega (
        arith,
        a,
        b,
        length-to_ne_bytes big 4 plugin_api_v1_prefix_size,
        length-to_ne_bytes big 4 bridge_abi_v1,
        length-zero_bytes 32,
      )

  -- A whole prefix in memory reads as the header of a v1 table.
  read_table_header-plugin_prefix_bytes :
      (rest : List ℕ)
      → read_table_header big (plugin_prefix_bytes big ++ rest)
        ≡ ok (record { struct_size = plugin_api_v1_prefix_size; abi_version = bridge_abi_v1 })
  unfolding plugin_prefix_bytes read_table_header to_ne_bytes from_ne_bytes
  read_table_header-plugin_prefix_bytes rest = by_order big
    where
      by_order :
          (b : BigEndian)
          → read_table_header b (plugin_prefix_bytes b ++ rest)
            ≡ ok (record { struct_size = plugin_api_v1_prefix_size; abi_version = bridge_abi_v1 })
      by_order true = refl
      by_order false = refl

  drop-plugin_prefix_bytes :
      (rest : List ℕ) → drop plugin_api_v1_prefix_size (plugin_prefix_bytes big ++ rest) ≡ rest
  drop-plugin_prefix_bytes rest =
      subst (λ n. drop n (plugin_prefix_bytes big ++ rest) ≡ rest) length-plugin_prefix_bytes
        (drop-length-append (plugin_prefix_bytes big) rest)

  write_prefix-memory :
      (status : Status) (memory : List ℕ)
      → (status ≢ status_ok) × ((write_prefix big status memory).1 ≡ memory)
        ⊎ (status ≡ status_ok)
          × (read_table_header big (write_prefix big status memory).1
              ≡ ok
                  (record { struct_size = plugin_api_v1_prefix_size; abi_version = bridge_abi_v1 }))
          × (drop plugin_api_v1_prefix_size (write_prefix big status memory).1
              ≡ drop plugin_api_v1_prefix_size memory)
  unfolding write_prefix
  write_prefix-memory (pos zero) memory = inr (
    refl,
    read_table_header-plugin_prefix_bytes (drop plugin_api_v1_prefix_size memory),
    drop-plugin_prefix_bytes (drop plugin_api_v1_prefix_size memory),
  )
  write_prefix-memory (pos (suc n)) memory = inl ((λ e. absurd (ground arith)), ground arith)
  write_prefix-memory (negsuc n) memory = inl ((λ e. absurd (ground arith)), refl)

  -- Where the outcome is not `Ok`, the memory behind `out_plugin` stays as it was. Where it is, that
  -- memory reads as the header of a v1 table with its 40 bytes, and nothing past them has changed.
  pub negotiate_plugin_api_v1-memory :
      (host out_plugin : Pointer) (host_memory out_memory : List ℕ)
      → let (status, memory) = negotiate_plugin_api_v1 big host host_memory out_plugin out_memory in
        (status ≢ status_ok) × (memory ≡ out_memory)
        ⊎ (status ≡ status_ok)
          × (read_table_header big memory
              ≡ ok
                  (record { struct_size = plugin_api_v1_prefix_size; abi_version = bridge_abi_v1 }))
          × (drop plugin_api_v1_prefix_size memory ≡ drop plugin_api_v1_prefix_size out_memory)
  unfolding negotiate_plugin_api_v1
  negotiate_plugin_api_v1-memory host out hm om =
      elim (Bool-cases (is_refused big host || is_refused big out)) [
        | inl e ↦ rw e (inl ((λ z. absurd (ground arith)), refl))
        | inr e ↦ rw e (
            write_prefix-memory
              (negotiated_status big (read_table_header big hm) (read_table_header big om)) om)
      ]
