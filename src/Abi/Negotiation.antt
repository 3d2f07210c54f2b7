-- ===== src/Abi/Negotiation.antt =====
-- crates/hmcl-runtime-abi/src/lib.rs: the staged reads of two tables, and the table that is written.
use aura_rust_runtime_host.Base.{
  ℕ, zero, suc, ◌-◌, Bool, not, ◌||◌, List, [], ◌∷◌, ◌++◌, Result, ok, err, ◌>>=◌, ltb, ◌==◌,
  if◌then◌else◌, length, take, drop,
}
use aura_rust_runtime_host.Abi.Statuses.{
  Status, status_ok, status_invalid_argument, status_unsupported_abi, status_buffer_too_small,
  is_ok,
}
use aura_rust_runtime_host.Abi.Buffers.{Pointer}
use aura_rust_runtime_host.Abi.Tables.{
  bridge_abi_v1, host_api_v1_prefix_size, plugin_api_v1_prefix_size,
}
use aura_rust_runtime_host.Abi.Words.{BigEndian, to_ne_bytes, from_ne_bytes}

abbrev pub table_header_size : ℕ
table_header_size = 8

pub record TableHeader : Type 0 where
  pub struct_size : ℕ
  pub abi_version : ℕ

module _ (big : BigEndian) where
  unfoldable pub decode_struct_size : List ℕ → Result Status ℕ
  unfolding from_ne_bytes
  decode_struct_size prefix =
      if ltb (length prefix) 4
      then err status_buffer_too_small
      else ok (from_ne_bytes big (take 4 prefix))

  unfoldable pub decode_table_header : List ℕ → Result Status TableHeader
  unfolding decode_struct_size from_ne_bytes
  decode_table_header prefix = do
    size ← decode_struct_size prefix
    if ltb size table_header_size || ltb (length prefix) table_header_size
        then err status_buffer_too_small
        else ok (record {
          struct_size = size;
          abi_version = from_ne_bytes big (take 4 (drop 4 prefix));
        })

  -- `memory` is what stands behind the pointer: the first read takes four bytes of it, the second
  -- eight.
  unfoldable pub read_table_header : List ℕ → Result Status TableHeader
  unfolding decode_struct_size decode_table_header
  read_table_header memory = do
    size ← decode_struct_size (take 4 memory)
    if ltb size table_header_size
        then err status_buffer_too_small
        else decode_table_header (take table_header_size memory)

  abbrev pub zero_bytes : ℕ → List ℕ
  zero_bytes zero = []
  zero_bytes (suc n) = 0 ∷ zero_bytes n

  -- `HmclPluginApiV1::with_required_prefix()` in memory: null pointers and missing callbacks are
  -- zero.
  unfoldable pub plugin_prefix_bytes : List ℕ
  unfolding to_ne_bytes
  plugin_prefix_bytes =
      to_ne_bytes big 4 plugin_api_v1_prefix_size
      ++ (to_ne_bytes big 4 bridge_abi_v1 ++ zero_bytes (plugin_api_v1_prefix_size - 8))

  unfoldable pub compare_headers : TableHeader → TableHeader → Status
  compare_headers host output =
      if ltb host.struct_size host_api_v1_prefix_size
        || ltb output.struct_size plugin_api_v1_prefix_size
      then status_buffer_too_small
      else if not (host.abi_version == bridge_abi_v1) || not (output.abi_version == bridge_abi_v1)
      then status_unsupported_abi
      else status_ok

  abbrev pub negotiated_status : Result Status TableHeader → Result Status TableHeader → Status
  negotiated_status (err status) output = status
  negotiated_status (ok host) (err status) = status
  negotiated_status (ok host) (ok output) = compare_headers host output

  abbrev pub is_refused : Pointer → Bool
  is_refused p = p.null || not p.aligned

  -- The write, where the status is `Ok`.
  unfoldable pub write_prefix : Status → List ℕ → Status × List ℕ
  unfolding plugin_prefix_bytes
  write_prefix status memory = (
    status,
    if is_ok status then plugin_prefix_bytes ++ drop plugin_api_v1_prefix_size memory else memory,
  )

  -- The status, and the memory behind `out_plugin`.
  unfoldable pub negotiate_plugin_api_v1 : Pointer → List ℕ → Pointer → List ℕ → Status × List ℕ
  unfolding read_table_header compare_headers write_prefix
  negotiate_plugin_api_v1 host host_memory out_plugin out_memory =
      if is_refused host || is_refused out_plugin
      then (status_invalid_argument, out_memory)
      else write_prefix
          (negotiated_status (read_table_header host_memory) (read_table_header out_memory))
          out_memory
