-- ===== src/Abi/Statuses.antt =====
-- crates/hmcl-runtime-abi/src/lib.rs: status codes.
use aura_rust_runtime_host.Base.{Bool, false, ◌==◌}
use aura_rust_runtime_host.Base.Int.{ℤ, pos, negsuc}

-- `HmclStatus`, by its raw value.
abbrev pub Status : Type 0
Status = ℤ

abbrev pub status_ok : Status
status_ok = pos 0

abbrev pub status_invalid_argument : Status
status_invalid_argument = pos 1

abbrev pub status_unsupported_abi : Status
status_unsupported_abi = pos 2

abbrev pub status_buffer_too_small : Status
status_buffer_too_small = pos 3

abbrev pub status_host_error : Status
status_host_error = pos 4

abbrev pub status_plugin_error : Status
status_plugin_error = pos 5

abbrev pub is_ok : Status → Bool
is_ok (pos n) = n == 0
is_ok (negsuc n) = false
