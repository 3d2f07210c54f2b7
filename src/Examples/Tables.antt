-- ===== src/Examples/Tables.antt =====
-- crates/hmcl-runtime-abi/src/lib.rs: a Host's table of 64 bytes and a plugin's of 40.
use aura_rust_runtime_host.Base.{ℕ, false, List, ◌∷◌}
use aura_rust_runtime_host.Abi.Negotiation.{zero_bytes}

abbrev host_bytes : List ℕ
host_bytes = 64 ∷ 0 ∷ 0 ∷ 0 ∷ 1 ∷ 0 ∷ 0 ∷ 0 ∷ zero_bytes false 56

abbrev plugin_bytes : List ℕ
plugin_bytes = 48 ∷ 0 ∷ 0 ∷ 0 ∷ 1 ∷ 0 ∷ 0 ∷ 0 ∷ zero_bytes false 40
