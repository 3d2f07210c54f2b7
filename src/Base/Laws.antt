-- ===== src/Base/Laws.antt =====
-- Arithmetic that several components share.
use Prim.Native.Nat.{ℕ, suc, ◌*◌, ◌^◌}
use mathlib.Core.Path.{◌≡◌}
use native.Mathlib.Nat.{pow-suc}
use native.Mathlib.Omega.{arith}

pub pow256_suc : (k : ℕ) → 256 ^ suc k ≡ 256 * 256 ^ k
pow256_suc k = omega (arith, pow-suc 256 k)
