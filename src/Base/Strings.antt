-- ===== src/Base/Strings.antt =====
-- Text literals as byte strings; every literal of the program is ASCII.
use Prim.Native.Nat.{ℕ}
use Prim.Native.Char.{code}
use Prim.Native.String.{String}
use mathlib.Core.List.{List, [], ◌∷◌}

abbrev pub utf8_bytes : String → List ℕ
utf8_bytes String.[] = []
utf8_bytes (String.◌∷◌ c s) = code c ∷ utf8_bytes s
