-- ===== src/Prelude/Text.antt =====
-- Byte strings: a `std::string` is the list of its bytes.
use Prim.Native.Nat.{ℕ}
use Prim.Native.Char.{code}
use Prim.Native.String.{String}
use mathlib.Core.Path.{◌≡◌}
use mathlib.Core.Logic.{◌↔◌}
use mathlib.Core.Bool.{Bool, true, false, ◌&&◌}
use mathlib.Core.List.{List, [], ◌∷◌}
use native.Mathlib.Omega.{arith}
use learning_cpp.Prelude.Tests.{◌==◌}

abbrev pub Bytes : Type 0
Bytes = List ℕ

-- The bytes of an ASCII literal.
abbrev pub codes : String → Bytes
codes String.[] = []
codes (String.◌∷◌ c s) = code c ∷ codes s

-- `operator==` of `std::string`.
unfoldable pub equal : (text other : Bytes) → Bool
equal [] (d ∷ other) = false
equal [] [] = true
equal (c ∷ text) [] = false
equal (c ∷ text) (d ∷ other) = c == d && equal text other

pub equal_iff : (text other : Bytes) → (equal text other ≡ true) ↔ (text ≡ other)
unfolding equal
equal_iff [] [] = ground arith
equal_iff [] (d ∷ other) = ground arith
equal_iff (c ∷ text) [] = ground arith
equal_iff (c ∷ text) (d ∷ other) = ground (arith, equal_iff text other)
