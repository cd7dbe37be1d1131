-- ===== src/Prelude/Text.antt =====
-- The bytes of an ASCII text literal.
use Prim.Native.Char.{code}
use Prim.Native.String.{String}
use Prim.Native.Nat.{ℕ}
use mathlib.Core.List.{List, [], ◌∷◌}

abbrev pub text : String → List ℕ
text String.[] = []
text (String.◌∷◌ first rest) = code first ∷ text rest
