-- ===== src/Base/Text.antt =====
-- Texts as lists of code units, from string literals, and numbers in decimal.
use Prim.Native.Nat.{ℕ}
use Prim.Native.Char.{code}
use Prim.Native.String.{String, [] as empty, ◌∷◌ as push}
use mathlib.Core.List.{List, [], ◌∷◌}

-- The code units of an ASCII literal.
abbrev pub units : String → List ℕ
units empty = []
units (push c s) = code c ∷ units s
