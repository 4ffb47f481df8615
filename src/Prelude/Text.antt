-- ===== src/Prelude/Text.antt =====
-- Text as the list of its code points. Where a part of the program reads bytes, they are the same
-- numbers as long as the text is ASCII.
use Prim.Native.Nat.{ℕ}
use Prim.Native.Char.{code}
use Prim.Native.String.{String}
use mathlib.Core.List.{List, [], ◌∷◌}

abbrev pub Chars : Type 0
Chars = List ℕ

-- The code points of a literal.
abbrev pub chars : String → Chars
chars String.[] = []
chars (String.◌∷◌ first rest) = code first ∷ chars rest
