-- ===== src/Runtime/Texts.antt =====
-- Texts as lists of code units.
use Prim.Native.Char.{code}
use Prim.Native.String.{String}
use signet_clients.Prelude.{ℕ, List, [], ◌∷◌}

abbrev pub Text : Type 0
Text = List ℕ

-- The code units of a literal.
abbrev pub codes : String → Text
codes String.[] = []
codes (String.◌∷◌ c s) = code c ∷ codes s
