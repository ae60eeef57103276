-- ===== src/Contracts/Text.antt =====
-- Texts as the regular expressions of the contracts read them: the list of their code points.
use Prim.Native.Char.{code}
use Prim.Native.String.{◌++◌ as str_append}
use mirageby_ai.Common.{ℕ, String, Bool, true, false, ◌&&◌, List, [], ◌∷◌, leb, ◌==◌}

-- The code points of a text. `String` has its own `[]` and `∷`.
abbrev pub codes : String → List ℕ
codes String.[] = []
codes (String.◌∷◌ c s) = code c ∷ codes s

-- Python's f-strings and `+` on texts
abbrev pub concat : List String → String
concat [] = ""
concat (s ∷ rest) = str_append s (concat rest)

-- Python's `$` also matches before a line feed that ends the text.
abbrev pub at_end : List ℕ → Bool
at_end [] = true
at_end (c ∷ []) = c == 10
at_end (c ∷ d ∷ s) = false

-- [0-9]
abbrev pub is_digit : ℕ → Bool
is_digit c = leb b'0' c && leb c b'9'

abbrev pub same_codes : List ℕ → List ℕ → Bool
same_codes [] [] = true
same_codes [] (d ∷ t) = false
same_codes (c ∷ s) [] = false
same_codes (c ∷ s) (d ∷ t) = c == d && same_codes s t
