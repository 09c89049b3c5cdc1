-- ===== src/Prelude/Texts.antt =====
-- Texts: membership of a text in a fixed list, and ASCII upper case over code points.
use Prim.Native.Nat.{ℕ, ◌-◌}
use Prim.Native.Char.{code}
use Prim.Native.String.{String}
use mathlib.Core.Bool.{Bool, true, false, ◌&&◌, ◌||◌}
use mathlib.Core.List.{List, [], ◌∷◌}
use text.Mathlib.Text.{◌==◌ as str_eq}
use aiagentguard.Prelude.Tests.{leb, if◌then◌else◌, ◌==◌}

-- `text in {…}` for a set or list of texts.
abbrev pub str_in : String → List String → Bool
str_in s [] = false
str_in s (t ∷ ts) = str_eq s t || str_in s ts

abbrev pub codes : String → List ℕ
codes String.[] = []
codes (String.◌∷◌ c s) = code c ∷ codes s

upper_code : ℕ → ℕ
upper_code c = if leb b'a' c && leb c b'z' then c - 32 else c

-- `s.upper()` as code points; letters outside ASCII stay as they are.
unfoldable pub upper : String → List ℕ
unfolding upper_code
upper String.[] = []
upper (String.◌∷◌ c s) = upper_code (code c) ∷ upper s

abbrev pub codes_eq : List ℕ → List ℕ → Bool
codes_eq [] [] = true
codes_eq [] (d ∷ ds) = false
codes_eq (c ∷ cs) [] = false
codes_eq (c ∷ cs) (d ∷ ds) = c == d && codes_eq cs ds
