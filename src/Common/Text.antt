-- ===== src/Common/Text.antt =====
-- Texts as lists of code points, for the places where the program looks inside them. `lower` and
-- `strip` are Python's on ASCII texts.
use Prim.Native.Char.{code}
use Prim.Native.Nat.{ℕ, ◌+◌}
use Prim.Native.String.{String}
use mathlib.Core.Bool.{Bool, true, false, ◌&&◌, ◌||◌}
use mathlib.Core.List.{List, [], ◌∷◌, map, reverse}
use pigugu_server.Common.Tests.{leb, ◌==◌, if◌then◌else◌}

-- the code points of a text
abbrev pub codes : String → List ℕ
codes String.[] = []
codes (String.◌∷◌ c s) = code c ∷ codes s

abbrev pub is_space : ℕ → Bool
is_space c = c == 32 || (leb 9 c && leb c 13) || (leb 28 c && leb c 31)

unfoldable pub lstrip : List ℕ → List ℕ
lstrip [] = []
lstrip (c ∷ cs) = let rest = lstrip cs in if is_space c then rest else c ∷ cs

unfoldable pub strip : List ℕ → List ℕ
unfolding lstrip
strip cs = reverse (lstrip (reverse (lstrip cs)))

abbrev pub lower_code : ℕ → ℕ
lower_code c = if leb b'A' c && leb c b'Z' then c + 32 else c

unfoldable pub lower : List ℕ → List ℕ
lower cs = map lower_code cs

unfoldable pub codes_eq : List ℕ → List ℕ → Bool
codes_eq [] [] = true
codes_eq (x ∷ xs) (y ∷ ys) = x == y && codes_eq xs ys
codes_eq _ _ = false

unfoldable pub is_prefix : List ℕ → List ℕ → Bool
is_prefix [] cs = true
is_prefix (x ∷ xs) [] = false
is_prefix (x ∷ xs) (c ∷ cs) = x == c && is_prefix xs cs

-- `part in text`
unfoldable pub is_infix : List ℕ → List ℕ → Bool
unfolding is_prefix
is_infix part [] = is_prefix part []
is_infix part (c ∷ cs) = is_prefix part (c ∷ cs) || is_infix part cs
