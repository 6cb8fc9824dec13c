-- ===== src/Ota/Semver.antt =====
-- Version numbers: `parse_semver` and `version_lt` of api/modules/device/ota.py, over ASCII texts
-- (the regular expression's `\d` and `strip` know further characters of Unicode).
use pigugu_server.Common.{
  ◌>>=◌, ℕ, ◌+◌, ◌-◌, ◌*◌, String, Bool, ◌&&◌, ◌||◌, Option, none, some, List, [], ◌∷◌, leb, ltb,
  ◌==◌, if◌then◌else◌, false,
}
use pigugu_server.Common.Text.{codes, strip}

abbrev pub is_digit : ℕ → Bool
is_digit c = leb b'0' c && leb c b'9'

pub record Semver : Type 0 where
  pub major : ℕ
  pub minor : ℕ
  pub patch : ℕ

-- the digits at the head of a text, read onto a number, and what follows them
unfoldable pub digits_from : ℕ → List ℕ → ℕ × List ℕ
digits_from acc [] = (acc, [])
digits_from acc (c ∷ cs) =
    let rest = digits_from (acc * 10 + (c - b'0')) cs in if is_digit c then rest else (acc, c ∷ cs)

-- `(\d+)`
unfoldable pub number : List ℕ → Option (ℕ × List ℕ)
unfolding digits_from
number [] = none
number (c ∷ cs) = if is_digit c then some (digits_from (c - b'0') cs) else none

-- `\.`
unfoldable pub dot : List ℕ → Option (List ℕ)
dot [] = none
dot (c ∷ cs) = if c == b'.' then some cs else none

-- `^(\d+)\.(\d+)\.(\d+)`, which leaves the rest of the text unread
unfoldable pub match_semver : List ℕ → Option Semver
unfolding number dot
match_semver cs = do
  (a, r₁) ← number cs
  r₂ ← dot r₁
  (b, r₃) ← number r₂
  r₄ ← dot r₃
  (c, r₅) ← number r₄
  some (record { major = a; minor = b; patch = c })

unfoldable pub parse_semver : String → Option Semver
unfolding match_semver strip
parse_semver version = match_semver (strip (codes version))

-- the order of Python's tuples
unfoldable pub semver_lt : Semver → Semver → Bool
semver_lt a b =
    ltb a.major b.major
    || (a.major == b.major && (ltb a.minor b.minor || (a.minor == b.minor && ltb a.patch b.patch)))

-- the comparison of two results of `parse_semver`
unfoldable pub parsed_lt : Option Semver → Option Semver → Bool
unfolding semver_lt
parsed_lt (some a) (some b) = semver_lt a b
parsed_lt _ _ = false

-- `a or ""`
abbrev pub or_empty : Option String → String
or_empty none = ""
or_empty (some s) = s

unfoldable pub version_lt : Option String → Option String → Bool
unfolding parse_semver parsed_lt
version_lt a b = parsed_lt (parse_semver (or_empty a)) (parse_semver (or_empty b))
