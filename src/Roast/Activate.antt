-- ===== src/Roast/Activate.antt =====
-- The start of a game by its name in the database, with the text that tells it to the agent, and the
-- records that the director is shown: pigagent/roast/activate.py, pigagent/roast/registry.py and `_direct`
-- of pigagent/roast/base.py.
use pigugu_server.Common.{
  ℕ, ◌≡◌, ◌⊎◌, refl, String, Bool, true, false, not, ◌&&◌, ◌||◌, Option, none, some, List, [], ◌∷◌,
  ◌++◌, if◌then◌else◌, str_eq, Bool-cases, inl, inr, All, arith, count, ◌≤◌,
}
use mathlib.Core.List.{Memᴰ}
use pigugu_server.Common.Text.{codes, strip, is_infix, codes_eq}
use pigugu_server.Context.Record.{ConversationRecord, Role}
use pigugu_server.Roast.State.{Mode, roast_together, Extra, no_extra, RoastState, read_mode}
use pigugu_server.Roast.Storage.{Store, start}

-- GameModeRegistry.get by a name: one that is not known is roast_together
unfoldable pub mode_named : String → Mode
mode_named s = elim (read_mode s) [ some m ↦ m | none ↦ roast_together ]

-- init_extra: every key of a mode has its default
unfoldable pub init_extra : String → String → Extra
init_extra headline source = record no_extra { headline = headline; source = source }

abbrev pub newline : ℕ
newline = 10

-- a section of the body, if its text is not blank: its title, a line break and the text without the
-- spaces around it
unfoldable pub section : String → List ℕ → List (List ℕ)
section title text =
    if codes_eq (strip text) [] then [] else (codes title ++ newline ∷ strip text) ∷ []

-- the mode's own text, which is taken as it is
unfoldable pub mode_section : Option String → List (List ℕ)
mode_section none = []
mode_section (some ext) =
    if str_eq ext "" then [] else (codes "## Game Mode" ++ newline ∷ codes ext) ∷ []

-- "\n\n".join(parts)
unfoldable pub join_parts : List (List ℕ) → List ℕ
join_parts [] = []
join_parts (x ∷ []) = x
join_parts (x ∷ y ∷ xs) = x ++ newline ∷ newline ∷ join_parts (y ∷ xs)

-- _build_roast_body; `ext` is the mode's text, where there is a prompt store
unfoldable pub build_roast_body : (prompt headline teaser : String) → Option String → List ℕ
build_roast_body prompt headline teaser ext = join_parts (
    section "## Headline" (codes headline)
    ++ section "## Teaser" (codes teaser)
    ++ section "## News Context" (codes prompt)
    ++ mode_section ext)

abbrev pub body_prefix : String
body_prefix = "[Game Background]"

-- activate_roast; `render` is the prompt store, with the text that it has for a mode
unfoldable pub activate_roast :
    (user : String) (persona : ℕ) (roast game_mode prompt headline teaser source : String)
    (render : Option (Mode → String)) (sid : String) (now : ℕ)
    → Store
    → RoastState × List ℕ × Store
activate_roast user persona roast game_mode prompt headline teaser source render sid now st =
    let mode = mode_named game_mode in
    let (s, st') = start user persona roast mode (some (init_extra headline source)) sid now st in
    let ext : Option String = elim render [ some f ↦ some (f mode) | none ↦ none ] in
    (s, codes body_prefix ++ newline ∷ build_roast_body prompt headline teaser ext, st')

-- The records that the director is shown.
abbrev pub is_system : Role → Bool
is_system Role.system = true
is_system _ = false

abbrev pub is_body : ConversationRecord → Bool
is_body r = is_system r.role && is_infix (codes body_prefix) (codes r.content)

-- r.roast_instance_id is not None and differs
abbrev pub is_foreign : String → ConversationRecord → Bool
is_foreign sid r = elim r.roast_instance_id [ some rid ↦ not (str_eq rid sid) | none ↦ false ]

-- the loop of `_direct`, with `has_roast_body` so far
unfoldable pub shown : String → Bool → List ConversationRecord → List ConversationRecord
shown sid has [] = []
shown sid has (r ∷ rs) =
    let body = is_body r && not has in
    let rest = shown sid (has || is_body r) rs in
    let same = shown sid has rs in
    if str_eq r.content "" then same else if is_foreign sid r && not body then same else r ∷ rest

-- the records of other sessions
abbrev pub foreigners : String → List ConversationRecord → ℕ
foreigners sid rs = count (is_foreign sid) rs

abbrev pub left_for : Bool → ℕ
left_for true = 0
left_for false = 1

foreigners-shown :
    (sid : String) (has : Bool) (rs : List ConversationRecord)
    → foreigners sid (shown sid has rs) ≤ left_for has
unfolding shown
foreigners-shown sid has [] = omega arith
foreigners-shown sid true (r ∷ rs) = ground (arith, foreigners-shown sid true rs)
foreigners-shown sid false (r ∷ rs) =
    ground (arith, foreigners-shown sid true rs, foreigners-shown sid false rs)

own_or_body : (a b c : Bool) → (a && not (b && not c)) ≡ false → (a ≡ false) ⊎ (b ≡ true)
own_or_body a b c h = ground arith

shown-All :
    (sid : String) (has : Bool) (rs : List ConversationRecord)
    → All (λ r. (is_foreign sid r ≡ false) ⊎ (is_body r ≡ true)) (shown sid has rs)
unfolding shown
shown-All sid has [] = tt
shown-All sid has (r ∷ rs) = elim (Bool-cases (str_eq r.content "")) [
  | inl e ↦ rw e (shown-All sid has rs)
  | inr e ↦ elim (Bool-cases (is_foreign sid r && not (is_body r && not has))) [
    | inl f ↦ rw (e, f) (shown-All sid has rs)
    | inr f ↦
        rw (e, f)
          (own_or_body (is_foreign sid r) (is_body r) has f, shown-All sid (has || is_body r) rs)
  ]
]

-- The director is shown at most one record of another session, and each such record is the text that
-- tells a game to the agent.
pub shown_own :
    (sid : String) (rs : List ConversationRecord)
    → (foreigners sid (shown sid false rs) ≤ 1)
      × All (λ r. (is_foreign sid r ≡ false) ⊎ (is_body r ≡ true)) (shown sid false rs)
shown_own sid rs = (foreigners-shown sid false rs, shown-All sid false rs)

either {ℓ} :
    {A : Type ℓ} {x : A} {xs ys : List A} (b : Bool)
    → Memᴰ x xs
    → Memᴰ x ys
    → Memᴰ x (if b then xs else ys)
either true m n = m
either false m n = n

-- The first text that tells a game to the agent is shown to the director, whichever session it is of.
pub shown_first_body :
    (sid : String) (before : List ConversationRecord) (r : ConversationRecord)
    (after : List ConversationRecord)
    → count is_body before ≡ 0
    → is_body r ≡ true
    → str_eq r.content "" ≡ false
    → Memᴰ r (shown sid false (before ++ r ∷ after))
unfolding shown
shown_first_body sid [] r after none_yet body full =
    rw (full, body)
      (elim (Bool-cases (is_foreign sid r)) [
        | inl e ↦ rw e (Memᴰ.head refl)
        | inr e ↦ rw e (Memᴰ.head refl)
      ])
shown_first_body sid (x ∷ before) r after none_yet body full =
    let ih = shown_first_body sid before r after (ground arith) body full in
    let no : is_body x ≡ false = ground arith in
    rw no (either (str_eq x.content "") ih (either (is_foreign sid x && true) ih (Memᴰ.tail ih)))
