-- ===== src/Roast/Triggers.antt =====
-- The triggers of the game modes, and the strong points of a debate: `triggers`, `_update_state` and
-- `_detect_repeat` of pigagent/roast/modes.
use pigugu_server.Common.{
  ℕ, ◌+◌, String, Bool, true, false, not, ◌&&◌, Option, none, some, List, [], ◌∷◌, ◌++◌, reverse,
  if◌then◌else◌, leb, ltb, length, select, take_last, any,
}
use pigugu_server.Common.Text.{codes, strip, lower, codes_eq, is_infix}
use pigugu_server.Context.Record.{ConversationRecord, is_user}
use pigugu_server.Roast.State.{Mode, roast_together, debate, RoastState}

abbrev pub data_keywords : List String
data_keywords =
    "percent" ∷ "million" ∷ "billion" ∷ "according to" ∷ "study" ∷ "data" ∷ "statistics"
    ∷ "actually" ∷ "because" ∷ "evidence" ∷ "%" ∷ "$" ∷ "report" ∷ "research" ∷ "numbers" ∷ "fact"
    ∷ "proved" ∷ "shows" ∷ "proves" ∷ "confirmed" ∷ []

unfoldable pub is_strong_point : String → Bool
is_strong_point text =
    not (ltb (length (codes text)) 80)
    && any (λ k. is_infix (codes k) (lower (codes text))) data_keywords

abbrev pub last_of {ℓ} : {A : Type ℓ} → List A → Option A
last_of [] = none
last_of (x ∷ []) = some x
last_of (x ∷ y ∷ xs) = last_of (y ∷ xs)

unfoldable pub note_turn : Option ConversationRecord → RoastState → RoastState
unfolding is_strong_point
note_turn none s = s
note_turn (some r) s = record s {
  extra = record s.extra {
    strong_points = s.extra.strong_points + (if is_strong_point r.content then 1 else 0);
    debate_history =
        s.extra.debate_history
        ++ (record {
          turn = s.turn_count;
          length = length (codes r.content);
          has_data = is_strong_point r.content;
        })
          ∷ [];
  };
}

-- DebateBickerMode._update_state
unfoldable pub update_state : RoastState → List ConversationRecord → RoastState
unfolding note_turn
update_state s records = note_turn (last_of (select (λ r. is_user r.role) records)) s

abbrev pub is_same_text : String → String → Bool
is_same_text a b =
    not (codes_eq (lower (strip (codes a))) [])
    && codes_eq (lower (strip (codes a))) (lower (strip (codes b)))

abbrev pub last_two_same : List ConversationRecord → Bool
last_two_same (a ∷ b ∷ rest) = is_same_text a.content b.content
last_two_same _ = false

-- the last two user turns among the last four records say the same
unfoldable pub detect_repeat : List ConversationRecord → Bool
detect_repeat records = last_two_same (reverse (select (λ r. is_user r.role) (take_last 4 records)))

-- The prompts of the triggers: a template and the values that it is rendered with.
pub data Template : Type 0 where
  roast_together_ending : (best_take : String) → Template
  debate_bicker_user_won : (strong_points turn_count : ℕ) → Template
  debate_bicker_ending : (fart_type : String) (strong_points : ℕ) → Template
  debate_bicker_repeat : Template

pub record Trigger : Type 0 where
  pub check : RoastState → List ConversationRecord → Bool
  pub prompt : RoastState → Template
  pub affects_phase : Bool

abbrev pub max_turns : ℕ
max_turns = 8

abbrev pub fart_type : ℕ → String
fart_type strong =
    if leb 3 strong
    then "RAPID-FIRE FART. You're genuinely impressed."
    else if leb 1 strong
    then "LONG LOW FART. You still disagree but accept it."
    else "SHORT LOUD FART. You concede."

unfoldable pub triggers : Mode → List Trigger
unfolding detect_repeat
triggers roast_together =
    (record {
      check = λ s r. leb max_turns s.turn_count;
      prompt = λ s. roast_together_ending s.extra.best_take;
      affects_phase = true;
    })
    ∷ []
triggers debate =
    (record {
      check = λ s r. leb 3 s.extra.strong_points && leb 4 s.turn_count;
      prompt = λ s. debate_bicker_user_won s.extra.strong_points s.turn_count;
      affects_phase = false;
    })
    ∷ (record {
      check = λ s r. leb max_turns s.turn_count;
      prompt = λ s. debate_bicker_ending (fart_type s.extra.strong_points) s.extra.strong_points;
      affects_phase = true;
    })
    ∷ (record {
      check = λ s r. detect_repeat r;
      prompt = λ s. debate_bicker_repeat;
      affects_phase = false;
    })
    ∷ []
