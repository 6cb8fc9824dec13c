-- ===== src/Roast/Judging.antt =====
-- The director's verdict on a turn, and what the modes make of it: `_on_director_result` of
-- pigagent/roast/modes/roast_together.py and pigagent/roast/modes/debate_bicker.py.
use pigugu_server.Common.{
  ℕ, String, Bool, true, false, ◌||◌, Option, none, some, [], ◌∷◌, ◌++◌, if◌then◌else◌, leb,
}
use pigugu_server.Common.Int.{ℤ, pos}
use pigugu_server.Roast.State.{
  Mode, roast_together, debate, closing, RoastState, RoundScore, Support,
}
use pigugu_server.Roast.Storage.{Store, is_up, is_absent, Event, roast_score, debate_judge, write}

-- The fields of the dict that the director LLM answers with; a support is in hundredths of a percent.
pub record Verdict : Type 0 where
  pub inject : Bool  -- action == "inject"
  pub best_take : Option String
  pub prompt : Option String
  pub close : Bool
  pub score : Option ℕ
  pub rating : Option String
  pub quote : Option String
  pub user_support : Option ℕ
  pub opponent_support : Option ℕ
  pub shift : Option ℤ
  pub judge_comment : Option String

-- what `_direct` returns without a context or a prompt store, and after a failure
abbrev pub no_verdict : Verdict
no_verdict = record {
  inject = false;
  best_take = none;
  prompt = none;
  close = false;
  score = none;
  rating = none;
  quote = none;
  user_support = none;
  opponent_support = none;
  shift = none;
  judge_comment = none;
}

-- `_direct`, where `answer` is what the LLM's answer parses to, or `none` if the call raises; that the prompt store
-- gives the director's prompt is taken as given
unfoldable pub direct : Bool → Option Verdict → Verdict
direct false answer = no_verdict
direct true none = no_verdict
direct true (some v) = v

abbrev pub get_or {ℓ} : {A : Type ℓ} → Option A → A → A
get_or none d = d
get_or (some a) d = a

abbrev pub publish : Event → Store → Store
publish e st = if is_up st.redis then record st { published = st.published ++ e ∷ [] } else st

unfoldable pub score_round : RoastState → Verdict → RoundScore
score_round s v = record {
  round = s.turn_count;
  score = get_or v.score 0;
  rating = get_or v.rating "meh";
  quote = v.quote;
}

unfoldable pub judge_take : Verdict → RoastState → Store → RoastState × Store
unfolding score_round
judge_take v s st =
    let entry = score_round s v in
    if is_absent st.redis then (s, st) else (
      record s { extra = record s.extra { scores = s.extra.scores ++ entry ∷ [] } },
      publish
          (roast_score s.user_id s.roast_instance_id s.roast_id entry.round entry.score entry.rating
            entry.quote)
          st,
    )

unfoldable pub support_round : RoastState → Verdict → Support
support_round s v = record {
  round = s.turn_count;
  user = get_or v.user_support 5000;
  opponent = get_or v.opponent_support 5000;
  shift = get_or v.shift (pos 0);
}

-- user_support >= 75.0 or user_support <= 25.0
abbrev pub is_ko : ℕ → Bool
is_ko support = leb 7500 support || leb support 2500

abbrev pub ko_prompt : String
ko_prompt =
    "THE DEBATE IS OVER — public opinion has reached a decisive verdict. Wrap up with a closing statement acknowledging the result. Call mark_roast_complete when done."

unfoldable pub knock_out : ℕ → RoastState → Store → RoastState × Store
unfolding write
knock_out support s st =
    if is_ko support
    then (
      record s { phase = closing; extra = record s.extra { ko = true } },
      write s.roast_instance_id ko_prompt st,
    )
    else (s, st)

unfoldable pub judge_debate : Verdict → RoastState → Store → RoastState × Store
unfolding support_round knock_out
judge_debate v s st =
    let entry = support_round s v in
    if is_absent st.redis
    then (s, st)
    else knock_out entry.user
        (record s {
          extra = record s.extra { support_history = s.extra.support_history ++ entry ∷ [] };
        })
        (publish
          (debate_judge s.user_id s.roast_instance_id s.roast_id entry.round entry.user
            entry.opponent entry.shift (get_or v.judge_comment ""))
          st)

-- `_on_director_result`, by the mode of the game
unfoldable pub on_director_result : Mode → Verdict → RoastState → Store → RoastState × Store
unfolding judge_take judge_debate
on_director_result roast_together v s st = judge_take v s st
on_director_result debate v s st = judge_debate v s st
