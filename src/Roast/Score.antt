-- ===== src/Roast/Score.antt =====
-- The scores of a finished game: `score` of pigagent/roast/modes/roast_together.py and of
-- pigagent/roast/modes/debate_bicker.py, with `_debate_result`. A support is in hundredths of a percent;
-- the average is left to the total and the number of rounds, from which it is rounded.
use pigugu_server.Common.{
  ℕ, ◌+◌, ◌≤◌, ◌≡◌, refl, ap, ◌∙◌, ◌⊎◌, inl, inr, String, Bool, Option, none, some, List, [], ◌∷◌,
  map, All, ◌++◌, leb-false, arith, str_eq, if◌then◌else◌, leb, leb→le, length, Bool-cases,
}
use mathlib.Core.List.{Memᴰ}
use pigugu_server.Roast.State.{RoastState, RoundScore, Support}
use pigugu_server.Roast.Judging.{get_or}
use pigugu_server.Roast.Triggers.{last_of}

-- _RATING_RANK, from 1; a rating that is not known ranks 0
unfoldable pub rank : String → ℕ
rank r =
    if str_eq r "meh"
    then 1
    else if str_eq r "decent"
    then 2
    else if str_eq r "spicy"
    then 3
    else if str_eq r "fire"
    then 4
    else if str_eq r "superb"
    then 5
    else if str_eq r "godlike"
    then 6
    else 0

abbrev pub quote_of : RoundScore → String
quote_of r = get_or r.quote ""

-- the loop that looks for the best rating, from the rating and the quote so far
unfoldable pub best : List RoundScore → String × String → String × String
best [] b = b
best (r ∷ rs) (rating, quote) =
    best rs (if leb (rank rating) (rank r.rating) then (r.rating, quote_of r) else (rating, quote))

unfoldable pub total : List RoundScore → ℕ
total [] = 0
total (r ∷ rs) = r.score + total rs

pub record TogetherScore : Type 0 where
  pub turns : ℕ
  pub settled : Bool
  pub best_take : String
  pub total_score : ℕ
  pub rounds : ℕ
  pub best_rating : String
  pub best_quote : String
  pub scores : List RoundScore

unfoldable pub score_together : RoastState → TogetherScore
unfolding total best
score_together s =
    let (rating, quote) = best s.extra.scores ("meh", "") in
    record {
      turns = s.turn_count;
      settled = s.extra.settled_flag;
      best_take = s.extra.best_take;
      total_score = total s.extra.scores;
      rounds = length s.extra.scores;
      best_rating = rating;
      best_quote = quote;
      scores = s.extra.scores;
    }

pub data DebateResult : Type 0 where
  landslide_win narrow_win draw narrow_loss landslide_loss : DebateResult

unfoldable pub debate_result : ℕ → DebateResult
debate_result support =
    if leb 7500 support
    then landslide_win
    else if leb 5500 support
    then narrow_win
    else if leb 4500 support
    then draw
    else if leb 2600 support
    then narrow_loss
    else landslide_loss

pub data Winner : Type 0 where
  user_win even agent_win : Winner

unfoldable pub winner : ℕ → Winner
winner strong = if leb 3 strong then user_win else if leb 1 strong then even else agent_win

pub record DebateScore : Type 0 where
  pub result : Winner
  pub strong_points : ℕ
  pub final_user_support : ℕ
  pub debate_result : DebateResult
  pub support_history : List Support

abbrev pub final_support : Option Support → ℕ
final_support none = 5000
final_support (some x) = x.user

unfoldable pub score_debate : RoastState → DebateScore
unfolding winner debate_result
score_debate s =
    let support = final_support (last_of s.extra.support_history) in
    record {
      result = winner s.extra.strong_points;
      strong_points = s.extra.strong_points;
      final_user_support = support;
      debate_result = debate_result support;
      support_history = s.extra.support_history;
    }

-- the place of a result, from the best for the user
abbrev pub place : DebateResult → ℕ
place landslide_win = 4
place narrow_win = 3
place draw = 2
place narrow_loss = 1
place landslide_loss = 0

-- More support for the user never gives a worse result of the debate.
pub debate_result_monotone : (a b : ℕ) → a ≤ b → place (debate_result a) ≤ place (debate_result b)
unfolding debate_result
debate_result_monotone a b h = ground arith

-- the better of the rating so far and that of a round
abbrev pub better : RoundScore → String × String → String × String
better r (rating, quote) =
    if leb (rank rating) (rank r.rating) then (r.rating, quote_of r) else (rating, quote)

better_bounds :
    (r : RoundScore) (b : String × String)
    → (rank b.0 ≤ rank (better r b).0) × (rank r.rating ≤ rank (better r b).0)
better_bounds r (rating, quote) = elim (Bool-cases (leb (rank rating) (rank r.rating))) [
  | inl e ↦ rw e (leb→le (rank rating) (rank r.rating) e, omega arith)
  | inr e ↦ rw e (omega arith, leb-false (rank rating) (rank r.rating) e)
]

best_bounds :
    (rs : List RoundScore) (b : String × String)
    → (rank b.0 ≤ rank (best rs b).0) × All (λ r. rank r.rating ≤ rank (best rs b).0) rs
unfolding best
best_bounds [] b = (omega arith, tt)
best_bounds (r ∷ rs) (rating, quote) =
    let (low, here) = better_bounds r (rating, quote) in
    let (keep, rest) = best_bounds rs (better r (rating, quote)) in
    (omega arith, (omega arith, rest))

-- what a round says: its rating and its quote, "" for none
abbrev pub said : RoundScore → String × String
said r = (r.rating, quote_of r)

best-said :
    (rs : List RoundScore) (b : String × String) → (best rs b ≡ b) ⊎ Memᴰ (best rs b) (map said rs)
unfolding best
best-said [] b = inl refl
best-said (r ∷ rs) (rating, quote) = elim (best-said rs (better r (rating, quote))) [
  | inr m ↦ inr (Memᴰ.tail m)
  | inl same ↦ elim (Bool-cases (leb (rank rating) (rank r.rating))) [
    | inl e ↦ inr (Memᴰ.head (same ∙ rw e refl))
    | inr e ↦ inl (same ∙ rw e refl)
  ]
]

-- The best rating in the score of roast_together ranks no lower than any round's rating, and no lower than
-- "meh"; with its quote it is that of a round, or it is "meh" without a quote.
pub best_rating_is_best :
    (s : RoastState)
    → let r = score_together s in
      (rank "meh" ≤ rank r.best_rating)
      × All (λ x. rank x.rating ≤ rank r.best_rating) s.extra.scores
      × ((r.best_rating ≡ "meh") × (r.best_quote ≡ "")
          ⊎ Memᴰ (r.best_rating, r.best_quote) (map said s.extra.scores))
unfolding score_together
best_rating_is_best s =
    let (low, all) = best_bounds s.extra.scores ("meh", "") in
    (
      low,
      all,
      elim (best-said s.extra.scores ("meh", "")) [
        | inl e ↦ inl (ap (λ b. b.0) e, ap (λ b. b.1) e)
        | inr m ↦ inr m
      ],
    )

pub total-append : (xs ys : List RoundScore) → total (xs ++ ys) ≡ total xs + total ys
unfolding total
total-append [] ys = omega arith
total-append (x ∷ xs) ys = omega (arith, total-append xs ys)
