-- ===== src/Roast/Endings.antt =====
-- How a game ends: by its turns, by a knock-out, and a debate that does not end.
use pigugu_server.Common.{
  sym, ap, ◌∙◌, subst, select, ◌+◌, ◌≤◌, ◌≡◌, refl, ◌⊎◌, inl, inr, String, Bool, true, false,
  Option, none, some, List, [], ◌∷◌, arith, if◌then◌else◌, Bool-cases, le→leb, length, is_some, not,
  ◌&&◌, Option-cases,
}
use pigugu_server.Context.Record.{ConversationRecord, is_user}
use pigugu_server.Roast.State.{Mode, roast_together, debate, active, closing, RoastState}
use pigugu_server.Roast.Storage.{Store, is_absent}
use pigugu_server.Roast.Judging.{
  Verdict, no_verdict, direct, on_director_result, judge_debate, judge_take, knock_out,
  support_round,
}
use pigugu_server.Roast.Triggers.{Template, triggers, update_state, note_turn, last_of}
use pigugu_server.Roast.Tick.{
  directed, fire, run_triggers, finish, tick, is_phase_active, hint, bump, keep_take, given,
  or_closing, is_closing,
}
use pigugu_server.Roast.Turns.{
  prepared, tick-prepared, prepared_keeps, base_tick_busy, keep_take_same, directed-IsOngoing,
  tick-IsOngoing,
}

-- Eight turns end a round of roast_together
run_together :
    (render : Template → String) (records : List ConversationRecord) (s : RoastState) (st : Store)
    → 8 ≤ s.turn_count
    → (run_triggers (some render) (triggers roast_together) records s st).0.phase ≡ closing
unfolding run_triggers triggers fire
run_together render records s st late = rw (le→leb 8 s.turn_count late) refl

-- a prompt without a hint comes from a close
directed_quiet :
    (mode : Mode) (v : Verdict) (s : RoastState) (st : Store)
    → hint v ≡ none
    → ((directed mode v s st).2 ≡ none) ⊎ ((directed mode v s st).0.phase ≡ closing)
unfolding directed
directed_quiet mode v s st quiet =
    rw quiet (or_close v.close (on_director_result mode v (keep_take (given v.best_take) s) st).0)
  where
    or_close :
        (b : Bool) (t : RoastState)
        → (or_closing b (is_closing t.phase) none ≡ none)
          ⊎ ((if b then record t { phase = closing } else t).phase ≡ closing)
    or_close true t = inr refl
    or_close false t = inl refl

finish_together :
    (render : Template → String) (records : List ConversationRecord)
    (d : RoastState × Store × Option String)
    → 8 ≤ d.0.turn_count
    → (d.2 ≡ none) ⊎ (d.0.phase ≡ closing)
    → (finish roast_together (some render) records d).0.phase ≡ closing
unfolding finish
finish_together render records (s, st, none) late h = run_together render records s st late
finish_together render records (s, st, some p) late (inr h) = h
finish_together render records (s, st, some p) late (inl h) = ground arith

-- what a verdict makes of the phase of an active roast_together
directed-phase :
    (v : Verdict) (s : RoastState) (st : Store)
    → s.phase ≡ active
    → (directed roast_together v s st).0.phase ≡ (if v.close then closing else active)
unfolding directed on_director_result judge_take
directed-phase v s st h =
    closes v.close _
      (judged (keep_take (given v.best_take) s) ((keep_take_same (given v.best_take) s).1 ∙ h))
  where
    judged : (t : RoastState) → t.phase ≡ active → (judge_take v t st).0.phase ≡ active
    judged t e = ground arith

    closes :
        (b : Bool) (t : RoastState)
        → t.phase ≡ active
        → (if b then record t { phase = closing } else t).phase ≡ (if b then closing else active)
    closes true t e = refl
    closes false t e = e

finish_hinted :
    (render : Template → String) (records : List ConversationRecord)
    (d : RoastState × Store × Option String) (p : String)
    → d.2 ≡ some p
    → (finish roast_together (some render) records d).0.phase ≡ d.0.phase
unfolding finish
finish_hinted render records (s, st, none) p e = cc
finish_hinted render records (s, st, some q) p e = refl

directed_hinted :
    (v : Verdict) (s : RoastState) (st : Store) (p : String)
    → hint v ≡ some p
    → (directed roast_together v s st).2 ≡ some p
unfolding directed
directed_hinted v s st p e = rw e refl

-- Where there is a prompt store, the eighth turn of an active game of roast_together, and every later one, closes
-- the game, unless the director injects a hint and does not close: then the game stays active, whatever its turn.
pub eighth_turn_phase :
    (render : Template → String) (answer : Option Verdict) (records : List ConversationRecord)
    (s : RoastState) (st : Store)
    → s.phase ≡ active
    → 7 ≤ s.turn_count
    → let v = direct true answer in
      (tick roast_together (some render) answer records s st).0.phase
      ≡ (if is_some (hint v) && not v.close then active else closing)
eighth_turn_phase render answer records s st h late =
    let v = direct true answer in
    let ((d₁, _, _), on) = directed-IsOngoing roast_together v (bump s) st (inl h) in
    rw
      (
        tick-prepared roast_together (some render) answer records s st,
        base_tick_busy roast_together (some render) answer records s st (ap is_phase_active h),
      )
      (elim (Option-cases (hint v)) [
        | inl quiet ↦ rw quiet (
            finish_together render records (directed roast_together v (bump s) st)
              (subst (λ n. 8 ≤ n) (sym d₁) (omega arith))
              (directed_quiet roast_together v (bump s) st quiet))
        | inr (p, given_one) ↦
            finish_hinted render records (directed roast_together v (bump s) st) p
              (directed_hinted v (bump s) st p given_one)
            ∙ (directed-phase v (bump s) st h ∙ phase_if (hint v) v.close p given_one)
      ])
  where
    phase_if :
        (o : Option String) (b : Bool) (p : String)
        → o ≡ some p
        → (if b then closing else active) ≡ (if is_some o && not b then active else closing)
    phase_if none b p e = cc
    phase_if (some q) true p e = refl
    phase_if (some q) false p e = refl

-- a quiet director changes neither the phase nor the counters of a debate
abbrev pub IsWon : RoastState → Type 0
IsWon s = (s.phase ≡ active) × (3 ≤ s.extra.strong_points) × (4 ≤ s.turn_count)

judge-IsWon :
    (s : RoastState) (st : Store) → IsWon s → IsWon (on_director_result debate no_verdict s st).0
unfolding on_director_result judge_debate knock_out support_round
judge-IsWon s st h = elim (Bool-cases (is_absent st.redis)) [ inl e ↦ rw e h | inr e ↦ rw e h ]

directed_silent :
    (s : RoastState) (st : Store)
    → IsWon s
    → IsWon (directed debate no_verdict s st).0 × ((directed debate no_verdict s st).2 ≡ none)
unfolding directed
directed_silent s st h = (judge-IsWon s st h, refl)

finish-IsWon :
    (render : Template → String) (records : List ConversationRecord)
    (d : RoastState × Store × Option String)
    → IsWon d.0
    → d.2 ≡ none
    → IsWon (finish debate (some render) records d).0
unfolding finish run_triggers triggers fire
finish-IsWon render records (s, st, some p) h e = h
finish-IsWon render records (s, st, none) (a, b, c) e =
    rw (le→leb 3 s.extra.strong_points b, le→leb 4 s.turn_count c) (a, b, c)

note_turn_won :
    (o : Option ConversationRecord) (s : RoastState)
    → s.extra.strong_points ≤ (note_turn o s).extra.strong_points
unfolding note_turn
note_turn_won none s = omega arith
note_turn_won (some r) s = omega arith

update_state-IsWon :
    (records : List ConversationRecord) (s : RoastState)
    → IsWon s
    → IsWon (prepared debate records s)
unfolding update_state
update_state-IsWon records s (a, b, c) =
    let ((p₁, _, _), same) = prepared_keeps debate records s in
    (
      same ∙ a,
      (let more = note_turn_won (last_of (select (λ r. is_user r.role) records)) s in omega arith),
      subst (λ n. 4 ≤ n) (sym p₁) c,
    )

-- a debate that is won stays so when the director is silent
tick-IsWon :
    (render : Template → String) (answer : Option Verdict) (records : List ConversationRecord)
    (s : RoastState) (st : Store)
    → answer ≡ none
    → IsWon s
    → IsWon (tick debate (some render) answer records s st).0
unfolding direct
tick-IsWon render answer records s st silent h =
    let (a, b, c) = update_state-IsWon records s h in
    let t = prepared debate records s in
    let (won, quiet) = directed_silent (bump t) st (a, b, omega arith) in
    rw
      (
        tick-prepared debate (some render) answer records s st,
        base_tick_busy debate (some render) answer records t st (ap is_phase_active a),
        silent,
      )
      (finish-IsWon render records (directed debate no_verdict (bump t) st) won quiet)

-- the turns of a debate, one for each list of records, in which the director does not answer
unfoldable pub play :
    (Template → String) → List (List ConversationRecord) → RoastState → Store → RoastState × Store
play render [] s st = (s, st)
play render (records ∷ turns) s st =
    let (s', st', _) = tick debate (some render) none records s st in play render turns s' st'

play-IsWon :
    (render : Template → String) (turns : List (List ConversationRecord)) (s : RoastState)
    (st : Store)
    → IsWon s
    → IsWon (play render turns s st).0
      × ((play render turns s st).0.turn_count ≡ s.turn_count + length turns)
unfolding play
play-IsWon render [] s st h = (h, omega arith)
play-IsWon render (records ∷ turns) s st h =
    let one = tick debate (some render) none records s st in
    let (won, count) =
      play-IsWon render turns one.0 one.1 (tick-IsWon render none records s st refl h) in
    let (t₁, _, _, _) = tick-IsOngoing debate (some render) none records s st h.0 in
    (won, count ∙ (ap (λ n. n + length turns) t₁ ∙ omega arith))

-- A debate that is active with three strong points after four turns does not end by its turns: with a
-- prompt store and a director that does not answer, it is still active after any number of turns.
pub won_debate_never_closes :
    (render : Template → String) (turns : List (List ConversationRecord)) (s : RoastState)
    (st : Store)
    → s.phase ≡ active
    → 3 ≤ s.extra.strong_points
    → 4 ≤ s.turn_count
    → ((play render turns s st).0.phase ≡ active)
      × ((play render turns s st).0.turn_count ≡ s.turn_count + length turns)
won_debate_never_closes render turns s st h strong late =
    let (won, count) = play-IsWon render turns s st (h, strong, late) in (won.0, count)
