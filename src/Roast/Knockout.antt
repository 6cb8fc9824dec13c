-- ===== src/Roast/Knockout.antt =====
-- A knock-out: the support leaves the range in which a debate goes on.
use text.Mathlib.TextPositions.{eq_refl}
use pigugu_server.Common.{
  ℕ, ◌≤◌, ◌⊎◌, sym, ap, ◌∙◌, ◌≡◌, refl, inl, inr, String, Bool, true, false, Option, none, some,
  List, [], ◌∷◌, arith, if◌then◌else◌, Bool-cases,
}
use mathlib.Core.Option.{some-injective}
use pigugu_server.Common.Dict
use pigugu_server.Common.Dict.{get-put}
use pigugu_server.Context.Record.{ConversationRecord}
use pigugu_server.Roast.State.{debate, active, closing, RoastState}
use pigugu_server.Roast.Storage.{up, Store, write, save, save_active, save_history}
use pigugu_server.Roast.Judging.{
  Verdict, direct, on_director_result, judge_debate, knock_out, ko_prompt, support_round, is_ko,
  get_or,
}
use pigugu_server.Roast.Triggers.{Trigger, Template, triggers}
use pigugu_server.Roast.Tick.{
  directed, fire, run_triggers, finish, tick, is_phase_active, hint, bump, keep_take, given,
  or_closing,
}
use pigugu_server.Roast.Turns.{
  keep_take_same, prepared, tick-prepared, prepared_keeps, base_tick_busy,
}

pending-save : (s : RoastState) (st : Store) → (save s st).pending ≡ st.pending
unfolding save save_history save_active
pending-save s st = ground arith

pending-write :
    (sid p : String) (st : Store) → st.redis ≡ up → Dict.get (write sid p st).pending sid ≡ some p
unfolding write
pending-write sid p st live = rw live (get-put st.pending sid sid p ∙ rw (eq_refl sid) refl)

-- what a knock-out leaves
abbrev pub IsOut : RoastState → Type 0
IsOut s = (s.phase ≡ closing) × (s.extra.ko ≡ true)

judge_ko :
    (v : Verdict) (s : RoastState) (st : Store)
    → st.redis ≡ up
    → is_ko (get_or v.user_support 5000) ≡ true
    → let (s', st') = on_director_result debate v s st in
      IsOut s'
      × (s'.roast_instance_id ≡ s.roast_instance_id)
      × (st'.redis ≡ up)
      × (Dict.get st'.pending s.roast_instance_id ≡ some ko_prompt)
unfolding on_director_result judge_debate knock_out support_round write
judge_ko v s st live out =
    rw (live, out)
      (
        (refl, refl),
        refl,
        refl,
        get-put st.pending s.roast_instance_id s.roast_instance_id ko_prompt
            ∙ rw (eq_refl s.roast_instance_id) refl,
      )

or_closes-IsOut :
    (b : Bool) (t : RoastState)
    → IsOut t
    → let t' : RoastState = (if b then record t { phase = closing } else t) in
      IsOut t' × (t'.roast_instance_id ≡ t.roast_instance_id)
or_closes-IsOut true t (a, b) = ((refl, b), refl)
or_closes-IsOut false t h = (h, refl)

or_closing_out : (b : Bool) (o : Option String) → or_closing b true o ≡ o
or_closing_out b (some p) = refl
or_closing_out true none = refl
or_closing_out false none = refl

directed_ko :
    (v : Verdict) (s : RoastState) (st : Store)
    → st.redis ≡ up
    → is_ko (get_or v.user_support 5000) ≡ true
    → let (s', st', prompt) = directed debate v s st in
      IsOut s'
      × (s'.roast_instance_id ≡ s.roast_instance_id)
      × (st'.redis ≡ up)
      × (Dict.get st'.pending s.roast_instance_id ≡ some ko_prompt)
      × (prompt ≡ hint v)
unfolding directed
directed_ko v s st live out =
    let t = keep_take (given v.best_take) s in
    let ((_, _, same), _) = keep_take_same (given v.best_take) s in
    let ((shut, ko), id, on, kept) = judge_ko v t st live out in
    let after = (on_director_result debate v t st).0 in
    let (ended, named) = or_closes-IsOut v.close after (shut, ko) in
    (
      ended,
      named ∙ (id ∙ same),
      on,
      ap (Dict.get (on_director_result debate v t st).1.pending) (sym same) ∙ kept,
      rw shut (or_closing_out v.close (hint v)),
    )

run_triggers_ko :
    (render : Option (Template → String)) (ts : List Trigger) (records : List ConversationRecord)
    (s : RoastState) (st : Store)
    → IsOut s
    → IsOut (run_triggers render ts records s st).0
unfolding run_triggers fire
run_triggers_ko render [] records s st h = h
run_triggers_ko none (t ∷ ts) records s st h = run_triggers_ko none ts records s st h
run_triggers_ko (some render) (t ∷ ts) records s st h = elim (Bool-cases (t.check s records)) [
  | inl e ↦ rw e (or_closes-IsOut t.affects_phase s h).0
  | inr e ↦ rw e (run_triggers_ko (some render) ts records s st h)
]

finish_ko :
    (render : Option (Template → String)) (records : List ConversationRecord)
    (d : RoastState × Store × Option String)
    → IsOut d.0
    → IsOut (finish debate render records d).0
unfolding finish
finish_ko render records (s, st, some p) h = h
finish_ko render records (s, st, none) h = run_triggers_ko render (triggers debate) records s st h

finish_hint :
    (render : Option (Template → String)) (records : List ConversationRecord) (p : String)
    (d : RoastState × Store × Option String)
    → d.2 ≡ some p
    → d.1.redis ≡ up
    → let (s', st', prompt) = finish debate render records d in
      (prompt ≡ some p) × (Dict.get st'.pending d.0.roast_instance_id ≡ some p)
unfolding finish
finish_hint render records p (s, st, none) e live = ground arith
finish_hint render records p (s, st, some q) e live =
    let same = some-injective _ _ e in
    (
      e,
      rw (pending-save s (write s.roast_instance_id q st))
          (pending-write s.roast_instance_id q st live ∙ e),
    )

is_ko-true : (support : ℕ) → (7500 ≤ support) ⊎ (support ≤ 2500) → is_ko support ≡ true
is_ko-true support h = ground arith

-- A debate that is active ends in the turn in which the director's support for the user is at least 75 or
-- at most 25 percent, while Redis works and there is a prompt store: it is closing and marked as a
-- knock-out.
pub knock_out_closes :
    (render : Template → String) (v : Verdict) (records : List ConversationRecord) (s : RoastState)
    (st : Store)
    → s.phase ≡ active
    → st.redis ≡ up
    → (7500 ≤ get_or v.user_support 5000) ⊎ (get_or v.user_support 5000 ≤ 2500)
    → let s' = (tick debate (some render) (some v) records s st).0 in
      (s'.phase ≡ closing) × (s'.extra.ko ≡ true)
unfolding direct
knock_out_closes render v records s st h live out =
    let t = prepared debate records s in
    let (p, same) = prepared_keeps debate records s in
    let (ended, _, _, _, _) =
      directed_ko v (bump t) st live (is_ko-true (get_or v.user_support 5000) out) in
    rw
      (
        tick-prepared debate (some render) (some v) records s st,
        base_tick_busy debate (some render) (some v) records t st (ap is_phase_active (same ∙ h)),
      )
      (finish_ko (some render) records (directed debate v (bump t) st) ended)

-- A knock-out, with a support of at least 75 or at most 25 percent, in a turn for which the director injects a hint leaves the hint as the prompt of the next
-- turn: the closing prompt of the knock-out is overwritten, though the game is closing.
pub knock_out_prompt_lost :
    (render : Template → String) (v : Verdict) (p : String) (records : List ConversationRecord)
    (s : RoastState) (st : Store)
    → s.phase ≡ active
    → st.redis ≡ up
    → (7500 ≤ get_or v.user_support 5000) ⊎ (get_or v.user_support 5000 ≤ 2500)
    → hint v ≡ some p
    → let (s', st', prompt) = tick debate (some render) (some v) records s st in
      (s'.phase ≡ closing) × (prompt ≡ some p) × (Dict.get st'.pending s.roast_instance_id ≡ some p)
unfolding direct
knock_out_prompt_lost render v p records s st h live out hinted =
    let t = prepared debate records s in
    let ((_, _, id), same) = prepared_keeps debate records s in
    let (ended, named, on, _, said) =
      directed_ko v (bump t) st live (is_ko-true (get_or v.user_support 5000) out) in
    let (told, left) =
      finish_hint (some render) records p (directed debate v (bump t) st) (said ∙ hinted) on in
    rw
      (
        tick-prepared debate (some render) (some v) records s st,
        base_tick_busy debate (some render) (some v) records t st (ap is_phase_active (same ∙ h)),
      )
      (
        (finish_ko (some render) records (directed debate v (bump t) st) ended).0,
        told,
        ap
              (Dict.get
                (finish debate (some render) records (directed debate v (bump t) st)).1.pending)
              (sym (named ∙ id))
            ∙ left,
      )
