-- ===== src/Roast/Turns.antt =====
-- What a turn makes of a game: its phase, its turn count and its prompt.
use pigugu_server.Common.{
  sym, ap, ◌∙◌, subst, select, ◌+◌, ◌≡◌, refl, ◌⊎◌, inl, inr, String, Bool, true, false, Option,
  none, some, List, [], ◌∷◌, arith, if◌then◌else◌, Bool-cases, is_some,
}
use pigugu_server.Context.Record.{ConversationRecord, is_user}
use pigugu_server.Roast.State.{
  Mode, roast_together, debate, Phase, active, closing, settled, closed, RoastState,
}
use pigugu_server.Roast.Storage.{Store}
use pigugu_server.Roast.Judging.{
  Verdict, direct, on_director_result, judge_take, judge_debate, knock_out,
}
use pigugu_server.Roast.Triggers.{Trigger, Template, triggers, update_state, note_turn, last_of}
use pigugu_server.Roast.Tick.{
  directed, fire, run_triggers, finish, base_tick, tick, is_phase_active, bump, keep_take, given,
}

-- the phases that an active game can be in after a turn
abbrev pub IsOngoing : Phase → Type 0
IsOngoing p = (p ≡ active) ⊎ (p ≡ closing)

abbrev pub Counts : RoastState → RoastState → Type 0
Counts s t =
    (t.turn_count ≡ s.turn_count) × (t.mode ≡ s.mode) × (t.roast_instance_id ≡ s.roast_instance_id)

judge-Counts :
    (mode : Mode) (v : Verdict) (s : RoastState) (st : Store)
    → Counts s (on_director_result mode v s st).0
unfolding on_director_result judge_take judge_debate knock_out
judge-Counts roast_together v s st = ground arith
judge-Counts debate v s st = ground arith

judge-IsOngoing :
    (mode : Mode) (v : Verdict) (s : RoastState) (st : Store)
    → IsOngoing s.phase
    → IsOngoing (on_director_result mode v s st).0.phase
unfolding on_director_result judge_take judge_debate knock_out
judge-IsOngoing roast_together v s st h = ground arith
judge-IsOngoing debate v s st h = ground arith

pub keep_take_same :
    (o : Option String) (s : RoastState)
    → Counts s (keep_take o s) × ((keep_take o s).phase ≡ s.phase)
keep_take_same none s = ((refl, refl, refl), refl)
keep_take_same (some t) s = ((refl, refl, refl), refl)

or_closes :
    (b : Bool) (s t : RoastState)
    → Counts s t
    → IsOngoing t.phase
    → let s' : RoastState = (if b then record t { phase = closing } else t) in
      Counts s s' × IsOngoing s'.phase
or_closes true s t c h = (c, inr refl)
or_closes false s t c h = (c, h)

pub directed-IsOngoing :
    (mode : Mode) (v : Verdict) (s : RoastState) (st : Store)
    → IsOngoing s.phase
    → let s' = (directed mode v s st).0 in Counts s s' × IsOngoing s'.phase
unfolding directed
directed-IsOngoing mode v s st h =
    let t = keep_take (given v.best_take) s in
    let ((c₁, c₂, c₃), same) = keep_take_same (given v.best_take) s in
    let (j₁, j₂, j₃) = judge-Counts mode v t st in
    let on = judge-IsOngoing mode v t st (subst IsOngoing (sym same) h) in
    or_closes v.close s (on_director_result mode v t st).0 (j₁ ∙ c₁, j₂ ∙ c₂, j₃ ∙ c₃) on

run_triggers-IsOngoing :
    (render : Option (Template → String)) (ts : List Trigger) (records : List ConversationRecord)
    (s : RoastState) (st : Store)
    → IsOngoing s.phase
    → let s' = (run_triggers render ts records s st).0 in Counts s s' × IsOngoing s'.phase
unfolding run_triggers fire
run_triggers-IsOngoing render [] records s st h = ((refl, refl, refl), h)
run_triggers-IsOngoing none (t ∷ ts) records s st h = run_triggers-IsOngoing none ts records s st h
run_triggers-IsOngoing (some render) (t ∷ ts) records s st h =
    elim (Bool-cases (t.check s records)) [
      | inl e ↦ rw e (elim (Bool-cases t.affects_phase) [
        | inl a ↦ rw a ((refl, refl, refl), inr refl)
        | inr a ↦ rw a ((refl, refl, refl), h)
      ])
      | inr e ↦ rw e (run_triggers-IsOngoing (some render) ts records s st h)
    ]

finish-IsOngoing :
    (mode : Mode) (render : Option (Template → String)) (records : List ConversationRecord)
    (d : RoastState × Store × Option String)
    → IsOngoing d.0.phase
    → let s' = (finish mode render records d).0 in Counts d.0 s' × IsOngoing s'.phase
unfolding finish
finish-IsOngoing mode render records (s, st, some p) h = ((refl, refl, refl), h)
finish-IsOngoing mode render records (s, st, none) h =
    run_triggers-IsOngoing render (triggers mode) records s st h

note_turn_keeps :
    (o : Option ConversationRecord) (s : RoastState)
    → Counts s (note_turn o s) × ((note_turn o s).phase ≡ s.phase)
unfolding note_turn
note_turn_keeps none s = ((refl, refl, refl), refl)
note_turn_keeps (some r) s = ((refl, refl, refl), refl)

-- the state that a turn of the mode starts from
abbrev pub prepared : Mode → List ConversationRecord → RoastState → RoastState
prepared roast_together records s = s
prepared debate records s = update_state s records

pub tick-prepared :
    (mode : Mode) (render : Option (Template → String)) (answer : Option Verdict)
    (records : List ConversationRecord) (s : RoastState) (st : Store)
    → tick mode render answer records s st
      ≡ base_tick mode render answer records (prepared mode records s) st
unfolding tick
tick-prepared roast_together render answer records s st = refl
tick-prepared debate render answer records s st = refl

pub prepared_keeps :
    (mode : Mode) (records : List ConversationRecord) (s : RoastState)
    → Counts s (prepared mode records s) × ((prepared mode records s).phase ≡ s.phase)
unfolding update_state
prepared_keeps roast_together records s = ((refl, refl, refl), refl)
prepared_keeps debate records s = note_turn_keeps (last_of (select (λ r. is_user r.role) records)) s

pub is_phase_active-≡ : (p : Phase) → is_phase_active p ≡ true → p ≡ active
is_phase_active-≡ active e = refl
is_phase_active-≡ closing e = ground arith
is_phase_active-≡ settled e = ground arith
is_phase_active-≡ closed e = ground arith

pub base_tick_busy :
    (mode : Mode) (render : Option (Template → String)) (answer : Option Verdict)
    (records : List ConversationRecord) (s : RoastState) (st : Store)
    → is_phase_active s.phase ≡ true
    → base_tick mode render answer records s st
      ≡ finish mode render records (directed mode (direct (is_some render) answer) (bump s) st)
unfolding base_tick
base_tick_busy mode render answer records s st h = rw h refl

base_tick-IsOngoing :
    (mode : Mode) (render : Option (Template → String)) (answer : Option Verdict)
    (records : List ConversationRecord) (s : RoastState) (st : Store)
    → s.phase ≡ active
    → let s' = (base_tick mode render answer records s st).0 in
      Counts (bump s) s' × IsOngoing s'.phase
base_tick-IsOngoing mode render answer records s st h =
    let v = direct (is_some render) answer in
    let ((d₁, d₂, d₃), on) = directed-IsOngoing mode v (bump s) st (inl h) in
    let ((f₁, f₂, f₃), done) =
      finish-IsOngoing mode render records (directed mode v (bump s) st) on in
    rw (base_tick_busy mode render answer records s st (ap is_phase_active h))
      ((f₁ ∙ d₁, f₂ ∙ d₂, f₃ ∙ d₃), done)

base_tick_idle :
    (mode : Mode) (render : Option (Template → String)) (answer : Option Verdict)
    (records : List ConversationRecord) (s : RoastState) (st : Store)
    → is_phase_active s.phase ≡ false
    → base_tick mode render answer records s st ≡ (s, st, none)
unfolding base_tick
base_tick_idle mode render answer records s st h = rw h refl

-- A turn of a game that is active counts one turn, keeps the mode and the session, and leaves the game
-- active or closing, whatever the director answers and whichever trigger fires.
pub tick-IsOngoing :
    (mode : Mode) (render : Option (Template → String)) (answer : Option Verdict)
    (records : List ConversationRecord) (s : RoastState) (st : Store)
    → s.phase ≡ active
    → let s' = (tick mode render answer records s st).0 in
      (s'.turn_count ≡ s.turn_count + 1)
      × (s'.mode ≡ s.mode)
      × (s'.roast_instance_id ≡ s.roast_instance_id)
      × IsOngoing s'.phase
tick-IsOngoing mode render answer records s st h =
    let ((p₁, p₂, p₃), same) = prepared_keeps mode records s in
    let ((b₁, b₂, b₃), on) =
      base_tick-IsOngoing mode render answer records (prepared mode records s) st (same ∙ h) in
    rw (tick-prepared mode render answer records s st)
      (b₁ ∙ ap (λ n. n + 1) p₁, b₂ ∙ p₂, b₃ ∙ p₃, on)

-- A turn of a game that is not active gives no prompt, leaves the store as it is, and keeps the phase
-- and the turn count.
pub tick_inactive :
    (mode : Mode) (render : Option (Template → String)) (answer : Option Verdict)
    (records : List ConversationRecord) (s : RoastState) (st : Store)
    → is_phase_active s.phase ≡ false
    → let (s', st', prompt) = tick mode render answer records s st in
      (prompt ≡ none) × (st' ≡ st) × (s'.phase ≡ s.phase) × (s'.turn_count ≡ s.turn_count)
tick_inactive mode render answer records s st h =
    let ((p₁, p₂, p₃), same) = prepared_keeps mode records s in
    let idle : is_phase_active (prepared mode records s).phase ≡ false =
      ap is_phase_active same ∙ h in
    rw
      (
        tick-prepared mode render answer records s st,
        base_tick_idle mode render answer records (prepared mode records s) st idle,
      )
      (refl, refl, same, p₁)
