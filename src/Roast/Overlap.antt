-- ===== src/Roast/Overlap.antt =====
-- A settlement and the turn that it overtakes: `_stream_roast` of pigagent/agent.py runs the tools of a reply, then
-- starts `tick` with the state that it loaded before the reply.
use pigugu_server.Common.{
  ap, ◌∙◌, subst, ◌≡◌, refl, inl, inr, String, Bool, true, false, Option, none, some, List, [], ◌∷◌,
  arith, if◌then◌else◌, Bool-cases, is_some, str_eq, select, if_intro,
}
use pigugu_server.Context.Record.{ConversationRecord, is_user}
use pigugu_server.Roast.State.{
  Mode, roast_together, debate, Phase, active, closing, settled, RoastState,
}
use pigugu_server.Roast.Storage.{Store, up, load_active, save, save_active, write}
use pigugu_server.Roast.Judging.{
  Verdict, direct, on_director_result, judge_take, judge_debate, knock_out,
}
use pigugu_server.Roast.Triggers.{Trigger, Template, triggers, update_state, note_turn, last_of}
use pigugu_server.Roast.Tick.{
  directed, fire, run_triggers, finish, tick, is_phase_active, bump, keep_take, given,
}
use pigugu_server.Roast.Turns.{
  IsOngoing, prepared, tick-prepared, prepared_keeps, base_tick_busy, tick-IsOngoing,
  is_phase_active-≡,
}
use pigugu_server.Roast.Sessions.{load_active-save_active}
use pigugu_server.Roast.Settle.{
  Ledger, already_over, completed_as, is_playing, mark_roast_complete, settle_roast, settle_state,
}
use pigugu_server.Roast.Settled.{
  played, over, save_history-active, settle_roast-active, settle_roast-redis,
}

module _ (user : String) where
  -- the game is the user's, and Redis works
  abbrev IsHeld : RoastState → Store → Type 0
  IsHeld s st = (s.user_id ≡ user) × (st.redis ≡ up)

  -- the last write is that of the state
  abbrev IsSaved : RoastState × Store × Option String → Type 0
  IsSaved d = (before : Store) × (d.1 ≡ save d.0 before) × IsHeld d.0 before

  judge-IsHeld :
      (mode : Mode) (v : Verdict) (s : RoastState) (st : Store)
      → IsHeld s st
      → let (s', st') = on_director_result mode v s st in IsHeld s' st'
  unfolding on_director_result judge_take judge_debate knock_out write
  judge-IsHeld roast_together v s st h = ground arith
  judge-IsHeld debate v s st h = ground arith

  keep_take-IsHeld :
      (o : Option String) (s : RoastState) (st : Store) → IsHeld s st → IsHeld (keep_take o s) st
  keep_take-IsHeld none s st h = h
  keep_take-IsHeld (some t) s st h = h

  closes :
      (b : Bool) (s : RoastState)
      → s.user_id ≡ user
      → (if b then record s { phase = closing } else s).user_id ≡ user
  closes true s h = h
  closes false s h = h

  directed-IsHeld :
      (mode : Mode) (v : Verdict) (s : RoastState) (st : Store)
      → IsHeld s st
      → let (s', st', _) = directed mode v s st in IsHeld s' st'
  unfolding directed
  directed-IsHeld mode v s st h =
      let (own, live) = judge-IsHeld mode v _ st (keep_take-IsHeld (given v.best_take) s st h) in
      (closes v.close (on_director_result mode v (keep_take (given v.best_take) s) st).0 own, live)

  write-redis : (sid prompt : String) (st : Store) → (write sid prompt st).redis ≡ st.redis
  unfolding write
  write-redis sid prompt st = ground arith

  run_triggers-IsSaved :
      (render : Option (Template → String)) (ts : List Trigger) (records : List ConversationRecord)
      (s : RoastState) (st : Store)
      → IsHeld s st
      → IsSaved (run_triggers render ts records s st)
  unfolding run_triggers fire
  run_triggers-IsSaved render [] records s st h = (st, refl, h)
  run_triggers-IsSaved none (t ∷ ts) records s st h = run_triggers-IsSaved none ts records s st h
  run_triggers-IsSaved (some render) (t ∷ ts) records s st h =
      if_intro IsSaved (t.check s records) _ _
        (λ e. (
          write s.roast_instance_id (render (t.prompt s)) st,
          refl,
          (
            closes t.affects_phase s h.0,
            write-redis s.roast_instance_id (render (t.prompt s)) st ∙ h.1,
          ),
        ))
        (λ e. run_triggers-IsSaved (some render) ts records s st h)

  finish-IsSaved :
      (mode : Mode) (render : Option (Template → String)) (records : List ConversationRecord)
      (d : RoastState × Store × Option String)
      → IsHeld d.0 d.1
      → IsSaved (finish mode render records d)
  unfolding finish
  finish-IsSaved mode render records (s, st, some p) h =
      (write s.roast_instance_id p st, refl, (h.0, write-redis s.roast_instance_id p st ∙ h.1))
  finish-IsSaved mode render records (s, st, none) h =
      run_triggers-IsSaved render (triggers mode) records s st h

  prepared-IsHeld :
      (mode : Mode) (records : List ConversationRecord) (s : RoastState) (st : Store)
      → IsHeld s st
      → IsHeld (prepared mode records s) st
  unfolding update_state note_turn
  prepared-IsHeld roast_together records s st h = h
  prepared-IsHeld debate records s st h = noted (last_of (select (λ r. is_user r.role) records))
    where
      noted : (o : Option ConversationRecord) → IsHeld (note_turn o s) st
      noted none = h
      noted (some r) = h

  -- a turn of an active game ends with a save
  tick-IsSaved :
      (mode : Mode) (render : Option (Template → String)) (answer : Option Verdict)
      (records : List ConversationRecord) (s : RoastState) (st : Store)
      → s.phase ≡ active
      → IsHeld s st
      → IsSaved (tick mode render answer records s st)
  tick-IsSaved mode render answer records s st h own =
      let p = prepared mode records s in
      rw
        (
          tick-prepared mode render answer records s st,
          base_tick_busy mode render answer records p st
              (ap is_phase_active ((prepared_keeps mode records s).1 ∙ h)),
        )
        (finish-IsSaved mode render records
          (directed mode (direct (is_some render) answer) (bump p) st)
          (directed-IsHeld mode (direct (is_some render) answer) (bump p) st
            (prepared-IsHeld mode records s st own)))

  -- after it the user's session is the state of the turn
  tick-active :
      (mode : Mode) (render : Option (Template → String)) (answer : Option Verdict)
      (records : List ConversationRecord) (s : RoastState) (st : Store)
      → s.phase ≡ active
      → IsHeld s st
      → let (s', st', _) = tick mode render answer records s st in load_active user st' ≡ some s'
  unfolding save
  tick-active mode render answer records s st h own =
      let (before, saved, (mine, live)) = tick-IsSaved mode render answer records s st h own in
      let s' = (tick mode render answer records s st).0 in
      ap (load_active user) saved
      ∙ (save_history-active s' user (save_active s' before)
          ∙ subst (λ u. load_active u (save_active s' before) ≡ some s') mine
              (load_active-save_active s' before live))

-- the end of `_stream_roast`, with the state that was loaded before the reply: the store after the tick, if one starts
unfoldable pub after_reply :
    Option (Template → String)
    → Option Verdict
    → List ConversationRecord
    → RoastState
    → Store
    → Store
after_reply render answer records s st =
    if is_phase_active s.phase then (tick s.mode render answer records s st).1 else st

module _ (user reason again : String) (s : RoastState) (l : Ledger) (live : l.store.redis ≡ up)
    (named : str_eq user "" ≡ false) (found : load_active user l.store ≡ some s)
    (own : s.user_id ≡ user) (running : is_playing s.phase ≡ true) where
  abbrev settled_ledger : Ledger
  settled_ledger = settle_roast user reason s l

  again_over :
      mark_roast_complete user again settled_ledger ≡ (settled_ledger, already_over settled)
  again_over =
      over user again (settle_state s) (settle_roast user reason s l) named
        (settle_roast-active user reason s l live own) refl

  again_settles :
      (render : Option (Template → String)) (answer : Option Verdict)
      (records : List ConversationRecord)
      → s.phase ≡ active
      → let turn = tick s.mode render answer records s settled_ledger.store in
        (mark_roast_complete user again (record settled_ledger { store = turn.1 })).1
        ≡ completed_as again
  again_settles render answer records on =
      let turn = tick s.mode render answer records s settled_ledger.store in
      let back : load_active user turn.1 ≡ some turn.0 =
        tick-active user s.mode render answer records s settled_ledger.store on
          (own, settle_roast-redis user reason s l live) in
      let (_, _, _, ongoing) =
        tick-IsOngoing s.mode render answer records s settled_ledger.store on in
      ap (λ r. r.1)
        (played user again turn.0 (record settled_ledger { store = turn.1 }) named back
          (playing turn.0.phase ongoing))
    where
      playing : (p : Phase) → IsOngoing p → is_playing p ≡ true
      playing p (inl e) = rw e refl
      playing p (inr e) = rw e refl

  -- While Redis works, a running game of a user is settled by the first call of the tool, whatever its reason, and
  -- a call directly after it changes nothing and says that the game is settled. If the reply that made the first
  -- call ends before the second, with a game that was active when the reply began, then the turn that its end starts
  -- saves the state from before the settlement, and the second call settles the game once more.
  pub settled_unless_overtaken :
      (render : Option (Template → String)) (answer : Option Verdict)
      (records : List ConversationRecord)
      → let (l', outcome) = mark_roast_complete user reason l in
        let after = record l' { store = after_reply render answer records s l'.store } in
        (outcome ≡ completed_as reason)
        × (mark_roast_complete user again l' ≡ (l', already_over settled))
        × ((mark_roast_complete user again after).1
            ≡ (if is_phase_active s.phase then completed_as again else already_over settled))
  unfolding after_reply
  settled_unless_overtaken render answer records = rw (played user reason s l named found running) (
    refl,
    again_over,
    elim (Bool-cases (is_phase_active s.phase)) [
      | inl on ↦
          rw (after_reply, on) (again_settles render answer records (is_phase_active-≡ s.phase on))
      | inr off ↦ rw (after_reply, off) (ap (λ r. r.1) again_over)
    ],
  )
