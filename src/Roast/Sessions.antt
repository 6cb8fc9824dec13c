-- ===== src/Roast/Sessions.antt =====
-- What is kept of a session, and what is read back: the stored form, the pending prompt, and the start of
-- a new session.
use text.Mathlib.TextPositions.{eq_refl}
use pigugu_server.Common.{ℕ, ◌≡◌, refl, ◌∙◌, String, false, Option, none, some, arith, str_eq}
use pigugu_server.Common.Dict
use pigugu_server.Common.Dict.{Dict, get-put, get-pop}
use pigugu_server.Roast.State.{
  Mode, roast_together, debate, Phase, active, closing, settled, closed, mode_name, phase_name,
  read_mode, read_phase, Extra, RoastState, to_dict, from_dict,
}
use pigugu_server.Roast.Storage.{
  up, Store, save_active, load_active, delete_active, save_history, close_previous, start, write,
  consume, is_closed, HistoryRow, upsert, close,
}

read_mode-mode_name : (m : Mode) → read_mode (mode_name m) ≡ some m
unfolding read_mode mode_name
read_mode-mode_name roast_together = refl
read_mode-mode_name debate = refl

read_phase-phase_name : (p : Phase) → read_phase (phase_name p) ≡ some p
unfolding read_phase phase_name
read_phase-phase_name active = refl
read_phase-phase_name closing = refl
read_phase-phase_name settled = refl
read_phase-phase_name closed = refl

-- A state that is written to Redis is read back as it was.
pub from_dict-to_dict : (s : RoastState) → from_dict (to_dict s) ≡ some s
unfolding from_dict to_dict
from_dict-to_dict s = rw (read_mode-mode_name, read_phase-phase_name)

module _ (sid p : String) (st : Store) (live : st.redis ≡ up) where
  -- While Redis works, a prompt that is not empty and is written for a session is handed out once: the
  -- first read returns it, and the next one nothing.
  consume-write :
      str_eq p "" ≡ false
      → ((consume sid (write sid p st)).0 ≡ some p)
        × ((consume sid (consume sid (write sid p st)).1).0 ≡ none)
  unfolding consume write
  consume-write full = ground (
    arith,
    get-put st.pending sid sid p,
    get-pop (Dict.put st.pending sid p) sid sid,
    eq_refl sid,
  )

  -- A write leaves the prompts of other sessions as they are.
  consume-write_ne :
      (other : String)
      → str_eq sid other ≡ false
      → (consume other (write sid p st)).0 ≡ (consume other st).0
  unfolding consume write
  consume-write_ne other ne = ground (arith, get-put st.pending sid other p)

pub load_active-save_active :
    (s : RoastState) (st : Store)
    → st.redis ≡ up
    → load_active s.user_id (save_active s st) ≡ some s
unfolding load_active save_active
load_active-save_active s st live =
    rw live
      (rw (get-put st.sessions s.user_id s.user_id (to_dict s), eq_refl) (from_dict-to_dict s))

redis-close_previous :
    (user : String) (o : Option RoastState) (st : Store)
    → (close_previous user o st).redis ≡ st.redis
unfolding close_previous
redis-close_previous user none st = refl
redis-close_previous user (some prev) st = ground arith

load_active-delete_active :
    (user : String) (st : Store) → st.redis ≡ up → load_active user (delete_active user st) ≡ none
unfolding load_active delete_active
load_active-delete_active user st live = rw live (rw (get-pop st.sessions user user, eq_refl) refl)

redis-save_history : (s : RoastState) (st : Store) → (save_history s st).redis ≡ st.redis
unfolding save_history
redis-save_history s st = ground arith

history-delete_active : (user : String) (st : Store) → (delete_active user st).history ≡ st.history
unfolding delete_active
history-delete_active user st = ground arith

history-save_active : (s : RoastState) (st : Store) → (save_active s st).history ≡ st.history
unfolding save_active
history-save_active s st = ground arith

-- the row that the history has of a session after it was saved there
history-save_history :
    (s : RoastState) (st : Store)
    → st.pg ≡ up
    → (r : HistoryRow) × (Dict.get (save_history s st).history s.roast_instance_id ≡ some r)
      × (r.phase ≡ s.phase)
      × (r.turn_count ≡ s.turn_count)
unfolding save_history
history-save_history s st live = (
  upsert s (Dict.get st.history s.roast_instance_id),
  rw live (
      rw (
        get-put st.history s.roast_instance_id s.roast_instance_id
            (upsert s (Dict.get st.history s.roast_instance_id)),
        eq_refl,
      )),
  (kept (Dict.get st.history s.roast_instance_id)).0,
  (kept (Dict.get st.history s.roast_instance_id)).1,
)
  where
    kept :
        (o : Option HistoryRow)
        → ((upsert s o).phase ≡ s.phase) × ((upsert s o).turn_count ≡ s.turn_count)
    kept none = (refl, refl)
    kept (some r) = (refl, refl)

history-close_previous :
    (user : String) (prev : RoastState) (st : Store)
    → st.pg ≡ up
    → is_closed prev.phase ≡ false
    → (r : HistoryRow) × (Dict.get
          (close_previous user (some prev) st).history
          prev.roast_instance_id
        ≡ some r)
      × (r.phase ≡ closed)
      × (r.turn_count ≡ prev.turn_count)
unfolding close_previous
history-close_previous user prev st live busy =
    rw busy
      (rw history-delete_active (history-save_history (record prev { phase = closed }) st live))

module _ (user : String) (persona : ℕ) (roast : String) (mode : Mode) (extra : Option Extra)
    (sid : String) (now : ℕ) (st : Store) (live : st.redis ≡ up) where
  -- While Redis works, the session that a start returns is active, at turn 0 and of the given mode, and
  -- it is the one that is loaded for the user afterwards.
  pub load_active-start :
      let (s, st') = start user persona roast mode extra sid now st in
      (load_active user st' ≡ some s) × (s.phase ≡ active) × (s.turn_count ≡ 0) × (s.mode ≡ mode)
  unfolding start
  load_active-start = (
    load_active-save_active (start user persona roast mode extra sid now st).0
        (close_previous user (load_active user st) st)
        (redis-close_previous user (load_active user st) st ∙ live),
    refl,
    refl,
    refl,
  )

  -- While Redis and PostgreSQL work, a start leaves the user's earlier session, if it was loaded and not
  -- closed, in the history as closed, with its turns.
  pub start_closes_previous :
      (prev : RoastState)
      → st.pg ≡ up
      → load_active user st ≡ some prev
      → is_closed prev.phase ≡ false
      → let (s, st') = start user persona roast mode extra sid now st in
        (r : HistoryRow) × (Dict.get st'.history prev.roast_instance_id ≡ some r)
        × (r.phase ≡ closed)
        × (r.turn_count ≡ prev.turn_count)
  unfolding start
  start_closes_previous prev pg_live loaded busy =
      rw (history-save_active, loaded) (history-close_previous user prev st pg_live busy)

-- While Redis and PostgreSQL work, a session that is closed is no longer the active one of its user, and
-- the history has it as closed, with its turns.
pub load_active-close :
    (s : RoastState) (st : Store)
    → st.redis ≡ up
    → st.pg ≡ up
    → let (s', st') = close s st in
      (s'.phase ≡ closed)
      × (load_active s.user_id st' ≡ none)
      × ((r : HistoryRow) × (Dict.get st'.history s.roast_instance_id ≡ some r)
          × (r.phase ≡ closed)
          × (r.turn_count ≡ s.turn_count))
unfolding close
load_active-close s st live pg_live = (
  refl,
  load_active-delete_active s.user_id (save_history (record s { phase = closed }) st)
      (redis-save_history (record s { phase = closed }) st ∙ live),
  rw history-delete_active (history-save_history (record s { phase = closed }) st pg_live),
)
