-- ===== src/Voice/Session.antt =====
-- A session's turns and the tasks that commit them: the storages, the open slot, the closes and commits that are
-- under way (pigagent/voice/pipecat/turn_storage_observer.py). A storage is shared between the observer and the
-- bridge of the speech output, whose marks are events here.
use pigugu_server.Common.{
  ℕ, ◌+◌, Bool, false, ◌&&◌, ◌||◌, Option, none, some, List, [], ◌∷◌, ◌++◌, if◌then◌else◌, ◌==◌,
}
use pigugu_server.Voice.Interims.{InterimBuffer, empty_buffer}
use pigugu_server.Voice.Silero.{new_vad, Vad}
use pigugu_server.Voice.Turn.{
  TurnStorage, new_storage, TurnType, follow_up, wake_word, set_listen_pcm, mark_finalized,
  mark_stt_final, mark_tts_complete, Outside, Stored, commit,
}
use pigugu_server.Voice.Observer.{
  new_observer, TurnState, Observer, drop_turn, end_window, make_storage,
}

pub record World : Type 0 where
  pub observer : Observer
  pub state : TurnState
  pub vad : Vad
  pub interims : InterimBuffer
  -- the storages by turn_idx
  pub storages : ℕ → TurnStorage
  -- _close_storage tasks, finalize_session calls that wait, commits to come, and commits that ran
  pub closing : List ℕ
  pub ending : List ℕ
  pub scheduled : List ℕ
  pub done : List (ℕ × Stored)

-- a session begins
unfoldable pub new_world : Bool → Bool → ℕ → World
unfolding new_observer new_storage empty_buffer
new_world enabled configured now = record {
  observer = new_observer enabled configured now;
  state = record {
    client_is_speaking = false;
    turn_type = follow_up;
    turn_storage = none;
    device_playback_ms = 0;
    current_sentence_id = 0;
  };
  vad = new_vad;
  interims = empty_buffer 1024;
  storages = λ i. new_storage i follow_up 0 0 0 0;
  closing = [];
  ending = [];
  scheduled = [];
  done = [];
}

unfoldable pub put : ℕ → TurnStorage → (ℕ → TurnStorage) → ℕ → TurnStorage
put i s f j = if j == i then s else f j

unfoldable pub remove : ℕ → List ℕ → List ℕ
remove i [] = []
remove i (j ∷ js) = let rest = remove i js in if j == i then js else j ∷ rest

unfoldable pub contains : ℕ → List ℕ → Bool
contains i [] = false
contains i (j ∷ js) = j == i || contains i js

-- the turn in the slot goes to a task that closes it
unfoldable pub release_slot : Option ℕ → World → World
unfolding put set_listen_pcm
release_slot none w = w
release_slot (some i) w = record w {
  observer = record w.observer { open_storage = none };
  storages = put i (set_listen_pcm w.observer.gap_buf (w.storages i)) w.storages;
  closing = i ∷ w.closing;
}

-- _sweep_open_storage
unfoldable pub sweep_open_storage : World → World
unfolding release_slot
sweep_open_storage w = release_slot w.observer.open_storage w

-- a new turn takes the slot
unfoldable pub open_turn : ℕ → TurnType → List ℕ → World → World
unfolding put make_storage
open_turn now type pcm w =
    let o = w.observer in
    let i = o.turn_idx + 1 in
    record w {
      observer = record o { turn_idx = i; open_storage = some i };
      state = record w.state { turn_storage = some i };
      storages = put i (make_storage now w.vad type pcm o) w.storages;
    }

unfoldable pub begin_bare_wake_turn : ℕ → World → World
unfolding open_turn sweep_open_storage
begin_bare_wake_turn now w =
    let swept = sweep_open_storage w in
    if w.observer.enabled
    then (if w.observer.configured then open_turn now wake_word [] swept else swept)
    else w

abbrev pub to_follow_up : World → World
to_follow_up w = record w { state = record w.state { turn_type = follow_up } }

-- the resets after a turn has opened
abbrev pub settle_turn : World → World
settle_turn w = record w {
  observer = record w.observer { saw_text = false; stt_final_marked = false };
  state = record w.state { turn_type = follow_up; device_playback_ms = 0; current_sentence_id = 0 };
}

unfoldable pub on_user_stopped : ℕ → World → World
unfolding sweep_open_storage open_turn drop_turn end_window
on_user_stopped now w =
    let swept = sweep_open_storage w in
    let dropped = record swept { observer = drop_turn swept.observer } in
    let ended = record swept { observer = end_window now w.vad swept.observer } in
    let opened = settle_turn (open_turn now w.state.turn_type w.observer.turn_buf ended) in
    if w.observer.saw_text
    then (if w.observer.enabled && w.observer.configured then opened else to_follow_up ended)
    else dropped

unfoldable pub commit_open : Option ℕ → ℕ → World → World
unfolding put set_listen_pcm
commit_open none i w = w
commit_open (some j) i w =
    let committed = record w {
      observer = record w.observer { open_storage = none };
      storages = put i (set_listen_pcm w.observer.gap_buf (w.storages i)) w.storages;
      scheduled = i ∷ w.scheduled;
    } in
    if j == i && (w.storages i).finalized then committed else w

-- _commit_on_finalize, where its event is set
unfoldable pub commit_on_finalize : ℕ → World → World
unfolding commit_open
commit_on_finalize i w = commit_open w.observer.open_storage i w

abbrev pub has_begun : TurnStorage → Bool
has_begun s = s.commit_started || s.committed

-- _close_storage, from its wait to its end: the bridge finalized the turn, or the wait ran out. Its guard, which the
-- code reads before the wait, is read after it here
unfoldable pub close_storage : ℕ → World → World
unfolding put remove mark_finalized contains
close_storage i w =
    let left = record w { closing = remove i w.closing } in
    let closed = record left {
      storages = put i (mark_finalized (w.storages i)) w.storages;
      scheduled = i ∷ w.scheduled;
    } in
    if contains i w.closing then (if has_begun (w.storages i) then left else closed) else w

unfoldable pub finalize_open : Option ℕ → World → World
finalize_open none w = w
finalize_open (some i) w =
    if has_begun (w.storages i)
    then w
    else record w { observer = record w.observer { open_storage = none }; ending = i ∷ w.ending }

-- finalize_session, up to its wait
unfoldable pub finalize_session : World → World
unfolding finalize_open
finalize_session w = finalize_open w.observer.open_storage w

-- a turn that the bridge never finalized, marked at the end of the session
unfoldable pub mark_disconnect : InterimBuffer → TurnStorage → TurnStorage × InterimBuffer
unfolding mark_stt_final mark_tts_complete mark_finalized
mark_disconnect b s =
    let (t, b') = mark_stt_final "" b s in
    if s.finalized then (s, b) else (mark_finalized (mark_tts_complete "" false "disconnect" t), b')

-- finalize_session, after its wait
unfoldable pub finalize_ended : ℕ → World → World
unfolding put remove contains mark_disconnect set_listen_pcm
finalize_ended i w =
    let (s, b) = mark_disconnect w.interims (w.storages i) in
    let tail = w.observer.gap_buf ++ w.observer.turn_buf in
    if contains i w.ending
    then record w {
      interims = b;
      storages = put i (set_listen_pcm tail s) w.storages;
      ending = remove i w.ending;
      scheduled = i ∷ w.scheduled;
    }
    else w

-- a commit that was scheduled runs
unfoldable pub run_commit : ℕ → ℕ → Outside → World → World
unfolding put remove contains commit
run_commit now i out w =
    let (s, stored) = commit now out w.vad (w.storages i) in
    if contains i w.scheduled
    then record w {
      storages = put i s w.storages;
      scheduled = remove i w.scheduled;
      done = (i, stored) ∷ w.done;
    }
    else w
