-- ===== src/Voice/Steps.antt =====
-- What happens in a session, one event after another, in any order: the frames and messages of
-- pigagent/voice/pipecat/turn_storage_observer.py, the marks of the speech output, and the tasks.
use pigugu_server.Common.{ℕ, String, Bool, Option, List, [], ◌∷◌, if◌then◌else◌}
use pigugu_server.Voice.Interims.{InterimBuffer}
use pigugu_server.Voice.Silero.{log_flag}
use pigugu_server.Voice.Turn.{
  TurnStorage, mark_finalized, mark_stt_final, mark_stt_abandoned, mark_tts_complete, Outside,
}
use pigugu_server.Voice.Observer.{
  Observer, route_audio, on_transcription, on_user_started, begin_turn_window, on_tts_played,
}
use pigugu_server.Voice.Session.{
  World, put, begin_bare_wake_turn, on_user_stopped, commit_on_finalize, close_storage,
  finalize_session, finalize_ended, run_commit,
}

-- what can happen in a session, in any order
pub data TurnEvent : Type 0 where
  audio : ℕ → List ℕ → TurnEvent
  voice_chunk : ℕ → Bool → TurnEvent
  transcription user_started listen_start session_end : TurnEvent
  user_stopped bare_wake : ℕ → TurnEvent
  tts_played : ℕ → Option ℕ → TurnEvent
  -- the marks of the speech output
  speaks : Bool → TurnEvent
  sentence : ℕ → TurnEvent
  stt_final : ℕ → String → TurnEvent
  stt_abandoned finalized : ℕ → TurnEvent
  tts_complete : ℕ → String → Bool → String → TurnEvent
  -- the tasks
  waiter closer ender : ℕ → TurnEvent
  committer : ℕ → ℕ → Outside → TurnEvent

abbrev pub observe : (Observer → Observer) → World → World
observe f w = record w { observer = f w.observer }

abbrev pub mark : ℕ → TurnStorage × InterimBuffer → World → World
mark i r w = record w { storages = put i r.0 w.storages; interims = r.1 }

unfoldable pub turn_step : TurnEvent → World → World
unfolding put route_audio on_transcription on_user_started begin_turn_window on_user_stopped
    begin_bare_wake_turn on_tts_played mark_stt_final mark_stt_abandoned mark_finalized
    mark_tts_complete log_flag commit_on_finalize close_storage finalize_session finalize_ended
    run_commit
turn_step (audio now pcm) w =
    let heard = observe (λ o. route_audio now w.vad w.state.client_is_speaking pcm o) w in
    if w.observer.enabled then heard else w
turn_step (voice_chunk maximum is_voice) w = record w { vad = log_flag maximum is_voice w.vad }
turn_step transcription w = observe on_transcription w
turn_step user_started w = observe on_user_started w
turn_step listen_start w = observe begin_turn_window w
turn_step session_end w = finalize_session w
turn_step (user_stopped now) w = on_user_stopped now w
turn_step (bare_wake now) w = begin_bare_wake_turn now w
turn_step (tts_played ms sid) w = record w { state = on_tts_played ms sid w.state }
turn_step (speaks b) w = record w { state = record w.state { client_is_speaking = b } }
turn_step (sentence n) w = record w { state = record w.state { current_sentence_id = n } }
turn_step (stt_final i text) w = mark i (mark_stt_final text w.interims (w.storages i)) w
turn_step (stt_abandoned i) w = mark i (mark_stt_abandoned w.interims (w.storages i)) w
turn_step (finalized i) w = mark i (mark_finalized (w.storages i), w.interims) w
turn_step (tts_complete i text ok reason) w =
    mark i (mark_tts_complete text ok reason (w.storages i), w.interims) w
turn_step (waiter i) w = commit_on_finalize i w
turn_step (closer i) w = close_storage i w
turn_step (ender i) w = finalize_ended i w
turn_step (committer now i out) w = run_commit now i out w

unfoldable pub run_turns : List TurnEvent → World → World
unfolding turn_step
run_turns [] w = w
run_turns (e ∷ es) w = run_turns es (turn_step e w)
