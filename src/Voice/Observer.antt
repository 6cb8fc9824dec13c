-- ===== src/Voice/Observer.antt =====
-- The observer of the turns: `PiguguTurnStorageObserver` of pigagent/voice/pipecat/turn_storage_observer.py, with
-- the fields of `PiguguTurnState` that it reads or writes. The telemetry is left out.
use pigugu_server.Common.{
  ℕ, ◌+◌, Bool, true, false, not, ◌&&◌, ◌||◌, Option, none, some, List, [], ◌∷◌, ◌++◌,
  if◌then◌else◌, ◌==◌, leb, take_last, length,
}
use pigugu_server.Voice.Silero.{Vad}
use pigugu_server.Voice.Turn.{TurnStorage, TurnType, new_storage, set_user_pcm}

-- _AUDIO_BUF_CAP: ten minutes
abbrev pub audio_buf_cap : ℕ
audio_buf_cap = 19200000

-- what the processors of a session share
pub record TurnState : Type 0 where
  pub client_is_speaking : Bool
  pub turn_type : TurnType
  pub turn_storage : Option ℕ
  pub device_playback_ms : ℕ
  pub current_sentence_id : ℕ

-- the observer's own state; a storage is named by its turn_idx
pub record Observer : Type 0 where
  pub enabled : Bool
  -- whether the environment names a bucket and a database
  pub configured : Bool
  pub turn_idx : ℕ
  pub open_storage : Option ℕ
  pub turn_buf : List ℕ
  pub gap_buf : List ℕ
  pub turn_start_ms : ℕ
  pub voice_chunk_start : ℕ
  pub pending_turn_start_ms : ℕ
  pub pending_voice_chunk_start : ℕ
  pub last_speaking : Bool
  pub user_turn_active : Bool
  pub saw_text : Bool
  pub stt_final_marked : Bool

unfoldable pub new_observer : Bool → Bool → ℕ → Observer
new_observer enabled configured now = record {
  enabled = enabled;
  configured = configured;
  turn_idx = 0;
  open_storage = none;
  turn_buf = [];
  gap_buf = [];
  turn_start_ms = now;
  voice_chunk_start = 0;
  pending_turn_start_ms = now;
  pending_voice_chunk_start = 0;
  last_speaking = false;
  user_turn_active = false;
  saw_text = false;
  stt_final_marked = false;
}

abbrev pub is_empty : List ℕ → Bool
is_empty [] = true
is_empty (x ∷ xs) = false

abbrev pub apply_turn_window_start : Observer → Observer
apply_turn_window_start o =
    if is_empty o.turn_buf
    then record o {
      turn_start_ms = o.pending_turn_start_ms;
      voice_chunk_start = o.pending_voice_chunk_start;
    }
    else o

abbrev pub reset_transcript_flags : Observer → Observer
reset_transcript_flags o = record o { saw_text = false; stt_final_marked = false }

unfoldable pub begin_turn_window : Observer → Observer
begin_turn_window o = reset_transcript_flags (apply_turn_window_start o)

-- the first sound of a window
unfoldable pub open_window : Observer → Observer
open_window o =
    let o' = apply_turn_window_start o in
    if is_empty o.turn_buf
    then (if o.user_turn_active then o' else reset_transcript_flags o')
    else o

unfoldable pub append_turn : List ℕ → Observer → Observer
unfolding open_window
append_turn pcm o =
    let o' = open_window o in record o' { turn_buf = take_last audio_buf_cap (o'.turn_buf ++ pcm) }

unfoldable pub append_gap : List ℕ → Observer → Observer
append_gap pcm o = record o { gap_buf = take_last audio_buf_cap (o.gap_buf ++ pcm) }

-- the edges of a reply, at a sound
unfoldable pub reply_edge : ℕ → Vad → Bool → Observer → Observer
reply_edge now vad speaking o =
    if speaking && not o.last_speaking
    then (if not (is_empty o.turn_buf) && not o.user_turn_active
        then record o { gap_buf = o.gap_buf ++ o.turn_buf; turn_buf = [] }
        else o)
    else if o.last_speaking && not speaking
    then record o { pending_turn_start_ms = now; pending_voice_chunk_start = length vad.flags }
    else o

unfoldable pub route_audio : ℕ → Vad → Bool → List ℕ → Observer → Observer
unfolding reply_edge append_turn append_gap
route_audio now vad speaking pcm o =
    let o' = record (reply_edge now vad speaking o) { last_speaking = speaking } in
    if speaking then append_gap pcm o' else append_turn pcm o'

-- process_frame at a transcription that is not blank
unfoldable pub on_transcription : Observer → Observer
on_transcription o = record o { saw_text = true; stt_final_marked = true }

unfoldable pub on_user_started : Observer → Observer
on_user_started o = record o { user_turn_active = true }

-- a stop without a transcript
unfoldable pub drop_turn : Observer → Observer
drop_turn o = record o { gap_buf = []; user_turn_active = false }

-- a stop with a transcript: the buffers are reset, and the next window may start here
unfoldable pub end_window : ℕ → Vad → Observer → Observer
end_window now vad o =
    let len = length vad.flags in
    record o {
      gap_buf = [];
      turn_buf = [];
      pending_turn_start_ms = now;
      pending_voice_chunk_start = len;
      user_turn_active = false;
      turn_start_ms = if is_empty o.turn_buf then now else o.turn_start_ms;
      voice_chunk_start = if is_empty o.turn_buf then len else o.voice_chunk_start;
    }

-- _make_storage, and the user's sound put into it
unfoldable pub make_storage : ℕ → Vad → TurnType → List ℕ → Observer → TurnStorage
unfolding new_storage set_user_pcm
make_storage now vad type pcm o =
    set_user_pcm pcm
      (new_storage (o.turn_idx + 1) type now o.turn_start_ms o.voice_chunk_start (length vad.flags))

-- the ack of a device: the time of its playback, and the sentence it names, if it names one
unfoldable pub on_tts_played : ℕ → Option ℕ → TurnState → TurnState
on_tts_played ms sid st =
    let taken = if leb ms 0 then st else record st { device_playback_ms = ms } in
    elim sid [
      | none ↦ taken
      | some played ↦
          if st.current_sentence_id == 0 || not (played == st.current_sentence_id)
          then st
          else taken
    ]
