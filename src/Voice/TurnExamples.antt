-- ===== src/Voice/TurnExamples.antt =====
-- A short session, and the theorems about the turns at it.
use pigugu_server.Common.{
  ℕ, ◌≤◌, ◌<◌, ◌≡◌, refl, sym, Bool, true, false, Option, some, List, [], ◌∷◌, arith, length, any,
  none,
}
use mathlib.Core.Bool.{false≢true}
use mathlib.Core.Option.{none-ne-some}
use pigugu_server.Voice.Silero.{VadConfig, new_vad, is_vad}
use pigugu_server.Voice.Turn.{
  TurnStorage, Outside, commit, insert_turn, s3_upload_all, new_storage, follow_up, file_names,
}
use pigugu_server.Voice.Session.{new_world}
use pigugu_server.Voice.Steps.{
  TurnEvent, run_turns, turn_step, audio, transcription, user_stopped, speaks, finalized,
  tts_complete, waiter, committer,
}
use pigugu_server.Voice.EchoGate.{VadBridge}
use pigugu_server.Voice.Held.{publish_all, is_recent, voice_is_held}
use pigugu_server.Voice.Observer.{new_observer, make_storage}
use pigugu_server.Voice.Chunks.{log_flags, segments_lost_after_trims, IsBounded, is_vad_consumes}
use pigugu_server.Voice.Commit.{row_after_files}
use pigugu_server.Voice.Owners.{IsOwned, occ_done}
use pigugu_server.Voice.Committed.{one_owner, committed_once}
use pigugu_server.Voice.Sounds.{IsClean, input_without_replies}

abbrev all_works : Outside
all_works = record { builds = true; uploads = λ f. true; inserts = true }

-- a reply sounds, the user speaks, the turn opens, its reply ends, and it is committed
abbrev a_session : List TurnEvent
a_session =
    speaks true
    ∷ audio 1 (99 ∷ [])
    ∷ speaks false
    ∷ audio 2 (7 ∷ 8 ∷ [])
    ∷ transcription
    ∷ user_stopped 3
    ∷ tts_complete 1 "ok" true ""
    ∷ finalized 1
    ∷ waiter 1
    ∷ committer 9 1 all_works
    ∷ []

abbrev a_storage : TurnStorage
a_storage = record (new_storage 1 follow_up 0 0 0 3) { user_pcm = 7 ∷ [] }

one_owner_example : IsOwned (run_turns a_session (new_world true true 0))
one_owner_example = one_owner true true 0 a_session

committed_once_example : occ_done 1 (run_turns a_session (new_world true true 0)).done ≡ 1
unfolding run_turns new_world turn_step
committed_once_example =
    committed_once true true 0 a_session 1 (refl, refl, refl, refl) (omega arith) (omega arith)

input_without_replies_example : IsClean (λ b. b ≤ 9) (run_turns a_session (new_world true true 0))
unfolding turn_step new_world
input_without_replies_example =
    input_without_replies (λ b. b ≤ 9) true true 0 a_session
      (
        (λ e. tt),
        (
          (λ e. absurd (false≢true (sym e))),
          (
            (λ e. tt),
            (
              (λ e. (omega arith, (omega arith, tt))),
              ((λ e. tt), ((λ e. tt), ((λ e. tt), ((λ e. tt), ((λ e. tt), ((λ e. tt), tt)))))),
            ),
          ),
        ),
      )

row_after_files_example :
    ((commit 5 all_works new_vad a_storage).1.files ≡ file_names)
    × (a_storage.commit_started ≡ false)
unfolding commit s3_upload_all insert_turn new_storage
row_after_files_example = row_after_files 5 all_works new_vad a_storage refl

abbrev twenty : List Bool
twenty =
    true ∷ true ∷ true ∷ true ∷ true ∷ true ∷ true ∷ true ∷ true ∷ true ∷ true ∷ true ∷ true ∷ true
    ∷ true ∷ true ∷ true ∷ true ∷ true ∷ true ∷ []

segments_lost_after_trims_example :
    let v = log_flags 10 twenty new_vad in
    let turn = make_storage 3 v follow_up (1 ∷ []) (new_observer true true 0) in
    (commit 5 all_works (log_flags 10 (true ∷ []) v) turn).0.voice_segments ≡ []
segments_lost_after_trims_example =
    segments_lost_after_trims 10 twenty (true ∷ []) (new_observer true true 0) follow_up (1 ∷ []) 3
      5 all_works (omega arith) (omega arith)

abbrev a_config : VadConfig
a_config = record {
  vad_threshold = 50;
  vad_threshold_low = 20;
  frame_window_size = 5;
  frame_window_threshold = 3;
  silence_threshold_ms = 700;
  chunk_bytes = 2;
  voice_chunk_flags_max = 10;
}

-- a network that calls every chunk a voice
abbrev certain : ℕ → List ℕ → Option (ℕ × ℕ)
certain net chunk = some (90, net)

is_vad_consumes_example :
    let v = (is_vad certain a_config 4 0 (1 ∷ 2 ∷ 3 ∷ 4 ∷ 5 ∷ []) new_vad).0 in
    (length v.pcm_buffer < 2) × IsBounded a_config v
unfolding is_vad
is_vad_consumes_example =
    is_vad_consumes certain a_config 4 0 (1 ∷ 2 ∷ 3 ∷ 4 ∷ 5 ∷ []) new_vad
      (λ net chunk e. none-ne-some (90, net) (sym e)) (omega arith) (omega arith) refl
      (omega arith, omega arith)

abbrev a_bridge : VadBridge
a_bridge = record {
  vad = new_vad;
  published = true;
  vad_wired = true;
  last_voice = 0;
  vad_voice_active = false;
  turn_type = follow_up;
  wake_text = "";
  vad_end_mark = none;
  server_received_vad_at = none;
}

voice_is_held_example :
    (publish_all 500 ((1400, false) ∷ (1000, true) ∷ []) a_bridge).vad_voice_active
    ≡ any (is_recent 500 1400) ((1400, false) ∷ (1000, true) ∷ [])
voice_is_held_example =
    voice_is_held 500 1400 false ((1000, true) ∷ []) a_bridge refl (omega arith)
      ((omega arith, tt), (tt, tt))
