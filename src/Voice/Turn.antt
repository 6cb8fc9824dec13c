-- ===== src/Voice/Turn.antt =====
-- The record of one turn: `TurnStorage` of pigagent/voice/storage.py. The sound is a list of bytes; texts that
-- are stripped are lists of code points. What the sidecar files hold besides is left out.
use pigugu_server.Common.{
  ℕ, String, Bool, true, false, ◌||◌, List, [], ◌∷◌, if◌then◌else◌, str_eq, ◌-◌, min, length, drop,
  take,
}
use pigugu_server.Common.Text.{codes, strip, codes_eq}
use pigugu_server.Voice.Silero.{Vad}
use pigugu_server.Voice.Interims.{InterimBuffer, drain}
use pigugu_server.Voice.Segments.{VoiceSegment, compute_voice_segments}

pub data SttStatus : Type 0 where
  stt_unset stt_final no_stt abandoned : SttStatus

pub data TtsStatus : Type 0 where
  tts_unset tts_empty complete aborted interrupted : TtsStatus

pub data TurnType : Type 0 where
  follow_up wake_word : TurnType

pub record TurnStorage : Type 0 where
  pub turn_idx : ℕ
  pub turn_type : TurnType
  pub utc_start_ms : ℕ
  pub audio_start_ms : ℕ
  pub utc_end_ms : ℕ
  pub user_pcm : List ℕ
  pub listen_pcm : List ℕ
  pub stt_text : List ℕ
  pub stt_status : SttStatus
  pub stt_interims : List String
  pub abandoned_stts : List String
  pub tts_text : List ℕ
  pub tts_status : TtsStatus
  pub tts_truncated_reason : String
  -- the window of the chunk flags
  pub start_idx : ℕ
  pub end_idx : ℕ
  pub voice_segments : List VoiceSegment
  pub finalized : Bool
  pub commit_started : Bool
  pub committed : Bool

unfoldable pub new_storage : ℕ → TurnType → ℕ → ℕ → ℕ → ℕ → TurnStorage
new_storage idx type now audio_start start_idx end_idx = record {
  turn_idx = idx;
  turn_type = type;
  utc_start_ms = now;
  audio_start_ms = audio_start;
  utc_end_ms = now;
  user_pcm = [];
  listen_pcm = [];
  stt_text = [];
  stt_status = stt_unset;
  stt_interims = [];
  abandoned_stts = [];
  tts_text = [];
  tts_status = tts_unset;
  tts_truncated_reason = "";
  start_idx = start_idx;
  end_idx = end_idx;
  voice_segments = [];
  finalized = false;
  commit_started = false;
  committed = false;
}

unfoldable pub set_user_pcm : List ℕ → TurnStorage → TurnStorage
set_user_pcm pcm s = record s { user_pcm = pcm }

unfoldable pub set_listen_pcm : List ℕ → TurnStorage → TurnStorage
set_listen_pcm pcm s = record s { listen_pcm = pcm }

unfoldable pub mark_finalized : TurnStorage → TurnStorage
mark_finalized s = record s { finalized = true }

-- the interims go to the text that they led to, or are abandoned where there is none
unfoldable pub mark_stt_final : String → InterimBuffer → TurnStorage → TurnStorage × InterimBuffer
unfolding drain
mark_stt_final text b s =
    let t = strip (codes text) in
    let (xs, b') = drain b in
    if codes_eq t []
    then (record s { stt_text = t; stt_status = no_stt; abandoned_stts = xs }, b')
    else (record s { stt_text = t; stt_status = stt_final; stt_interims = xs }, b')

unfoldable pub mark_stt_abandoned : InterimBuffer → TurnStorage → TurnStorage × InterimBuffer
unfolding drain
mark_stt_abandoned b s =
    let (xs, b') = drain b in (record s { stt_status = abandoned; abandoned_stts = xs }, b')

abbrev pub tts_status_of : Bool → String → TtsStatus
tts_status_of true reason = if str_eq reason "" then complete else aborted
tts_status_of false reason = interrupted

unfoldable pub mark_tts_complete : String → Bool → String → TurnStorage → TurnStorage
mark_tts_complete text ok reason s =
    let t = strip (codes text) in
    record s {
      tts_text = t;
      tts_status = if codes_eq t [] then tts_empty else tts_status_of ok reason;
      tts_truncated_reason = if str_eq reason "" then s.tts_truncated_reason else reason;
    }

-- the files of a turn, in the order of their upload
abbrev pub file_names : List String
file_names = "input.wav" ∷ "input.json" ∷ "tts.wav" ∷ "tts.json" ∷ "listen.wav" ∷ "turn.json" ∷ []

-- what the outside does at a commit: whether the payloads are built, each upload succeeds, and the row is taken
pub record Outside : Type 0 where
  pub builds : Bool
  pub uploads : String → Bool
  pub inserts : Bool

-- _s3_upload_all: the files that were put, and whether all were
unfoldable pub s3_upload_all : (String → Bool) → List String → List String × Bool
s3_upload_all ok [] = ([], true)
s3_upload_all ok (f ∷ fs) =
    let rest = s3_upload_all ok fs in
    let put : List String × Bool = (f ∷ rest.0, rest.1) in if ok f then put else ([], false)

-- what a commit leaves in the stores: the files, and whether there is a row
pub record Stored : Type 0 where
  pub files : List String
  pub row : Bool

abbrev pub nothing_stored : Stored
nothing_stored = record { files = []; row = false }

-- after the uploads
unfoldable pub insert_turn : Outside → List String × Bool → TurnStorage → TurnStorage × Stored
insert_turn out (files, true) s =
    (record s { committed = true }, record { files = files; row = out.inserts })
insert_turn out (files, false) s = (s, record { files = files; row = false })

-- _voice_chunk_flags_slice: the flags between two positions that count the trimmed ones
unfoldable pub voice_chunk_flags_slice : Vad → ℕ → ℕ → List Bool
voice_chunk_flags_slice v start_idx end_idx =
    let lo = start_idx - v.trimmed in
    let hi = min (end_idx - v.trimmed) (length v.flags) in take (hi - lo) (drop lo v.flags)

-- TurnStorage.commit up to the payloads
abbrev pub begin_commit : ℕ → Vad → TurnStorage → TurnStorage
begin_commit now vad s = record s {
  commit_started = true;
  utc_end_ms = now;
  voice_segments = compute_voice_segments (voice_chunk_flags_slice vad s.start_idx s.end_idx) 32 10;
}

-- TurnStorage.commit
unfoldable pub commit : ℕ → Outside → Vad → TurnStorage → TurnStorage × Stored
unfolding insert_turn
commit now out vad s =
    let t = begin_commit now vad s in
    let stored = insert_turn out (s3_upload_all out.uploads file_names) t in
    if s.committed || s.commit_started
    then (s, nothing_stored)
    else if out.builds
    then stored
    else (t, nothing_stored)
