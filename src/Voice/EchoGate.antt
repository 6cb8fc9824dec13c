-- ===== src/Voice/EchoGate.antt =====
-- The bridge of the detector: `PiguguVadBridge` of pigagent/voice/pipecat/vad_bridge.py, whose verdict the echo gate
-- reads. Times are whole milliseconds of one clock,
-- and there is a detector.
use pigugu_server.Common.{
  ℕ, ◌-◌, String, Bool, true, false, Option, some, List, if◌then◌else◌, leb, ltb,
}
use pigugu_server.Common.Int.{ℤ, pos, sub_ℕ}
use pigugu_server.Voice.Silero.{Vad, VadConfig, is_vad}
use pigugu_server.Voice.Turn.{TurnType, wake_word}

-- the bridge, with the fields of the shared state that it writes
pub record VadBridge : Type 0 where
  pub vad : Vad
  -- whether the detector has published a verdict
  pub published : Bool
  pub vad_wired : Bool
  pub last_voice : ℕ
  pub vad_voice_active : Bool
  pub turn_type : TurnType
  pub wake_text : String
  pub vad_end_mark : Option ℤ
  pub server_received_vad_at : Option ℕ

-- a verdict is held for `hold` milliseconds after the last chunk with voice
unfoldable pub publish_verdict : ℕ → ℕ → Bool → VadBridge → VadBridge
publish_verdict hold now is_voice b =
    let last = if is_voice then now else b.last_voice in
    record b { last_voice = last; vad_voice_active = leb (now - last) hold }

abbrev pub clear_stop : VadBridge → VadBridge
clear_stop b = record b { vad = record b.vad { voice_stop = false } }

-- the verdict of a frame, where the detector has one
unfoldable pub take_verdict : ℕ → ℕ → VadBridge → VadBridge
unfolding publish_verdict
take_verdict hold now b =
    if b.published
    then publish_verdict hold now b.vad.last_is_voice b
    else record b { vad_wired = false }

module _ {Network : Type 0} (process : Network → List ℕ → Option (ℕ × Network)) where
  -- a detector in its automatic mode publishes its verdict from its first call on
  unfoldable pub on_audio : VadConfig → ℕ → ℕ → Network → List ℕ → VadBridge → VadBridge × Network
  unfolding is_vad take_verdict
  on_audio c hold now net pcm b =
      let (v, net', heard) = is_vad process c now net pcm b.vad in
      let seen = record b { vad = v; published = if v.manual then b.published else true } in
      (clear_stop (take_verdict hold now seen), net')

abbrev pub reset_voice : VadBridge → VadBridge
reset_voice b = record b { vad = record b.vad { have_voice = false; voice_stop = false } }

pub data Listen : Type 0 where
  listen_start listen_stop : Listen
  detect : String → Listen
  vad_silence : ℕ → Listen

-- the end of the user's voice, from its age
unfoldable pub on_vad_silence : ℕ → ℕ → VadBridge → VadBridge
on_vad_silence now age b = record b {
  vad_end_mark = some (if ltb 0 age then sub_ℕ now age else pos now);
  server_received_vad_at = some now;
}

unfoldable pub on_control : ℕ → Listen → VadBridge → VadBridge
unfolding on_vad_silence
on_control now listen_start b = b
on_control now listen_stop b = reset_voice b
on_control now (detect text) b = record (reset_voice b) { turn_type = wake_word; wake_text = text }
on_control now (vad_silence age) b = on_vad_silence now age b
