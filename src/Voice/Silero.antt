-- ===== src/Voice/Silero.antt =====
-- The voice detector: `SileroVAD.is_vad` of pigagent/providers/vad/silero.py, on the state that it keeps on the
-- connection. The network is a parameter, with its own state; none stands for an exception.
use pigugu_server.Common.{
  ℕ, zero, suc, ◌+◌, ◌-◌, ◌/◌, Bool, true, false, not, ◌&&◌, Option, none, some, List, [], ◌∷◌,
  ◌++◌, if◌then◌else◌, ltb, leb, length, drop, take, take_last, count,
}

-- the constants, and the two sizes of the source: 512 samples of two bytes, ten minutes of chunks
pub record VadConfig : Type 0 where
  pub vad_threshold : ℕ
  pub vad_threshold_low : ℕ
  pub frame_window_size : ℕ
  pub frame_window_threshold : ℕ
  pub silence_threshold_ms : ℕ
  pub chunk_bytes : ℕ
  pub voice_chunk_flags_max : ℕ

-- what the detector keeps on a connection
pub record Vad : Type 0 where
  pub manual : Bool
  pub pcm_buffer : List ℕ
  pub voice_window : List Bool
  pub last_is_voice : Bool
  -- the flags of the chunks, and how many of the oldest are trimmed away
  pub flags : List Bool
  pub trimmed : ℕ
  pub have_voice : Bool
  pub voice_stop : Bool
  pub last_voice_time : ℕ

abbrev pub new_vad : Vad
new_vad = record {
  manual = false;
  pcm_buffer = [];
  voice_window = [];
  last_is_voice = false;
  flags = [];
  trimmed = 0;
  have_voice = false;
  voice_stop = false;
  last_voice_time = 0;
}

-- release_conn_resources, as the next call finds the connection: a list of flags that is made anew begins without
-- trimmed ones
unfoldable pub release_conn_resources : Vad → Vad
release_conn_resources v = record v {
  pcm_buffer = [];
  voice_window = [];
  last_is_voice = false;
  flags = [];
  trimmed = 0;
}

-- between the two thresholds a chunk is as the one before
unfoldable pub hysteresis : VadConfig → ℕ → Bool → Bool
hysteresis c speech_prob last =
    if leb c.vad_threshold speech_prob
    then true
    else if leb speech_prob c.vad_threshold_low
    then false
    else last

-- a full list loses its oldest tenth
unfoldable pub log_flag : ℕ → Bool → Vad → Vad
log_flag maximum is_voice v =
    if leb maximum (length v.flags)
    then record v {
      flags = drop (maximum / 10) v.flags ++ is_voice ∷ [];
      trimmed = v.trimmed + maximum / 10;
    }
    else record v { flags = v.flags ++ is_voice ∷ [] }

-- the transitions of a chunk
unfoldable pub transition : VadConfig → ℕ → Bool → Vad → Vad
transition c now voice v =
    let stopped =
      if v.have_voice && not voice
      then (if leb c.silence_threshold_ms (now - v.last_voice_time)
          then record v { voice_stop = true; have_voice = false }
          else v)
      else v in
    if voice then record stopped { have_voice = true; last_voice_time = now } else stopped

abbrev is_voiced : Bool → Bool
is_voiced b = b

-- one chunk, with its probability: the state after it, and whether the window confirms a voice
unfoldable pub process_chunk : VadConfig → ℕ → ℕ → Vad → Vad × Bool
unfolding hysteresis log_flag transition
process_chunk c now speech_prob v =
    let is_voice = hysteresis c speech_prob v.last_is_voice in
    let window = take_last c.frame_window_size (v.voice_window ++ is_voice ∷ []) in
    let voice = leb c.frame_window_threshold (count is_voiced window) in
    let noted = record v { last_is_voice = is_voice; voice_window = window } in
    (transition c now voice (log_flag c.voice_chunk_flags_max is_voice noted), voice)

module _ {Network : Type 0} (process : Network → List ℕ → Option (ℕ × Network)) where
  -- the loop over the chunks, with one unit of fuel for each
  unfoldable pub chunk_loop : VadConfig → ℕ → ℕ → Network → Vad → Bool → Vad × Network × Bool
  unfolding process_chunk
  chunk_loop c now zero net v voice = (v, net, voice)
  chunk_loop c now (suc n) net v voice =
      let left = record v { pcm_buffer = drop c.chunk_bytes v.pcm_buffer } in
      if ltb (length v.pcm_buffer) c.chunk_bytes
      then (v, net, voice)
      else elim (process net (take c.chunk_bytes v.pcm_buffer)) [
        | none ↦ (left, net, true)
        | some r ↦
            chunk_loop c now n r.1 (process_chunk c now r.0 left).0 (process_chunk c now r.0 left).1
      ]

  unfoldable pub is_vad : VadConfig → ℕ → Network → List ℕ → Vad → Vad × Network × Bool
  unfolding chunk_loop
  is_vad c now net pcm_frame v =
      let buffer = v.pcm_buffer ++ pcm_frame in
      if v.manual
      then (v, net, true)
      else chunk_loop c now (length buffer) net (record v { pcm_buffer = buffer }) false
