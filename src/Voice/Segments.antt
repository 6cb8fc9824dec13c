-- ===== src/Voice/Segments.antt =====
-- The voice segments of a turn: `compute_voice_segments` of pigagent/voice/segments.py. The length of a
-- chunk is a whole number of milliseconds, 32 by default, so nothing is rounded.
use pigugu_server.Common.{
  ℕ, ◌+◌, ◌-◌, ◌*◌, Bool, true, false, Option, none, some, List, [], ◌∷◌, if◌then◌else◌, leb,
}

pub record VoiceSegment : Type 0 where
  pub start_ms : ℕ
  pub end_ms : ℕ
  pub duration_ms : ℕ

-- a segment from its first chunk to the one after its last; max(0, end - start) is `-`
unfoldable pub voice_segment : ℕ → ℕ → ℕ → VoiceSegment
voice_segment ms start end_idx = record {
  start_ms = start * ms;
  end_ms = end_idx * ms;
  duration_ms = end_idx * ms - start * ms;
}

-- the end of the loop: a segment that runs to the end of the buffer
abbrev pub trailing : ℕ → ℕ → Option ℕ → List VoiceSegment
trailing ms idx none = []
trailing ms idx (some start) = voice_segment ms start idx ∷ []

abbrev pub or_here : Option ℕ → ℕ → ℕ
or_here none idx = idx
or_here (some start) idx = start

-- The loop from the chunk `idx` on, with `seg_start` and `silence_run` so far. A silence that is long
-- enough closes the segment at the chunk where the silence began, `idx - silence_run + 1`.
unfoldable pub scan : (ms min_silence idx : ℕ) → Option ℕ → ℕ → List Bool → List VoiceSegment
unfolding voice_segment
scan ms min_silence idx start silence [] = trailing ms idx start
scan ms min_silence idx start silence (true ∷ flags) =
    scan ms min_silence (idx + 1) (some (or_here start idx)) 0 flags
scan ms min_silence idx none silence (false ∷ flags) =
    scan ms min_silence (idx + 1) none (silence + 1) flags
scan ms min_silence idx (some start) silence (false ∷ flags) =
    let closed = scan ms min_silence (idx + 1) none 0 flags in
    let running = scan ms min_silence (idx + 1) (some start) (silence + 1) flags in
    if leb min_silence (silence + 1)
    then voice_segment ms start (idx - (silence + 1) + 1) ∷ closed
    else running

unfoldable pub compute_voice_segments :
    List Bool → (ms_per_chunk min_silence_chunks : ℕ) → List VoiceSegment
unfolding scan
compute_voice_segments flags ms min_silence = scan ms min_silence 0 none 0 flags
