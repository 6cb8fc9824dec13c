-- ===== src/Voice/Trailing.antt =====
-- The end of the last voice segment of a turn.
use pigugu_server.Common.{
  ℕ, zero, suc, ◌+◌, ◌<◌, ◌≡◌, ap, ◌∙◌, Bool, true, false, some, List, [], ◌∷◌, ◌++◌, leb, arith,
}
use pigugu_server.Voice.Segments.{voice_segment, scan, compute_voice_segments}

abbrev pub repeat {ℓ} : {A : Type ℓ} → ℕ → A → List A
repeat zero a = []
repeat (suc n) a = a ∷ repeat n a

lt-leb : (a b : ℕ) → b < a → leb a b ≡ false
lt-leb a b h = ground arith

scan_silence :
    (ms min_silence idx start silence k : ℕ)
    → silence + k < min_silence
    → scan ms min_silence idx (some start) silence (repeat k false)
      ≡ voice_segment ms start (idx + k) ∷ []
unfolding scan
scan_silence ms min_silence idx start silence zero h =
    ap (λ n. voice_segment ms start n ∷ []) (omega arith)
scan_silence ms min_silence idx start silence (suc k) h =
    rw (lt-leb min_silence (silence + 1) (omega arith)) (
      scan_silence ms min_silence (idx + 1) start (silence + 1) k (omega arith)
      ∙ ap (λ n. voice_segment ms start n ∷ []) (omega arith))

scan_voice :
    (ms min_silence idx start n : ℕ) (rest : List Bool)
    → scan ms min_silence idx (some start) 0 (repeat n true ++ rest)
      ≡ scan ms min_silence (idx + n) (some start) 0 rest
unfolding scan
scan_voice ms min_silence idx start zero rest =
    ap (λ i. scan ms min_silence i (some start) 0 rest) (omega arith)
scan_voice ms min_silence idx start (suc n) rest =
    scan_voice ms min_silence (idx + 1) start n rest
    ∙ ap (λ i. scan ms min_silence i (some start) 0 rest) (omega arith)

-- A turn of voice that ends in a silence which is too short to close a segment has one segment, and this
-- segment ends with the silence, not with the voice.
pub trailing_silence_counts :
    (ms min_silence n k : ℕ)
    → k < min_silence
    → let segs = compute_voice_segments (repeat (suc n) true ++ repeat k false) ms min_silence in
      segs ≡ voice_segment ms 0 (n + 1 + k) ∷ []
unfolding compute_voice_segments scan
trailing_silence_counts ms min_silence n k h =
    scan_voice ms min_silence 1 0 n (repeat k false)
    ∙ (scan_silence ms min_silence (1 + n) 0 0 k (omega arith)
        ∙ ap (λ i. voice_segment ms 0 i ∷ []) (omega arith))
