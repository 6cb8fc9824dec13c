-- ===== src/Voice/SegmentResults.antt =====
-- What the voice segments of a turn cover, and how they lie.
use native.Mathlib.Nat.{mul-le-mul_right, add-mul}
use pigugu_server.Common.{
  ℕ, zero, suc, ◌+◌, ◌-◌, ◌*◌, ◌≤◌, ◌≡◌, ◌⊎◌, inl, inr, subst, Bool, true, false, Option, none,
  some, List, [], ◌∷◌, leb, leb→le, Bool-cases, arith,
}
use pigugu_server.Voice.Segments.{VoiceSegment, voice_segment, scan, compute_voice_segments}

-- the chunk `i` of a list has a voice in it
abbrev pub IsVoiced : List Bool → ℕ → Type 0
IsVoiced [] i = ⊥
IsVoiced (b ∷ bs) zero = b ≡ true
IsVoiced (b ∷ bs) (suc i) = IsVoiced bs i

-- the time of the chunk `i` lies in one of the segments
abbrev pub IsCovered : ℕ → ℕ → List VoiceSegment → Type 0
IsCovered ms i [] = ⊥
IsCovered ms i (s ∷ segs) =
    ((s.start_ms ≤ i * ms) × ((i + 1) * ms ≤ s.end_ms)) ⊎ IsCovered ms i segs

-- segments in order, the first not before `low`, each as long as it says, and each at least `gap` after
-- the one before
abbrev pub IsApart : ℕ → ℕ → List VoiceSegment → Type 0
IsApart gap low [] = Unit
IsApart gap low (s ∷ segs) =
    (low ≤ s.start_ms)
    × (s.start_ms ≤ s.end_ms)
    × (s.start_ms + s.duration_ms ≡ s.end_ms)
    × IsApart gap (s.end_ms + gap) segs

-- what is open is covered: the chunks from the start of a segment to the silence that runs
scan_covers_open :
    (ms min_silence idx start silence i : ℕ) (flags : List Bool)
    → start ≤ i
    → i + 1 + silence ≤ idx
    → IsCovered ms i (scan ms min_silence idx (some start) silence flags)
unfolding scan voice_segment
scan_covers_open ms min_silence idx start silence i [] a b =
    inl (mul-le-mul_right ms a, mul-le-mul_right ms (omega arith))
scan_covers_open ms min_silence idx start silence i (true ∷ flags) a b =
    scan_covers_open ms min_silence (idx + 1) start 0 i flags a (omega arith)
scan_covers_open ms min_silence idx start silence i (false ∷ flags) a b =
    elim (Bool-cases (leb min_silence (silence + 1))) [
      | inl e ↦ rw e (inl (mul-le-mul_right ms a, mul-le-mul_right ms (omega arith)))
      | inr e ↦
          rw e
            (scan_covers_open ms min_silence (idx + 1) start (silence + 1) i flags a (omega arith))
    ]

-- what the loop is in the middle of: where a segment can have begun
abbrev pub IsBegun : ℕ → Option ℕ → ℕ → Type 0
IsBegun idx none silence = Unit
IsBegun idx (some start) silence = start + 1 + silence ≤ idx

shift : (idx i : ℕ) → idx + 1 + i ≡ idx + suc i
shift idx i = omega arith

gap_fits :
    (ms end_idx min_silence idx : ℕ)
    → end_idx + min_silence ≤ idx + 1
    → (voice_segment ms 0 end_idx).end_ms + min_silence * ms ≤ (idx + 1) * ms
unfolding voice_segment
gap_fits ms end_idx min_silence idx h =
    rw⁻¹ (add-mul end_idx min_silence ms) (mul-le-mul_right ms h)

scan_covers :
    (ms min_silence idx silence i : ℕ) (start : Option ℕ) (flags : List Bool)
    → IsBegun idx start silence
    → IsVoiced flags i
    → IsCovered ms (idx + i) (scan ms min_silence idx start silence flags)
unfolding scan voice_segment
scan_covers ms min_silence idx silence i start [] h v = elim v [ ]
scan_covers ms min_silence idx silence zero none (true ∷ flags) h v =
    scan_covers_open ms min_silence (idx + 1) idx 0 (idx + 0) flags (omega arith) (omega arith)
scan_covers ms min_silence idx silence zero (some start) (true ∷ flags) h v =
    scan_covers_open ms min_silence (idx + 1) start 0 (idx + 0) flags (omega arith) (omega arith)
scan_covers ms min_silence idx silence (suc i) none (true ∷ flags) h v =
    subst (λ n. IsCovered ms n (scan ms min_silence (idx + 1) (some idx) 0 flags)) (shift idx i)
      (scan_covers ms min_silence (idx + 1) 0 i (some idx) flags (omega arith) v)
scan_covers ms min_silence idx silence (suc i) (some start) (true ∷ flags) h v =
    subst (λ n. IsCovered ms n (scan ms min_silence (idx + 1) (some start) 0 flags)) (shift idx i)
      (scan_covers ms min_silence (idx + 1) 0 i (some start) flags (omega arith) v)
scan_covers ms min_silence idx silence zero start (false ∷ flags) h v = ground arith
scan_covers ms min_silence idx silence (suc i) none (false ∷ flags) h v =
    subst (λ n. IsCovered ms n (scan ms min_silence (idx + 1) none (silence + 1) flags))
      (shift idx i) (scan_covers ms min_silence (idx + 1) (silence + 1) i none flags tt v)
scan_covers ms min_silence idx silence (suc i) (some start) (false ∷ flags) h v =
    let closed = scan_covers ms min_silence (idx + 1) 0 i none flags tt v in
    let running =
      scan_covers ms min_silence (idx + 1) (silence + 1) i (some start) flags (omega arith) v in
    elim (Bool-cases (leb min_silence (silence + 1))) [
      | inl e ↦ rw e (
          inr (
            subst (λ n. IsCovered ms n (scan ms min_silence (idx + 1) none 0 flags)) (shift idx i)
              closed))
      | inr e ↦ rw e (
          subst
            (λ n. IsCovered ms n (scan ms min_silence (idx + 1) (some start) (silence + 1) flags))
            (shift idx i) running)
    ]

-- where the next segment can start
abbrev pub IsLow : ℕ → ℕ → ℕ → Option ℕ → Type 0
IsLow ms low idx none = low ≤ idx * ms
IsLow ms low idx (some start) = low ≤ start * ms

IsLow-next :
    (ms low idx : ℕ) (start : Option ℕ) → IsLow ms low idx start → IsLow ms low (idx + 1) start
IsLow-next ms low idx none h =
    let m : idx * ms ≤ (idx + 1) * ms = mul-le-mul_right ms (omega arith) in omega arith
IsLow-next ms low idx (some start) h = h

low_here :
    (ms low start end_idx : ℕ) → low ≤ start * ms → low ≤ (voice_segment ms start end_idx).start_ms
unfolding voice_segment
low_here ms low start end_idx h = h

-- a segment that is closed: where it lies
segment_lies :
    (ms start end_idx : ℕ)
    → start ≤ end_idx
    → let s = voice_segment ms start end_idx in
      (s.start_ms ≤ s.end_ms) × (s.start_ms + s.duration_ms ≡ s.end_ms)
unfolding voice_segment
segment_lies ms start end_idx le =
    let m : start * ms ≤ end_idx * ms = mul-le-mul_right ms le in (m, omega arith)

scan-IsApart :
    (ms min_silence low idx silence : ℕ) (start : Option ℕ) (flags : List Bool)
    → IsBegun idx start silence
    → IsLow ms low idx start
    → IsApart (min_silence * ms) low (scan ms min_silence idx start silence flags)
unfolding scan
scan-IsApart ms min_silence low idx silence none [] h l = tt
scan-IsApart ms min_silence low idx silence (some start) [] h l =
    let (a, b) = segment_lies ms start idx (omega arith) in (low_here ms low start idx l, a, b, tt)
scan-IsApart ms min_silence low idx silence none (true ∷ flags) h l =
    scan-IsApart ms min_silence low (idx + 1) 0 (some idx) flags (omega arith) l
scan-IsApart ms min_silence low idx silence (some start) (true ∷ flags) h l =
    scan-IsApart ms min_silence low (idx + 1) 0 (some start) flags (omega arith) l
scan-IsApart ms min_silence low idx silence none (false ∷ flags) h l =
    scan-IsApart ms min_silence low (idx + 1) (silence + 1) none flags tt
      (IsLow-next ms low idx none l)
scan-IsApart ms min_silence low idx silence (some start) (false ∷ flags) h l =
    let running =
      scan-IsApart ms min_silence low (idx + 1) (silence + 1) (some start) flags (omega arith) l in
    let end_idx = idx - (silence + 1) + 1 in
    let (a, b) = segment_lies ms start end_idx (omega arith) in
    elim (Bool-cases (leb min_silence (silence + 1))) [
      | inl e ↦
          let next =
            scan-IsApart ms min_silence ((voice_segment ms start end_idx).end_ms + min_silence * ms)
              (idx + 1) 0 none flags tt
              (gap_fits ms end_idx min_silence idx
                (let k = leb→le min_silence (silence + 1) e in omega arith)) in
          rw e (low_here ms low start end_idx l, a, b, next)
      | inr e ↦ rw e running
    ]

-- Every chunk with a voice in it lies, with its whole time, in one of the segments.
pub compute_voice_segments-IsCovered :
    (flags : List Bool) (ms min_silence i : ℕ)
    → IsVoiced flags i
    → IsCovered ms i (compute_voice_segments flags ms min_silence)
unfolding compute_voice_segments
compute_voice_segments-IsCovered flags ms min_silence i v =
    subst (λ n. IsCovered ms n (scan ms min_silence 0 none 0 flags)) (omega arith)
      (scan_covers ms min_silence 0 0 i none flags tt v)

-- The segments are in order, each is as long as it says, and each starts at least the closing silence
-- after the end of the one before.
pub compute_voice_segments-IsApart :
    (flags : List Bool) (ms min_silence : ℕ)
    → IsApart (min_silence * ms) 0 (compute_voice_segments flags ms min_silence)
unfolding compute_voice_segments
compute_voice_segments-IsApart flags ms min_silence =
    scan-IsApart ms min_silence 0 0 0 none flags tt (omega arith)
