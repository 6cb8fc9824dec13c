-- ===== src/Voice/Chunks.antt =====
-- The chunks and their flags: `is_vad` of pigagent/providers/vad/silero.py, and the slices of the flags that
-- pigagent/voice/pipecat/turn_storage_observer.py takes.
use pigugu_server.Common.{
  ℕ, zero, suc, ◌+◌, ◌-◌, ◌*◌, ◌/◌, ◌≤◌, ◌<◌, ◌≡◌, ap, Option, ◌≢◌, Bool, none, List, [], ◌∷◌, ◌++◌,
  arith, Bool-cases, inl, inr, ltb, leb, length, drop, take, take_last, min, length-append,
  length-drop, length-take_last, leb→le, leb-lt, ltb→lt, ltb-ge, ◌∙◌, false, true, Option-cases,
  refl, String, if_intro, ◌||◌,
}
use pigugu_server.Voice.Silero.{
  VadConfig, Vad, new_vad, log_flag, transition, process_chunk, chunk_loop, is_vad, hysteresis,
}
use pigugu_server.Voice.Segments.{compute_voice_segments}
use pigugu_server.Voice.Turn.{
  voice_chunk_flags_slice, TurnStorage, TurnType, Outside, Stored, nothing_stored, begin_commit,
  commit, insert_turn, s3_upload_all, file_names, new_storage, set_user_pcm,
}
use pigugu_server.Voice.Observer.{Observer, make_storage}

-- one flag after another
unfoldable pub log_flags : ℕ → List Bool → Vad → Vad
log_flags maximum [] v = v
log_flags maximum (b ∷ bs) v = log_flags maximum bs (log_flag maximum b v)

log_flag-total :
    (maximum : ℕ) (b : Bool) (v : Vad)
    → (log_flag maximum b v).trimmed + length (log_flag maximum b v).flags
      ≡ v.trimmed + length v.flags + 1
unfolding log_flag
log_flag-total maximum b v = elim (Bool-cases (leb maximum (length v.flags))) [
  | inl e ↦ rw e (
      omega (
        arith,
        length-append (drop (maximum / 10) v.flags) (b ∷ []),
        length-drop (maximum / 10) v.flags,
        leb→le maximum (length v.flags) e,
      ))
  | inr e ↦ rw e (omega (arith, length-append v.flags (b ∷ [])))
]

-- no more flags than the maximum
log_flag-length :
    (maximum : ℕ) (b : Bool) (v : Vad)
    → 10 ≤ maximum
    → length v.flags ≤ maximum
    → length (log_flag maximum b v).flags ≤ maximum
unfolding log_flag
log_flag-length maximum b v ten h = elim (Bool-cases (leb maximum (length v.flags))) [
  | inl e ↦ rw e (
      omega (
        arith,
        length-append (drop (maximum / 10) v.flags) (b ∷ []),
        length-drop (maximum / 10) v.flags,
      ))
  | inr e ↦ rw e (omega (arith, length-append v.flags (b ∷ []), leb-lt maximum (length v.flags) e))
]

log_flag-trimmed : (maximum : ℕ) (b : Bool) (v : Vad) → v.trimmed ≤ (log_flag maximum b v).trimmed
unfolding log_flag
log_flag-trimmed maximum b v = elim (Bool-cases (leb maximum (length v.flags))) [
  | inl e ↦ rw e (omega arith)
  | inr e ↦ rw e (omega arith)
]

log_flags-total :
    (maximum : ℕ) (bs : List Bool) (v : Vad)
    → (log_flags maximum bs v).trimmed + length (log_flags maximum bs v).flags
      ≡ v.trimmed + length v.flags + length bs
unfolding log_flags
log_flags-total maximum [] v = omega arith
log_flags-total maximum (b ∷ bs) v =
    omega (arith, log_flags-total maximum bs (log_flag maximum b v), log_flag-total maximum b v)

log_flags-length :
    (maximum : ℕ) (bs : List Bool) (v : Vad)
    → 10 ≤ maximum
    → length v.flags ≤ maximum
    → length (log_flags maximum bs v).flags ≤ maximum
unfolding log_flags
log_flags-length maximum [] v ten h = h
log_flags-length maximum (b ∷ bs) v ten h =
    log_flags-length maximum bs (log_flag maximum b v) ten (log_flag-length maximum b v ten h)

log_flags-trimmed :
    (maximum : ℕ) (bs : List Bool) (v : Vad) → v.trimmed ≤ (log_flags maximum bs v).trimmed
unfolding log_flags
log_flags-trimmed maximum [] v = omega arith
log_flags-trimmed maximum (b ∷ bs) v =
    omega (arith, log_flags-trimmed maximum bs (log_flag maximum b v), log_flag-trimmed maximum b v)

slice-trimmed :
    (v : Vad) (start_idx end_idx : ℕ)
    → end_idx ≤ v.trimmed
    → voice_chunk_flags_slice v start_idx end_idx ≡ []
unfolding voice_chunk_flags_slice
slice-trimmed v start_idx end_idx h =
    let none_left : min (end_idx - v.trimmed) (length v.flags) - (start_idx - v.trimmed) ≡ 0 =
      omega arith in
    ap (λ n. take n (drop (start_idx - v.trimmed) v.flags)) none_left

-- the segments of a commit are those of its slice
committed-segments :
    (at : ℕ) (out : Outside) (v : Vad) (s : TurnStorage)
    → (s.committed || s.commit_started) ≡ false
    → compute_voice_segments (voice_chunk_flags_slice v s.start_idx s.end_idx) 32 10 ≡ []
    → (commit at out v s).0.voice_segments ≡ []
unfolding commit
committed-segments at out v s fresh none_there =
    let t = begin_commit at v s in
    rw fresh (
      if_intro (λ (r : TurnStorage × Stored). r.0.voice_segments ≡ []) out.builds
        (insert_turn out (s3_upload_all out.uploads file_names) t) (t, nothing_stored)
        (λ e. inserted (s3_upload_all out.uploads file_names) t ∙ none_there) (λ e. none_there))
  where
    inserted :
        (r : List String × Bool) (t : TurnStorage)
        → (insert_turn out r t).0.voice_segments ≡ t.voice_segments
    inserted (files, true) t = unfold insert_turn in refl
    inserted (files, false) t = unfold insert_turn in refl

-- With the detector of silero.py, once twice the maximum of chunks were heard, a turn that ends from then on is
-- committed without voice segments, whatever was said in it and however many chunks are heard until the commit: the
-- end of its window is the length of the trimmed list, and the slice takes the trimmed flags off again.
pub segments_lost_after_trims :
    (maximum : ℕ) (heard later : List Bool) (o : Observer) (type : TurnType) (pcm : List ℕ)
    (now at : ℕ) (out : Outside)
    → 10 ≤ maximum
    → 2 * maximum ≤ length heard
    → let v = log_flags maximum heard new_vad in
      let turn = make_storage now v type pcm o in
      (commit at out (log_flags maximum later v) turn).0.voice_segments ≡ []
unfolding make_storage set_user_pcm new_storage commit
segments_lost_after_trims maximum heard later o type pcm now at out ten long =
    let v = log_flags maximum heard new_vad in
    let cut = slice-trimmed (log_flags maximum later v) o.voice_chunk_start (length v.flags) (
      omega (
        arith,
        log_flags-total maximum heard new_vad,
        log_flags-length maximum heard new_vad ten (omega arith),
        log_flags-trimmed maximum later v,
      )) in
    committed-segments at out (log_flags maximum later v) (make_storage now v type pcm o) refl
      (ap (λ fs. compute_voice_segments fs 32 10) cut ∙ unfold compute_voice_segments in refl)

-- the window and the flags are bounded
abbrev pub IsBounded : VadConfig → Vad → Type 0
IsBounded c v =
    (length v.voice_window ≤ c.frame_window_size) × (length v.flags ≤ c.voice_chunk_flags_max)

-- a chunk's transitions change neither the window, nor the flags, nor the buffer
transition-keeps :
    (c : VadConfig) (now : ℕ) (voice : Bool) (v : Vad)
    → (IsBounded c v → IsBounded c (transition c now voice v))
      × ((transition c now voice v).pcm_buffer ≡ v.pcm_buffer)
unfolding transition
transition-keeps c now voice v = ground arith

log_flag-buffer :
    (maximum : ℕ) (b : Bool) (v : Vad) → (log_flag maximum b v).pcm_buffer ≡ v.pcm_buffer
unfolding log_flag
log_flag-buffer maximum b v = ground arith

log_flag-window :
    (maximum : ℕ) (b : Bool) (v : Vad) → (log_flag maximum b v).voice_window ≡ v.voice_window
unfolding log_flag
log_flag-window maximum b v = ground arith

process_chunk-IsBounded :
    (c : VadConfig) (now speech_prob : ℕ) (v : Vad)
    → 10 ≤ c.voice_chunk_flags_max
    → IsBounded c v
    → IsBounded c (process_chunk c now speech_prob v).0
unfolding process_chunk
process_chunk-IsBounded c now speech_prob v ten (h, k) =
    let is_voice = hysteresis c speech_prob v.last_is_voice in
    let window = take_last c.frame_window_size (v.voice_window ++ is_voice ∷ []) in
    let noted = record v { last_is_voice = is_voice; voice_window = window } in
    (transition-keeps c now _ (log_flag c.voice_chunk_flags_max is_voice noted)).0 (
      rw (log_flag-window c.voice_chunk_flags_max is_voice noted)
          (omega (arith, length-take_last c.frame_window_size (v.voice_window ++ is_voice ∷ []))),
      log_flag-length c.voice_chunk_flags_max is_voice noted ten k,
    )

process_chunk-buffer :
    (c : VadConfig) (now speech_prob : ℕ) (v : Vad)
    → (process_chunk c now speech_prob v).0.pcm_buffer ≡ v.pcm_buffer
unfolding process_chunk
process_chunk-buffer c now speech_prob v =
    (transition-keeps c now _ (log_flag c.voice_chunk_flags_max _ _)).1
    ∙ log_flag-buffer c.voice_chunk_flags_max _ _

module _ {Network : Type 0} (process : Network → List ℕ → Option (ℕ × Network)) where
  chunk_loop-ends :
      (c : VadConfig) (now n : ℕ) (net : Network) (v : Vad) (voice : Bool)
      → ((net : Network) (chunk : List ℕ) → process net chunk ≢ none)
      → 1 ≤ c.chunk_bytes
      → 10 ≤ c.voice_chunk_flags_max
      → IsBounded c v
      → length v.pcm_buffer ≤ n
      → let v' = (chunk_loop process c now n net v voice).0 in
        (length v'.pcm_buffer < c.chunk_bytes) × IsBounded c v'
  unfolding chunk_loop
  chunk_loop-ends c now zero net v voice runs one ten h le = (omega arith, h)
  chunk_loop-ends c now (suc n) net v voice runs one ten h le =
      let left = record v { pcm_buffer = drop c.chunk_bytes v.pcm_buffer } in
      elim (Bool-cases (ltb (length v.pcm_buffer) c.chunk_bytes)) [
        | inl e ↦ rw e (ltb→lt _ _ e, h)
        | inr e ↦ elim (Option-cases (process net (take c.chunk_bytes v.pcm_buffer))) [
          | inl f ↦ absurd (runs net _ f)
          | inr (r, f) ↦
              rw (e, f)
                (chunk_loop-ends c now n r.1 (process_chunk c now r.0 left).0
                  (process_chunk c now r.0 left).1 runs one ten
                  (process_chunk-IsBounded c now r.0 left ten h)
                  (rw (process_chunk-buffer c now r.0 left)
                    (omega (arith, length-drop c.chunk_bytes v.pcm_buffer, ltb-ge _ _ e))))
        ]
      ]

  -- Where the network never fails, a frame is consumed to the last whole chunk, however long it is, and the
  -- window and the flags stay within their limits.
  pub is_vad_consumes :
      (c : VadConfig) (now : ℕ) (net : Network) (pcm_frame : List ℕ) (v : Vad)
      → ((net : Network) (chunk : List ℕ) → process net chunk ≢ none)
      → 1 ≤ c.chunk_bytes
      → 10 ≤ c.voice_chunk_flags_max
      → v.manual ≡ false
      → IsBounded c v
      → let v' = (is_vad process c now net pcm_frame v).0 in
        (length v'.pcm_buffer < c.chunk_bytes) × IsBounded c v'
  unfolding is_vad
  is_vad_consumes c now net pcm_frame v runs one ten auto h =
      let buffer = v.pcm_buffer ++ pcm_frame in
      rw auto (
        chunk_loop-ends c now (length buffer) net (record v { manual = false; pcm_buffer = buffer })
          false runs one ten h (omega arith))
