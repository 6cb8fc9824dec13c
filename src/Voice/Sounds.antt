-- ===== src/Voice/Sounds.antt =====
-- What a turn's input holds: the routing of the sound in pigagent/voice/pipecat/turn_storage_observer.py.
use pigugu_server.Common.{
  ℕ, ◌+◌, ◌≤◌, ◌≡◌, refl, Bool, true, false, ◌&&◌, ◌||◌, not, Option, none, some, List, [], ◌∷◌,
  ◌++◌, arith, ◌==◌, if_intro, All, All-drop, All-append, length, take_last, length-take_last,
  String, ◌-◌,
}
use pigugu_server.Voice.Interims.{InterimBuffer}
use pigugu_server.Voice.Turn.{
  TurnStorage, Stored, TurnType, Outside, commit, insert_turn, mark_stt_final, mark_stt_abandoned,
  mark_finalized, mark_tts_complete, set_listen_pcm, wake_word,
}
use pigugu_server.Voice.Silero.{Vad, log_flag}
use pigugu_server.Voice.Observer.{
  Observer, audio_buf_cap, is_empty, route_audio, reply_edge, append_turn, append_gap, open_window,
  make_storage, drop_turn, end_window, begin_turn_window, on_transcription, on_user_started,
}
use pigugu_server.Voice.Session.{
  new_world, World, put, contains, has_begun, release_slot, commit_open, finalize_open,
  sweep_open_storage, open_turn, begin_bare_wake_turn, on_user_stopped, commit_on_finalize,
  close_storage, finalize_session, finalize_ended, run_commit, mark_disconnect,
}
use pigugu_server.Voice.Steps.{
  TurnEvent, turn_step, run_turns, audio, voice_chunk, transcription, user_started, listen_start,
  session_end, user_stopped, bare_wake, tts_played, speaks, sentence, stt_final, stt_abandoned,
  finalized, tts_complete, waiter, closer, ender, committer,
}

module _ (P : ℕ → Type 0) where
  -- a sound of allowed bytes, and no longer than the cap
  abbrev pub IsSound : List ℕ → Type 0
  IsSound pcm = All P pcm × (length pcm ≤ audio_buf_cap)

  abbrev pub IsClean : World → Type 0
  IsClean w = IsSound w.observer.turn_buf × ((i : ℕ) → IsSound (w.storages i).user_pcm)

  put-IsSound :
      (i : ℕ) (s : TurnStorage) (f : ℕ → TurnStorage)
      → IsSound s.user_pcm
      → ((j : ℕ) → IsSound (f j).user_pcm)
      → (j : ℕ) → IsSound (put i s f j).user_pcm
  unfolding put
  put-IsSound i s f h k j = if_intro (λ t. IsSound t.user_pcm) (j == i) s (f j) (λ e. h) (λ e. k j)

  capped : (xs ys : List ℕ) → All P xs → All P ys → IsSound (take_last audio_buf_cap (xs ++ ys))
  capped xs ys h k = (
    All-drop P (length (xs ++ ys) - audio_buf_cap) (xs ++ ys) (All-append P xs ys h k),
    omega (arith, length-take_last audio_buf_cap (xs ++ ys)),
  )

  edge-IsSound :
      (now : ℕ) (vad : Vad) (speaking : Bool) (o : Observer)
      → IsSound o.turn_buf
      → IsSound (reply_edge now vad speaking o).turn_buf
  unfolding reply_edge
  edge-IsSound now vad speaking o h =
      if_intro (λ (o : Observer). IsSound o.turn_buf) (speaking && not o.last_speaking) _ _
        (λ e.
          if_intro (λ (o : Observer). IsSound o.turn_buf)
            (not (is_empty o.turn_buf) && not o.user_turn_active) _ o (λ f. (tt, omega arith))
            (λ f. h))
        (λ e.
          if_intro (λ (o : Observer). IsSound o.turn_buf) (o.last_speaking && not speaking) _ o
            (λ f. h) (λ f. h))

  open_window-turn : (o : Observer) → (open_window o).turn_buf ≡ o.turn_buf
  unfolding open_window
  open_window-turn o = ground arith

  route-IsSound :
      (now : ℕ) (vad : Vad) (speaking : Bool) (pcm : List ℕ) (o : Observer)
      → (speaking ≡ false → All P pcm)
      → IsSound o.turn_buf
      → IsSound (route_audio now vad speaking pcm o).turn_buf
  unfolding route_audio append_turn append_gap
  route-IsSound now vad true pcm o h k = edge-IsSound now vad true o k
  route-IsSound now vad false pcm o h k =
      rw (open_window-turn _) (
        capped (reply_edge now vad false o).turn_buf pcm (edge-IsSound now vad false o k).0
          (h refl))

  insert-pcm :
      (out : Outside) (r : List String × Bool) (s : TurnStorage)
      → (insert_turn out r s).0.user_pcm ≡ s.user_pcm
  unfolding insert_turn
  insert-pcm out (files, true) s = refl
  insert-pcm out (files, false) s = refl

  -- neither a commit nor a mark changes the user's sound
  commit-IsSound :
      (now : ℕ) (out : Outside) (vad : Vad) (s : TurnStorage)
      → IsSound s.user_pcm
      → IsSound (commit now out vad s).0.user_pcm
  unfolding commit
  commit-IsSound now out vad s h =
      if_intro (λ (r : TurnStorage × Stored). IsSound r.0.user_pcm)
        (s.committed || s.commit_started) _ _ (λ e. h)
        (λ e.
          if_intro (λ (r : TurnStorage × Stored). IsSound r.0.user_pcm) out.builds _ _
            (λ f. rw (insert-pcm out _ _) h) (λ f. h))

  stt_final-IsSound :
      (text : String) (b : InterimBuffer) (s : TurnStorage)
      → IsSound s.user_pcm
      → IsSound (mark_stt_final text b s).0.user_pcm
  unfolding mark_stt_final
  stt_final-IsSound text b s h =
      if_intro (λ (r : TurnStorage × InterimBuffer). IsSound r.0.user_pcm) _ _ _ (λ e. h) (λ e. h)

  mark_disconnect-IsSound :
      (b : InterimBuffer) (s : TurnStorage)
      → IsSound s.user_pcm
      → IsSound (mark_disconnect b s).0.user_pcm
  unfolding mark_disconnect mark_tts_complete mark_finalized
  mark_disconnect-IsSound b s h =
      if_intro (λ (r : TurnStorage × InterimBuffer). IsSound r.0.user_pcm) s.finalized _ _ (λ e. h)
        (λ e. stt_final-IsSound "" b s h)

  release_slot-IsClean : (o : Option ℕ) (w : World) → IsClean w → IsClean (release_slot o w)
  unfolding release_slot set_listen_pcm
  release_slot-IsClean none w h = h
  release_slot-IsClean (some i) w (h, k) = (h, put-IsSound i _ w.storages (k i) k)

  sweep-IsClean : (w : World) → IsClean w → IsClean (sweep_open_storage w)
  unfolding sweep_open_storage
  sweep-IsClean w h = release_slot-IsClean w.observer.open_storage w h

  open_turn-IsClean :
      (now : ℕ) (type : TurnType) (pcm : List ℕ) (w : World)
      → IsSound pcm
      → IsClean w
      → IsClean (open_turn now type pcm w)
  unfolding open_turn make_storage
  open_turn-IsClean now type pcm w p (h, k) =
      (h, put-IsSound (w.observer.turn_idx + 1) _ w.storages p k)

  commit_open-IsClean : (o : Option ℕ) (i : ℕ) (w : World) → IsClean w → IsClean (commit_open o i w)
  unfolding commit_open set_listen_pcm
  commit_open-IsClean none i w h = h
  commit_open-IsClean (some j) i w (h, k) =
      if_intro IsClean (j == i && (w.storages i).finalized) _ w
        (λ e. (h, put-IsSound i _ w.storages (k i) k)) (λ e. (h, k))

  finalize_open-IsClean : (o : Option ℕ) (w : World) → IsClean w → IsClean (finalize_open o w)
  unfolding finalize_open
  finalize_open-IsClean none w h = h
  finalize_open-IsClean (some i) w h =
      if_intro IsClean (has_begun (w.storages i)) w _ (λ e. h) (λ e. h)

  close_storage-IsClean : (i : ℕ) (w : World) → IsClean w → IsClean (close_storage i w)
  unfolding close_storage mark_finalized
  close_storage-IsClean i w (h, k) =
      if_intro IsClean (contains i w.closing) _ w
        (λ e.
          if_intro IsClean (has_begun (w.storages i)) _ _ (λ f. (h, k))
            (λ f. (h, put-IsSound i _ w.storages (k i) k)))
        (λ e. (h, k))

  finalize_ended-IsClean : (i : ℕ) (w : World) → IsClean w → IsClean (finalize_ended i w)
  unfolding finalize_ended set_listen_pcm
  finalize_ended-IsClean i w (h, k) =
      if_intro IsClean (contains i w.ending) _ w
        (λ e. (
          h,
          put-IsSound i _ w.storages (mark_disconnect-IsSound w.interims (w.storages i) (k i)) k,
        ))
        (λ e. (h, k))

  run_commit-IsClean :
      (now i : ℕ) (out : Outside) (w : World) → IsClean w → IsClean (run_commit now i out w)
  unfolding run_commit
  run_commit-IsClean now i out w (h, k) =
      if_intro IsClean (contains i w.scheduled) _ w
        (λ e. (h, put-IsSound i _ w.storages (commit-IsSound now out w.vad (w.storages i) (k i)) k))
        (λ e. (h, k))

  user_stopped-IsClean : (now : ℕ) (w : World) → IsClean w → IsClean (on_user_stopped now w)
  unfolding on_user_stopped drop_turn end_window
  user_stopped-IsClean now w h =
      let swept = sweep-IsClean w h in
      let s = sweep_open_storage w in
      let after = record s { observer = end_window now w.vad s.observer } in
      let ended : IsClean after = ((tt, omega arith), swept.1) in
      if_intro IsClean w.observer.saw_text _ _
        (λ e.
          if_intro IsClean (w.observer.enabled && w.observer.configured) _ _
            (λ f. open_turn-IsClean now w.state.turn_type w.observer.turn_buf after h.0 ended)
            (λ f. ended))
        (λ e. swept)

  bare_wake-IsClean : (now : ℕ) (w : World) → IsClean w → IsClean (begin_bare_wake_turn now w)
  unfolding begin_bare_wake_turn
  bare_wake-IsClean now w h =
      let swept = sweep-IsClean w h in
      if_intro IsClean w.observer.enabled _ _
        (λ e.
          if_intro IsClean w.observer.configured _ _
            (λ f. open_turn-IsClean now wake_word [] (sweep_open_storage w) (tt, omega arith) swept)
            (λ f. swept))
        (λ e. h)

  window-turn : (o : Observer) → (begin_turn_window o).turn_buf ≡ o.turn_buf
  unfolding begin_turn_window
  window-turn o = ground arith

  -- the sound that an event brings
  abbrev pub sound : TurnEvent → List ℕ
  sound (audio now pcm) = pcm
  sound e = []

  turn_step-IsClean :
      (e : TurnEvent) (w : World)
      → (w.state.client_is_speaking ≡ false → All P (sound e))
      → IsClean w
      → IsClean (turn_step e w)
  unfolding turn_step on_transcription on_user_started mark_stt_abandoned mark_finalized
      mark_tts_complete log_flag commit_on_finalize finalize_session
  turn_step-IsClean (audio now pcm) w p (h, k) =
      if_intro IsClean w.observer.enabled _ w
        (λ e. (route-IsSound now w.vad w.state.client_is_speaking pcm w.observer p h, k))
        (λ e. (h, k))
  turn_step-IsClean (voice_chunk maximum is_voice) w p h = h
  turn_step-IsClean transcription w p h = h
  turn_step-IsClean user_started w p h = h
  turn_step-IsClean listen_start w p (h, k) = (rw (window-turn w.observer) h, k)
  turn_step-IsClean session_end w p h = finalize_open-IsClean w.observer.open_storage w h
  turn_step-IsClean (user_stopped now) w p h = user_stopped-IsClean now w h
  turn_step-IsClean (bare_wake now) w p h = bare_wake-IsClean now w h
  turn_step-IsClean (tts_played ms sid) w p h = h
  turn_step-IsClean (speaks b) w p h = h
  turn_step-IsClean (sentence n) w p h = h
  turn_step-IsClean (stt_final i text) w p (h, k) =
      (h, put-IsSound i _ w.storages (stt_final-IsSound text w.interims (w.storages i) (k i)) k)
  turn_step-IsClean (stt_abandoned i) w p (h, k) = (h, put-IsSound i _ w.storages (k i) k)
  turn_step-IsClean (finalized i) w p (h, k) = (h, put-IsSound i _ w.storages (k i) k)
  turn_step-IsClean (tts_complete i text ok reason) w p (h, k) =
      (h, put-IsSound i _ w.storages (k i) k)
  turn_step-IsClean (waiter i) w p h = commit_open-IsClean w.observer.open_storage i w h
  turn_step-IsClean (closer i) w p h = close_storage-IsClean i w h
  turn_step-IsClean (ender i) w p h = finalize_ended-IsClean i w h
  turn_step-IsClean (committer now i out) w p h = run_commit-IsClean now i out w h

  -- the sound that arrives while the toy is silent has a property
  abbrev pub IsHeard : List TurnEvent → World → Type 0
  IsHeard [] w = Unit
  IsHeard (e ∷ es) w =
      (w.state.client_is_speaking ≡ false → All P (sound e)) × IsHeard es (turn_step e w)

  run_turns-IsClean :
      (es : List TurnEvent) (w : World) → IsHeard es w → IsClean w → IsClean (run_turns es w)
  unfolding run_turns
  run_turns-IsClean [] w p h = h
  run_turns-IsClean (e ∷ es) w p h =
      run_turns-IsClean es (turn_step e w) p.1 (turn_step-IsClean e w p.0 h)

  -- Whatever holds of each byte that arrives while the toy does not speak holds of each byte of the input of
  -- every turn of a session, in every order of the events: no sound of a reply gets into it. And no input is
  -- longer than the cap.
  pub input_without_replies :
      (enabled configured : Bool) (now : ℕ) (es : List TurnEvent)
      → IsHeard es (new_world enabled configured now)
      → IsClean (run_turns es (new_world enabled configured now))
  unfolding new_world
  input_without_replies enabled configured now es p =
      run_turns-IsClean es (new_world enabled configured now) p
        ((tt, omega arith), (λ i. (tt, omega arith)))
