-- ===== src/Voice/Committed.antt =====
-- The turns of a session over all orders of its events: each has one owner, and is committed once
-- (pigagent/voice/pipecat/turn_storage_observer.py).
use pigugu_server.Common.{
  ℕ, if_intro, ◌≤◌, ◌≡◌, String, refl, sym, ap, ◌∙◌, Bool, ◌&&◌, none, List, [], ◌∷◌, arith,
}
use pigugu_server.Voice.Turn.{
  TurnStorage, wake_word, mark_finalized, mark_tts_complete, mark_stt_final, mark_stt_abandoned,
}
use mathlib.Core.Bool.{false≢true}
use pigugu_server.Voice.Interims.{InterimBuffer}
use pigugu_server.Voice.Silero.{Vad, log_flag}
use pigugu_server.Voice.Observer.{
  Observer, route_audio, reply_edge, append_turn, append_gap, open_window, drop_turn, end_window,
  begin_turn_window, on_transcription, on_user_started,
}
use pigugu_server.Voice.Session.{
  new_world, World, has_begun, sweep_open_storage, begin_bare_wake_turn, on_user_stopped,
}
use pigugu_server.Voice.Steps.{
  TurnEvent, turn_step, run_turns, observe, mark, audio, voice_chunk, transcription, user_started,
  listen_start, session_end, user_stopped, bare_wake, tts_played, speaks, sentence, stt_final,
  stt_abandoned, finalized, tts_complete, waiter, closer, ender, committer,
}
use pigugu_server.Voice.Owners.{
  occ, occ_done, holds, is_turn, IsOwned, sweep-IsOwned, sweep-empty, open_turn-IsOwned,
  commit_on_finalize-IsOwned, finalize_session-IsOwned, is_turn-in, put-begun,
  close_storage-IsOwned, finalize_ended-IsOwned, run_commit-IsOwned,
}

user_stopped-IsOwned : (now : ℕ) (w : World) → IsOwned w → IsOwned (on_user_stopped now w)
unfolding on_user_stopped drop_turn end_window
user_stopped-IsOwned now w h =
    let swept = sweep-IsOwned w h in
    if_intro IsOwned w.observer.saw_text _ _
      (λ e.
        if_intro IsOwned (w.observer.enabled && w.observer.configured) _ _
          (λ f.
            open_turn-IsOwned now w.state.turn_type w.observer.turn_buf
              (record (sweep_open_storage w) {
                observer = end_window now w.vad (sweep_open_storage w).observer;
              })
              (sweep-empty w) swept)
          (λ f. swept))
      (λ e. swept)

bare_wake-IsOwned : (now : ℕ) (w : World) → IsOwned w → IsOwned (begin_bare_wake_turn now w)
unfolding begin_bare_wake_turn
bare_wake-IsOwned now w h =
    let swept = sweep-IsOwned w h in
    if_intro IsOwned w.observer.enabled _ _
      (λ e.
        if_intro IsOwned w.observer.configured _ _
          (λ f. open_turn-IsOwned now wake_word [] (sweep_open_storage w) (sweep-empty w) swept)
          (λ f. swept))
      (λ e. h)

-- the sound and the texts touch neither the slot nor the count of the turns
route_audio-keeps :
    (now : ℕ) (vad : Vad) (speaking : Bool) (pcm : List ℕ) (o : Observer)
    → let o' = route_audio now vad speaking pcm o in
      (o'.open_storage ≡ o.open_storage) × (o'.turn_idx ≡ o.turn_idx)
unfolding route_audio reply_edge append_turn append_gap open_window
route_audio-keeps now vad speaking pcm o = ground arith

begin_turn_window-keeps :
    (o : Observer)
    → let o' = begin_turn_window o in
      (o'.open_storage ≡ o.open_storage) × (o'.turn_idx ≡ o.turn_idx)
unfolding begin_turn_window
begin_turn_window-keeps o = ground arith

observe-IsOwned :
    (f : Observer → Observer) (w : World)
    → ((f w.observer).open_storage ≡ w.observer.open_storage)
      × ((f w.observer).turn_idx ≡ w.observer.turn_idx)
    → IsOwned w
    → IsOwned (observe f w)
observe-IsOwned f w (e, e') (h, k) =
    (λ i. omega (arith, h i, ap (holds i) e, ap (λ n. is_turn n i) e'), k)

-- a mark of the speech output leaves what has begun as it was
mark-IsOwned :
    (i : ℕ) (r : TurnStorage × InterimBuffer) (w : World)
    → has_begun r.0 ≡ has_begun (w.storages i)
    → IsOwned w
    → IsOwned (mark i r w)
mark-IsOwned i r w e (h, k) = (h, put-begun i r.0 w.storages w.done (λ b. k i (sym e ∙ b)) k)

stt_final-begun :
    (text : String) (b : InterimBuffer) (s : TurnStorage)
    → has_begun (mark_stt_final text b s).0 ≡ has_begun s
unfolding mark_stt_final
stt_final-begun text b s = ground arith

-- Each step keeps the owners.
turn_step-IsOwned : (e : TurnEvent) (w : World) → IsOwned w → IsOwned (turn_step e w)
unfolding turn_step on_transcription on_user_started mark_stt_abandoned mark_finalized
    mark_tts_complete log_flag
turn_step-IsOwned (audio now pcm) w h =
    if_intro IsOwned w.observer.enabled _ w
      (λ e.
        observe-IsOwned (λ o. route_audio now w.vad w.state.client_is_speaking pcm o) w
          (route_audio-keeps now w.vad w.state.client_is_speaking pcm w.observer) h)
      (λ e. h)
turn_step-IsOwned (voice_chunk maximum is_voice) w h = h
turn_step-IsOwned transcription w h = h
turn_step-IsOwned user_started w h = h
turn_step-IsOwned listen_start w h =
    observe-IsOwned begin_turn_window w (begin_turn_window-keeps w.observer) h
turn_step-IsOwned session_end w h = finalize_session-IsOwned w h
turn_step-IsOwned (user_stopped now) w h = user_stopped-IsOwned now w h
turn_step-IsOwned (bare_wake now) w h = bare_wake-IsOwned now w h
turn_step-IsOwned (tts_played ms sid) w h = h
turn_step-IsOwned (speaks b) w h = h
turn_step-IsOwned (sentence n) w h = h
turn_step-IsOwned (stt_final i text) w h =
    mark-IsOwned i (mark_stt_final text w.interims (w.storages i)) w
      (stt_final-begun text w.interims (w.storages i)) h
turn_step-IsOwned (stt_abandoned i) w h =
    mark-IsOwned i (mark_stt_abandoned w.interims (w.storages i)) w refl h
turn_step-IsOwned (finalized i) w h =
    mark-IsOwned i (mark_finalized (w.storages i), w.interims) w refl h
turn_step-IsOwned (tts_complete i text ok reason) w h =
    mark-IsOwned i (mark_tts_complete text ok reason (w.storages i), w.interims) w refl h
turn_step-IsOwned (waiter i) w h = commit_on_finalize-IsOwned i w h
turn_step-IsOwned (closer i) w h = close_storage-IsOwned i w h
turn_step-IsOwned (ender i) w h = finalize_ended-IsOwned i w h
turn_step-IsOwned (committer now i out) w h = run_commit-IsOwned now i out w h

run_turns-IsOwned : (es : List TurnEvent) (w : World) → IsOwned w → IsOwned (run_turns es w)
unfolding run_turns
run_turns-IsOwned [] w h = h
run_turns-IsOwned (e ∷ es) w h = run_turns-IsOwned es (turn_step e w) (turn_step-IsOwned e w h)

none_yet : (i : ℕ) → 0 ≡ is_turn 0 i
none_yet i = ground arith

new_world-IsOwned :
    (enabled configured : Bool) (now : ℕ) → IsOwned (new_world enabled configured now)
unfolding new_world
new_world-IsOwned enabled configured now = (none_yet, (λ i h. absurd (false≢true h)))

-- However the sound, the words, the marks of the speech output and the tasks of a session follow one another,
-- each turn that was opened is held exactly once: by the slot, by one task that will commit it, or by its
-- commit that ran; and what no turn was opened for is held by none of them.
pub one_owner :
    (enabled configured : Bool) (now : ℕ) (es : List TurnEvent)
    → IsOwned (run_turns es (new_world enabled configured now))
one_owner enabled configured now es =
    run_turns-IsOwned es (new_world enabled configured now)
      (new_world-IsOwned enabled configured now)

-- the slot is free, and no task is left
abbrev pub IsSettled : World → Type 0
IsSettled w =
    (w.observer.open_storage ≡ none) × (w.closing ≡ []) × (w.ending ≡ []) × (w.scheduled ≡ [])

-- When the slot of a session is free and no task is left, the commit of each turn that was opened ran exactly
-- once.
pub committed_once :
    (enabled configured : Bool) (now : ℕ) (es : List TurnEvent) (i : ℕ)
    → IsSettled (run_turns es (new_world enabled configured now))
    → 1 ≤ i
    → i ≤ (run_turns es (new_world enabled configured now)).observer.turn_idx
    → occ_done i (run_turns es (new_world enabled configured now)).done ≡ 1
committed_once enabled configured now es i (free, closed, ended, ran) one le =
    let w = run_turns es (new_world enabled configured now) in
    omega (
      arith,
      (one_owner enabled configured now es).0 i,
      ap (holds i) free,
      ap (occ i) closed,
      ap (occ i) ended,
      ap (occ i) ran,
      is_turn-in w.observer.turn_idx i one le,
    )
