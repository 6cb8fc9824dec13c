-- ===== src/Voice/Owners.antt =====
-- Who commits a turn: the slot, the tasks and the commits of pigagent/voice/pipecat/turn_storage_observer.py.
use pigugu_server.Common.{
  ℕ, ◌+◌, if_intro, ◌≤◌, ◌≡◌, refl, sym, ap, ◌∙◌, Bool, true, false, ◌&&◌, Option, none, some, List,
  [], ◌∷◌, arith, if◌then◌else◌, ◌==◌, leb, Bool-cases, inl, inr, ==_iff,
}
use mathlib.Core.Bool.{false≢true}
use pigugu_server.Voice.Turn.{
  TurnStorage, Stored, TurnType, Outside, commit, mark_finalized, mark_tts_complete, mark_stt_final,
}
use pigugu_server.Voice.Observer.{make_storage}
use pigugu_server.Voice.Session.{
  World, put, remove, contains, has_begun, release_slot, commit_open, finalize_open,
  sweep_open_storage, open_turn, commit_on_finalize, close_storage, finalize_session,
  finalize_ended, run_commit, mark_disconnect,
}

abbrev pub occ : ℕ → List ℕ → ℕ
occ i [] = 0
occ i (j ∷ js) = (if j == i then 1 else 0) + occ i js

abbrev pub occ_done : ℕ → List (ℕ × Stored) → ℕ
occ_done i [] = 0
occ_done i ((j, s) ∷ js) = (if j == i then 1 else 0) + occ_done i js

abbrev pub holds : ℕ → Option ℕ → ℕ
holds i none = 0
holds i (some j) = if j == i then 1 else 0

-- how many hold a turn: the open slot, the tasks that will commit it, the commits that wait and that ran
abbrev pub owners : World → ℕ → ℕ
owners w i =
    holds i w.observer.open_storage
    + occ i w.closing
    + occ i w.ending
    + occ i w.scheduled
    + occ_done i w.done

abbrev pub is_turn : ℕ → ℕ → ℕ
is_turn idx i = if leb 1 i && leb i idx then 1 else 0

-- each turn that was opened has one owner, no other has one, and what has begun is done
abbrev pub IsOwned : World → Type 0
IsOwned w =
    ((i : ℕ) → owners w i ≡ is_turn w.observer.turn_idx i)
    × ((i : ℕ) → has_begun (w.storages i) ≡ true → 1 ≤ occ_done i w.done)

occ-remove :
    (i k : ℕ) (js : List ℕ)
    → contains i js ≡ true
    → occ k (remove i js) + (if i == k then 1 else 0) ≡ occ k js
unfolding contains remove
occ-remove i k [] h = absurd (false≢true h)
occ-remove i k (j ∷ js) h = elim (Bool-cases (j == i)) [
  | inl e ↦ rw (e, (==_iff j i).0 e) (omega arith)
  | inr e ↦ rw e (omega (arith, occ-remove i k js (rw e at h)))
]

pub put-begun :
    (i : ℕ) (s : TurnStorage) (f : ℕ → TurnStorage) (done : List (ℕ × Stored))
    → (has_begun s ≡ true → 1 ≤ occ_done i done)
    → ((j : ℕ) → has_begun (f j) ≡ true → 1 ≤ occ_done j done)
    → (j : ℕ) → has_begun (put i s f j) ≡ true
    → 1 ≤ occ_done j done
unfolding put
put-begun i s f done h k j b = elim (Bool-cases (j == i)) [
  | inl e ↦ rw ((==_iff j i).0 e) (h (rw e at b))
  | inr e ↦ k j (rw e at b)
]

release_slot-IsOwned :
    (o : Option ℕ) (w : World)
    → w.observer.open_storage ≡ o
    → IsOwned w
    → IsOwned (release_slot o w)
unfolding release_slot
release_slot-IsOwned none w e h = h
release_slot-IsOwned (some i) w e (h, k) =
    (λ j. omega (arith, h j, ap (holds j) e), put-begun i _ w.storages w.done (k i) k)

pub sweep-IsOwned : (w : World) → IsOwned w → IsOwned (sweep_open_storage w)
unfolding sweep_open_storage
sweep-IsOwned w h = release_slot-IsOwned w.observer.open_storage w refl h

release_slot-empty :
    (o : Option ℕ) (w : World)
    → w.observer.open_storage ≡ o
    → (release_slot o w).observer.open_storage ≡ none
unfolding release_slot
release_slot-empty none w e = e
release_slot-empty (some i) w e = refl

pub sweep-empty : (w : World) → (sweep_open_storage w).observer.open_storage ≡ none
unfolding sweep_open_storage
sweep-empty w = release_slot-empty w.observer.open_storage w refl

opened : (idx i : ℕ) → (if idx + 1 == i then 1 else 0) + is_turn idx i ≡ is_turn (idx + 1) i
opened idx i = ground arith

-- a turn is opened where the slot is free
pub open_turn-IsOwned :
    (now : ℕ) (type : TurnType) (pcm : List ℕ) (w : World)
    → w.observer.open_storage ≡ none
    → IsOwned w
    → IsOwned (open_turn now type pcm w)
unfolding open_turn make_storage
open_turn-IsOwned now type pcm w e (h, k) = (
  λ j. omega (arith, h j, ap (holds j) e, opened w.observer.turn_idx j),
  put-begun (w.observer.turn_idx + 1) _ w.storages w.done (λ b. absurd (false≢true b)) k,
)

and-left : (a b : Bool) → (a && b) ≡ true → a ≡ true
and-left true b h = refl
and-left false b h = h

commit_open-IsOwned :
    (o : Option ℕ) (i : ℕ) (w : World)
    → w.observer.open_storage ≡ o
    → IsOwned w
    → IsOwned (commit_open o i w)
unfolding commit_open
commit_open-IsOwned none i w e h = h
commit_open-IsOwned (some j) i w e (h, k) = elim (Bool-cases (j == i && (w.storages i).finalized)) [
  | inr f ↦ rw f (h, k)
  | inl f ↦ rw f (
    λ l. omega (arith, h l, ap (holds l) (e ∙ ap some ((==_iff j i).0 (and-left _ _ f)))),
    put-begun i _ w.storages w.done (k i) k,
  )
]

finalize_open-IsOwned :
    (o : Option ℕ) (w : World)
    → w.observer.open_storage ≡ o
    → IsOwned w
    → IsOwned (finalize_open o w)
unfolding finalize_open
finalize_open-IsOwned none w e h = h
finalize_open-IsOwned (some i) w e (h, k) = elim (Bool-cases (has_begun (w.storages i))) [
  | inl f ↦ rw f (h, k)
  | inr f ↦ rw f (λ l. omega (arith, h l, ap (holds l) e), k)
]

pub commit_on_finalize-IsOwned : (i : ℕ) (w : World) → IsOwned w → IsOwned (commit_on_finalize i w)
unfolding commit_on_finalize
commit_on_finalize-IsOwned i w h = commit_open-IsOwned w.observer.open_storage i w refl h

pub finalize_session-IsOwned : (w : World) → IsOwned w → IsOwned (finalize_session w)
unfolding finalize_session
finalize_session-IsOwned w h = finalize_open-IsOwned w.observer.open_storage w refl h

pub is_turn-in : (idx i : ℕ) → 1 ≤ i → i ≤ idx → is_turn idx i ≡ 1
is_turn-in idx i one le = ground arith

is_turn-one : (idx i : ℕ) → is_turn idx i ≤ 1
is_turn-one idx i = ground arith

itself : (i : ℕ) → occ i (i ∷ []) ≡ 1
itself i = ground arith

contains-occ : (i : ℕ) (js : List ℕ) → contains i js ≡ true → 1 ≤ occ i js
contains-occ i js h = omega (arith, occ-remove i i js h, itself i)

-- what a task still holds has not begun
free :
    (w : World) (i : ℕ)
    → IsOwned w
    → 1 ≤ occ i w.closing + occ i w.ending + occ i w.scheduled
    → has_begun (w.storages i) ≡ false
free w i (h, k) some_task = elim (Bool-cases (has_begun (w.storages i))) [
  | inr e ↦ e
  | inl e ↦ absurd (omega (arith, h i, k i e, is_turn-one w.observer.turn_idx i))
]

pub close_storage-IsOwned : (i : ℕ) (w : World) → IsOwned w → IsOwned (close_storage i w)
unfolding close_storage mark_finalized
close_storage-IsOwned i w (h, k) =
    if_intro IsOwned (contains i w.closing) _ w
      (λ e.
        if_intro IsOwned (has_begun (w.storages i)) _ _
          (λ f.
            absurd
              (false≢true (sym (free w i (h, k) (omega (arith, contains-occ i w.closing e))) ∙ f)))
          (λ f. (
            λ l. omega (arith, h l, occ-remove i l w.closing e),
            put-begun i _ w.storages w.done (k i) k,
          )))
      (λ e. (h, k))

mark_disconnect-begun :
    (w : World) (i : ℕ)
    → has_begun (mark_disconnect w.interims (w.storages i)).0 ≡ has_begun (w.storages i)
unfolding mark_disconnect mark_finalized mark_tts_complete mark_stt_final
mark_disconnect-begun w i = ground arith

pub finalize_ended-IsOwned : (i : ℕ) (w : World) → IsOwned w → IsOwned (finalize_ended i w)
unfolding finalize_ended
finalize_ended-IsOwned i w (h, k) =
    if_intro IsOwned (contains i w.ending) _ w
      (λ e. (
        λ l. omega (arith, h l, occ-remove i l w.ending e),
        put-begun i _ w.storages w.done (λ b. k i (sym (mark_disconnect-begun w i) ∙ b)) k,
      ))
      (λ e. (h, k))

pub run_commit-IsOwned :
    (now i : ℕ) (out : Outside) (w : World) → IsOwned w → IsOwned (run_commit now i out w)
unfolding run_commit
run_commit-IsOwned now i out w (h, k) =
    if_intro IsOwned (contains i w.scheduled) _ w
      (λ e. (
        λ l. omega (arith, h l, occ-remove i l w.scheduled e),
        put-begun i _ w.storages ((i, (commit now out w.vad (w.storages i)).1) ∷ w.done)
            (λ b. omega (arith, itself i)) (λ l b. omega (arith, k l b)),
      ))
      (λ e. (h, k))
