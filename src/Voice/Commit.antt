-- ===== src/Voice/Commit.antt =====
-- What a commit leaves: `TurnStorage.commit` of pigagent/voice/storage.py.
use pigugu_server.Common.{
  ◌≡◌, refl, ap, sym, ◌∙◌, Bool, true, false, List, [], ◌∷◌, String, Bool-cases, inl, inr, ℕ, ◌||◌,
}
use mathlib.Core.Bool.{false≢true}
use pigugu_server.Voice.Silero.{Vad}
use pigugu_server.Voice.Turn.{
  TurnStorage, Outside, s3_upload_all, insert_turn, begin_commit, commit, file_names,
  nothing_stored,
}

upload-all :
    (ok : String → Bool) (fs : List String)
    → (s3_upload_all ok fs).1 ≡ true
    → (s3_upload_all ok fs).0 ≡ fs
unfolding s3_upload_all
upload-all ok [] h = refl
upload-all ok (f ∷ fs) h = elim (Bool-cases (ok f)) [
  | inl e ↦ rw e (ap (λ l. f ∷ l) (upload-all ok fs (rw e at h)))
  | inr e ↦ absurd (false≢true (rw e at h))
]

or-false : (a b : Bool) → (a || b) ≡ false → b ≡ false
or-false false b h = h
or-false true b h = absurd (false≢true (sym h))

or-started : (a b : Bool) → (a ≡ true → b ≡ true) → (a || b) ≡ true → b ≡ true
or-started false b ok h = h
or-started true b ok h = ok refl

or_true : (a : Bool) → (a || true) ≡ true
or_true false = refl
or_true true = refl

insert-row :
    (out : Outside) (r : List String × Bool) (s : TurnStorage)
    → (insert_turn out r s).1.row ≡ true
    → ((insert_turn out r s).1.files ≡ r.0) × (r.1 ≡ true)
unfolding insert_turn
insert-row out (files, true) s h = (refl, refl)
insert-row out (files, false) s h = absurd (false≢true h)

-- A commit writes the row of a turn only where all six files were put before it, and only where no commit of
-- the turn had begun.
pub row_after_files :
    (now : ℕ) (out : Outside) (vad : Vad) (s : TurnStorage)
    → (commit now out vad s).1.row ≡ true
    → ((commit now out vad s).1.files ≡ file_names) × (s.commit_started ≡ false)
unfolding commit
row_after_files now out vad s h = elim (Bool-cases (s.committed || s.commit_started)) [
  | inl e ↦ absurd (false≢true (rw e at h))
  | inr e ↦ elim (Bool-cases out.builds) [
    | inr f ↦ absurd (false≢true (rw (e, f) at h))
    | inl f ↦
        let r =
          insert-row out (s3_upload_all out.uploads file_names) (begin_commit now vad s)
            (rw (e, f) at h) in
        rw (e, f)
          (r.0 ∙ upload-all out.uploads file_names r.1, or-false s.committed s.commit_started e)
  ]
]

insert-started :
    (out : Outside) (r : List String × Bool) (s : TurnStorage)
    → s.commit_started ≡ true
    → (insert_turn out r s).0.commit_started ≡ true
unfolding insert_turn
insert-started out (files, true) s h = h
insert-started out (files, false) s h = h

-- a commit leaves the mark that it began
pub commit-started :
    (now : ℕ) (out : Outside) (vad : Vad) (s : TurnStorage)
    → (s.committed ≡ true → s.commit_started ≡ true)
    → (commit now out vad s).0.commit_started ≡ true
unfolding commit
commit-started now out vad s ok = elim (Bool-cases (s.committed || s.commit_started)) [
  | inl e ↦ rw e (or-started s.committed s.commit_started ok e)
  | inr e ↦ elim (Bool-cases out.builds) [
    | inr f ↦ rw (e, f) refl
    | inl f ↦ rw (e, f) (insert-started out _ _ refl)
  ]
]

-- a commit of a turn whose commit began does nothing
pub commit-again :
    (now : ℕ) (out : Outside) (vad : Vad) (s : TurnStorage)
    → s.commit_started ≡ true
    → commit now out vad s ≡ (s, nothing_stored)
unfolding commit
commit-again now out vad s h = rw (h, or_true s.committed) refl

-- After a commit, each further commit of the turn changes nothing and stores nothing, whether the first
-- succeeded or not.
pub commit_once :
    (now now' : ℕ) (out out' : Outside) (vad vad' : Vad) (s : TurnStorage)
    → (s.committed ≡ true → s.commit_started ≡ true)
    → commit now' out' vad' (commit now out vad s).0 ≡ ((commit now out vad s).0, nothing_stored)
commit_once now now' out out' vad vad' s ok =
    commit-again now' out' vad' (commit now out vad s).0 (commit-started now out vad s ok)
