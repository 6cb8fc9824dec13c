-- ===== src/Ota/Invariant.antt =====
-- At every time a device has at most one active upgrade job, through checks, triggers, reports and
-- sweeps.
use pigugu_server.Common.{
  ℕ, ◌≤◌, ◌≡◌, refl, String, true, false, Option, some, List, [], ◌∷◌, arith, count, All, All-imp,
}
use pigugu_server.Models.{Status, is_active, Job, Db}
use pigugu_server.Ota.Tables.{is_active_of, find_active_job, amend_jobs}
use pigugu_server.Ota.Jobs.{terminate, advance}
use pigugu_server.Ota.Rows.{Distinct, found_row, count-amend_jobs, Distinct-amend_jobs}

pub record IsSound (js : List Job) : Type 0 where
  pub one_active : (d : ℕ) → count (is_active_of d) js ≤ 1
  pub distinct : Distinct js

-- a row on which a write does not activate a job
abbrev pub Calm : (Job → Job) → ℕ → List Job → Type 0
Calm f i js =
    All (λ r. r.id ≡ i → (d : ℕ) → is_active_of d (f r) ≡ true → is_active_of d r ≡ true) js

-- a write that keeps the row's key
abbrev pub KeepsId : (Job → Job) → Type 0
KeepsId f = (r : Job) → (f r).id ≡ r.id

pub amend-IsSound :
    (f : Job → Job) (i : ℕ) (js : List Job)
    → KeepsId f
    → Calm f i js
    → IsSound js
    → IsSound (amend_jobs i f js)
amend-IsSound f i js k c s = record {
  one_active = λ d.
      omega (arith, s.one_active d, count-amend_jobs d i f js (All-imp _ _ (λ r h e. h e d) js c));
  distinct = Distinct-amend_jobs i f js k s.distinct;
}

module _ (now : ℕ) where
  pub terminate-Calm :
      (st : Status) (detail : Option String) (i : ℕ) (js : List Job)
      → is_active st ≡ false
      → Calm (terminate now st detail) i js
  unfolding terminate
  terminate-Calm st detail i [] h = tt
  terminate-Calm st detail i (j ∷ js) h = ((λ e d a. ground arith), terminate-Calm st detail i js h)

  pub terminate-IsSound :
      (st : Status) (detail : Option String) (i : ℕ) (js : List Job)
      → is_active st ≡ false
      → IsSound js
      → IsSound (amend_jobs i (terminate now st detail) js)
  terminate-IsSound st detail i js h s =
      amend-IsSound (terminate now st detail) i js (λ r. unfold terminate in refl)
        (terminate-Calm st detail i js h) s

  -- Moving the job that was found keeps it the only one.
  pub advance-IsSound :
      (st : Status) (pct : Job → ℕ) (d : ℕ) (j : Job) (db : Db)
      → find_active_job db d ≡ some j
      → IsSound db.jobs
      → IsSound (amend_jobs j.id (λ r. advance now st (pct r) r) db.jobs)
  advance-IsSound st pct d j db e s =
      amend-IsSound (λ r. advance now st (pct r) r) j.id db.jobs
        (λ r. unfold advance in ground arith)
        (All-imp _ _ (λ r active q d' a. moved r (active q) d' a) db.jobs
          (found_row db d j s.distinct e))
        s
    where
      moved :
          (r : Job)
          → is_active_of d r ≡ true
          → (d' : ℕ) → is_active_of d' (advance now st (pct r) r) ≡ true
          → is_active_of d' r ≡ true
      moved r a d' b = unfold advance in ground arith
