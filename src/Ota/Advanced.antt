-- ===== src/Ota/Advanced.antt =====
-- The active job after a write to its row: the checks and reports of api/modules/device/ota.py, by what the
-- device's query for its active job finds after them.
use pigugu_server.Common.{
  ℕ, ◌≡◌, refl, sym, subst, ap, ◌∙◌, true, Option, none, some, List, [], ◌∷◌, arith, ◌==◌,
  if◌then◌else◌, Bool-cases, Option-cases, inl, inr, All, All-imp, select, ==_iff,
}
use mathlib.Core.Option.{some-injective}
use pigugu_server.Models.{Status, Job, Db}
use pigugu_server.Ota.Tables.{
  choose, first_by, is_active_of, later_requested, load, loaded, find_active_job, amend_jobs,
  amend_job,
}
use pigugu_server.Ota.Jobs.{advance, is_device_aware}
use pigugu_server.Ota.Rows.{Distinct, found_row}

-- a write to the rows with one key
abbrev amended : ℕ → (Job → Job) → Job → Job
amended i f j = if j.id == i then f j else j

abbrev amended_option : ℕ → (Job → Job) → Option Job → Option Job
amended_option i f none = none
amended_option i f (some j) = some (amended i f j)

module _ (i : ℕ) (f : Job → Job) (timely : (r : Job) → (f r).requested_at ≡ r.requested_at) where
  amended-requested_at : (r : Job) → (amended i f r).requested_at ≡ r.requested_at
  amended-requested_at r = elim (Bool-cases (r.id == i)) [
    | inl e ↦ rw e (timely r)
    | inr e ↦ rw e refl
  ]

  choose-amended :
      (x : Job) (o : Option Job)
      → choose later_requested (amended i f x) (amended_option i f o)
        ≡ amended i f (choose later_requested x o)
  unfolding choose
  choose-amended x none = refl
  choose-amended x (some y) =
      rw (amended-requested_at x, amended-requested_at y)
        (elim (Bool-cases (later_requested y x)) [ inl e ↦ rw e refl | inr e ↦ rw e refl ])

  first_by-amended :
      (js : List Job)
      → first_by later_requested (amend_jobs i f js)
        ≡ amended_option i f (first_by later_requested js)
  unfolding first_by amend_jobs
  first_by-amended [] = refl
  first_by-amended (j ∷ js) =
      rw (first_by-amended js) (ap some (choose-amended j (first_by later_requested js)))

  select-amended :
      (d : ℕ) (js : List Job)
      → All (λ r. r.id ≡ i → is_active_of d (f r) ≡ is_active_of d r) js
      → select (is_active_of d) (amend_jobs i f js) ≡ amend_jobs i f (select (is_active_of d) js)
  unfolding amend_jobs
  select-amended d [] h = refl
  select-amended d (j ∷ js) h =
      let rest = select-amended d js h.1 in
      elim (Bool-cases (j.id == i)) [
        | inl e ↦
            let same = h.0 ((==_iff j.id i).0 e) in
            elim (Bool-cases (is_active_of d j)) [
              | inl a ↦ rw (e, same ∙ a, a, rest) (unfold amend_jobs in rw e refl)
              | inr a ↦ rw (e, same ∙ a, a) rest
            ]
        | inr e ↦ elim (Bool-cases (is_active_of d j)) [
          | inl a ↦ rw (e, a, rest) (unfold amend_jobs in rw e refl)
          | inr a ↦ rw (e, a) rest
        ]
      ]

-- A write that keeps the job active, and its place in the order, is what the next query finds.
find-amended :
    (f : Job → Job) (db : Db) (d : ℕ) (j : Job)
    → Distinct db.jobs
    → find_active_job db d ≡ some j
    → ((r : Job) → (f r).requested_at ≡ r.requested_at)
    → ((r : Job) → loaded (f r) ≡ f (loaded r))
    → ((r : Job) → is_active_of d r ≡ true → is_active_of d (f r) ≡ true)
    → find_active_job (amend_job j.id f db) d ≡ some (f j)
unfolding find_active_job
find-amended f db d j u e timely plain stays =
    rw (select-amended j.id f timely d db.jobs active, first_by-amended j.id f timely found)
      (elim (Option-cases (first_by later_requested found)) [
        | inl empty ↦ cc
        | inr (r, there) ↦
            let is_j : loaded r ≡ j = some-injective _ _ (subst (λ o. load o ≡ some j) there e) in
            let own : (r.id == j.id) ≡ true = (==_iff r.id j.id).1 (ap (λ (x : Job). x.id) is_j) in
            rw (there, own) (ap some (plain r ∙ ap f is_j))
      ])
  where
    found : List Job
    found = select (is_active_of d) db.jobs

    active : All (λ r. r.id ≡ j.id → is_active_of d (f r) ≡ is_active_of d r) db.jobs
    active =
        All-imp (λ r. r.id ≡ j.id → is_active_of d r ≡ true) _ (λ r h q. stays r (h q) ∙ sym (h q))
          db.jobs (found_row db d j u e)

-- the job is there still, with this status and progress, and with its own key, firmware and force
pub record IsAdvanced (st : Status) (pct : ℕ) (j : Job) (o : Option Job) : Type 0 where
  pub job : Job
  pub is_found : o ≡ some job
  pub same_id : job.id ≡ j.id
  pub same_firmware : job.firmware_version_id ≡ j.firmware_version_id
  pub same_force : job.force ≡ j.force
  pub has_status : job.status ≡ st
  pub has_progress : job.progress_pct ≡ pct

pub advance-IsAdvanced :
    (now : ℕ) (st : Status) (pct : Job → ℕ) (db : Db) (d : ℕ) (j : Job)
    → is_device_aware st ≡ true
    → ((r : Job) → pct (loaded r) ≡ pct r)
    → Distinct db.jobs
    → find_active_job db d ≡ some j
    → IsAdvanced st
        (pct j)
        j
        (find_active_job (amend_job j.id (λ r. advance now st (pct r) r) db) d)
advance-IsAdvanced now st pct db d j aware steady u e = record {
  job = advance now st (pct j) j;
  is_found =
      find-amended (λ r. advance now st (pct r) r) db d j u e (λ r. unfold advance in ground arith)
        (λ r. unfold advance in rw (steady r) (ground arith))
        (λ r a. unfold advance in ground arith);
  same_id = unfold advance in ground arith;
  same_firmware = unfold advance in ground arith;
  same_force = unfold advance in ground arith;
  has_status = unfold advance in ground arith;
  has_progress = unfold advance in ground arith;
}
