-- ===== src/Ota/Rows.antt =====
-- What the queries of the service return, and how a write to one row changes the number of a device's
-- active jobs.
use pigugu_server.Common.{
  suc, ℕ, ◌≤◌, ◌≡◌, ◌≢◌, refl, Bool, true, false, Option, none, some, List, [], ◌∷◌, arith, ◌==◌,
  if◌then◌else◌, Bool-cases, Option-cases, inl, inr, count, any, All, All-imp, select, sym, subst,
  ap, ◌∙◌,
}
use mathlib.Core.Option.{some-injective}
use pigugu_server.Models.{Job, Db}
use pigugu_server.Ota.Tables.{
  choose, first_by, is_active_of, later_requested, load, loaded, find_active_job, amend_jobs,
}

module _ {ℓ κ} {A : Type ℓ} (P : A → Type κ) where
  -- What is true of every row that passes the test is true of the row that is returned.
  pub All-select :
      (p : A → Bool) (xs : List A) → All P xs → All (λ x. P x × (p x ≡ true)) (select p xs)
  All-select p [] h = tt
  All-select p (x ∷ xs) h = elim (Bool-cases (p x)) [
    | inl e ↦ rw e ((h.0, e), All-select p xs h.1)
    | inr e ↦ rw e (All-select p xs h.1)
  ]

  All-choose :
      (better : A → A → Bool) (x : A) (o : Option A)
      → P x
      → ((y : A) → o ≡ some y → P y)
      → P (choose better x o)
  unfolding choose
  All-choose better x none h k = h
  All-choose better x (some y) h k = elim (Bool-cases (better y x)) [
    | inl e ↦ rw e (k y refl)
    | inr e ↦ rw e h
  ]

  pub All-first_by :
      (better : A → A → Bool) (xs : List A) (y : A) → All P xs → first_by better xs ≡ some y → P y
  unfolding first_by
  All-first_by better [] y h e = cc
  All-first_by better (x ∷ xs) y h e =
      subst P (some-injective _ _ e)
        (All-choose better x (first_by better xs) h.0 (λ z. All-first_by better xs z h.1))

-- Row ids are primary keys.
abbrev pub Distinct : List Job → Type 0
Distinct [] = Unit
Distinct (j ∷ js) = All (λ r. r.id ≢ j.id) js × Distinct js

abbrev pub SameId : List Job → Job → Type 0
SameId js j = All (λ r. r.id ≡ j.id → r ≡ j) js

pub Distinct-SameId : (js : List Job) → Distinct js → All (SameId js) js
Distinct-SameId [] h = tt
Distinct-SameId (j ∷ js) h = (
  (
    (λ e. refl),
    All-imp (λ r. r.id ≢ j.id) (λ r. r.id ≡ j.id → r ≡ j) (λ r n e. absurd (n e)) js h.0,
  ),
  All-imp2 js h.0 (Distinct-SameId js h.1),
)
  where
    All-imp2 :
        (ks : List Job) → All (λ r. r.id ≢ j.id) ks → All (SameId js) ks → All (SameId (j ∷ js)) ks
    All-imp2 [] a b = tt
    All-imp2 (k ∷ ks) a b = (((λ e. absurd (a.0 (sym e))), b.0), All-imp2 ks a.1 b.1)

-- The row with the id of an active job that was found is that job's row: it is active and belongs to
-- the device.
pub found_row :
    (db : Db) (d : ℕ) (j : Job)
    → Distinct db.jobs
    → find_active_job db d ≡ some j
    → All (λ r. r.id ≡ j.id → is_active_of d r ≡ true) db.jobs
unfolding find_active_job
found_row db d j u e =
    elim (Option-cases (first_by later_requested (select (is_active_of d) db.jobs))) [
      | inl empty ↦ cc
      | inr found ↦
          let is_j : loaded found.0 ≡ j =
            some-injective _ _ (subst (λ o. load o ≡ some j) found.1 e) in
          let row =
            All-first_by (λ r. SameId db.jobs r × (is_active_of d r ≡ true)) later_requested
              (select (is_active_of d) db.jobs) found.0
              (All-select (SameId db.jobs) (is_active_of d) db.jobs (Distinct-SameId db.jobs u))
              found.1 in
          All-imp (λ r. r.id ≡ found.0.id → r ≡ found.0)
            (λ r. r.id ≡ j.id → is_active_of d r ≡ true)
            (λ r same q.
              subst (λ z. is_active_of d z ≡ true)
                (sym (same (q ∙ sym (ap (λ (x : Job). x.id) is_j)))) row.1)
            db.jobs row.0
    ]

-- A write that activates no row leaves no device with more active jobs.
pub count-amend_jobs :
    (d i : ℕ) (f : Job → Job) (js : List Job)
    → All (λ r. r.id ≡ i → is_active_of d (f r) ≡ true → is_active_of d r ≡ true) js
    → count (is_active_of d) (amend_jobs i f js) ≤ count (is_active_of d) js
unfolding amend_jobs
count-amend_jobs d i f [] h = omega arith
count-amend_jobs d i f (j ∷ js) h = ground (arith, h.0, count-amend_jobs d i f js h.1)

pub Distinct-amend_jobs :
    (i : ℕ) (f : Job → Job) (js : List Job)
    → ((r : Job) → (f r).id ≡ r.id)
    → Distinct js
    → Distinct (amend_jobs i f js)
unfolding amend_jobs
Distinct-amend_jobs i f [] k h = tt
Distinct-amend_jobs i f (j ∷ js) k h = (ids js h.0, Distinct-amend_jobs i f js k h.1)
  where
    ids :
        (ks : List Job)
        → All (λ r. r.id ≢ j.id) ks
        → All (λ r. r.id ≢ (if j.id == i then f j else j).id) (amend_jobs i f ks)
    ids [] a = tt
    ids (x ∷ xs) a = (ground (arith, k x, k j, a.0), ids xs a.1)

pub any-count {ℓ} : {A : Type ℓ} (p : A → Bool) (xs : List A) → any p xs ≡ false → count p xs ≡ 0
any-count p [] h = refl
any-count p (x ∷ xs) h = ground (arith, any-count p xs)

-- Closing a row that was active takes it from the device's count.
pub All-closed :
    (d i : ℕ) (f : Job → Job) (js : List Job)
    → ((r : Job) → is_active_of d (f r) ≡ false)
    → All
        (λ r.
          is_active_of d r ≡ true
          → r.id ≡ i
          → suc (count (is_active_of d) (amend_jobs i f js)) ≤ count (is_active_of d) js)
        js
unfolding amend_jobs
All-closed d i f [] k = tt
All-closed d i f (j ∷ js) k = (
  (λ a e. ground (arith, k j, falls js)),
  All-imp _ _ (λ r h a e. ground (arith, k j, h a e)) js (All-closed d i f js k),
)
  where
    falls : (ks : List Job) → count (is_active_of d) (amend_jobs i f ks) ≤ count (is_active_of d) ks
    falls [] = omega arith
    falls (x ∷ xs) = ground (arith, k x, falls xs)

-- What holds of every row of a device's active jobs holds of the job that is found, up to the
-- transient attribute.
pub found_at {κ} :
    (P : Job → Type κ) (db : Db) (d : ℕ) (j : Job)
    → All P db.jobs
    → find_active_job db d ≡ some j
    → (r : Job) × P r × (is_active_of d r ≡ true) × (loaded r ≡ j)
unfolding find_active_job
found_at P db d j h e =
    elim (Option-cases (first_by later_requested (select (is_active_of d) db.jobs))) [
      | inl empty ↦ cc
      | inr found ↦
          let here =
            All-first_by (λ r. P r × (is_active_of d r ≡ true)) later_requested
              (select (is_active_of d) db.jobs) found.0 (All-select P (is_active_of d) db.jobs h)
              found.1 in
          (found.0, here.0, here.1, some-injective _ _ (subst (λ o. load o ≡ some j) found.1 e))
    ]

-- A device with no active job has none to find.
pub find_active_job-none :
    (db : Db) (d : ℕ) → count (is_active_of d) db.jobs ≡ 0 → find_active_job db d ≡ none
unfolding find_active_job
find_active_job-none db d h = rw (empty db.jobs h) (unfold first_by in refl)
  where
    empty : (js : List Job) → count (is_active_of d) js ≡ 0 → select (is_active_of d) js ≡ []
    empty [] h = refl
    empty (j ∷ js) h = ground (arith, empty js)

pub amend_jobs_same : (i : ℕ) (js : List Job) → amend_jobs i (λ r. r) js ≡ js
unfolding amend_jobs
amend_jobs_same i [] = refl
amend_jobs_same i (j ∷ js) = ground (arith, amend_jobs_same i js)
