-- ===== src/Ota/Trigger.antt =====
-- A trigger keeps at most one active job for each device, also when other transactions insert theirs
-- between its look at the active job and its own insert.
use mathlib.Core.Option.{some-injective}
use pigugu_server.Common.{
  subst, ℕ, ◌≤◌, ◌≡◌, ◌≢◌, refl, String, Bool, Option, none, some, List, [], ◌∷◌, ◌++◌, arith,
  Bool-cases, inl, inr, count, count-append, All, All-imp,
}
use pigugu_server.Models.{superseded, Job, Firmware, Device, Db}
use pigugu_server.Ota.Tables.{is_active_of, find_active_job, amend_jobs, amend_job}
use pigugu_server.Ota.Jobs.{terminate}
use pigugu_server.Ota.Create.{
  make_way, is_requested, insert_job, insert_wanted, new_job, create_upgrade_job, trigger_upgrade,
  place_job, settle, Outcome, created, raised, wanted_firmware, violates_one_active,
}
use pigugu_server.Ota.Rows.{Distinct, count-amend_jobs, Distinct-amend_jobs, any-count}
use pigugu_server.Ota.Invariant.{IsSound, terminate-Calm}

-- The rows that other transactions have added stand before those that this one has read.
append-IsSound :
    (raced js ks : List Job)
    → ((d : ℕ) → count (is_active_of d) ks ≤ count (is_active_of d) js)
    → Distinct (raced ++ ks)
    → IsSound (raced ++ js)
    → IsSound (raced ++ ks)
append-IsSound raced js ks le u s = record {
  one_active = λ d. omega (
    arith,
    le d,
    s.one_active d,
    count-append (is_active_of d) raced js,
    count-append (is_active_of d) raced ks,
  );
  distinct = u;
}

append-ids :
    (i : ℕ) (f : Job → Job) (n : ℕ) (raced js : List Job)
    → ((r : Job) → (f r).id ≡ r.id)
    → All (λ r. r.id ≢ n) (raced ++ js)
    → All (λ r. r.id ≢ n) (raced ++ amend_jobs i f js)
unfolding amend_jobs
append-ids i f n [] js k h = amend js h
  where
    amend : (ks : List Job) → All (λ r. r.id ≢ n) ks → All (λ r. r.id ≢ n) (amend_jobs i f ks)
    amend [] h = tt
    amend (r ∷ ks) h = (ground (arith, k r, h.0), amend ks h.1)
append-ids i f n (x ∷ raced) js k h = (h.0, append-ids i f n raced js k h.1)

Distinct-append-amend :
    (i : ℕ) (f : Job → Job) (raced js : List Job)
    → ((r : Job) → (f r).id ≡ r.id)
    → Distinct (raced ++ js)
    → Distinct (raced ++ amend_jobs i f js)
Distinct-append-amend i f [] js k u = Distinct-amend_jobs i f js k u
Distinct-append-amend i f (x ∷ raced) js k u =
    (append-ids i f x.id raced js k u.0, Distinct-append-amend i f raced js k u.1)

module _ (now : ℕ) where
  insert_job-IsSound :
      (raced : List Job) (j : Job) (db : Db)
      → All (λ r. r.id ≢ j.id) (raced ++ db.jobs)
      → IsSound (raced ++ db.jobs)
      → IsSound (insert_job raced j db).0.jobs
  unfolding insert_job
  insert_job-IsSound raced j db fresh s =
      elim (Bool-cases (violates_one_active j.device_id (raced ++ db.jobs))) [
        | inl taken ↦ rw taken s
        | inr free ↦ rw free (record {
          one_active = λ d.
              ground (
                arith,
                s.one_active d,
                any-count (is_active_of j.device_id) (raced ++ db.jobs) free,
              );
          distinct = (fresh, s.distinct);
        })
      ]

  insert_wanted-IsSound :
      (id : ℕ) (raced : List Job) (device : Device) (force : Bool) (by : Option String)
      (fw : Option Firmware) (db : Db) (j : Job)
      → All (λ r. r.id ≢ id) (raced ++ db.jobs)
      → IsSound (raced ++ db.jobs)
      → (insert_wanted id now raced device force by fw db).1 ≡ created j
      → IsSound (insert_wanted id now raced device force by fw db).0.jobs
  unfolding insert_wanted
  insert_wanted-IsSound id raced device force by none db j fresh s e = cc
  insert_wanted-IsSound id raced device force by (some fw) db j fresh s e =
      insert_job-IsSound raced (new_job id now device.id fw.id force by) db fresh s

  -- What holds of the tables, and of the tables with one job superseded, holds of what is left when a
  -- trigger has looked at the active job.
  pub make_way_elim :
      (P : Db → Type 0) (o : Option Job) (db db' : Db)
      → P db
      → ((j : Job)
          → o ≡ some j
          → P (amend_job j.id (terminate now superseded (some "replaced")) db))
      → make_way now o db ≡ some db'
      → P db'
  unfolding make_way
  make_way_elim P none db db' same over e = subst P (some-injective _ _ e) same
  make_way_elim P (some j) db db' same over e = elim (Bool-cases (is_requested j.status)) [
    | inl waiting ↦
        let done : some (amend_job j.id (terminate now superseded (some "replaced")) db)
            ≡ some db' =
          rw waiting at e in
        subst P (some-injective _ _ done) (over j refl)
    | inr busy ↦ let none_left : none ≡ some db' = rw busy at e in cc none_left
  ]

  make_way-IsSound :
      (raced : List Job) (o : Option Job) (db db' : Db)
      → IsSound (raced ++ db.jobs)
      → make_way now o db ≡ some db'
      → IsSound (raced ++ db'.jobs)
  make_way-IsSound raced o db db' s =
      make_way_elim (λ x. IsSound (raced ++ x.jobs)) o db db' s
        (λ j q.
          append-IsSound raced db.jobs _
            (λ d. count-amend_jobs d j.id (terminate now superseded (some "replaced")) db.jobs (
              All-imp _ _ (λ r h e. h e d) db.jobs
                (terminate-Calm now superseded (some "replaced") j.id db.jobs refl)))
            (Distinct-append-amend j.id (terminate now superseded (some "replaced")) raced db.jobs
              (λ r. unfold terminate in refl) s.distinct)
            s)

  make_way-fresh :
      (raced : List Job) (o : Option Job) (n : ℕ) (db db' : Db)
      → All (λ r. r.id ≢ n) (raced ++ db.jobs)
      → make_way now o db ≡ some db'
      → All (λ r. r.id ≢ n) (raced ++ db'.jobs)
  make_way-fresh raced o n db db' h =
      make_way_elim (λ x. All (λ r. r.id ≢ n) (raced ++ x.jobs)) o db db' h
        (λ j q.
          append-ids j.id (terminate now superseded (some "replaced")) n raced db.jobs
            (λ r. unfold terminate in refl) h)

  settle-IsSound :
      (raced : List Job) (db : Db) (r : Db × Outcome)
      → IsSound (raced ++ db.jobs)
      → ((j : Job) → r.1 ≡ created j → IsSound r.0.jobs)
      → IsSound (settle raced db r).0.jobs
  unfolding settle
  settle-IsSound raced db (db', created j) s k = k j refl
  settle-IsSound raced db (db', raised e) s k = s

  -- From sound rows, also when other transactions have added theirs in the meantime, a trigger leaves
  -- sound rows, whether it creates a job or raises.
  pub trigger_upgrade-IsSound :
      (board : String) (id : ℕ) (raced : List Job) (device : Device) (wanted : Option ℕ)
      (force : Bool) (by : Option String) (db : Db)
      → All (λ r. r.id ≢ id) (raced ++ db.jobs)
      → IsSound (raced ++ db.jobs)
      → IsSound (trigger_upgrade board id now raced device wanted force by db).0.jobs
  unfolding trigger_upgrade
  trigger_upgrade-IsSound board id raced device wanted force by db fresh s =
      settle-IsSound raced db (create_upgrade_job board id now raced device wanted force by db) s
        (λ j e. placed (make_way now (find_active_job db device.id) db) refl j e)
    where
      placed :
          (o : Option Db)
          → make_way now (find_active_job db device.id) db ≡ o
          → (j : Job) → (place_job board id now raced device wanted force by db o).1 ≡ created j
          → IsSound (place_job board id now raced device wanted force by db o).0.jobs
      placed none q j e = cc
      placed (some db') q j e =
          insert_wanted-IsSound id raced device force by (wanted_firmware board wanted force db')
            db' j (make_way-fresh raced (find_active_job db device.id) id db db' fresh q)
            (make_way-IsSound raced (find_active_job db device.id) db db' s q) e
