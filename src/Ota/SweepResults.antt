-- ===== src/Ota/SweepResults.antt =====
-- What the timeout sweep finds and leaves, and who is told.
use pigugu_server.Common.{
  ℕ, ◌≡◌, refl, List, [], ◌∷◌, map, length, select, count, arith, Bool-cases, inl, inr, some, All,
}
use pigugu_server.Models.{Job, Db}
use pigugu_server.Ota.Jobs.{terminate}
use pigugu_server.Ota.Reports.{
  is_stuck, time_out, push_of, Push, sweep_rows, sweep_timed_out_jobs, notice_of, no_response,
}

module _ (now timeout : ℕ) where
  length-map-select :
      (js : List Job)
      → length (map (λ j. push_of (time_out now j)) (select (is_stuck now timeout) js))
        ≡ count (is_stuck now timeout) js
  length-map-select [] = refl
  length-map-select (j ∷ js) = ground (arith, length-map-select js)

  length-select :
      (js : List Job) → length (select (is_stuck now timeout) js) ≡ count (is_stuck now timeout) js
  length-select [] = refl
  length-select (j ∷ js) = ground (arith, length-select js)

  none_stuck : (js : List Job) → count (is_stuck now timeout) (sweep_rows now timeout js) ≡ 0
  unfolding sweep_rows
  none_stuck [] = refl
  none_stuck (j ∷ js) = ground (arith, none_stuck js)

  map-All :
      (js : List Job)
      → All
          (λ (p : Push). notice_of p.status p.detail ≡ some no_response)
          (map (λ j. push_of (time_out now j)) (select (is_stuck now timeout) js))
  unfolding notice_of terminate
  map-All [] = tt
  map-All (j ∷ js) = elim (Bool-cases (is_stuck now timeout j)) [
    | inl e ↦ rw e (refl, map-All js)
    | inr e ↦ rw e (map-All js)
  ]

  -- The sweep returns the number of jobs that a device knows of and that have not moved for longer than
  -- the timeout, sends one push for each, which says that there was no response, and leaves none.
  pub sweep_complete :
      (db : Db)
      → let (db', pushes, n) = sweep_timed_out_jobs now timeout db in
        (n ≡ count (is_stuck now timeout) db.jobs)
        × (length pushes ≡ n)
        × All (λ (p : Push). notice_of p.status p.detail ≡ some no_response) pushes
        × (count (is_stuck now timeout) db'.jobs ≡ 0)
  unfolding sweep_timed_out_jobs
  sweep_complete db = (
    length-select db.jobs,
    ground (arith, length-select db.jobs, length-map-select db.jobs),
    map-All db.jobs,
    none_stuck db.jobs,
  )
