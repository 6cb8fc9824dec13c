-- ===== src/Ota/Stale.antt =====
-- A device check beside a sweep: process_check of api/modules/device/ota.py reads the job, waits for the S3 URL,
-- and then writes the job, while sweep_timed_out_jobs may close it.
use mathlib.Core.List.{Memᴰ}
use pigugu_server.Common.{
  ℕ, ◌≡◌, refl, subst, String, true, false, Option, some, List, [], ◌∷◌, arith, ◌⊎◌, ◌==◌,
  if◌then◌else◌, ==_iff,
}
use pigugu_server.Models.{notified, failed, Job, Firmware, Db}
use pigugu_server.Ota.Tables.{amend_jobs}
use pigugu_server.Ota.Jobs.{
  advance, terminate, check_job, offer_firmware, is_on_target, same_status,
}
use pigugu_server.Ota.Reports.{sweep_timed_out_jobs, sweep_rows, is_stuck, time_out}

Memᴰ-amend :
    (i : ℕ) (f : Job → Job) (r : Job) (js : List Job)
    → r.id ≡ i
    → Memᴰ r js
    → Memᴰ (f r) (amend_jobs i f js)
unfolding amend_jobs
Memᴰ-amend i f r [] own m = elim m [ ]
Memᴰ-amend i f r (j ∷ js) own (Memᴰ.head e) =
    Memᴰ.head
      (subst (λ x. f r ≡ (if x.id == i then f x else x)) e (rw ((==_iff r.id i).1 own) refl))
Memᴰ-amend i f r (j ∷ js) own (Memᴰ.tail m) = Memᴰ.tail (Memᴰ-amend i f r js own m)

Memᴰ-sweep :
    (now timeout : ℕ) (r : Job) (js : List Job)
    → is_stuck now timeout r ≡ true
    → Memᴰ r js
    → Memᴰ (time_out now r) (sweep_rows now timeout js)
unfolding sweep_rows
Memᴰ-sweep now timeout r [] stuck m = elim m [ ]
Memᴰ-sweep now timeout r (j ∷ js) stuck (Memᴰ.head e) = Memᴰ.head (
    subst (λ x. time_out now r ≡ (if is_stuck now timeout x then time_out now x else x)) e
      (rw stuck refl))
Memᴰ-sweep now timeout r (j ∷ js) stuck (Memᴰ.tail m) =
    Memᴰ.tail (Memᴰ-sweep now timeout r js stuck m)

-- A check has read a job of the table that is not notified, its firmware with an S3 URL is due, and a sweep for which
-- the job is stuck runs before the check writes: then the sweep closes the job's row as failed, with the time of its
-- end, and the check's write makes that closed row notified, with the time of its end still on it.
pub stale_check_reopens :
    (presign : String → Option String) (now timeout later : ℕ) (current : Option String) (db : Db)
    (j : Job) (fw : Firmware) (url : String)
    → Memᴰ j db.jobs
    → is_stuck now timeout j ≡ true
    → same_status j.status notified ≡ false
    → presign fw.file_key ≡ some url
    → (j.force ≡ true) ⊎ (is_on_target current fw.version ≡ false)
    → let swept = (sweep_timed_out_jobs now timeout db).0 in
      let written = (check_job presign later current j (some fw) swept).0 in
      (r : Job) × Memᴰ r swept.jobs
      × (r.status ≡ failed)
      × (r.finished_at ≡ some now)
      × Memᴰ (record r { status = notified; updated_at = later }) written.jobs
unfolding sweep_timed_out_jobs
stale_check_reopens presign now timeout later current db j fw url there stuck fresh signed due =
    let swept = Memᴰ-sweep now timeout j db.jobs stuck there in
    (
      time_out now j,
      swept,
      unfold terminate in refl,
      unfold terminate in refl,
      rw offered (
          unfold terminate advance in
          Memᴰ-amend j.id (λ r. advance later notified r.progress_pct r) (time_out now j)
            (sweep_rows now timeout db.jobs) refl swept),
    )
  where
    offered :
        (check_job presign later current j (some fw) (sweep_timed_out_jobs now timeout db).0).0.jobs
        ≡ amend_jobs j.id
            (λ r. advance later notified r.progress_pct r)
            (sweep_rows now timeout db.jobs)
    offered = unfold check_job offer_firmware in rw signed (ground arith)
