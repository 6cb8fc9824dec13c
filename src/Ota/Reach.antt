-- ===== src/Ota/Reach.antt =====
-- The service as a transition system on the tables: whatever checks, triggers, reports and sweeps come,
-- in whatever order. Each is one step: what a transaction does between the read of a row and its write to it is
-- not taken apart here (Ota/Stale has a check with a sweep between the two).
use pigugu_server.Common.{ℕ, ◌≡◌, ◌≢◌, sym, subst, String, Bool, Option, List, ◌++◌, All}
use pigugu_server.Common.Int.{ℤ}
use pigugu_server.Models.{Status, Job, Device, Db}
use pigugu_server.Ota.Jobs.{process_check}
use pigugu_server.Ota.Create.{trigger_upgrade}
use pigugu_server.Ota.Reports.{apply_ota_report, sweep_timed_out_jobs}
use pigugu_server.Ota.Invariant.{IsSound}
use pigugu_server.Ota.OneActive.{process_check-IsSound, apply_ota_report-IsSound, sweep-IsSound}
use pigugu_server.Ota.Trigger.{trigger_upgrade-IsSound}

-- One request or one sweep. A trigger's new id is fresh, and the rows that other transactions add while
-- it runs keep the table's indexes.
pub data Step (db db' : Db) : Type 0 where
  check :
      (presign : String → Option String) (now : ℕ) (device : Device) (version git : Option String)
      → db' ≡ (process_check presign now device version git db).0
      → Step db db'
  trigger :
      (board : String) (id now : ℕ) (raced : List Job) (device : Device) (wanted : Option ℕ)
      (force : Bool) (by : Option String)
      → All (λ r. r.id ≢ id) (raced ++ db.jobs)
      → IsSound (raced ++ db.jobs)
      → db' ≡ (trigger_upgrade board id now raced device wanted force by db).0
      → Step db db'
  report :
      (normal : String → String) (ilike : String → String → Bool) (now : ℕ) (hw_id : String)
      (state : Option Status) (version : Option String) (progress : Option ℤ)
      → db' ≡ (apply_ota_report normal ilike now hw_id state version progress db).0
      → Step db db'
  sweep : (now timeout : ℕ) → db' ≡ (sweep_timed_out_jobs now timeout db).0 → Step db db'

pub data Reach (s : Db) : Db → Type 0 where
  here : Reach s s
  next : {t u : Db} → Reach s t → Step t u → Reach s u

Step-IsSound : {s t : Db} → Step s t → IsSound s.jobs → IsSound t.jobs
Step-IsSound {s} (check presign now device version git e) h =
    subst (λ (x : Db). IsSound x.jobs) (sym e)
      (process_check-IsSound presign now device version git s h)
Step-IsSound {s} (trigger board id now raced device wanted force by fresh ok e) h =
    subst (λ (x : Db). IsSound x.jobs) (sym e)
      (trigger_upgrade-IsSound now board id raced device wanted force by s fresh ok)
Step-IsSound {s} (report normal ilike now hw_id state version progress e) h =
    subst (λ (x : Db). IsSound x.jobs) (sym e)
      (apply_ota_report-IsSound now normal ilike hw_id state version progress s h)
Step-IsSound {s} (sweep now timeout e) h =
    subst (λ (x : Db). IsSound x.jobs) (sym e) (sweep-IsSound now timeout s h)

-- From a table with distinct keys and at most one active job for each device, every table that checks,
-- triggers, reports and sweeps, each as one step, lead to has them too, where a trigger's new key is fresh and the rows
-- that other transactions insert beside it keep the table sound.
pub Reach-IsSound : {s t : Db} → IsSound s.jobs → Reach s t → IsSound t.jobs
Reach-IsSound h here = h
Reach-IsSound h (next r st) = Step-IsSound st (Reach-IsSound h r)
