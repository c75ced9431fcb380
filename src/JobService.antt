-- ===== src/JobService.antt =====
-- server/services/job_service.py: job rows, the task cache and the roll-up of a job's status.
pub mod Cache
pub mod Hits
pub mod RollUp
use scene_api.Base.{
  ℕ, String, Bool, true, false, ◌&&◌, ◌||◌, Option, none, some, List, [], ◌∷◌, ◌++◌, ◌==◌,
  if◌then◌else◌, any, select, first,
}
use scene_api.Error.{Result, ok, err, not_found}
use scene_api.Db.{Task, TaskStatus, Job, JobStatus, Fields, Db, find_job, save_job}

abbrev pub is_succeeded : TaskStatus → Bool
is_succeeded TaskStatus.succeeded = true
is_succeeded _ = false

abbrev pub is_failed : TaskStatus → Bool
is_failed TaskStatus.failed = true
is_failed _ = false

-- `status in {"pending", "running"}`
abbrev pub in_flight : TaskStatus → Bool
in_flight TaskStatus.pending = true
in_flight TaskStatus.running = true
in_flight _ = false

-- `status in {"cancelled", "cancelled_dirty"}`
abbrev pub is_cancelled : TaskStatus → Bool
is_cancelled TaskStatus.cancelled = true
is_cancelled TaskStatus.cancelled_dirty = true
is_cancelled _ = false

-- `create_job`, with the id that the row's default gives it.
unfoldable pub create_job :
    (job_id tenant_id project_id recipe : String) → Option Fields → Db → Db × Job
create_job job_id tenant_id project_id recipe spec db =
    let job : Job = record {
      job_id = job_id;
      tenant_id = tenant_id;
      project_id = project_id;
      recipe = recipe;
      spec = spec;
      status = JobStatus.pending;
      cancel_requested = false;
      cancel_force = false;
      pinned = false;
      error_class = none;
      error_message = none;
      started_at = none;
      finished_at = none;
    } in
    (record db { jobs = db.jobs ++ job ∷ [] }, job)

abbrev pub or_not_found : Option Job → Result Job
or_not_found none = err not_found
or_not_found (some j) = ok j

unfoldable pub get_job : (tenant_id job_id : String) → Db → Result Job
get_job tenant_id job_id db =
    or_not_found (first (λ j. j.tenant_id == tenant_id && j.job_id == job_id) db.jobs)

abbrev cancelling : Bool → Result Job → Db → Db × Result Job
cancelling force (err e) db = (db, err e)
cancelling force (ok j) db =
    let j' = record j { cancel_requested = true; cancel_force = force || j.cancel_force } in
    (record db { jobs = save_job j' db.jobs }, ok j')

unfoldable pub cancel_job : (tenant_id job_id : String) → (force : Bool) → Db → Db × Result Job
cancel_job tenant_id job_id force db = cancelling force (get_job tenant_id job_id db) db

-- The status that a job's tasks add up to; `none` while one of them is in flight.
unfoldable pub new_status : List Task → Option JobStatus
new_status rows =
    if any (λ t. in_flight t.status) rows
    then none
    else some (
        if any (λ t. is_failed t.status) rows
        then JobStatus.failed
        else if any (λ t. is_cancelled t.status) rows
        then JobStatus.cancelled
        else JobStatus.succeeded)

abbrev pub job_status_eq : JobStatus → JobStatus → Bool
job_status_eq JobStatus.pending JobStatus.pending = true
job_status_eq JobStatus.succeeded JobStatus.succeeded = true
job_status_eq JobStatus.failed JobStatus.failed = true
job_status_eq JobStatus.cancelled JobStatus.cancelled = true
job_status_eq JobStatus.cancelled_dirty JobStatus.cancelled_dirty = true
job_status_eq _ _ = false

-- The new status and its time, where it differs from the old.
abbrev stamped : JobStatus → ℕ → Job → Job
stamped status now j =
    if job_status_eq j.status status
    then j
    else record j { status = status; finished_at = some now }

-- The error of the first failed task, for the job.
abbrev with_error_of : Option Task → Job → Job
with_error_of none j = j
with_error_of (some t) j = record j { error_class = t.error_class; error_message = t.error_message }

unfoldable pub rolled_up : JobStatus → ℕ → List Task → Job → Job
rolled_up status now rows j =
    let j' = stamped status now j in
    if job_status_eq status JobStatus.failed
    then with_error_of (first (λ t. is_failed t.status) rows) j'
    else j'

abbrev pub rows_of : String → List Task → List Task
rows_of job_id rows = select (λ t. t.job_id == job_id) rows

abbrev finalizing : Option JobStatus → Option Job → ℕ → List Task → Db → Db × Option Job
finalizing none j now rows db = (db, none)
finalizing (some status) none now rows db = (db, none)
finalizing (some status) (some j) now rows db =
    let j' = rolled_up status now rows j in (record db { jobs = save_job j' db.jobs }, some j')

abbrev pub unless_empty : List Task → Option JobStatus → Option JobStatus
unless_empty [] status = none
unless_empty (t ∷ ts) status = status

unfoldable pub finalize_job_if_ready : (job_id : String) → (now : ℕ) → Db → Db × Option Job
finalize_job_if_ready job_id now db =
    let rows = rows_of job_id db.tasks in
    finalizing (unless_empty rows (new_status rows)) (find_job job_id db.jobs) now rows db
