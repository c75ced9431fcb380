-- ===== src/Scheduler.antt =====
-- server/orchestrator/scheduler.py and resume.py: a job's tasks are stored and enqueued, and a
-- job that failed or was cancelled is started again.
pub mod Resumed
use scene_api.Base.{
  ℕ, String, Bool, true, false, not, ◌&&◌, Option, none, some, List, [], ◌∷◌, ◌++◌, map, ◌==◌, eqb,
  if◌then◌else◌, is_none, any, count, select, first, update_where, get,
}
use scene_api.Error.{Result, ok, err, not_found, validation}
use scene_api.Db.{Task, TaskStatus, Job, JobStatus, Fields, Db, enqueue, save_job, emit}
use scene_api.Readiness.{StatusMap, dependencies_ready}
use scene_api.Lease.{is_pending}
use scene_api.Sweep.{status_by_id}
use scene_api.JobService.{create_job, finalize_job_if_ready, is_succeeded, rows_of}
use scene_api.JobService.Cache.{TaskNode, with_id, materialize_dag, Services}

-- `_resolve_external_dep_statuses`: the statuses of the rows that a pending task depends on and
-- that the submission has not made.
unfoldable pub resolve_external_dep_statuses : List Task → List Task → StatusMap → StatusMap
resolve_external_dep_statuses rows pending m =
    m
    ++ status_by_id (
        select
          (λ t.
            is_none (get t.task_id m)
            && any (λ p. any (λ dep. dep == t.task_id) p.depends_on) pending)
          rows)

abbrev pub no_rows : List Task → Bool
no_rows [] = true
no_rows (t ∷ ts) = false

-- The end of `submit_job_dag`, after the rows are stored.
unfoldable pub enqueue_ready : (job_id : String) → (now : ℕ) → List Task → Db → Db
enqueue_ready job_id now tasks db =
    let pending = select (λ t. not (is_succeeded t.status)) tasks in
    let m = resolve_external_dep_statuses db.tasks pending (status_by_id tasks) in
    if no_rows pending
    then (finalize_job_if_ready job_id now db).0
    else emit
        (map (λ t. enqueue t.task_id) (select (λ t. dependencies_ready t.depends_on m) pending)) db

module _ (env : Services) where
  abbrev pub with_ids : ℕ → List TaskNode → List TaskNode
  with_ids drawn [] = []
  with_ids drawn (node ∷ nodes) =
      let (n, drawn') = with_id env drawn node in n ∷ with_ids drawn' nodes

  -- `submit_job_dag`; `rv` is the runtime version that `ensure_runtime_version` returns. A delivery
  -- that the queue refuses is dropped, and the task waits for the janitor.
  unfoldable pub submit_job_dag :
      (job_id tenant_id project_id recipe rv : String)
      → Option Fields
      → (now : ℕ) → List TaskNode
      → Db
      → Db × List Task
  submit_job_dag job_id tenant_id project_id recipe rv spec now nodes db =
      let (db', job) = create_job job_id tenant_id project_id recipe spec db in
      let (db'', tasks) = materialize_dag env tenant_id job_id rv (with_ids 0 nodes) db' in
      (enqueue_ready job_id now tasks db'', tasks)

-- `status in ("failed", "cancelled", "cancelled_dirty")`
abbrev pub is_resumable : TaskStatus → Bool
is_resumable TaskStatus.failed = true
is_resumable TaskStatus.cancelled = true
is_resumable TaskStatus.cancelled_dirty = true
is_resumable _ = false

abbrev pub is_resumable_job : JobStatus → Bool
is_resumable_job JobStatus.failed = true
is_resumable_job JobStatus.cancelled = true
is_resumable_job JobStatus.cancelled_dirty = true
is_resumable_job _ = false

abbrev pub reset_task : Task → Task
reset_task t = record t {
  status = TaskStatus.pending;
  error_class = none;
  error_message = none;
  lease_expires_at = none;
  worker_id = none;
  started_at = none;
  finished_at = none;
}

abbrev pub reset_job : Job → Job
reset_job j = record j {
  cancel_requested = false;
  cancel_force = false;
  status = JobStatus.pending;
  error_class = none;
  error_message = none;
  started_at = none;
  finished_at = none;
}

unfoldable pub resets : (job_id : String) → Task → Bool
resets job_id t = t.job_id == job_id && is_resumable t.status

-- The work of `resume_job` on a job that it accepts. The status map is made of the job's own rows.
unfoldable pub restart : Job → Db → Db × Result Job
restart j db =
    let rows = update_where (resets j.job_id) reset_task db.tasks in
    let tasks = rows_of j.job_id rows in
    let m = status_by_id tasks in
    let ready = select (λ t. is_pending t.status && dependencies_ready t.depends_on m) tasks in
    (
      emit (map (λ t. enqueue t.task_id) ready)
          (record db { tasks = rows; jobs = save_job (reset_job j) db.jobs }),
      ok (reset_job j),
    )

abbrev pub resuming : Option Job → Db → Db × Result Job
resuming none db = (db, err not_found)
resuming (some j) db =
    if not (is_resumable_job j.status)
    then (db, err validation)
    else if eqb (count (resets j.job_id) db.tasks) 0
    then (db, err validation)
    else restart j db

unfoldable pub resume_job : (tenant_id job_id : String) → Db → Db × Result Job
resume_job tenant_id job_id db =
    resuming (first (λ j. j.tenant_id == tenant_id && j.job_id == job_id) db.jobs) db
