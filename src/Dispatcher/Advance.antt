-- ===== src/Dispatcher/Advance.antt =====
-- `_mark_dependency_failures_and_ready`, `_maybe_finalize_job` and what follows a terminal task.
use scene_api.Base.{
  ℕ, suc, String, Bool, true, false, ◌&&◌, Option, none, some, List, [], ◌∷◌, map, ◌==◌,
  if◌then◌else◌, length, all, select, get,
}
use scene_api.Db.{Task, TaskStatus, Job, JobStatus, Db, enqueue, find_job, save_job, emit}
use scene_api.Readiness.{DepState, StatusMap, in_ready, dependency_state}
use scene_api.Lease.{is_pending}
use scene_api.Sweep.{Visit, Swept, status_by_id, settle}
use scene_api.JobService.{
  rows_of, new_status, rolled_up, job_status_eq, unless_empty, finalize_job_if_ready,
}

abbrev pub has_deps : List String → Bool
has_deps [] = false
has_deps (d ∷ ds) = true

-- A pending row whose upstream failed.
abbrev pub dependency_failed : ℕ → Task → Task
dependency_failed now t = record t {
  status = TaskStatus.failed;
  error_class = some "DependencyFailed";
  error_message = some "upstream dependency failed";
  finished_at = some now;
}

-- A pending row whose upstream was cancelled; the status is the dependency state.
abbrev pub dependency_cancelled : ℕ → TaskStatus → Task → Task
dependency_cancelled now status t = record t {
  status = status;
  error_class = some "DependencyCancelled";
  error_message = some "upstream dependency cancelled";
  finished_at = some now;
}

-- The row after its dependency state was looked at, where that ends the task.
abbrev pub doomed : ℕ → DepState → Task → Option Task
doomed now DepState.failed t = some (dependency_failed now t)
doomed now DepState.cancelled t = some (dependency_cancelled now TaskStatus.cancelled t)
doomed now DepState.cancelled_dirty t = some (dependency_cancelled now TaskStatus.cancelled_dirty t)
doomed now DepState.ready t = none
doomed now DepState.blocked t = none

-- The body of the `while` loop. The loop runs over the whole table and passes over the rows of
-- other jobs, which the SELECT of the code leaves out; its status map is made of the job's rows.
unfoldable pub visit_job : String → ℕ → Visit
visit_job job_id now m t =
    if t.job_id == job_id && (is_pending t.status && has_deps t.depends_on)
    then doomed now (dependency_state t.depends_on m) t
    else none

-- `all(status_by_id.get(dep) in READY_DEPENDENCY_STATUSES for dep in deps)` on a pending row
abbrev pub is_ready_row : String → StatusMap → Task → Bool
is_ready_row job_id m t =
    t.job_id == job_id
    && (is_pending t.status
        && (has_deps t.depends_on && all (λ dep. in_ready (get dep m)) t.depends_on))

-- The loop, on one more round than the table has rows.
unfoldable pub mark_loop : String → ℕ → List Task → Swept
mark_loop job_id now rows =
    settle (suc (length rows)) (visit_job job_id now) (status_by_id (rows_of job_id rows)) rows

unfoldable pub mark_dependency_failures_and_ready : String → ℕ → List Task → List Task × List String
mark_dependency_failures_and_ready job_id now rows =
    let swept = mark_loop job_id now rows in
    (swept.rows, map (λ t. t.task_id) (select (is_ready_row job_id swept.statuses) swept.rows))

unfoldable pub advance_job_after_terminal : String → ℕ → Db → Db
advance_job_after_terminal job_id now db =
    let (rows, ready) = mark_dependency_failures_and_ready job_id now db.tasks in
    let (db', _) = finalize_job_if_ready job_id now (record db { tasks = rows }) in
    emit (map (λ id. enqueue id) ready) db'

abbrev pub finalizing : Option JobStatus → Option Job → ℕ → List Task → Db → Db
finalizing none j now rows db = db
finalizing (some status) none now rows db = db
finalizing (some status) (some j) now rows db =
    if job_status_eq j.status status
    then db
    else record db { jobs = save_job (rolled_up status now rows j) db.jobs }

-- `_maybe_finalize_job`: as `finalize_job_if_ready`, but it leaves a job that has the status alone.
unfoldable pub maybe_finalize_job : String → ℕ → Db → Db
maybe_finalize_job job_id now db =
    let rows = rows_of job_id db.tasks in
    finalizing (unless_empty rows (new_status rows)) (find_job job_id db.jobs) now rows db

unfoldable pub post_terminal : String → ℕ → Db → Db
post_terminal job_id now db =
    advance_job_after_terminal job_id now (maybe_finalize_job job_id now db)
