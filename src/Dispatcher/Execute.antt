-- ===== src/Dispatcher/Execute.antt =====
-- `execute_task` and `_finalize_task`.
use Prim.Native.String
use scene_api.Base.{
  ℕ, String, Bool, false, not, Option, none, some, List, [], ◌∷◌, ◌==◌, if◌then◌else◌, any, select,
}
use scene_api.Db.{
  Task, TaskStatus, Job, Db, Fields, status_hook, success_hook, record_artifacts, derived_dataset,
  find_task, find_job, save_task, emit,
}
use scene_api.Readiness.{DepState, dependency_state}
use scene_api.Lease.{is_pending, try_acquire_lease, owns_live_running_lease}
use scene_api.Sweep.{status_by_id}
use scene_api.Dispatcher.Advance.{
  has_deps, dependency_failed, dependency_cancelled, advance_job_after_terminal, post_terminal,
}
use scene_api.Dispatcher.Defs.{
  Pickup, missing, not_pending, blocked, dependency, busy, cancelled, started, Outcome, no_handler,
  returned, commit_raised, backend_unavailable, raised, Finish,
}

-- `_task_dependency_state`: the states of the named rows, of whatever job.
unfoldable pub task_dependency_state : List Task → Task → DepState
task_dependency_state rows task =
    if not (has_deps task.depends_on)
    then DepState.ready
    else dependency_state task.depends_on
        (status_by_id (select (λ t. any (λ dep. dep == t.task_id) task.depends_on) rows))

abbrev pub or_old : Option String → Option String → Option String
or_old none old = old
or_old (some e) old = some e

-- The row that `_finalize_task` writes.
abbrev pub finalized : TaskStatus → Option String → Option String → ℕ → Task → Task
finalized status error_class error_message now t = record t {
  status = status;
  error_class = or_old error_class t.error_class;
  error_message = or_old error_message t.error_message;
  finished_at = some now;
}

-- `_finalize_task`, then `_post_terminal`, which every caller runs right after it.
unfoldable pub finalize_task : TaskStatus → Option String → Option String → ℕ → Task → Db → Db
finalize_task status error_class error_message now t db =
    let t' = finalized status error_class error_message now t in
    post_terminal t.job_id now
      (emit (status_hook t' "failed" ∷ []) (record db { tasks = save_task t' db.tasks }))

abbrev pub cancel_flags : Option Job → Bool × Bool
cancel_flags none = (false, false)
cancel_flags (some j) = (j.cancel_requested, j.cancel_force)

-- The row of a task that starts to run.
abbrev pub running_row : ℕ → Task → Task
running_row now t = record t { status = TaskStatus.running; started_at = some now }

-- With the lease: the cancellation test, or the start.
unfoldable pub begin : ℕ → Task → Db → Db × Pickup
begin now task db =
    let (requested, force) = cancel_flags (find_job task.job_id db.jobs) in
    if requested
    then (
      finalize_task (if force then TaskStatus.cancelled_dirty else TaskStatus.cancelled) none none
          now task db,
      cancelled,
    )
    else (
      emit (status_hook (running_row now task) "running" ∷ [])
          (record db { tasks = save_task (running_row now task) db.tasks }),
      started (running_row now task),
    )

-- `session.refresh` reads the row again.
abbrev pub refreshed : Option Task → ℕ → Db → Db × Pickup
refreshed none now db = (db, missing)
refreshed (some task) now db = begin now task db

unfoldable pub acquire : (worker : String) → (ttl now : ℕ) → Task → Db → Db × Pickup
acquire worker ttl now task db =
    let (rows, acquired) = try_acquire_lease task.task_id worker ttl now now db.tasks in
    let db' = record db { tasks = rows } in
    if acquired then refreshed (find_task task.task_id rows) now db' else (db', busy)

-- What the dependency state makes of the task.
unfoldable pub dispatch : DepState → (worker : String) → (ttl now : ℕ) → Task → Db → Db × Pickup
dispatch DepState.blocked worker ttl now task db = (db, blocked)
dispatch DepState.failed worker ttl now task db = (
  advance_job_after_terminal task.job_id now
      (record db { tasks = save_task (dependency_failed now task) db.tasks }),
  dependency DepState.failed,
)
dispatch DepState.cancelled worker ttl now task db = (
  advance_job_after_terminal task.job_id now (record db {
    tasks = save_task (dependency_cancelled now TaskStatus.cancelled task) db.tasks;
  }),
  dependency DepState.cancelled,
)
dispatch DepState.cancelled_dirty worker ttl now task db = (
  advance_job_after_terminal task.job_id now (record db {
    tasks = save_task (dependency_cancelled now TaskStatus.cancelled_dirty task) db.tasks;
  }),
  dependency DepState.cancelled_dirty,
)
dispatch DepState.ready worker ttl now task db = acquire worker ttl now task db

abbrev pub picking : Option Task → (worker : String) → (ttl now : ℕ) → Db → Db × Pickup
picking none worker ttl now db = (db, missing)
picking (some task) worker ttl now db =
    if is_pending task.status
    then dispatch (task_dependency_state db.tasks task) worker ttl now task db
    else (db, not_pending task.status)

-- The first session of `execute_task`.
unfoldable pub pickup : (worker : String) → (ttl now : ℕ) → (task_id : String) → Db → Db × Pickup
pickup worker ttl now task_id db = picking (find_task task_id db.tasks) worker ttl now db

-- The successful end: outputs, artifacts and hooks in the code's order.
abbrev pub succeeded_row : ℕ → Fields → Task → Task
succeeded_row now outputs t = record t {
  status = TaskStatus.succeeded;
  outputs_ref = some outputs;
  finished_at = some now;
}

unfoldable pub commit_success : ℕ → Fields → Task → Db → Db × Finish
commit_success now outputs t db =
    let t' = succeeded_row now outputs t in
    (
      post_terminal t.job_id now (
          emit
            (derived_dataset t outputs ∷ record_artifacts t' outputs ∷ success_hook t' outputs ∷ [])
            (record db { tasks = save_task t' db.tasks })),
      Finish.succeeded outputs,
    )

-- The last session of a task whose lease this worker still owns. An exception before the commit
-- of a success rolls that session back; the handler of `except Exception` opens another.
unfoldable pub settle_outcome : Outcome → ℕ → Task → Db → Db × Finish
settle_outcome no_handler now t db = (
  finalize_task TaskStatus.failed (some "UnknownTask")
      (some (String.◌++◌ "No handler for kind=" t.kind)) now t db,
  Finish.failed,
)
settle_outcome (backend_unavailable cls msg) now t db =
    (finalize_task TaskStatus.failed (some cls) (some msg) now t db, Finish.failed)
settle_outcome (raised cls msg) now t db =
    (finalize_task TaskStatus.failed (some cls) (some msg) now t db, Finish.failed)
settle_outcome (returned outputs) now t db =
    if (cancel_flags (find_job t.job_id db.jobs)).0
    then (
      finalize_task TaskStatus.cancelled_dirty (some "Cancelled")
          (some "job cancellation requested before task commit") now t db,
      Finish.cancelled_dirty,
    )
    else commit_success now outputs t db
settle_outcome (commit_raised outputs cls msg) now t db =
    if (cancel_flags (find_job t.job_id db.jobs)).0
    then (
      finalize_task TaskStatus.cancelled_dirty (some "Cancelled")
          (some "job cancellation requested before task commit") now t db,
      Finish.cancelled_dirty,
    )
    else (finalize_task TaskStatus.failed (some cls) (some msg) now t db, Finish.failed)

abbrev pub finishing : Option Task → (worker : String) → ℕ → Outcome → Db → Db × Finish
finishing none worker now outcome db = (db, Finish.missing)
finishing (some t) worker now outcome db =
    if owns_live_running_lease worker now t
    then settle_outcome outcome now t db
    else (db, Finish.lost_lease)

-- The last session of `execute_task`: the row is read again, and so is its lease.
unfoldable pub finish : (worker : String) → ℕ → (task_id : String) → Outcome → Db → Db × Finish
finish worker now task_id outcome db = finishing (find_task task_id db.tasks) worker now outcome db
