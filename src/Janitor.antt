-- ===== src/Janitor.antt =====
-- server/orchestrator/janitor.py: the sweeps that recover tasks of dead workers, pass terminal
-- statuses on, find what to enqueue again, and drop old records.
pub mod Frame
pub mod Settled
pub mod Propagated
use scene_api.Base.{
  ℕ, suc, ◌-◌, String, Bool, true, false, not, ◌&&◌, ◌||◌, Option, none, some, List, [], ◌∷◌, ◌++◌,
  map, ◌==◌, ltb, if◌then◌else◌, is_none, length, any, select, update_where, distinct, get,
}
use scene_api.Db.{
  Task, TaskStatus, Json, text, object, Fields, end, field, Job, JobStatus, Db, enqueue,
  set_reconstruction, delete_job_records, emit,
}
use scene_api.Readiness.{DepState, StatusMap, dependencies_ready, dependency_state}
use scene_api.Lease.{is_pending, is_running}
use scene_api.Sweep.{Visit, Swept, status_by_id, settle}
use scene_api.Dispatcher.{dependency_failed, dependency_cancelled}
use scene_api.JobService.{finalize_job_if_ready}

-- `status = 'running' AND lease_expires_at IS NOT NULL AND lease_expires_at < now`
abbrev pub lease_expired : Option ℕ → ℕ → Bool
lease_expired none now = false
lease_expired (some t) now = ltb t now

unfoldable pub is_expired : ℕ → Task → Bool
is_expired now t = is_running t.status && lease_expired t.lease_expires_at now

abbrev pub reset_lease : Task → Task
reset_lease t = record t { status = TaskStatus.pending; worker_id = none; lease_expires_at = none }

-- `reclaim_expired_leases`: the UPDATE applies the predicate again, to the ids selected before it.
unfoldable pub reclaim_expired_leases : ℕ → List Task → List Task × List String
reclaim_expired_leases now rows =
    let reclaimed = map (λ t. t.task_id) (select (is_expired now) rows) in
    (
      update_where (λ t. is_expired now t && any (λ id. id == t.task_id) reclaimed) reset_lease
          rows,
      reclaimed,
    )

-- `_load_pending_tasks_with_dep_statuses`: the statuses of the pending rows and of every row that
-- one of them names.
unfoldable pub statuses_for_pending : List Task → StatusMap
statuses_for_pending rows =
    let pending = select (λ t. is_pending t.status) rows in
    status_by_id (
      select
        (λ t. is_pending t.status || any (λ p. any (λ dep. dep == t.task_id) p.depends_on) pending)
        rows)

abbrev has_state : Option Fields → Bool
has_state none = false
has_state (some s) = true

unfoldable pub find_ready_pending_tasks : List Task → List String
find_ready_pending_tasks rows =
    let m = statuses_for_pending rows in
    map (λ t. t.task_id)
      (select
        (λ t. is_pending t.status && (has_state t.task_state && dependencies_ready t.depends_on m))
        rows)

abbrev pub is_pending_entry : Option TaskStatus → Bool
is_pending_entry none = false
is_pending_entry (some s) = is_pending s

abbrev pub missing_text : Bool → Task → Task
missing_text true t = record t { error_message = some "upstream dependency missing" }
missing_text false t = t

-- The row after its dependency state was looked at, where that ends the task.
abbrev pub settled_by : ℕ → DepState → (missing : Bool) → Task → Option Task
settled_by now DepState.failed missing t = some (missing_text missing (dependency_failed now t))
settled_by now DepState.cancelled missing t = some (dependency_cancelled now TaskStatus.cancelled t)
settled_by now DepState.cancelled_dirty missing t =
    some (dependency_cancelled now TaskStatus.cancelled_dirty t)
settled_by now DepState.ready missing t = none
settled_by now DepState.blocked missing t = none

-- The body of the loop of `propagate_terminal_dependencies`: it runs over the rows that were
-- pending when the sweep began, and goes by the status map.
unfoldable pub visit_pending : ℕ → Visit
visit_pending now m t =
    if is_pending t.status && is_pending_entry (get t.task_id m)
    then settled_by now (dependency_state t.depends_on m)
        (any (λ dep. is_none (get dep m)) t.depends_on) t
    else none

unfoldable pub propagate_loop : ℕ → List Task → Swept
propagate_loop now rows =
    settle (suc (length rows)) (visit_pending now) (statuses_for_pending rows) rows

-- `task_state_json["inputs"]["recon_id"]`, if it is a text that is not empty
abbrev pub lookup_field : String → Fields → Option Json
lookup_field k end = none
lookup_field k (field j v rest) = if j == k then some v else lookup_field k rest

abbrev text_or_none : Option Json → Option String
text_or_none (some (text s)) = if s == "" then none else some s
text_or_none _ = none

abbrev recon_id_in : Option Json → Option String
recon_id_in (some (object inputs)) = text_or_none (lookup_field "recon_id" inputs)
recon_id_in _ = none

unfoldable pub task_recon_id : Task → Option String
task_recon_id t = elim t.task_state [
  | none ↦ none
  | some state ↦ recon_id_in (lookup_field "inputs" state)
]

abbrev resource_status : TaskStatus → Option TaskStatus
resource_status TaskStatus.failed = some TaskStatus.failed
resource_status TaskStatus.cancelled = some TaskStatus.cancelled
resource_status TaskStatus.cancelled_dirty = some TaskStatus.cancelled_dirty
resource_status _ = none

-- `_resource_status_for_task`
abbrev pub resource_status_for_task : Task → Option TaskStatus
resource_status_for_task t = resource_status t.status

-- `affected_reconstructions`: keyed by tenant and reconstruction, in the order of the first entry.
abbrev pub Affected : Type 0
Affected = List (String × String × TaskStatus)

abbrev pub affect : (tenant_id recon_id : String) → TaskStatus → Affected → Affected
affect tenant recon s [] = (tenant, recon, s) ∷ []
affect tenant recon s ((tenant', recon', s') ∷ rest) =
    let later = affect tenant recon s rest in
    if tenant' == tenant && recon' == recon
    then (tenant', recon', s) ∷ rest
    else (tenant', recon', s') ∷ later

abbrev pub affect_by : Task → Option String → Option TaskStatus → Affected → Affected
affect_by t (some recon_id) (some s) seen = affect t.tenant_id recon_id s seen
affect_by t _ _ seen = seen

abbrev pub affected_reconstructions : List Task → Affected → Affected
affected_reconstructions [] seen = seen
affected_reconstructions (t ∷ ts) seen =
    affected_reconstructions ts (affect_by t (task_recon_id t) (resource_status_for_task t) seen)

abbrev pub finalize_all : ℕ → List String → Db → Db
finalize_all now [] db = db
finalize_all now (id ∷ ids) db = finalize_all now ids (finalize_job_if_ready id now db).0

-- `propagate_terminal_dependencies`; the set of affected jobs is gone through in the order of its
-- first entries.
unfoldable pub propagate_terminal_dependencies : ℕ → Db → Db × List String
propagate_terminal_dependencies now db =
    let swept = propagate_loop now db.tasks in
    (
      finalize_all now (distinct (map (λ t. t.job_id) swept.changed)) (
          emit
            (map (λ a. set_reconstruction a.0 a.1 a.2) (affected_reconstructions swept.changed []))
            (record db { tasks = swept.rows })),
      map (λ t. t.task_id) swept.changed,
    )

abbrev pub is_terminal_job : JobStatus → Bool
is_terminal_job JobStatus.pending = false
is_terminal_job _ = true

abbrev before : Option ℕ → ℕ → Bool
before none cutoff = false
before (some t) cutoff = ltb t cutoff

unfoldable pub is_retired : (cutoff : ℕ) → Job → Bool
is_retired cutoff j = is_terminal_job j.status && (not j.pinned && before j.finished_at cutoff)

abbrev or_zero : Option ℕ → ℕ → Option ℕ
or_zero none now = none
or_zero (some retention) now = some (now - retention)

abbrev pub dropping : Option ℕ → Db → Db × ℕ
dropping none db = (db, 0)
dropping (some cutoff) db =
    let jobs = select (is_retired cutoff) db.jobs in
    let gone = λ (job_id : String). any (λ j. j.job_id == job_id) jobs in
    (
      emit (map (λ j. delete_job_records j.job_id) jobs) (record db {
        jobs = select (λ j. not (gone j.job_id)) db.jobs;
        tasks = select (λ t. not (gone t.job_id)) db.tasks;
      }),
      length jobs,
    )

-- `gc_expired_job_records`; `retention` is `retention_days` in the unit of the clock. The clock is
-- past the retention window, so that the subtraction is exact; before that no row is old enough.
unfoldable pub gc_expired_job_records : (retention : Option ℕ) → (now : ℕ) → Db → Db × ℕ
gc_expired_job_records retention now db = dropping (or_zero retention now) db

-- `run_janitor_once` without its upload sweep.
unfoldable pub run_janitor_once : (retention : Option ℕ) → (now : ℕ) → Db → Db × List String
run_janitor_once retention now db =
    let (rows, reclaimed) = reclaim_expired_leases now db.tasks in
    let (db', _) = propagate_terminal_dependencies now (record db { tasks = rows }) in
    let ready = find_ready_pending_tasks db'.tasks in
    let db'' = emit (map (λ id. enqueue id) (distinct (reclaimed ++ ready))) db' in
    ((gc_expired_job_records retention now db'').0, reclaimed)
