-- ===== src/System/Successes.antt =====
-- Which operations call the success hook of a task: none but the commit of a success.
use scene_api.Base.{
  ℕ, ◌+◌, String, ◌≡◌, refl, ◌∙◌, inl, inr, Bool, false, not, Option, none, some, List, [], ◌∷◌,
  ◌++◌, map, arith, ◌==◌, Bool-cases, count, select,
}
use scene_api.Db.{
  set_reconstruction, Db, enqueue, success_hook, TaskStatus, Task, Call, find_task, find_job,
}
use scene_api.Dispatcher.{
  advance_job_after_terminal, post_terminal, finalize_task, begin, cancel_flags, refreshed, acquire,
  dispatch, picking, task_dependency_state,
}
use scene_api.Dispatcher.Frame.{calls-post_terminal, calls-advance}
use scene_api.JobService.{is_succeeded, get_job, cancel_job}
use scene_api.Readiness.{DepState}
use scene_api.Janitor.{Affected}
use scene_api.Lease.{try_acquire_lease, is_pending}
use scene_api.Scheduler.{enqueue_ready, no_rows}
use scene_api.JobService.RollUp.{calls-finalize}
use scene_api.JobService.Cache.{settle_cached, Services}

-- The call of the success hook of a task, which `execute_task` makes before the commit.
abbrev pub is_success_of : String → Call → Bool
is_success_of id (success_hook t outputs) = t.task_id == id
is_success_of id _ = false

abbrev pub successes : String → List Call → ℕ
successes id calls = count (is_success_of id) calls

pub successes-append :
    (id : String) (xs ys : List Call) → successes id (xs ++ ys) ≡ successes id xs + successes id ys
successes-append id [] ys = omega arith
successes-append id (x ∷ xs) ys = ground (arith, successes-append id xs ys)

pub successes-enqueue :
    (id : String) (ids : List String) → successes id (map (λ i. enqueue i) ids) ≡ 0
successes-enqueue id [] = refl
successes-enqueue id (i ∷ is) = successes-enqueue id is

module _ (id : String) where
  pub successes-advance :
      (job_id : String) (now : ℕ) (db : Db)
      → successes id (advance_job_after_terminal job_id now db).calls ≡ successes id db.calls
  successes-advance job_id now db =
      rw (calls-advance, successes-append, successes-enqueue) (omega arith)

  pub successes-post_terminal :
      (job_id : String) (now : ℕ) (db : Db)
      → successes id (post_terminal job_id now db).calls ≡ successes id db.calls
  successes-post_terminal job_id now db =
      rw (calls-post_terminal, successes-append, successes-enqueue) (omega arith)

  pub successes-finalize_task :
      (s : TaskStatus) (c m : Option String) (now : ℕ) (t : Task) (db : Db)
      → successes id (finalize_task s c m now t db).calls ≡ successes id db.calls
  unfolding finalize_task
  successes-finalize_task s c m now t db =
      rw (successes-post_terminal, successes-append) (omega arith)

  pub successes-begin :
      (now : ℕ) (t : Task) (db : Db) → successes id (begin now t db).0.calls ≡ successes id db.calls
  unfolding begin
  successes-begin now t db = elim (Bool-cases (cancel_flags (find_job t.job_id db.jobs)).0) [
    | inl e ↦ rw e (successes-finalize_task _ _ _ now t db)
    | inr e ↦ rw (e, successes-append) (omega arith)
  ]

  pub successes-refreshed :
      (f : Option Task) (now : ℕ) (db : Db)
      → successes id (refreshed f now db).0.calls ≡ successes id db.calls
  successes-refreshed none now db = refl
  successes-refreshed (some t) now db = successes-begin now t db

  pub successes-dispatch :
      (s : DepState) (worker : String) (ttl now : ℕ) (t : Task) (db : Db)
      → successes id (dispatch s worker ttl now t db).0.calls ≡ successes id db.calls
  unfolding dispatch acquire
  successes-dispatch DepState.blocked worker ttl now t db = refl
  successes-dispatch DepState.failed worker ttl now t db = successes-advance _ now _
  successes-dispatch DepState.cancelled worker ttl now t db = successes-advance _ now _
  successes-dispatch DepState.cancelled_dirty worker ttl now t db = successes-advance _ now _
  successes-dispatch DepState.ready worker ttl now t db =
      elim (Bool-cases (try_acquire_lease t.task_id worker ttl now now db.tasks).1) [
        | inl e ↦
            let held : Db = record db {
              tasks = (try_acquire_lease t.task_id worker ttl now now db.tasks).0;
            } in
            rw e (successes-refreshed (find_task t.task_id held.tasks) now held)
        | inr e ↦ rw e
      ]

  pub successes-picking :
      (f : Option Task) (worker : String) (ttl now : ℕ) (db : Db)
      → successes id (picking f worker ttl now db).0.calls ≡ successes id db.calls
  successes-picking none worker ttl now db = refl
  successes-picking (some t) worker ttl now db = elim (Bool-cases (is_pending t.status)) [
    | inl e ↦ rw e (successes-dispatch (task_dependency_state db.tasks t) worker ttl now t db)
    | inr e ↦ rw e
  ]

  pub successes-resources :
      (xs : Affected) → successes id (map (λ a. set_reconstruction a.0 a.1 a.2) xs) ≡ 0
  successes-resources [] = refl
  successes-resources (x ∷ xs) = successes-resources xs

  pub successes-settle_cached :
      (env : Services) (hits : List Task) (db : Db) (out : List Task)
      → successes id (settle_cached env hits db out).0.calls ≡ successes id db.calls
  unfolding settle_cached
  successes-settle_cached env [] db out = refl
  successes-settle_cached env (t ∷ ts) db out =
      successes-settle_cached env ts _ _ ∙ rw successes-append (omega arith)

  pub successes-enqueue_tasks :
      (ts : List Task) → successes id (map (λ t. enqueue t.task_id) ts) ≡ 0
  successes-enqueue_tasks [] = refl
  successes-enqueue_tasks (t ∷ ts) = successes-enqueue_tasks ts

  pub successes-enqueue_ready :
      (job_id : String) (now : ℕ) (tasks : List Task) (db : Db)
      → successes id (enqueue_ready job_id now tasks db).calls ≡ successes id db.calls
  unfolding enqueue_ready
  successes-enqueue_ready job_id now tasks db =
      elim (Bool-cases (no_rows (select (λ t. not (is_succeeded t.status)) tasks))) [
        | inl e ↦ rw (e, calls-finalize)
        | inr e ↦ rw (e, successes-append, successes-enqueue_tasks) (omega arith)
      ]

  pub cancel_job-calls :
      (tenant_id job_id : String) (force : Bool) (db : Db)
      → (cancel_job tenant_id job_id force db).0.calls ≡ db.calls
  unfolding cancel_job get_job
  cancel_job-calls tenant_id job_id force db = ground arith
