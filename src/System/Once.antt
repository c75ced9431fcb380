-- ===== src/System/Once.antt =====
-- The success of a task is committed once at most, however often it is delivered.
use mathlib.Core.Option.{some-injective}
use mathlib.Core.Bool.{false≢true}
use native.Mathlib.Decide.{ℕ_discrete}
use scene_api.Base.{
  ℕ, ◌+◌, ◌≤◌, String, ◌≡◌, refl, sym, ap, ◌∙◌, subst, ◌≢◌, ◌⊎◌, inl, inr, true, false, Option,
  none, some, [], arith, ◌==◌, eq_iff, if◌then◌else◌, Bool-cases, zero-cases,
}
use scene_api.Db.{Db, TaskStatus, Task, find_task, find_job, Fields}
use scene_api.System.{
  pickup_step, finish_step, heartbeat_step, reclaim_step, propagate_step, cancel_step, submit_step,
  here, next, Step, Run,
}
use scene_api.Dispatcher.{
  no_handler, returned, commit_raised, backend_unavailable, raised, finalize_task, Outcome,
  cancel_flags, commit_success, settle_outcome, pickup, succeeded_row, finishing, finish,
}
use scene_api.JobService.{create_job, cancel_job}
use scene_api.Lease.{owns_live_running_lease}
use scene_api.Scheduler.{submit_job_dag}
use scene_api.Db.Terminal.{is_terminal}
use scene_api.System.Stable.{KeepsSettled, KeepsSettled-of, Step-KeepsSettled}
use scene_api.JobService.Cache.{Services, materialize_dag}
use scene_api.Db.Rows.{find-save_self, find_self}
use scene_api.Dispatcher.Safety.{
  post_terminal-KeepsTerminal, commit_success-KeepsTerminal, finalize_task-KeepsTerminal, owns→live,
}
use scene_api.Janitor.Frame.{calls-propagate}
use scene_api.System.Successes.{
  successes-resources, successes-picking, successes, successes-settle_cached, cancel_job-calls,
  successes-append, successes-finalize_task, successes-enqueue_ready, successes-post_terminal,
}

module _ (id : String) where
  -- Each success of the task is backed by its row in a terminal status, and there is one at most.
  pub record IsOnce (db : Db) : Type 0 where
    pub at_most : successes id db.calls ≤ 1
    pub backed :
        successes id db.calls ≢ 0
        → (t : Task) × (find_task id db.tasks ≡ some t) × (is_terminal t.status ≡ true)

  -- A change that calls no success hook and keeps the terminal rows.
  quiet-IsOnce :
      (db db' : Db)
      → successes id db'.calls ≡ successes id db.calls
      → KeepsSettled db.tasks db'.tasks
      → IsOnce db
      → IsOnce db'
  quiet-IsOnce db db' same keeps once = record {
    at_most = rw same once.at_most;
    backed = λ some_success.
        let (t, found, ended) = once.backed (rw same at some_success) in
        let (u, found', view) = keeps id t found ended in
        (u, found', ap (λ (x : Task). is_terminal x.status) view ∙ ended);
  }

  module _ (now : ℕ) (t : Task) (db : Db) (found : find_task t.task_id db.tasks ≡ some t)
      (live : is_terminal t.status ≡ false) (once : IsOnce db) where
    successes-commit :
        (outputs : Fields)
        → successes id (commit_success now outputs t db).0.calls
          ≡ successes id db.calls + (if t.task_id == id then 1 else 0)
    unfolding commit_success
    successes-commit outputs = rw (successes-post_terminal, successes-append) (ground arith)

    -- A task that is open has not succeeded yet.
    none_yet : (t.task_id == id) ≡ true → successes id db.calls ≡ 0
    none_yet own = elim (ℕ_discrete (successes id db.calls) 0) [
      | yes z ↦ z
      | no nz ↦
          let (u, found_u, ended) = once.backed nz in
          let at_own : find_task t.task_id db.tasks ≡ some u =
            subst (λ (x : String). find_task x db.tasks ≡ some u)
              (sym ((eq_iff t.task_id id).0 own)) found_u in
          let t_is_u = some-injective t u (sym found ∙ at_own) in
          absurd (false≢true (sym live ∙ ap (λ (x : Task). is_terminal x.status) t_is_u ∙ ended))
    ]

    commit_found :
        (outputs : Fields)
        → find_task t.task_id (commit_success now outputs t db).0.tasks
          ≡ some (succeeded_row now outputs t)
    unfolding commit_success
    commit_found outputs =
        post_terminal-KeepsTerminal t.job_id now _ t.task_id (succeeded_row now outputs t)
          (find-save_self db.tasks t (succeeded_row now outputs t) found) refl

    commit-IsOnce : (outputs : Fields) → IsOnce (commit_success now outputs t db).0
    commit-IsOnce outputs = elim (Bool-cases (t.task_id == id)) [
      | inl own ↦ record {
        at_most = rw (successes-commit, own, none_yet own) (omega arith);
        backed = λ _. (
          succeeded_row now outputs t,
          subst
              (λ (x : String).
                find_task x (commit_success now outputs t db).0.tasks
                ≡ some (succeeded_row now outputs t))
              ((eq_iff t.task_id id).0 own) (commit_found outputs),
          refl,
        );
      }
      | inr other ↦
          quiet-IsOnce db _ (rw (successes-commit, other) (omega arith))
            (KeepsSettled-of _ _ (
              commit_success-KeepsTerminal now t db (record { found = found; live = live })
                outputs))
            once
    ]

    finalize_task-IsOnce :
        (s : TaskStatus) (c m : Option String) → IsOnce (finalize_task s c m now t db)
    finalize_task-IsOnce s c m =
        quiet-IsOnce db _ (successes-finalize_task id s c m now t db)
          (KeepsSettled-of _ _
            (finalize_task-KeepsTerminal now t db (record { found = found; live = live }) s c m))
          once

    settle_outcome-IsOnce : (outcome : Outcome) → IsOnce (settle_outcome outcome now t db).0
    unfolding settle_outcome
    settle_outcome-IsOnce no_handler = finalize_task-IsOnce _ _ _
    settle_outcome-IsOnce (backend_unavailable cls msg) = finalize_task-IsOnce _ _ _
    settle_outcome-IsOnce (raised cls msg) = finalize_task-IsOnce _ _ _
    settle_outcome-IsOnce (returned outputs) =
        elim (Bool-cases (cancel_flags (find_job t.job_id db.jobs)).0) [
          | inl e ↦ rw e (finalize_task-IsOnce _ _ _)
          | inr e ↦ rw e (commit-IsOnce outputs)
        ]
    settle_outcome-IsOnce (commit_raised outputs cls msg) =
        elim (Bool-cases (cancel_flags (find_job t.job_id db.jobs)).0) [
          | inl e ↦ rw e (finalize_task-IsOnce _ _ _)
          | inr e ↦ rw e (finalize_task-IsOnce _ _ _)
        ]

  finish-IsOnce :
      (worker : String) (now : ℕ) (task_id : String) (outcome : Outcome) (db : Db)
      → IsOnce db
      → IsOnce (finish worker now task_id outcome db).0
  unfolding finish
  finish-IsOnce worker now task_id outcome db once = go (find_task task_id db.tasks) refl
    where
      go :
          (f : Option Task)
          → find_task task_id db.tasks ≡ f
          → IsOnce (finishing f worker now outcome db).0
      go none e = once
      go (some t) e = elim (Bool-cases (owns_live_running_lease worker now t)) [
        | inl owner ↦ rw owner (
            settle_outcome-IsOnce now t db (find_self task_id db.tasks t e)
              (owns→live worker now t owner) once outcome)
        | inr other ↦ rw other once
      ]

  Step-successes :
      (env : Services) (db db' : Db)
      → Step env db db'
      → (successes id db'.calls ≡ successes id db.calls) ⊎ (IsOnce db → IsOnce db')
  unfolding pickup cancel_job submit_job_dag create_job materialize_dag
  Step-successes env db db' (pickup_step worker ttl now task_id) =
      inl (successes-picking id (find_task task_id db.tasks) worker ttl now db)
  Step-successes env db db' (finish_step worker now task_id outcome) =
      inr (finish-IsOnce worker now task_id outcome db)
  Step-successes env db db' (heartbeat_step worker ttl now task_id) = inl refl
  Step-successes env db db' (reclaim_step now) = inl refl
  Step-successes env db db' (propagate_step now) =
      inl (rw (calls-propagate, successes-append, successes-resources) (omega arith))
  Step-successes env db db' (cancel_step tenant_id job_id force) =
      inl (ap (successes id) (cancel_job-calls id tenant_id job_id force db))
  Step-successes env db db'
        (submit_step job_id tenant_id project_id recipe rv spec now nodes fresh) =
      inl (successes-enqueue_ready id job_id now _ _ ∙ successes-settle_cached id env _ _ _)

  Step-IsOnce : (env : Services) (db db' : Db) → Step env db db' → IsOnce db → IsOnce db'
  Step-IsOnce env db db' st once = elim (Step-successes env db db' st) [
    | inl same ↦ quiet-IsOnce db db' same (Step-KeepsSettled env db db' st) once
    | inr keeps ↦ keeps once
  ]

  Run-IsOnce : (env : Services) (db db' : Db) → Run env db db' → IsOnce db → IsOnce db'
  Run-IsOnce env db db' here once = once
  Run-IsOnce env db db' (next {mid} r st) once =
      Step-IsOnce env mid db' st (Run-IsOnce env db mid r once)

-- In a run that starts with no calls made, at most one committed session calls the success hook of
-- a task, whatever the deliveries, lost leases and sweeps between; and if one did, the task's row
-- is terminal.
pub success_once :
    (env : Services) (id : String) (db db' : Db)
    → db.calls ≡ []
    → Run env db db'
    → (successes id db'.calls ≤ 1)
      × ((successes id db'.calls ≡ 0)
          ⊎ ((t : Task) × (find_task id db'.tasks ≡ some t) × (is_terminal t.status ≡ true)))
success_once env id db db' fresh r = (
  once.at_most,
  elim (zero-cases (successes id db'.calls)) [
    | inl none_yet ↦ inl none_yet
    | inr called ↦ inr (once.backed called)
  ],
)
  where
    none_made : successes id db.calls ≡ 0
    none_made = rw fresh

    once : IsOnce id db'
    once =
        Run-IsOnce id env db db' r
          (record { at_most = rw none_made (omega arith); backed = λ h. absurd (h none_made) })
