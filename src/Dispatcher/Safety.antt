-- ===== src/Dispatcher/Safety.antt =====
-- No session of `execute_task` touches a task in a terminal status.
use scene_api.Base.{
  ℕ, ◌+◌, String, ◌≡◌, refl, inl, inr, true, false, Option, none, some, List, arith, Bool-cases,
}
use scene_api.Db.{Task, TaskStatus, Db, find_task, find_job, Fields, save_task}
use scene_api.Db.Terminal.{
  is_terminal, KeepsTerminal, KeepsTerminal-trans, KeepsTerminal-Zip, KeepsTerminal-save,
  KeepsTerminal-refl, update_where-RowStep, RowStep,
}
use scene_api.Dispatcher.{
  Outcome, no_handler, returned, commit_raised, backend_unavailable, raised, post_terminal,
  advance_job_after_terminal, finalized, finalize_task, cancel_flags, running_row, begin,
  succeeded_row, commit_success, settle_outcome, acquire, finish, finishing, dependency_failed,
  dependency_cancelled, task_dependency_state, refreshed, dispatch, picking, pickup,
}
use scene_api.Dispatcher.Frame.{tasks-post_terminal, mark_loop-RowStep, tasks-advance}
use scene_api.Lease.{owns_live_running_lease, is_pending, can_acquire, try_acquire_lease, leased_by}
use scene_api.Db.Rows.{find_self, find-update_where}
use scene_api.Readiness.{DepState}

advance-KeepsTerminal :
    (job_id : String) (now : ℕ) (db : Db)
    → KeepsTerminal db.tasks (advance_job_after_terminal job_id now db).tasks
advance-KeepsTerminal job_id now db =
    rw tasks-advance (KeepsTerminal-Zip _ _ (mark_loop-RowStep job_id now db.tasks))

pub post_terminal-KeepsTerminal :
    (job_id : String) (now : ℕ) (db : Db)
    → KeepsTerminal db.tasks (post_terminal job_id now db).tasks
post_terminal-KeepsTerminal job_id now db =
    rw tasks-post_terminal (KeepsTerminal-Zip _ _ (mark_loop-RowStep job_id now db.tasks))

-- A row that is open: in the table, pending or running.
pub record IsOpen (t : Task) (db : Db) : Type 0 where
  pub found : find_task t.task_id db.tasks ≡ some t
  pub live : is_terminal t.status ≡ false

module _ (now : ℕ) (t : Task) (db : Db) (o : IsOpen t db) where
  pub finalize_task-KeepsTerminal :
      (s : TaskStatus) (c m : Option String)
      → KeepsTerminal db.tasks (finalize_task s c m now t db).tasks
  unfolding finalize_task
  finalize_task-KeepsTerminal s c m =
      KeepsTerminal-trans _ _ _
        (KeepsTerminal-save db.tasks t (finalized s c m now t) o.found o.live)
        (post_terminal-KeepsTerminal t.job_id now _)

  pub commit_success-KeepsTerminal :
      (outputs : Fields) → KeepsTerminal db.tasks (commit_success now outputs t db).0.tasks
  unfolding commit_success
  commit_success-KeepsTerminal outputs =
      KeepsTerminal-trans _ _ _
        (KeepsTerminal-save db.tasks t (succeeded_row now outputs t) o.found o.live)
        (post_terminal-KeepsTerminal t.job_id now _)

  pub settle_outcome-KeepsTerminal :
      (outcome : Outcome) → KeepsTerminal db.tasks (settle_outcome outcome now t db).0.tasks
  unfolding settle_outcome
  settle_outcome-KeepsTerminal no_handler = finalize_task-KeepsTerminal _ _ _
  settle_outcome-KeepsTerminal (backend_unavailable cls msg) = finalize_task-KeepsTerminal _ _ _
  settle_outcome-KeepsTerminal (raised cls msg) = finalize_task-KeepsTerminal _ _ _
  settle_outcome-KeepsTerminal (returned outputs) =
      elim (Bool-cases (cancel_flags (find_job t.job_id db.jobs)).0) [
        | inl e ↦ rw e (finalize_task-KeepsTerminal _ _ _)
        | inr e ↦ rw e (commit_success-KeepsTerminal outputs)
      ]
  settle_outcome-KeepsTerminal (commit_raised outputs cls msg) =
      elim (Bool-cases (cancel_flags (find_job t.job_id db.jobs)).0) [
        | inl e ↦ rw e (finalize_task-KeepsTerminal _ _ _)
        | inr e ↦ rw e (finalize_task-KeepsTerminal _ _ _)
      ]

  begin-KeepsTerminal : KeepsTerminal db.tasks (begin now t db).0.tasks
  unfolding begin
  begin-KeepsTerminal = elim (Bool-cases (cancel_flags (find_job t.job_id db.jobs)).0) [
    | inl e ↦ rw e (finalize_task-KeepsTerminal _ _ _)
    | inr e ↦ rw e (KeepsTerminal-save db.tasks t (running_row now t) o.found o.live)
  ]

pub owns→live :
    (worker : String) (now : ℕ) (t : Task)
    → owns_live_running_lease worker now t ≡ true
    → is_terminal t.status ≡ false
unfolding owns_live_running_lease
owns→live worker now t h = ground arith

pending→live : (s : TaskStatus) → is_pending s ≡ true → is_terminal s ≡ false
pending→live TaskStatus.pending h = refl
pending→live s h = cc

-- The last session of `execute_task` leaves every terminal row as it is.
pub finish-KeepsTerminal :
    (worker : String) (now : ℕ) (task_id : String) (outcome : Outcome) (db : Db)
    → KeepsTerminal db.tasks (finish worker now task_id outcome db).0.tasks
unfolding finish
finish-KeepsTerminal worker now task_id outcome db = go (find_task task_id db.tasks) refl
  where
    go :
        (f : Option Task)
        → find_task task_id db.tasks ≡ f
        → KeepsTerminal db.tasks (finishing f worker now outcome db).0.tasks
    go none e = KeepsTerminal-refl db.tasks
    go (some t) e = elim (Bool-cases (owns_live_running_lease worker now t)) [
      | inl owner ↦ rw owner (
          settle_outcome-KeepsTerminal now t db
            (record { found = find_self task_id db.tasks t e; live = owns→live worker now t owner })
            outcome)
      | inr other ↦ rw other (KeepsTerminal-refl db.tasks)
    ]

module _ (worker : String) (ttl now : ℕ) (t : Task) (db : Db)
    (found : find_task t.task_id db.tasks ≡ some t) (waits : is_pending t.status ≡ true) where
  abbrev leased : List Task
  leased = (try_acquire_lease t.task_id worker ttl now now db.tasks).0

  acquire-RowStep :
      (u : Task) → can_acquire t.task_id now u ≡ true → RowStep u (leased_by worker (now + ttl) u)
  unfolding can_acquire
  acquire-RowStep u p = record { same_id = refl; kept = λ h. ground arith }

  acquired-KeepsTerminal : KeepsTerminal db.tasks leased
  unfolding try_acquire_lease
  acquired-KeepsTerminal = KeepsTerminal-Zip _ _ (
      update_where-RowStep (can_acquire t.task_id now) (leased_by worker (now + ttl))
        acquire-RowStep db.tasks)

  acquired_live : (u : Task) → find_task t.task_id leased ≡ some u → is_terminal u.status ≡ false
  unfolding try_acquire_lease
  acquired_live u e = ground (
    arith,
    find-update_where (can_acquire t.task_id now) (leased_by worker (now + ttl)) (λ v. refl)
        t.task_id db.tasks,
    found,
    waits,
  )

  acquire-KeepsTerminal : KeepsTerminal db.tasks (acquire worker ttl now t db).0.tasks
  unfolding acquire
  acquire-KeepsTerminal =
      elim (Bool-cases (try_acquire_lease t.task_id worker ttl now now db.tasks).1) [
        | inl won ↦ rw won (go (find_task t.task_id leased) refl)
        | inr lost ↦ rw lost acquired-KeepsTerminal
      ]
    where
      held : Db
      held = record db { tasks = leased }

      go :
          (f : Option Task)
          → find_task t.task_id leased ≡ f
          → KeepsTerminal db.tasks (refreshed f now held).0.tasks
      go none e = acquired-KeepsTerminal
      go (some u) e = KeepsTerminal-trans _ _ _ acquired-KeepsTerminal (
          begin-KeepsTerminal now u held
            (record { found = find_self t.task_id leased u e; live = acquired_live u e }))

  -- A pending row is written over, and the job goes on.
  ended :
      (t' : Task)
      → t'.task_id ≡ t.task_id
      → KeepsTerminal db.tasks
          (advance_job_after_terminal t.job_id now
            (record db { tasks = save_task t' db.tasks })).tasks
  ended t' same =
      KeepsTerminal-trans _ _ _
        (KeepsTerminal-save db.tasks t t' (rw same found) (pending→live t.status waits))
        (advance-KeepsTerminal t.job_id now _)

  dispatch-KeepsTerminal :
      (s : DepState) → KeepsTerminal db.tasks (dispatch s worker ttl now t db).0.tasks
  unfolding dispatch
  dispatch-KeepsTerminal DepState.blocked = KeepsTerminal-refl db.tasks
  dispatch-KeepsTerminal DepState.ready = acquire-KeepsTerminal
  dispatch-KeepsTerminal DepState.failed = ended (dependency_failed now t) refl
  dispatch-KeepsTerminal DepState.cancelled =
      ended (dependency_cancelled now TaskStatus.cancelled t) refl
  dispatch-KeepsTerminal DepState.cancelled_dirty =
      ended (dependency_cancelled now TaskStatus.cancelled_dirty t) refl

-- The first session of `execute_task` leaves every terminal row as it is.
pub pickup-KeepsTerminal :
    (worker : String) (ttl now : ℕ) (task_id : String) (db : Db)
    → KeepsTerminal db.tasks (pickup worker ttl now task_id db).0.tasks
unfolding pickup
pickup-KeepsTerminal worker ttl now task_id db = go (find_task task_id db.tasks) refl
  where
    go :
        (f : Option Task)
        → find_task task_id db.tasks ≡ f
        → KeepsTerminal db.tasks (picking f worker ttl now db).0.tasks
    go none e = KeepsTerminal-refl db.tasks
    go (some t) e = elim (Bool-cases (is_pending t.status)) [
      | inl waits ↦ rw waits (
          dispatch-KeepsTerminal worker ttl now t db (find_self task_id db.tasks t e) waits
            (task_dependency_state db.tasks t))
      | inr other ↦ rw other (KeepsTerminal-refl db.tasks)
    ]
