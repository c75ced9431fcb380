-- ===== src/Tests/Runs.antt =====
-- A worker runs a task, and a second delivery finds it done.
use scene_api.Base.{◌≤◌, ◌≡◌, refl, ◌⊎◌, true, some, []}
use scene_api.Db.{Task, TaskStatus, Db, end, find_task, TaskStatus}
use scene_api.Db.Terminal.{is_terminal}
use scene_api.Dispatcher.{
  returned, pickup, finish, visit_job, mark_loop, mark_dependency_failures_and_ready,
  advance_job_after_terminal, maybe_finalize_job, post_terminal, task_dependency_state, begin,
  acquire, dispatch, commit_success, settle_outcome,
}
use scene_api.System.{Run, here, next, pickup_step, finish_step}
use scene_api.System.Successes.{successes}
use scene_api.System.Once.{success_once}
use scene_api.System.Stable.{Run-settled}
use scene_api.Tests.Data.{start, services, row}
use scene_api.Sweep.{settle, sweep}
use scene_api.JobService.{new_status, rolled_up, finalize_job_if_ready}
use scene_api.Readiness.{in_ready, dependency_state, in_failed}
use scene_api.Lease.{lease_free, try_acquire_lease, owns_live_running_lease, can_acquire}

abbrev running : Db
running = (pickup "w" 60 100 "a" start).0

abbrev done : Db
done = (finish "w" 130 "a" (returned end) running).0

-- The lease ran out before the second delivery's worker came back.
abbrev again : Db
again = (finish "w" 190 "a" (returned end) done).0

abbrev later : Run services done again
later = next here (finish_step "w" 190 "a" (returned end))

program : Unit {0}
unfolding pickup dispatch acquire begin task_dependency_state try_acquire_lease can_acquire
    lease_free finish owns_live_running_lease settle_outcome commit_success post_terminal
    maybe_finalize_job advance_job_after_terminal mark_dependency_failures_and_ready mark_loop
    visit_job sweep settle finalize_job_if_ready new_status rolled_up in_ready in_failed
    dependency_state
program = tt

abbrev run : Run services start again
run =
    next (next (next here (pickup_step "w" 60 100 "a")) (finish_step "w" 130 "a" (returned end)))
      (finish_step "w" 190 "a" (returned end))

success_once_example :
    (successes "a" again.calls ≤ 1)
    × ((successes "a" again.calls ≡ 0)
        ⊎ ((t : Task) × (find_task "a" again.tasks ≡ some t) × (is_terminal t.status ≡ true)))
success_once_example = success_once services "a" start again refl run

abbrev finished : Task
finished = record (row "a" "j" [] TaskStatus.succeeded) {
  worker_id = some "w";
  lease_expires_at = some 160;
  outputs_ref = some end;
  started_at = some 100;
  finished_at = some 130;
}

found : find_task "a" done.tasks ≡ some finished
unfolding program
found = refl

Run-settled_example :
    (u : Task) × (find_task "a" again.tasks ≡ some u)
    × (record u { lease_expires_at = some 160 } ≡ finished)
Run-settled_example = Run-settled services "a" done again finished later found refl
