-- ===== src/Tests/Orchestrator.antt =====
-- The laws of the orchestrator's parts, on small tables.
use mathlib.Core.List.{Memᴰ}
use scene_api.Janitor.Propagated.{propagate_loop_settled}
use scene_api.Sweep.Agrees.{Apart, shape}
use scene_api.Base.{◌≡◌, refl, ◌↔◌, true, false, some, List, [], ◌∷◌, map, arith}
use scene_api.Db.{end, Task, TaskStatus, find_task}
use scene_api.Readiness.{DepState, dependency_state, in_ready, in_failed, dependencies_ready}
use scene_api.Lease.{try_acquire_lease, lease_free, can_acquire}
use scene_api.Lease.Laws.{try_acquire_exclusive}
use scene_api.Dispatcher.{mark_loop, visit_job}
use scene_api.Tests.Data.{start, services, row, node, head_chosen, stopped}
use scene_api.Sweep.{sweep, settle, status_by_id}
use scene_api.JobService.{new_status, finalize_job_if_ready}
use scene_api.Janitor.{visit_pending, statuses_for_pending, reclaim_expired_leases, propagate_loop}
use scene_api.Scheduler.{resume_job}
use scene_api.Dispatcher.Settled.{mark_loop_settled, Harmless}
use scene_api.Janitor.Settled.{find-reclaim, Reclaimed}
use scene_api.Readiness.Laws.{rank-dependency_state, dependency_state-ready, worst, rank}
use scene_api.Scheduler.Resumed.{Resumed, resume_job-Resumed}
use scene_api.JobService.Hits.{build-AreBacked, AreBacked}
use scene_api.JobService.RollUp.{finalize_idempotent, AddsUp, new_status-AddsUp}
use scene_api.JobService.Cache.{build, TaskNode}
use scene_api.Sweep.Agrees.{shape}

-- A chain that fails, and a row that waits for one that runs.
abbrev rows : List Task
rows =
    row "x" "j" [] TaskStatus.failed
    ∷ row "z" "j" ("y" ∷ []) TaskStatus.pending
    ∷ row "y" "j" ("x" ∷ []) TaskStatus.pending
    ∷ row "p" "j" [] TaskStatus.running
    ∷ row "q" "j" ("p" ∷ []) TaskStatus.pending
    ∷ []

abbrev waiting : Task
waiting = row "q" "j" ("p" ∷ []) TaskStatus.pending

program : Unit {0}
unfolding try_acquire_lease can_acquire lease_free mark_loop visit_job sweep settle dependency_state
    in_ready in_failed propagate_loop visit_pending statuses_for_pending
program = tt

won : (try_acquire_lease "a" "w" 60 100 100 start.tasks).1 ≡ true
unfolding program
won = refl

try_acquire_exclusive_example :
    try_acquire_lease "a" "v" 60 150 150 (try_acquire_lease "a" "w" 60 100 100 start.tasks).0
    ≡ ((try_acquire_lease "a" "w" 60 100 100 start.tasks).0, false)
try_acquire_exclusive_example =
    try_acquire_exclusive "a" "w" "v" 60 60 100 150 100 150 start.tasks (omega arith) won
      (omega arith)

loop_keeps_waiting : Memᴰ waiting (mark_loop "j" 100 rows).rows
unfolding program
loop_keeps_waiting = Memᴰ.tail (Memᴰ.tail (Memᴰ.tail (Memᴰ.tail (Memᴰ.head refl))))

loop_keeps_running : Memᴰ (row "p" "j" [] TaskStatus.running) (mark_loop "j" 100 rows).rows
unfolding program
loop_keeps_running = Memᴰ.tail (Memᴰ.tail (Memᴰ.tail (Memᴰ.head refl)))

rows-Apart : Apart (map shape rows)
rows-Apart = (
  (refl, (refl, (refl, (refl, tt)))),
  ((refl, (refl, (refl, tt))), ((refl, (refl, tt)), ((refl, tt), (tt, tt)))),
)

mark_loop_settled_example : Harmless TaskStatus.running
mark_loop_settled_example =
    mark_loop_settled "j" 100 rows waiting (row "p" "j" [] TaskStatus.running) rows-Apart
      loop_keeps_waiting refl refl loop_keeps_running refl refl

sweep_keeps_waiting : Memᴰ waiting (propagate_loop 100 rows).rows
unfolding program
sweep_keeps_waiting = Memᴰ.tail (Memᴰ.tail (Memᴰ.tail (Memᴰ.tail (Memᴰ.head refl))))

sweep_keeps_running : Memᴰ (row "p" "j" [] TaskStatus.running) (propagate_loop 100 rows).rows
unfolding program
sweep_keeps_running = Memᴰ.tail (Memᴰ.tail (Memᴰ.tail (Memᴰ.head refl)))

propagate_loop_settled_example : Harmless TaskStatus.running
propagate_loop_settled_example =
    propagate_loop_settled 100 rows waiting (row "p" "j" [] TaskStatus.running) rows-Apart
      sweep_keeps_waiting refl sweep_keeps_running refl

-- A row that a dead worker left behind.
abbrev orphan : Task
orphan = record (row "o" "j" [] TaskStatus.running) {
  worker_id = some "w";
  lease_expires_at = some 90;
}

find-reclaim_example :
    (t' : Task) × (find_task "o" (reclaim_expired_leases 100 (orphan ∷ rows)).0 ≡ some t')
    × Reclaimed 100 orphan t'
find-reclaim_example = find-reclaim 100 (orphan ∷ rows) "o" orphan refl

resume_job-Resumed_example : Resumed "acme" "j" stopped (resume_job "acme" "j" stopped)
resume_job-Resumed_example = resume_job-Resumed "acme" "j" stopped

abbrev nodes : List TaskNode
nodes = node "m" [] ∷ node "n" ("m" ∷ []) ∷ []

abbrev cached_rows : List Task
cached_rows = record (row "old" "i" [] TaskStatus.succeeded) { outputs_ref = some end } ∷ []

build-AreBacked_example :
    AreBacked cached_rows (build services "acme" "j" "rv" 0 cached_rows nodes).0
build-AreBacked_example = build-AreBacked services head_chosen "acme" "j" "rv" 0 cached_rows nodes

new_status-AddsUp_example : AddsUp rows (new_status rows)
new_status-AddsUp_example = new_status-AddsUp rows

finalize_idempotent_example :
    (finalize_job_if_ready "j" 200 (finalize_job_if_ready "j" 100 stopped).0).0
    ≡ (finalize_job_if_ready "j" 100 stopped).0
finalize_idempotent_example = finalize_idempotent "j" 100 200 stopped

rank-dependency_state_example :
    rank (dependency_state ("x" ∷ "p" ∷ []) (status_by_id rows))
    ≡ worst ("x" ∷ "p" ∷ []) (status_by_id rows)
rank-dependency_state_example = rank-dependency_state ("x" ∷ "p" ∷ []) (status_by_id rows)

dependency_state-ready_example :
    (dependency_state ("p" ∷ []) (status_by_id rows) ≡ DepState.ready)
    ↔ (dependencies_ready ("p" ∷ []) (status_by_id rows) ≡ true)
dependency_state-ready_example = dependency_state-ready ("p" ∷ []) (status_by_id rows)

-- A row that waits for a task of another job, which has succeeded.
abbrev two_jobs : List Task
two_jobs = row "up" "i" [] TaskStatus.succeeded ∷ row "down" "j" ("up" ∷ []) TaskStatus.pending ∷ []
