-- ===== src/Dispatcher/CrossJob.antt =====
-- A row of the job that waits for a row of another job. `_task_dependency_state` and the scheduler
-- look such a row up; the loop that runs after a terminal task does not.
use mathlib.Core.List.Memᴰ
use mathlib.Core.List.{Memᴰ}
use scene_api.Base.{String, ◌≡◌, false, ◌&&◌, List, ◌==◌, any}
use scene_api.Db.{Task}

-- No row of the job has the id.
abbrev pub IsForeign : String → String → List Task → Type 0
IsForeign job_id dep rows = any (λ t. t.job_id == job_id && t.task_id == dep) rows ≡ false
