-- ===== src/Tests/Data.antt =====
-- Rows and services that the tests share.
use mathlib.Core.List.{Memᴰ}
use mathlib.Core.Option.{some-injective, none-ne-some}
use scene_api.Base.{String, ◌≡◌, sym, false, Option, none, some, List, [], ◌∷◌}
use scene_api.Db.{Task, TaskStatus, Job, JobStatus, Db, end}
use scene_api.JobService.Cache.{Services, TaskNode}

abbrev pub row : (task_id job_id : String) → List String → TaskStatus → Task
row task_id job_id deps status = record {
  task_id = task_id;
  tenant_id = "acme";
  job_id = job_id;
  kind = "extract";
  inputs_hash = "i";
  params_hash = "p";
  runtime_version_id = "rv";
  cache_key = "key";
  depends_on = deps;
  gpu_required = false;
  status = status;
  worker_id = none;
  lease_expires_at = none;
  task_state = none;
  outputs_ref = none;
  error_class = none;
  error_message = none;
  started_at = none;
  finished_at = none;
}

abbrev pub job : (job_id : String) → JobStatus → Job
job job_id status = record {
  job_id = job_id;
  tenant_id = "acme";
  project_id = "city";
  recipe = "sfm";
  spec = none;
  status = status;
  cancel_requested = false;
  cancel_force = false;
  pinned = false;
  error_class = none;
  error_message = none;
  started_at = none;
  finished_at = none;
}

abbrev pub start : Db
start = record {
  tasks = row "a" "j" [] TaskStatus.pending ∷ row "b" "j" ("a" ∷ []) TaskStatus.pending ∷ [];
  jobs = job "j" JobStatus.pending ∷ [];
  calls = [];
}

abbrev pub node : (task_id : String) → List String → TaskNode
node task_id deps = record {
  task_id = task_id;
  kind = "extract";
  inputs_hash = "i";
  params_hash = "p";
  depends_on = deps;
  gpu_required = false;
  metadata = end;
}

abbrev pub head : List Task → Option Task
head [] = none
head (t ∷ ts) = some t

-- A stand-in for the services: every key is the same, and the newest row is the first.
abbrev pub services : Services
services = record {
  content_address = λ _. "key";
  latest = head;
  new_id = λ _. "drawn";
  normalize = λ _ outputs. outputs;
}

pub head_chosen : (xs : List Task) (t : Task) → head xs ≡ some t → Memᴰ t xs
head_chosen [] t e = absurd (none-ne-some t e)
head_chosen (x ∷ xs) t e = Memᴰ.head (sym (some-injective x t e))

-- A job that failed.
abbrev pub stopped : Db
stopped = record {
  tasks = row "a" "j" [] TaskStatus.failed ∷ row "b" "j" ("a" ∷ []) TaskStatus.failed ∷ [];
  jobs = job "j" JobStatus.failed ∷ [];
  calls = [];
}
