-- ===== src/Db.antt =====
-- server/db/models.py: the rows of `task` and `job` that the orchestrator reads and writes, the
-- statuses that its code names, and the database that one transaction sees.
pub mod Jobs
pub mod Rows
pub mod Terminal
use scene_api.Number.{Number}
use scene_api.Base.{ℕ, String, Bool, Option, List, ◌++◌, ◌==◌, first, update_where}

-- The strings that the code stores in `Task.status`; `skipped` is written by external workers.
pub data TaskStatus : Type 0 where
  pending running succeeded failed cancelled cancelled_dirty skipped : TaskStatus

pub TaskStatus-discrete : Discrete TaskStatus
TaskStatus-discrete = hlevel

-- A JSON value.
mutual
  pub data Json : Type 0 where
    null : Json
    bool : Bool → Json
    number : Number → Json
    text : String → Json
    array : Items → Json
    object : Fields → Json

  pub data Items : Type 0 where
    nil : Items
    cons : Json → Items → Items

  pub data Fields : Type 0 where
    end : Fields
    field : String → Json → Fields → Fields

-- A row of `task`. Times count from a fixed origin, in UTC; `depends_on` is
-- `depends_on_json or []`.
pub record Task : Type 0 where
  pub task_id : String
  pub tenant_id : String
  pub job_id : String
  pub kind : String
  pub inputs_hash : String
  pub params_hash : String
  pub runtime_version_id : String
  pub cache_key : String
  pub depends_on : List String
  pub gpu_required : Bool
  pub status : TaskStatus
  pub worker_id : Option String
  pub lease_expires_at : Option ℕ
  pub task_state : Option Fields
  pub outputs_ref : Option Fields
  pub error_class : Option String
  pub error_message : Option String
  pub started_at : Option ℕ
  pub finished_at : Option ℕ

-- The strings that the code stores in `Job.status`.
pub data JobStatus : Type 0 where
  pending succeeded failed cancelled cancelled_dirty : JobStatus

pub JobStatus-discrete : Discrete JobStatus
JobStatus-discrete = hlevel

-- A row of `job`.
pub record Job : Type 0 where
  pub job_id : String
  pub tenant_id : String
  pub project_id : String
  pub recipe : String
  pub spec : Option Fields
  pub status : JobStatus
  pub cancel_requested : Bool
  pub cancel_force : Bool
  pub pinned : Bool
  pub error_class : Option String
  pub error_message : Option String
  pub started_at : Option ℕ
  pub finished_at : Option ℕ

-- What the orchestrator asks other components to do, in the order of the calls: queue deliveries,
-- the hooks of worker tasks, artifact and dataset rows, resource rows and event files.
pub data Call : Type 0 where
  enqueue : (task_id : String) → Call
  status_hook : Task → (resource_status : String) → Call
  success_hook : Task → (outputs : Fields) → Call
  record_artifacts : Task → (outputs : Fields) → Call
  derived_dataset : Task → (outputs : Fields) → Call
  set_reconstruction : (tenant_id recon_id : String) → (status : TaskStatus) → Call
  delete_job_records : (job_id : String) → Call

pub record Db : Type 0 where
  pub tasks : List Task
  pub jobs : List Job
  pub calls : List Call

-- `select(Task).where(Task.task_id == id)` on a primary key.
abbrev pub find_task : String → List Task → Option Task
find_task id rows = first (λ t. t.task_id == id) rows

abbrev pub find_job : String → List Job → Option Job
find_job id rows = first (λ j. j.job_id == id) rows

-- The write of one loaded row back to its table.
abbrev pub save_task : Task → List Task → List Task
save_task t rows = update_where (λ u. u.task_id == t.task_id) (λ _. t) rows

abbrev pub save_job : Job → List Job → List Job
save_job j rows = update_where (λ u. u.job_id == j.job_id) (λ _. j) rows

-- Appends to the calls made.
abbrev pub emit : List Call → Db → Db
emit cs db = record db { calls = db.calls ++ cs }
