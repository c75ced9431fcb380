-- ===== src/System.antt =====
-- The orchestrator as a transition system: API requests, workers and the janitor take turns, one
-- committed database session at a time. Resuming a job and deleting old records, which reopen or
-- remove terminal rows on purpose, are no steps of it.
pub mod Stable
pub mod Successes
pub mod Once
use scene_api.Base.{ℕ, String, ◌≡◌, Bool, Option, none, List, All}
use scene_api.Db.{Db, find_task, Fields}
use scene_api.JobService.{cancel_job}
use scene_api.Janitor.{propagate_terminal_dependencies, reclaim_expired_leases}
use scene_api.Lease.{refresh_lease}
use scene_api.Scheduler.{submit_job_dag, with_ids}
use scene_api.Dispatcher.{Outcome, finish, pickup}
use scene_api.JobService.Cache.{build, TaskNode, Services}

module _ (env : Services) where
  pub data Step (db : Db) : Db → Type 0 where
    pickup_step :
        (worker : String) (ttl now : ℕ) (task_id : String)
        → Step db (pickup worker ttl now task_id db).0
    finish_step :
        (worker : String) (now : ℕ) (task_id : String) (outcome : Outcome)
        → Step db (finish worker now task_id outcome db).0
    heartbeat_step :
        (worker : String) (ttl now : ℕ) (task_id : String)
        → Step db (record db { tasks = (refresh_lease task_id worker ttl now db.tasks).0 })
    reclaim_step :
        (now : ℕ) → Step db (record db { tasks = (reclaim_expired_leases now db.tasks).0 })
    propagate_step : (now : ℕ) → Step db (propagate_terminal_dependencies now db).0
    cancel_step :
        (tenant_id job_id : String) (force : Bool)
        → Step db (cancel_job tenant_id job_id force db).0
    submit_step :
        (job_id tenant_id project_id recipe rv : String) (spec : Option Fields) (now : ℕ)
        (nodes : List TaskNode)
        → All
            (λ t. find_task t.task_id db.tasks ≡ none)
            (build env tenant_id job_id rv 0 db.tasks (with_ids env 0 nodes)).0
        → Step db (submit_job_dag env job_id tenant_id project_id recipe rv spec now nodes db).0

  pub data Run (db : Db) : Db → Type 0 where
    here : Run db db
    next : {mid last : Db} → Run db mid → Step mid last → Run db last
