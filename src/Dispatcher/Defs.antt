-- ===== src/Dispatcher/Defs.antt =====
-- What `execute_task` returns, and the ways in which a handler ends.
use scene_api.Base.{String}
use scene_api.Db.{Task, TaskStatus, Fields}
use scene_api.Readiness.{DepState}

-- The result of the first session: the task was started, or the dictionary that is returned.
pub data Pickup : Type 0 where
  missing : Pickup
  not_pending : TaskStatus → Pickup
  blocked : Pickup
  dependency : DepState → Pickup
  busy : Pickup
  cancelled : Pickup
  started : Task → Pickup

-- How the handler of a task ended: with outputs, normalised; with outputs, but a call that the
-- last session makes before its commit raised; or by an exception, its class name and public text.
pub data Outcome : Type 0 where
  no_handler : Outcome
  returned : Fields → Outcome
  commit_raised : Fields → (error_class message : String) → Outcome
  backend_unavailable : (error_class message : String) → Outcome
  raised : (error_class message : String) → Outcome

-- The result of the last session.
pub data Finish : Type 0 where
  missing lost_lease cancelled_dirty failed : Finish
  succeeded : Fields → Finish
