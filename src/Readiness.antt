-- ===== src/Readiness.antt =====
-- server/orchestrator/readiness.py: when a task's dependencies let it run.
pub mod Laws
use scene_api.Base.{
  String, Bool, true, false, not, Option, some, List, if◌then◌else◌, is_none, any, all, Dict, get,
}
use scene_api.Db.{TaskStatus}

-- The states that `dependency_state` returns.
pub data DepState : Type 0 where
  ready blocked failed cancelled cancelled_dirty : DepState

abbrev pub StatusMap : Type 0
StatusMap = Dict TaskStatus

-- `status in READY_DEPENDENCY_STATUSES`, where None is in no set
unfoldable pub in_ready : Option TaskStatus → Bool
in_ready (some TaskStatus.succeeded) = true
in_ready (some TaskStatus.skipped) = true
in_ready _ = false

-- `status in FAILED_DEPENDENCY_STATUSES`
unfoldable pub in_failed : Option TaskStatus → Bool
in_failed (some TaskStatus.failed) = true
in_failed _ = false

-- `status == "cancelled_dirty"`
abbrev pub is_cancelled_dirty : Option TaskStatus → Bool
is_cancelled_dirty (some TaskStatus.cancelled_dirty) = true
is_cancelled_dirty _ = false

-- `status == "cancelled"`
abbrev pub is_cancelled : Option TaskStatus → Bool
is_cancelled (some TaskStatus.cancelled) = true
is_cancelled _ = false

unfoldable pub dependencies_ready : List String → StatusMap → Bool
dependencies_ready deps statuses = all (λ dep. in_ready (get dep statuses)) deps

unfoldable pub dependency_state : List String → StatusMap → DepState
dependency_state deps statuses =
    if any (λ dep. is_none (get dep statuses)) deps
    then DepState.failed
    else if any (λ dep. in_failed (get dep statuses)) deps
    then DepState.failed
    else if any (λ dep. is_cancelled_dirty (get dep statuses)) deps
    then DepState.cancelled_dirty
    else if any (λ dep. is_cancelled (get dep statuses)) deps
    then DepState.cancelled
    else if any (λ dep. not (in_ready (get dep statuses))) deps
    then DepState.blocked
    else DepState.ready
