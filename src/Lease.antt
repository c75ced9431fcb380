-- ===== src/Lease.antt =====
-- server/orchestrator/lease.py, and the ownership test of server/workers/dispatcher.py.
pub mod Laws
use scene_api.Base.{
  ℕ, ◌+◌, String, Bool, true, false, ◌&&◌, Option, none, some, List, ◌==◌, ltb, eqb, count,
  update_where,
}
use scene_api.Db.{TaskStatus, Task}

abbrev pub is_pending : TaskStatus → Bool
is_pending TaskStatus.pending = true
is_pending _ = false

abbrev pub is_running : TaskStatus → Bool
is_running TaskStatus.running = true
is_running _ = false

-- `lease_col.is_(None) or lease_col < now_utc()`
unfoldable pub lease_free : Option ℕ → ℕ → Bool
lease_free none now = true
lease_free (some t) now = ltb t now

-- The rows that the UPDATE of `try_acquire_lease` takes: `extra_where` is `status == "pending"`,
-- as the dispatcher passes it.
unfoldable pub can_acquire : String → ℕ → Task → Bool
can_acquire id now t = t.task_id == id && (lease_free t.lease_expires_at now && is_pending t.status)

abbrev pub leased_by : (worker : String) → (expiry : ℕ) → Task → Task
leased_by worker expiry t = record t { lease_expires_at = some expiry; worker_id = some worker }

-- `try_acquire_lease`: the rows after the UPDATE, and whether its row count is 1. The expiry is
-- computed before the statement runs, from an earlier reading of the clock.
unfoldable pub try_acquire_lease :
    (id worker : String) → (ttl read_at now : ℕ) → List Task → List Task × Bool
try_acquire_lease id worker ttl read_at now rows = (
  update_where (can_acquire id now) (leased_by worker (read_at + ttl)) rows,
  eqb (count (can_acquire id now) rows) 1,
)

abbrev pub is_worker : String → Option String → Bool
is_worker w none = false
is_worker w (some v) = v == w

-- `refresh_lease`: the heartbeat's UPDATE.
unfoldable pub refresh_lease : (id worker : String) → (ttl now : ℕ) → List Task → List Task × Bool
refresh_lease id worker ttl now rows = (
  update_where (λ t. t.task_id == id && is_worker worker t.worker_id)
      (λ t. record t { lease_expires_at = some (now + ttl) }) rows,
  eqb (count (λ t. t.task_id == id && is_worker worker t.worker_id) rows) 1,
)

-- `lease_expires_at is not None and lease_expires_at > now`
abbrev pub lease_live : Option ℕ → ℕ → Bool
lease_live none now = false
lease_live (some t) now = ltb now t

-- `_owns_live_running_lease`
unfoldable pub owns_live_running_lease : String → ℕ → Task → Bool
owns_live_running_lease worker now t =
    is_running t.status && (is_worker worker t.worker_id && lease_live t.lease_expires_at now)
