-- ===== src/JobService/Cache.antt =====
-- `TaskNode` of server/orchestrator/dag.py, `lookup_cached_task` and `materialize_dag`.
use Prim.Native.String.{String}
use scene_api.Base.{
  ℕ, suc, Bool, true, false, ◌&&◌, Option, none, some, List, [], ◌∷◌, ◌++◌, ◌==◌, if◌then◌else◌,
  select,
}
use scene_api.Db.{Task, TaskStatus, Fields, end, field, text, Db, record_artifacts, save_task, emit}

pub record TaskNode : Type 0 where
  pub task_id : String
  pub kind : String
  pub inputs_hash : String
  pub params_hash : String
  pub depends_on : List String
  pub gpu_required : Bool
  pub metadata : Fields

abbrev is_succeeded : TaskStatus → Bool
is_succeeded TaskStatus.succeeded = true
is_succeeded _ = false

-- The rows that the query of `lookup_cached_task` matches, before its ORDER BY and LIMIT.
unfoldable pub cache_matches : (tenant_id cache_key : String) → List Task → List Task
cache_matches tenant_id key rows =
    select (λ t. t.tenant_id == tenant_id && (t.cache_key == key && is_succeeded t.status)) rows

-- `dict(n.metadata)` where it is not empty
abbrev pub state_of : Fields → Option Fields
state_of end = none
state_of (field k v rest) = some (field k v rest)

abbrev pub outputs_or_empty : Option Fields → Fields
outputs_or_empty none = end
outputs_or_empty (some o) = o

abbrev pub reuse : Option Task → Task → Task
reuse none t = t
reuse (some cached) t = record t { status = TaskStatus.succeeded; outputs_ref = cached.outputs_ref }

abbrev pub hit : Option Task → Task → List Task → List Task
hit none t hits = hits
hit (some cached) t hits = t ∷ hits

-- What the service calls of other code: `content_address (canonical_json value)` is JSON text and
-- SHA-256 of the Python library; `latest` is the database's ORDER BY finished_at DESC LIMIT 1, and
-- `new_id n` the n-th id drawn; `normalize` is `artifact_service.normalize_task_outputs`.
pub record Services : Type 0 where
  pub content_address : Fields → String
  pub latest : List Task → Option Task
  pub new_id : ℕ → String
  pub normalize : Task → Fields → Fields

module _ (env : Services) where
  open env use {content_address, latest, new_id, normalize}

  unfoldable pub cache_key : (runtime_version_id : String) → TaskNode → String
  cache_key rv n = content_address (
      field "kind" (text n.kind) (
        field "inputs_hash" (text n.inputs_hash)
          (field "params_hash" (text n.params_hash) (field "rv" (text rv) end))))

  unfoldable pub lookup_cached_task : (tenant_id cache_key : String) → List Task → Option Task
  lookup_cached_task tenant_id key rows = latest (cache_matches tenant_id key rows)

  -- `if not n.task_id: n.task_id = new_id()`; the count of ids drawn goes on.
  unfoldable pub with_id : ℕ → TaskNode → TaskNode × ℕ
  with_id drawn n =
      if n.task_id == "" then (record n { task_id = new_id drawn }, suc drawn) else (n, drawn)

  -- The new row, before the cache is asked.
  unfoldable pub fresh_task : (tenant_id job_id rv : String) → TaskNode → Task
  fresh_task tenant_id job_id rv n = record {
    task_id = n.task_id;
    tenant_id = tenant_id;
    job_id = job_id;
    kind = n.kind;
    inputs_hash = n.inputs_hash;
    params_hash = n.params_hash;
    runtime_version_id = rv;
    cache_key = cache_key rv n;
    depends_on = n.depends_on;
    gpu_required = n.gpu_required;
    status = TaskStatus.pending;
    worker_id = none;
    lease_expires_at = none;
    task_state = state_of n.metadata;
    outputs_ref = none;
    error_class = none;
    error_message = none;
    started_at = none;
    finished_at = none;
  }

  -- The loop over the nodes: the new rows, and those of them that the cache answered. Each query
  -- flushes the session first, so it sees the rows that the loop has added (`seen`).
  unfoldable pub build :
      (tenant_id job_id rv : String) → ℕ → List Task → List TaskNode → List Task × List Task
  build tenant_id job_id rv drawn seen [] = ([], [])
  build tenant_id job_id rv drawn seen (node ∷ nodes) =
      let (n, drawn') = with_id drawn node in
      let cached = lookup_cached_task tenant_id (cache_key rv n) seen in
      let t = reuse cached (fresh_task tenant_id job_id rv n) in
      let (out, hits) = build tenant_id job_id rv drawn' (seen ++ t ∷ []) nodes in
      (t ∷ out, hit cached t hits)

  -- The second loop: outputs normalised for the new row, and its artifact rows recorded. The rows
  -- returned are the rows stored.
  unfoldable pub settle_cached : List Task → Db → List Task → Db × List Task
  settle_cached [] db out = (db, out)
  settle_cached (t ∷ ts) db out =
      let outputs = normalize t (outputs_or_empty t.outputs_ref) in
      let t' = record t { outputs_ref = some outputs } in
      settle_cached ts
        (emit (record_artifacts t' outputs ∷ []) (record db { tasks = save_task t' db.tasks }))
        (save_task t' out)

  unfoldable pub materialize_dag :
      (tenant_id job_id rv : String) → List TaskNode → Db → Db × List Task
  materialize_dag tenant_id job_id rv nodes db =
      let (out, hits) = build tenant_id job_id rv 0 db.tasks nodes in
      settle_cached hits (record db { tasks = db.tasks ++ out }) out
