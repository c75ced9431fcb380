-- ===== src/System/Stable.antt =====
-- Terminal tasks stay as they are in every run of the system.
use mathlib.Core.Option
use mathlib.Core.Option.{none-ne-some}
use scene_api.Base.{
  ℕ, ◌+◌, String, ◌≡◌, refl, sym, ap, ◌∙◌, subst, inl, inr, Bool, true, ◌&&◌, Option, none, some,
  List, [], ◌∷◌, ◌++◌, arith, ◌==◌, eq_iff, if◌then◌else◌, Bool-cases, All,
}
use scene_api.Db.{Db, find_task, save_task, Task, Fields}
use scene_api.Lease.{refresh_lease, is_worker}
use scene_api.Db.Terminal.{KeepsTerminal, is_terminal, find-save_ne}
use scene_api.JobService.Cache.{
  TaskNode, build, settle_cached, hit, cache_key, lookup_cached_task, with_id, Services, reuse,
  fresh_task, materialize_dag,
}
use scene_api.Db.Rows.{find-update_where}
use scene_api.Scheduler.{enqueue_ready, with_ids, submit_job_dag}
use scene_api.System.{
  pickup_step, finish_step, heartbeat_step, reclaim_step, propagate_step, cancel_step, submit_step,
  here, next, Run, Step,
}
use scene_api.Dispatcher.Safety.{finish-KeepsTerminal, pickup-KeepsTerminal}
use scene_api.Janitor.Frame.{reclaim-KeepsTerminal, propagate-KeepsTerminal}
use scene_api.JobService.RollUp.{tasks-finalize}
use scene_api.JobService.{cancel_job, get_job, create_job}

-- A row without its lease, which a late heartbeat may still move.
abbrev pub settled_view : Task → Task
settled_view t = record t { lease_expires_at = none }

-- The row found under an id has the same status, outputs, error and times after the change, if its
-- status was terminal.
abbrev pub KeepsSettled : List Task → List Task → Type 0
KeepsSettled rows rows' =
    (id : String) (t : Task)
    → find_task id rows ≡ some t
    → is_terminal t.status ≡ true
    → (u : Task) × (find_task id rows' ≡ some u) × (settled_view u ≡ settled_view t)

pub KeepsSettled-of : (rows rows' : List Task) → KeepsTerminal rows rows' → KeepsSettled rows rows'
KeepsSettled-of rows rows' keeps id t e h = (t, keeps id t e h, refl)

pub KeepsSettled-refl : (rows : List Task) → KeepsSettled rows rows
KeepsSettled-refl rows id t e h = (t, e, refl)

pub KeepsSettled-trans :
    (xs ys zs : List Task) → KeepsSettled xs ys → KeepsSettled ys zs → KeepsSettled xs zs
KeepsSettled-trans xs ys zs p q id t e h =
    let (u, found, same) = p id t e h in
    let (v, found', same') = q id u found (ap (λ (x : Task). is_terminal x.status) same ∙ h) in
    (v, found', same' ∙ same)

heartbeat-KeepsSettled :
    (id worker : String) (ttl now : ℕ) (rows : List Task)
    → KeepsSettled rows (refresh_lease id worker ttl now rows).0
unfolding refresh_lease
heartbeat-KeepsSettled id worker ttl now rows id' t e h =
    let p : Task → Bool = λ u. u.task_id == id && is_worker worker u.worker_id in
    let f : Task → Task = λ u. record u { lease_expires_at = some (now + ttl) } in
    (
      (if p t then f t else t),
      find-update_where p f (λ u. refl) id' rows ∙ ap (Option.map (λ u. if p u then f u else u)) e,
      ground arith,
    )

-- Rows that are found stay found.
abbrev Extends : List Task → List Task → Type 0
Extends rows rows' =
    (id : String) (t : Task) → find_task id rows ≡ some t → find_task id rows' ≡ some t

Extends-append : (rows more : List Task) → Extends rows (rows ++ more)
Extends-append [] more id t e = cc
Extends-append (u ∷ us) more id t e = ground (arith, Extends-append us more id t)

Extends-save :
    (old rows : List Task) (t : Task)
    → find_task t.task_id old ≡ none
    → Extends old rows
    → Extends old (save_task t rows)
Extends-save old rows t fresh ext id u e = elim (Bool-cases (t.task_id == id)) [
  | inl hit ↦ absurd (
      none-ne-some u (
        sym (subst (λ (x : String). find_task x old ≡ none) ((eq_iff t.task_id id).0 hit) fresh)
        ∙ e))
  | inr miss ↦ rw (find-save_ne id t rows miss) (ext id u e)
]

All-hit :
    (P : Task → Type 0) (c : Option Task) (t : Task) (hits : List Task)
    → P t
    → All P hits
    → All P (hit c t hits)
All-hit P none t hits p ps = ps
All-hit P (some cached) t hits p ps = (p, ps)

module _ (env : Services) where
  settle_cached-Extends :
      (old hits : List Task) (db : Db) (out : List Task)
      → All (λ t. find_task t.task_id old ≡ none) hits
      → Extends old db.tasks
      → Extends old (settle_cached env hits db out).0.tasks
  unfolding settle_cached
  settle_cached-Extends old [] db out fresh ext = ext
  settle_cached-Extends old (t ∷ ts) db out fresh ext =
      settle_cached-Extends old ts _ _ fresh.1 (Extends-save old db.tasks _ fresh.0 ext)

  All-hits :
      (P : Task → Type 0) (tenant_id job_id rv : String) (drawn : ℕ) (seen : List Task)
      (nodes : List TaskNode)
      → All P (build env tenant_id job_id rv drawn seen nodes).0
      → All P (build env tenant_id job_id rv drawn seen nodes).1
  unfolding build
  All-hits P tenant_id job_id rv drawn seen [] a = tt
  All-hits P tenant_id job_id rv drawn seen (n ∷ ns) a = All-hit P (cached) _ _ a.0 (
      All-hits P tenant_id job_id rv (with_id env drawn n).1
        (seen ++ reuse cached (fresh_task env tenant_id job_id rv (with_id env drawn n).0) ∷ []) ns
        a.1)
    where
      cached : Option Task
      cached = lookup_cached_task env tenant_id (cache_key env rv (with_id env drawn n).0) seen

  enqueue_ready-tasks :
      (job_id : String) (now : ℕ) (tasks : List Task) (db : Db)
      → (enqueue_ready job_id now tasks db).tasks ≡ db.tasks
  unfolding enqueue_ready
  enqueue_ready-tasks job_id now tasks db = ground (arith, tasks-finalize job_id now db)

  cancel_job-tasks :
      (tenant_id job_id : String) (force : Bool) (db : Db)
      → (cancel_job tenant_id job_id force db).0.tasks ≡ db.tasks
  unfolding cancel_job get_job
  cancel_job-tasks tenant_id job_id force db = ground arith

  submit-Extends :
      (job_id tenant_id project_id recipe rv : String) (spec : Option Fields) (now : ℕ)
      (nodes : List TaskNode) (db : Db)
      → All
          (λ t. find_task t.task_id db.tasks ≡ none)
          (build env tenant_id job_id rv 0 db.tasks (with_ids env 0 nodes)).0
      → Extends db.tasks
          (submit_job_dag env job_id tenant_id project_id recipe rv spec now nodes db).0.tasks
  unfolding submit_job_dag create_job materialize_dag
  submit-Extends job_id tenant_id project_id recipe rv spec now nodes db fresh =
      rw enqueue_ready-tasks (
        settle_cached-Extends db.tasks _ _ _
          (All-hits (λ t. find_task t.task_id db.tasks ≡ none) tenant_id job_id rv 0 db.tasks
            (with_ids env 0 nodes) fresh)
          (Extends-append db.tasks _))

  -- A step leaves the result of every terminal task as it is.
  pub Step-KeepsSettled : (db db' : Db) → Step env db db' → KeepsSettled db.tasks db'.tasks
  Step-KeepsSettled db db' (pickup_step worker ttl now task_id) =
      KeepsSettled-of _ _ (pickup-KeepsTerminal worker ttl now task_id db)
  Step-KeepsSettled db db' (finish_step worker now task_id outcome) =
      KeepsSettled-of _ _ (finish-KeepsTerminal worker now task_id outcome db)
  Step-KeepsSettled db db' (heartbeat_step worker ttl now task_id) =
      heartbeat-KeepsSettled task_id worker ttl now db.tasks
  Step-KeepsSettled db db' (reclaim_step now) =
      KeepsSettled-of _ _ (reclaim-KeepsTerminal now db.tasks)
  Step-KeepsSettled db db' (propagate_step now) =
      KeepsSettled-of _ _ (propagate-KeepsTerminal now db)
  Step-KeepsSettled db db' (cancel_step tenant_id job_id force) =
      rw (cancel_job-tasks tenant_id job_id force db) (KeepsSettled-refl db.tasks)
  Step-KeepsSettled db db'
        (submit_step job_id tenant_id project_id recipe rv spec now nodes fresh) =
      KeepsSettled-of _ _ (λ id t e h.
        submit-Extends job_id tenant_id project_id recipe rv spec now nodes db fresh id t e)

pub Run-KeepsSettled :
    (env : Services) (db db' : Db) → Run env db db' → KeepsSettled db.tasks db'.tasks
Run-KeepsSettled env db db' here = KeepsSettled-refl db.tasks
Run-KeepsSettled env db db' (next {mid} r st) =
    KeepsSettled-trans db.tasks mid.tasks db'.tasks (Run-KeepsSettled env db mid r)
      (Step-KeepsSettled env mid db' st)

-- In every run of the system, from any database, a task that has reached a terminal status keeps
-- that status, its outputs, its error and its times: only the expiry of its lease can still move.
pub Run-settled :
    (env : Services) (id : String) (db db' : Db) (t : Task)
    → Run env db db'
    → find_task id db.tasks ≡ some t
    → is_terminal t.status ≡ true
    → (u : Task) × (find_task id db'.tasks ≡ some u)
      × (record u { lease_expires_at = t.lease_expires_at } ≡ t)
Run-settled env id db db' t r found ended =
    let (u, found', same) = Run-KeepsSettled env db db' r id t found ended in
    (u, found', ap (λ (x : Task). record x { lease_expires_at = t.lease_expires_at }) same)
