-- ===== src/Dispatcher/Settled.antt =====
-- Where the loop of `_mark_dependency_failures_and_ready` ends.
use mathlib.Core.Bool.{false≢true}
use mathlib.Core.List.{Memᴰ, cons≢nil}
use scene_api.Base.{
  ℕ, suc, ◌≤◌, String, ◌≡◌, refl, sym, ap, ◌∙◌, subst, ◌≢◌, ◌⊎◌, inl, inr, true, none, some, List,
  [], ◌∷◌, map, arith, ◌==◌, eq_iff, length, All, contains, All-map, All-Memᴰ, get,
}
use scene_api.Db.{Task, TaskStatus}
use scene_api.Readiness.{DepState, StatusMap, dependency_state}
use scene_api.Lease.{is_pending}
use scene_api.Dispatcher.{mark_loop, visit_job}
use scene_api.Sweep.Laws.{settle-Quiet, pending_rows, Settles}
use scene_api.Sweep.{status_by_id}
use scene_api.JobService.{rows_of}
use scene_api.Sweep.Agrees.{
  Apart, settle-Tells, OfJob, shape, Agrees, KeepsShape, status_by_id-Agrees,
}
use scene_api.Readiness.Laws.{rank, worst, severity-worst, severity, rank-dependency_state}

pub pending-le_length : (rows : List Task) → pending_rows rows ≤ length rows
pending-le_length [] = omega arith
pending-le_length (t ∷ ts) = ground (arith, pending-le_length ts)

visit-Settles : (job_id : String) (now : ℕ) → Settles (visit_job job_id now)
unfolding visit_job
visit-Settles job_id now m t t' e = ground arith

abbrev pub IsSettled : String → StatusMap → Task → Type 0
IsSettled job_id m t =
    t.job_id ≡ job_id
    → is_pending t.status ≡ true
    → t.depends_on ≢ []
    → (dependency_state t.depends_on m ≡ DepState.ready)
      ⊎ (dependency_state t.depends_on m ≡ DepState.blocked)

quiet-IsSettled :
    (job_id : String) (now : ℕ) (m : StatusMap) (t : Task)
    → visit_job job_id now m t ≡ none
    → IsSettled job_id m t
unfolding visit_job
quiet-IsSettled job_id now m t e same waits some_deps = ground (arith, eq_iff t.job_id job_id)

pub mark_loop-IsSettled :
    (job_id : String) (now : ℕ) (rows : List Task)
    → All (IsSettled job_id (mark_loop job_id now rows).statuses) (mark_loop job_id now rows).rows
unfolding mark_loop
mark_loop-IsSettled job_id now rows = All-map _ _ _ (quiet-IsSettled job_id now _) (
    settle-Quiet (visit_job job_id now) (visit-Settles job_id now) (suc (length rows)) _ rows
      (omega (arith, pending-le_length rows)))

pub visit-KeepsShape : (job_id : String) (now : ℕ) → KeepsShape (visit_job job_id now)
unfolding visit_job
visit-KeepsShape job_id now m t t' e = ground arith

pub mark_loop-Agrees :
    (job_id : String) (now : ℕ) (rows : List Task)
    → Apart (map shape rows)
    → Agrees job_id (mark_loop job_id now rows).statuses (mark_loop job_id now rows).rows
unfolding mark_loop
mark_loop-Agrees job_id now rows apart =
    settle-Tells (OfJob job_id) (λ t _. refl) (visit_job job_id now) (visit-KeepsShape job_id now)
      (suc (length rows)) (status_by_id (rows_of job_id rows)) rows apart
      (status_by_id-Agrees job_id rows apart)

-- A status that a task may wait for, or go on from.
abbrev pub Harmless : TaskStatus → Type 0
Harmless s = (s ≢ TaskStatus.failed) × (s ≢ TaskStatus.cancelled) × (s ≢ TaskStatus.cancelled_dirty)

pub mild-Harmless : (s : TaskStatus) → severity (some s) ≤ 1 → Harmless s
mild-Harmless TaskStatus.failed h = absurd (omega (arith, h))
mild-Harmless TaskStatus.cancelled h = absurd (omega (arith, h))
mild-Harmless TaskStatus.cancelled_dirty h = absurd (omega (arith, h))
mild-Harmless s h = (λ e. cc, λ e. cc, λ e. cc)

pub settled-mild :
    (deps : List String) (m : StatusMap)
    → (dependency_state deps m ≡ DepState.ready) ⊎ (dependency_state deps m ≡ DepState.blocked)
    → worst deps m ≤ 1
settled-mild deps m (inl ready) = omega (arith, sym (rank-dependency_state deps m) ∙ ap rank ready)
settled-mild deps m (inr blocked) =
    omega (arith, sym (rank-dependency_state deps m) ∙ ap rank blocked)

named-some : (d : String) (deps : List String) → contains d deps ≡ true → deps ≢ []
named-some d [] h = absurd (false≢true h)
named-some d (e ∷ es) h = cons≢nil

-- The loop ends with no failure or cancellation left to pass on: in the table that it leaves, a
-- pending row of the job depends on no row of the job that is failed, cancelled or cancelled_dirty,
-- if no two rows have one id.
pub mark_loop_settled :
    (job_id : String) (now : ℕ) (rows : List Task) (t upstream : Task)
    → Apart (map shape rows)
    → Memᴰ t (mark_loop job_id now rows).rows
    → t.job_id ≡ job_id
    → is_pending t.status ≡ true
    → Memᴰ upstream (mark_loop job_id now rows).rows
    → upstream.job_id ≡ job_id
    → contains upstream.task_id t.depends_on ≡ true
    → Harmless upstream.status
mark_loop_settled job_id now rows t upstream apart there own waits there' own' named =
    let m = (mark_loop job_id now rows).statuses in
    let same_status =
      All-Memᴰ (λ u. (u.job_id == job_id) ≡ true → get u.task_id m ≡ some u.status) _ upstream
        (mark_loop-Agrees job_id now rows apart) there' ((eq_iff upstream.job_id job_id).1 own') in
    let settled =
      All-Memᴰ (IsSettled job_id m) _ t (mark_loop-IsSettled job_id now rows) there own waits
        (named-some upstream.task_id t.depends_on named) in
    mild-Harmless upstream.status (
      subst (λ o. severity o ≤ 1) same_status
        (omega (
          arith,
          severity-worst upstream.task_id t.depends_on m named,
          settled-mild t.depends_on m settled,
        )))
