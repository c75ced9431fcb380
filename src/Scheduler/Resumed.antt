-- ===== src/Scheduler/Resumed.antt =====
-- What `resume_job` does on each of its branches.
use mathlib.Core.Bool.{false≢true}
use mathlib.Core.Option
use mathlib.Core.Option.{none-ne-some, some-injective}
use scene_api.Error.{ok, err}
use scene_api.Base.{
  String, ◌≡◌, refl, sym, ap, ◌∙◌, ◌⊎◌, inl, inr, true, false, Option, none, some, List, [], ◌∷◌,
  arith, ◌==◌, eq_iff, eqb, if◌then◌else◌, Bool-cases, count, first, All,
}
use scene_api.Db.{Task, find_task, JobStatus, Job, Db, TaskStatus}
use scene_api.Scheduler.{
  reset_task, is_resumable_job, resets, is_resumable, reset_job, restart, resuming, resume_job,
}
use scene_api.Error.{Result}
use scene_api.JobService.{get_job, or_not_found}
use scene_api.Db.Rows.{find-update_where}
use scene_api.Db.Jobs.{saved_job, first_job, job_named, other_jobs}

abbrev pub Stopped : JobStatus → Type 0
Stopped s = (s ≡ JobStatus.failed) ⊎ (s ≡ JobStatus.cancelled) ⊎ (s ≡ JobStatus.cancelled_dirty)

abbrev pub StoppedTask : TaskStatus → Type 0
StoppedTask s =
    (s ≡ TaskStatus.failed) ⊎ (s ≡ TaskStatus.cancelled) ⊎ (s ≡ TaskStatus.cancelled_dirty)

-- A row of the job that had failed or was cancelled waits again, with its error, lease, worker and
-- times cleared; any other row is as it was.
abbrev pub ResumedRow : (job_id : String) → Task → Task → Type 0
ResumedRow job_id t t' =
    ((t.job_id ≡ job_id)
      × StoppedTask t.status
      × (t' ≡ record t {
        status = TaskStatus.pending;
        error_class = none;
        error_message = none;
        lease_expires_at = none;
        worker_id = none;
        started_at = none;
        finished_at = none;
      }))
    ⊎ ((t.job_id ≡ job_id → ¬ StoppedTask t.status) × (t' ≡ t))

-- The job is there and had stopped; it is stored, and returned, as a pending job with its cancel
-- flags, error and times cleared; the other jobs are as they were; and so are the rows, but for
-- those of the job that had stopped.
abbrev pub Accepted : (tenant_id job_id : String) → (db db' : Db) → (j' : Job) → Type 0
Accepted tenant_id job_id db db' j' =
    (j : Job) × (get_job tenant_id job_id db ≡ ok j)
    × Stopped j.status
    × (j' ≡ record j {
      cancel_requested = false;
      cancel_force = false;
      status = JobStatus.pending;
      error_class = none;
      error_message = none;
      started_at = none;
      finished_at = none;
    })
    × (get_job tenant_id job_id db' ≡ ok j')
    × ((tenant id : String) → (id == job_id) ≡ false → get_job tenant id db' ≡ get_job tenant id db)
    × ((id : String) (t : Task)
        → find_task id db.tasks ≡ some t
        → (t' : Task) × (find_task id db'.tasks ≡ some t') × ResumedRow job_id t t')

-- Nothing changed, and the job is not there, had not stopped, or had no row that had stopped.
abbrev pub Refused : (tenant_id job_id : String) → (db db' : Db) → Type 0
Refused tenant_id job_id db db' =
    (db' ≡ db)
    × ((j : Job)
        → get_job tenant_id job_id db ≡ ok j
        → Stopped j.status
        → All (λ t. t.job_id ≡ job_id → ¬ StoppedTask t.status) db.tasks)

abbrev pub Resumed : (tenant_id job_id : String) → Db → Db × Result Job → Type 0
Resumed tenant_id job_id db (db', err e) = Refused tenant_id job_id db db'
Resumed tenant_id job_id db (db', ok j') = Accepted tenant_id job_id db db' j'

resumable-Stopped : (s : JobStatus) → is_resumable_job s ≡ true → Stopped s
resumable-Stopped JobStatus.failed h = inl refl
resumable-Stopped JobStatus.cancelled h = inr (inl refl)
resumable-Stopped JobStatus.cancelled_dirty h = inr (inr refl)
resumable-Stopped s h = absurd (false≢true h)

Stopped-resumable : (s : JobStatus) → Stopped s → is_resumable_job s ≡ true
Stopped-resumable s (inl e) = rw e refl
Stopped-resumable s (inr (inl e)) = rw e refl
Stopped-resumable s (inr (inr e)) = rw e refl

is_resumable-StoppedTask : (s : TaskStatus) → is_resumable s ≡ true → StoppedTask s
is_resumable-StoppedTask TaskStatus.failed h = inl refl
is_resumable-StoppedTask TaskStatus.cancelled h = inr (inl refl)
is_resumable-StoppedTask TaskStatus.cancelled_dirty h = inr (inr refl)
is_resumable-StoppedTask s h = absurd (false≢true h)

StoppedTask-is_resumable : (s : TaskStatus) → StoppedTask s → is_resumable s ≡ true
StoppedTask-is_resumable s (inl e) = rw e refl
StoppedTask-is_resumable s (inr (inl e)) = rw e refl
StoppedTask-is_resumable s (inr (inr e)) = rw e refl

not-resets :
    (job_id : String) (t : Task)
    → resets job_id t ≡ false
    → t.job_id ≡ job_id
    → ¬ StoppedTask t.status
unfolding resets
not-resets job_id t h own stopped =
    absurd
      (ground (arith, (eq_iff t.job_id job_id).1 own, StoppedTask-is_resumable t.status stopped))

resets-ResumedRow :
    (job_id : String) (t : Task) → ResumedRow job_id t (if resets job_id t then reset_task t else t)
unfolding resets
resets-ResumedRow job_id t = elim (Bool-cases (resets job_id t)) [
  | inl yes_it ↦ rw yes_it (
      inl (
        ground (arith, eq_iff t.job_id job_id),
        is_resumable-StoppedTask t.status (ground arith),
        refl,
      ))
  | inr no_it ↦ rw no_it (inr (not-resets job_id t no_it, refl))
]

none-resets :
    (job_id : String) (rows : List Task)
    → eqb (count (resets job_id) rows) 0 ≡ true
    → All (λ t. t.job_id ≡ job_id → ¬ StoppedTask t.status) rows
none-resets job_id [] h = tt
none-resets job_id (t ∷ ts) h = elim (Bool-cases (resets job_id t)) [
  | inl yes_it ↦ absurd (ground (arith, yes_it))
  | inr no_it ↦ (not-resets job_id t no_it, none-resets job_id ts (rw no_it at h))
]

or_not_found-some : (f : Option Job) (j : Job) → or_not_found f ≡ ok j → f ≡ some j
or_not_found-some none j e = cc
or_not_found-some (some k) j e = cc

restart-Accepted :
    (tenant_id job_id : String) (j : Job) (db : Db)
    → first (job_named tenant_id job_id) db.jobs ≡ some j
    → is_resumable_job j.status ≡ true
    → Resumed tenant_id job_id db (restart j db)
unfolding restart get_job
restart-Accepted tenant_id job_id j db found stopped =
    let (of_tenant, same) = first_job tenant_id job_id db.jobs j found in
    let named : job_named tenant_id job_id (reset_job j) ≡ true =
      ground (arith, eq_iff j.tenant_id tenant_id, eq_iff j.job_id job_id) in
    (
      j,
      ap or_not_found found,
      resumable-Stopped j.status stopped,
      refl,
      ap or_not_found (saved_job tenant_id job_id db.jobs j (reset_job j) named found),
      λ tenant id other.
          ap or_not_found (other_jobs tenant id db.jobs (reset_job j) (rw same other)),
      λ id t e. (
        if resets job_id t then reset_task t else t,
        rw same (
            find-update_where (resets job_id) reset_task (λ u. refl) id db.tasks
            ∙ ap (Option.map (λ u. if resets job_id u then reset_task u else u)) e),
        resets-ResumedRow job_id t,
      ),
    )

-- A resume is accepted or refused. Accepted: the job was there and failed, cancelled or
-- cancelled_dirty; it is stored as pending, with its cancel flags, error and times cleared; each of
-- its failed, cancelled and cancelled_dirty rows waits again, without worker and lease; and every
-- other row, and every job of another id, is as it was. Refused: nothing changed, and the job, if it
-- is there with such a status, has no row with one.
pub resume_job-Resumed :
    (tenant_id job_id : String) (db : Db)
    → Resumed tenant_id job_id db (resume_job tenant_id job_id db)
unfolding resume_job get_job
resume_job-Resumed tenant_id job_id db = go _ refl
  where
    go :
        (f : Option Job)
        → first (job_named tenant_id job_id) db.jobs ≡ f
        → Resumed tenant_id job_id db (resuming f db)
    go none e = (refl, λ j found. absurd (none-ne-some j (sym e ∙ or_not_found-some _ j found)))
    go (some j) e = elim (Bool-cases (is_resumable_job j.status)) [
      | inr settled ↦ rw settled (
        refl,
        λ k found stopped.
            let same : j ≡ k = some-injective j k (sym e ∙ or_not_found-some _ k found) in
            absurd (
              false≢true (
                sym settled
                ∙ ap (λ x. is_resumable_job x.status) same
                ∙ Stopped-resumable k.status stopped)),
      )
      | inl stopped ↦ elim (Bool-cases (eqb (count (resets j.job_id) db.tasks) 0)) [
        | inl idle ↦
            rw (stopped, idle)
              (
                refl,
                λ k found was.
                    none-resets job_id db.tasks
                      (rw (sym (first_job tenant_id job_id db.jobs j e).1) idle),
              )
        | inr some_rows ↦ rw (stopped, some_rows) (restart-Accepted tenant_id job_id j db e stopped)
      ]
    ]
