-- ===== src/JobService/RollUp.antt =====
-- What the roll-up of a job leaves alone, what it computes, and that it is idempotent.
use scene_api.Base.{
  ℕ, String, ◌≡◌, refl, ◌⊎◌, inl, inr, true, false, Option, none, some, List, [], ◌∷◌, arith,
  eq_iff, eq_refl, Bool-cases, any, All,
}
use scene_api.Db.{Task, TaskStatus, JobStatus, Db, find_job, save_job, Job}
use scene_api.JobService.{
  in_flight, is_failed, is_cancelled, new_status, finalize_job_if_ready, rolled_up, rows_of,
  unless_empty, finalizing,
}

module _ (job_id : String) (now : ℕ) (db : Db) where
  pub tasks-finalize : (finalize_job_if_ready job_id now db).0.tasks ≡ db.tasks
  unfolding finalize_job_if_ready
  tasks-finalize = ground arith

  pub calls-finalize : (finalize_job_if_ready job_id now db).0.calls ≡ db.calls
  unfolding finalize_job_if_ready
  calls-finalize = ground arith

-- What the roll-up promises of a job's tasks, status by status.
abbrev pub AddsUp : List Task → Option JobStatus → Type 0
AddsUp rows none = any (λ t. in_flight t.status) rows ≡ true
AddsUp rows (some JobStatus.failed) =
    (any (λ t. in_flight t.status) rows ≡ false) × (any (λ t. is_failed t.status) rows ≡ true)
AddsUp rows (some JobStatus.succeeded) =
    All (λ t. (t.status ≡ TaskStatus.succeeded) ⊎ (t.status ≡ TaskStatus.skipped)) rows
AddsUp rows (some JobStatus.cancelled) =
    (any (λ t. in_flight t.status) rows ≡ false)
    × (any (λ t. is_failed t.status) rows ≡ false)
    × (any (λ t. is_cancelled t.status) rows ≡ true)
AddsUp rows (some s) = ⊥

all_reusable :
    (rows : List Task)
    → any (λ t. in_flight t.status) rows ≡ false
    → any (λ t. is_failed t.status) rows ≡ false
    → any (λ t. is_cancelled t.status) rows ≡ false
    → AddsUp rows (some JobStatus.succeeded)
all_reusable [] p q r = tt
all_reusable (t ∷ ts) p q r =
    (ground arith, all_reusable ts (ground arith) (ground arith) (ground arith))

-- The status that a job's tasks add up to is the one that the rules of the roll-up name: in flight
-- while a task is pending or running, else failed if one failed, else cancelled if one was
-- cancelled, and succeeded only if every task succeeded or was skipped.
pub new_status-AddsUp : (rows : List Task) → AddsUp rows (new_status rows)
unfolding new_status
new_status-AddsUp rows = elim (Bool-cases (any (λ t. in_flight t.status) rows)) [
  | inl busy ↦ rw busy busy
  | inr idle ↦ elim (Bool-cases (any (λ t. is_failed t.status) rows)) [
    | inl bad ↦ rw (idle, bad) (idle, bad)
    | inr good ↦ elim (Bool-cases (any (λ t. is_cancelled t.status) rows)) [
      | inl off ↦ rw (idle, good, off) (idle, good, off)
      | inr on ↦ rw (idle, good, on) (all_reusable rows idle good on)
    ]
  ]
]

rolled_up_idem :
    (status : JobStatus) (now later : ℕ) (rows : List Task) (j : Job)
    → rolled_up status later rows (rolled_up status now rows j) ≡ rolled_up status now rows j
unfolding rolled_up
rolled_up_idem JobStatus.failed now later rows j = ground arith
rolled_up_idem status now later rows j = ground arith

job_id-rolled_up :
    (status : JobStatus) (now : ℕ) (rows : List Task) (j : Job)
    → (rolled_up status now rows j).job_id ≡ j.job_id
unfolding rolled_up
job_id-rolled_up status now rows j = ground arith

find-save_job :
    (id : String) (j j' : Job) (jobs : List Job)
    → find_job id jobs ≡ some j
    → j'.job_id ≡ j.job_id
    → find_job id (save_job j' jobs) ≡ some j'
find-save_job id j j' [] e same = cc
find-save_job id j j' (k ∷ ks) e same = ground (
  arith,
  eq_iff k.job_id id,
  eq_iff k.job_id j'.job_id,
  eq_iff j'.job_id id,
  find-save_job id j j' ks,
)

save-save_job : (j : Job) (jobs : List Job) → save_job j (save_job j jobs) ≡ save_job j jobs
save-save_job j [] = refl
save-save_job j (k ∷ ks) = ground (arith, save-save_job j ks, eq_refl j.job_id)

-- Rolling a job up once more, at a later time, changes nothing.
pub finalize_idempotent :
    (job_id : String) (now later : ℕ) (db : Db)
    → (finalize_job_if_ready job_id later (finalize_job_if_ready job_id now db).0).0
      ≡ (finalize_job_if_ready job_id now db).0
unfolding finalize_job_if_ready
finalize_idempotent job_id now later db = go _ (find_job job_id db.jobs) refl refl
  where
    rows : List Task
    rows = rows_of job_id db.tasks

    again : Db → Db
    again d =
        (finalizing (unless_empty (rows_of job_id d.tasks) (new_status (rows_of job_id d.tasks)))
          (find_job job_id d.jobs) later (rows_of job_id d.tasks) d).0

    go :
        (o : Option JobStatus) (f : Option Job)
        → unless_empty rows (new_status rows) ≡ o
        → find_job job_id db.jobs ≡ f
        → again (finalizing o f now rows db).0 ≡ (finalizing o f now rows db).0
    go none f e found = rw e
    go (some status) none e found = rw (e, found)
    go (some status) (some j) e found = rw (
      e,
      find-save_job job_id j (rolled_up status now rows j) db.jobs found
          (job_id-rolled_up status now rows j),
      rolled_up_idem,
      save-save_job,
    )
