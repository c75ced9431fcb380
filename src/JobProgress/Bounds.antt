-- ===== src/JobProgress/Bounds.antt =====
-- The progress that a job reports is within bounds, and its counts are those of its rows.
use scene_api.Base.{
  ℕ, suc, ◌+◌, ◌≤◌, String, ◌≡◌, refl, ap, ◌∙◌, inl, inr, Bool, true, false, ◌&&◌, Option, none,
  some, List, [], ◌∷◌, arith, ◌==◌, eq_iff, if◌then◌else◌, Bool-cases, length, count, All, Dict,
  get, put,
}
use scene_api.Error.{ok}
use scene_api.Number.{Number, less}
use scene_api.Db.{Db, Task, Job, Fields}
use scene_api.JobService.{get_job, rows_of}
use scene_api.JobProgress.{
  JobEvent, Floats, JobProgressOut, clamp, fraction_of, event_fraction, task_fraction, report,
  reports, summary, summarised, get_job_progress, counted_statuses, task_status_text, or_zero,
  or_start, whole_number, field_of, is_phase_progress,
}
use scene_api.Attributes.{above}
use scene_api.Db.Terminal.{is_terminal}

count-le_length : {A : Type 0} (p : A → Bool) (xs : List A) → count p xs ≤ length xs
count-le_length p [] = omega arith
count-le_length p (x ∷ xs) = ground (arith, count-le_length p xs)

-- The order of the floats, and what Python documents of `max` and `min`.
pub record Ordered {F : Type 0} (floats : Floats F) (le : F → F → Type 0) : Type 0 where
  pub le_self : (a : F) → le a a
  pub zero_one : le floats.float_zero floats.float_one
  pub max_above : (a b : F) → le a (floats.max a b)
  pub max_below : (a b c : F) → le a c → le b c → le (floats.max a b) c
  pub min_below : (a b : F) → le (floats.min a b) a

module _ {F : Type 0} (floats : Floats F) (le : F → F → Type 0) (laws : Ordered floats le) where
  abbrev pub Within : F → Type 0
  Within x = le floats.float_zero x × le x floats.float_one

  clamp-Within : (x : F) → Within (clamp floats x)
  clamp-Within x = (
    laws.max_above floats.float_zero (floats.min floats.float_one x),
    laws.max_below floats.float_zero (floats.min floats.float_one x) floats.float_one laws.zero_one
        (laws.min_below floats.float_one x),
  )

  start-Within : Within floats.float_zero
  start-Within = (laws.le_self floats.float_zero, laws.zero_one)

  end-Within : Within floats.float_one
  end-Within = (laws.zero_one, laws.le_self floats.float_one)

  fraction-Within :
      (current total : Option Number)
      → Within (or_start floats (fraction_of floats current total).0)
  fraction-Within none total = start-Within
  fraction-Within (some current) none = start-Within
  fraction-Within (some current) (some total) = elim (Bool-cases (less (whole_number 0) total)) [
    | inl above ↦ rw above (clamp-Within (floats.divide current total))
    | inr none_left ↦ rw none_left start-Within
  ]

  event-Within :
      (payload : Option Fields) → Within (or_start floats (event_fraction floats payload).0)
  unfolding event_fraction
  event-Within payload = elim (Bool-cases (is_phase_progress (field_of "kind" payload))) [
    | inl phase ↦ rw phase (fraction-Within _ _)
    | inr other ↦ rw other start-Within
  ]

  task-Within : (t : Task) (payload : Option Fields) → Within (task_fraction floats t payload).0
  unfolding task_fraction
  task-Within t payload = elim (Bool-cases (is_terminal t.status)) [
    | inl ended ↦ rw ended end-Within
    | inr going ↦ rw going (event-Within payload)
  ]

  reports-Within :
      (now : ℕ) (latest : Dict JobEvent) (tasks : List Task)
      → All (λ r. Within r.progress) (reports floats now latest tasks)
  unfolding report
  reports-Within now latest [] = tt
  reports-Within now latest (t ∷ ts) = (task-Within t _, reports-Within now latest ts)

  length-reports :
      (now : ℕ) (latest : Dict JobEvent) (tasks : List Task)
      → length (reports floats now latest tasks) ≡ length tasks
  length-reports now latest [] = refl
  length-reports now latest (t ∷ ts) = ap suc (length-reports now latest ts)

  -- A summary with its fractions between 0 and 1, one report for each task, and no more completed
  -- tasks than tasks.
  abbrev pub IsBounded : JobProgressOut floats → Type 0
  IsBounded r =
      Within r.progress
      × All (λ t. Within t.progress) r.tasks
      × (length r.tasks ≡ r.total_tasks)
      × (r.completed_tasks ≤ r.total_tasks)

  summary-IsBounded :
      (now : ℕ) (events : List JobEvent) (tasks : List Task) (j : Job)
      → IsBounded (summary floats now events tasks j)
  unfolding summary
  summary-IsBounded now events tasks j = (
    clamp-Within _,
    reports-Within now _ tasks,
    length-reports now _ tasks,
    count-le_length (λ t. is_terminal t.status) tasks,
  )

  -- Whatever its events claim, a job that is found reports a progress between 0 and 1 for itself
  -- and each of its tasks, one report for each task, and no more completed tasks than tasks.
  pub get_job_progress-IsBounded :
      (tenant_id job_id : String) (now : ℕ) (events : List JobEvent) (db : Db) (j : Job)
      → get_job tenant_id job_id db ≡ ok j
      → (r : JobProgressOut floats) × (get_job_progress floats tenant_id job_id now events db
          ≡ ok r)
        × IsBounded r
  unfolding get_job_progress
  get_job_progress-IsBounded tenant_id job_id now events db j found = (
    summary floats now events (rows_of job_id db.tasks) j,
    ap (summarised floats now events (rows_of job_id db.tasks)) found,
    summary-IsBounded now events (rows_of job_id db.tasks) j,
  )

-- One more row of a status raises the number that is kept for it by one.
counted-put :
    (d : Dict ℕ) (k name : String)
    → or_zero (get k (put name (or_zero (get name d) + 1) d))
      ≡ (if name == k then suc (or_zero (get k d)) else or_zero (get k d))
counted-put d k name = elim (Bool-cases (name == k)) [
  | inl same ↦ rw (same, (eq_iff name k).0 same) (omega arith)
  | inr other ↦ rw other refl
]

counted_statuses-count :
    (tasks : List Task) (d : Dict ℕ) (k : String)
    → or_zero (get k (counted_statuses tasks d))
      ≡ count (λ t. task_status_text t.status == k) tasks + or_zero (get k d)
unfolding counted_statuses
counted_statuses-count [] d k = omega arith
counted_statuses-count (t ∷ ts) d k =
    step (task_status_text t.status == k) (count (λ t. task_status_text t.status == k) ts)
      (or_zero (get k d)) (counted_statuses-count ts _ k)
      (counted-put d k (task_status_text t.status))
  where
    step :
        (b : Bool) (n old : ℕ) {x y : ℕ}
        → x ≡ n + y
        → y ≡ (if b then suc old else old)
        → x ≡ (if b then suc n else n) + old
    step true n old e f = omega (arith, e, f)
    step false n old e f = omega (arith, e, f)

counted_rows :
    (job_id : String) (p : Task → Bool) (rows : List Task)
    → count p (rows_of job_id rows) + 0 ≡ count (λ t. t.job_id == job_id && p t) rows
counted_rows job_id p [] = refl
counted_rows job_id p (t ∷ ts) = elim (Bool-cases (t.job_id == job_id)) [
  | inl mine ↦ rw mine (ground (arith, counted_rows job_id p ts))
  | inr other ↦ rw other (counted_rows job_id p ts)
]

length-rows_of :
    (job_id : String) (rows : List Task)
    → length (rows_of job_id rows) ≡ count (λ t. t.job_id == job_id) rows
length-rows_of job_id [] = refl
length-rows_of job_id (t ∷ ts) = elim (Bool-cases (t.job_id == job_id)) [
  | inl mine ↦ rw mine (ground (arith, length-rows_of job_id ts))
  | inr other ↦ rw other (length-rows_of job_id ts)
]

-- The progress of a job that is found counts, under the name of each status, the rows of the job
-- with that status, where a name without an entry counts as 0, and its total is the number of the
-- job's rows.
pub task_counts-count :
    {F : Type 0} (floats : Floats F) (tenant_id job_id : String) (now : ℕ) (events : List JobEvent)
    (db : Db) (j : Job)
    → get_job tenant_id job_id db ≡ ok j
    → (r : JobProgressOut floats) × (get_job_progress floats tenant_id job_id now events db ≡ ok r)
      × ((k : String)
          → or_zero (get k r.task_counts)
            ≡ count (λ t. t.job_id == job_id && task_status_text t.status == k) db.tasks)
      × (r.total_tasks ≡ count (λ t. t.job_id == job_id) db.tasks)
unfolding get_job_progress summary
task_counts-count floats tenant_id job_id now events db j found = (
  summary floats now events (rows_of job_id db.tasks) j,
  ap (summarised floats now events (rows_of job_id db.tasks)) found,
  λ k.
      counted_statuses-count (rows_of job_id db.tasks) [] k
      ∙ counted_rows job_id (λ t. task_status_text t.status == k) db.tasks,
  length-rows_of job_id db.tasks,
)
