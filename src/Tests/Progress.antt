-- ===== src/Tests/Progress.antt =====
-- A job with a failure, a chain of two rows, and the progress that it reports.
use scene_api.Base.{
  ℕ, ◌+◌, ◌≤◌, String, ◌≡◌, refl, false, ◌&&◌, some, List, [], ◌∷◌, arith, ◌==◌, leb, if◌then◌else◌,
  count, get,
}
use scene_api.Tests.Data.{row, job}
use scene_api.Db.{Task, TaskStatus, JobStatus, Db, end, field, Json}
use scene_api.Number.{less}
use scene_api.Error.{ok}
use scene_api.JobService.{get_job}
use scene_api.Dispatcher.{mark_loop}
use scene_api.Dispatcher.Liveness.{mark_loop-Moves, Moves}
use scene_api.JobProgress.{
  JobEvent, Floats, JobProgressOut, get_job_progress, or_zero, task_status_text,
}
use scene_api.JobProgress.Bounds.{Ordered, IsBounded, get_job_progress-IsBounded, task_counts-count}

abbrev rows : List Task
rows =
    row "a" "j" [] TaskStatus.failed
    ∷ row "b" "j" ("a" ∷ []) TaskStatus.pending
    ∷ row "c" "j" [] TaskStatus.pending
    ∷ []

-- The row after the failed one is settled, and the one without dependencies can be taken up.
mark_loop-Moves_example : Moves "j" (mark_loop "j" 5 rows).statuses (mark_loop "j" 5 rows).rows
mark_loop-Moves_example =
    mark_loop-Moves "j" 5 rows ((refl, (refl, tt)), ((refl, tt), (tt, tt)))
      (tt, ((refl, tt), (tt, tt)))

-- A stand-in for the floats: whole numbers, where a quotient is rounded down to 0.
abbrev whole_floats : Floats ℕ
whole_floats = record {
  float_zero = 0;
  float_one = 1;
  divide = λ a b. if less a b then 0 else 1;
  add = λ a b. a + b;
  divide_by = λ a n. if leb n a then 1 else 0;
  min = λ a b. if leb a b then a else b;
  max = λ a b. if leb a b then b else a;
}

whole_laws : Ordered whole_floats (λ a b. a ≤ b)
whole_laws = record {
  le_self = λ a. omega arith;
  zero_one = omega arith;
  max_above = λ a b. ground arith;
  max_below = λ a b c h k. ground (arith, h, k);
  min_below = λ a b. ground arith;
}

abbrev database : Db
database = record { tasks = rows; jobs = job "j" JobStatus.pending ∷ []; calls = [] }

abbrev int_of : ℕ → Json
int_of n = Json.number (record { is_float = false; negative = false; magnitude = n; halvings = 0 })

-- An event that claims more than the whole.
abbrev events : List JobEvent
events =
    record {
      event_id = 1;
      job_id = "j";
      payload = some (
          field "kind" (Json.text "phase_progress") (
            field "task_id" (Json.text "c")
              (field "current" (int_of 7) (field "total" (int_of 5) end))));
    }
    ∷ []

tenant_of :
    get_job (job "j" JobStatus.pending).tenant_id "j" database ≡ ok (job "j" JobStatus.pending)
unfolding get_job
tenant_of = refl

get_job_progress-IsBounded_example :
    (r : JobProgressOut whole_floats) × (get_job_progress whole_floats
        (job "j" JobStatus.pending).tenant_id
        "j"
        9
        events
        database
      ≡ ok r)
    × IsBounded whole_floats (λ a b. a ≤ b) whole_laws r
get_job_progress-IsBounded_example =
    get_job_progress-IsBounded whole_floats (λ a b. a ≤ b) whole_laws
      (job "j" JobStatus.pending).tenant_id "j" 9 events database (job "j" JobStatus.pending)
      tenant_of

task_counts-count_example :
    (r : JobProgressOut whole_floats) × (get_job_progress whole_floats
        (job "j" JobStatus.pending).tenant_id
        "j"
        9
        events
        database
      ≡ ok r)
    × ((k : String)
        → or_zero (get k r.task_counts)
          ≡ count (λ t. t.job_id == "j" && task_status_text t.status == k) database.tasks)
    × (r.total_tasks ≡ count (λ t. t.job_id == "j") database.tasks)
task_counts-count_example =
    task_counts-count whole_floats (job "j" JobStatus.pending).tenant_id "j" 9 events database
      (job "j" JobStatus.pending) tenant_of
