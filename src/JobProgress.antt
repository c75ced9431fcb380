-- ===== src/JobProgress.antt =====
-- sceneapi/server/services/job_progress_service.py: the progress of a job, from its rows and events.
-- The floats that Python computes with are a parameter. The rows of a table are in the order of
-- their creation.
pub mod Bounds
use mathlib.Core.Option
use scene_api.Base.{
  ℕ, ◌+◌, ◌-◌, String, Bool, true, false, Option, none, some, List, [], ◌∷◌, ◌==◌, leb,
  if◌then◌else◌, is_none, length, count, select, first, sort_by, Dict, get, put,
}
use scene_api.Number.{Number, less}
use scene_api.Error.{Result, ok, err}
use scene_api.Db.{end, Db, Task, TaskStatus, Job, JobStatus, Fields, Json}
use scene_api.Db.Terminal.{is_terminal}
use scene_api.Lease.{is_pending, is_running}
use scene_api.JobService.{get_job, rows_of}
use scene_api.Janitor.{lookup_field}
use scene_api.Pagination.{take}

-- A row of `job_event`.
pub record JobEvent : Type 0 where
  pub event_id : ℕ
  pub job_id : String
  pub payload : Option Fields

-- Python's floats: the quotient of two integers, the sum, the quotient by a count, and the two
-- functions that bound a value.
pub record Floats (F : Type 0) : Type 0 where
  pub float_zero : F
  pub float_one : F
  pub divide : Number → Number → F
  pub add : F → F → F
  pub divide_by : F → ℕ → F
  pub min : F → F → F
  pub max : F → F → F

abbrev pub task_status_text : TaskStatus → String
task_status_text TaskStatus.pending = "pending"
task_status_text TaskStatus.running = "running"
task_status_text TaskStatus.succeeded = "succeeded"
task_status_text TaskStatus.failed = "failed"
task_status_text TaskStatus.cancelled = "cancelled"
task_status_text TaskStatus.cancelled_dirty = "cancelled_dirty"
task_status_text TaskStatus.skipped = "skipped"

abbrev pub whole_number : ℕ → Number
whole_number n = record { is_float = false; negative = false; magnitude = n; halvings = 0 }

-- `isinstance(value, int)`, which a Boolean passes too
abbrev int_in : Option Json → Option Number
int_in (some (Json.number n)) = if n.is_float then none else some n
int_in (some (Json.bool b)) = some (whole_number (if b then 1 else 0))
int_in _ = none

abbrev text_in : Option Json → Option String
text_in (some (Json.text s)) = some s
text_in _ = none

-- `payload.get(key)` on a payload that is not empty
abbrev pub field_of : String → Option Fields → Option Json
field_of key none = none
field_of key (some payload) = lookup_field key payload

abbrev pub is_phase_progress : Option Json → Bool
is_phase_progress (some (Json.text s)) = s == "phase_progress"
is_phase_progress _ = false

-- `_elapsed_seconds`
abbrev pub elapsed : (started_at finished_at : Option ℕ) → (now : ℕ) → Option ℕ
elapsed none finished_at now = none
elapsed (some start) none now = some (now - start)
elapsed (some start) (some end_at) now = some (end_at - start)

-- `events_desc`
abbrev latest_events : (job_id : String) → List JobEvent → List JobEvent
latest_events job_id events =
    take 1000 (sort_by (λ a b. leb b.event_id a.event_id) (select (λ e. e.job_id == job_id) events))

-- `dict(event.payload_json or {})`
abbrev or_empty : Option Fields → Fields
or_empty none = end
or_empty (some payload) = payload

abbrev payload_of : Option JobEvent → Option Fields
payload_of none = none
payload_of (some e) = some (or_empty e.payload)

abbrev id_of : Option JobEvent → Option ℕ
id_of none = none
id_of (some e) = some e.event_id

abbrev first_event : List JobEvent → Option JobEvent
first_event [] = none
first_event (e ∷ es) = some e

abbrev noted : Option String → JobEvent → Dict JobEvent → Dict JobEvent
noted none e d = d
noted (some id) e d = if is_none (get id d) then put id e d else d

abbrev by_task : List JobEvent → Dict JobEvent → Dict JobEvent
by_task [] d = d
by_task (e ∷ es) d = by_task es (noted (text_in (field_of "task_id" e.payload)) e d)

abbrev pub or_zero : Option ℕ → ℕ
or_zero none = 0
or_zero (some n) = n

unfoldable pub counted_statuses : List Task → Dict ℕ → Dict ℕ
counted_statuses [] d = d
counted_statuses (t ∷ ts) d =
    counted_statuses ts
      (put (task_status_text t.status) (or_zero (get (task_status_text t.status) d) + 1) d)

-- The first running row, or the first pending one.
abbrev or_else : Option Task → Option Task → Option Task
or_else none later = later
or_else (some t) later = some t

unfoldable pub current_task : List Task → Option Task
current_task tasks =
    or_else (first (λ t. is_running t.status) tasks) (first (λ t. is_pending t.status) tasks)

abbrev is_over : JobStatus → Bool
is_over JobStatus.succeeded = true
is_over JobStatus.failed = true
is_over JobStatus.cancelled = true
is_over _ = false

module _ {F : Type 0} (floats : Floats F) where
  pub record TaskProgressOut : Type 0 where
    pub task_id : String
    pub kind : String
    pub status : TaskStatus
    pub progress : F
    pub phase : Option Json
    pub current : Option Number
    pub total : Option Number
    pub latest_event_id : Option ℕ
    pub latest_event_kind : Option Json
    pub started_at : Option ℕ
    pub finished_at : Option ℕ
    pub elapsed_seconds : Option ℕ

  pub record JobProgressOut : Type 0 where
    pub job_id : String
    pub recipe : String
    pub status : JobStatus
    pub progress : F
    pub total_tasks : ℕ
    pub completed_tasks : ℕ
    pub task_counts : Dict ℕ
    pub current_task_id : Option String
    pub current_task_kind : Option String
    pub current_phase : Option Json
    pub latest_event_id : Option ℕ
    pub latest_event : Option Fields
    pub tasks : List TaskProgressOut

  abbrev pub clamp : F → F
  clamp x = floats.max floats.float_zero (floats.min floats.float_one x)

  abbrev pub fraction_of : Option Number → Option Number → Option F × Option Number × Option Number
  fraction_of (some current) (some total) =
      if less (whole_number 0) total
      then (some (clamp (floats.divide current total)), some current, some total)
      else (none, some current, none)
  fraction_of current total = (none, current, none)

  -- `_event_fraction`
  unfoldable pub event_fraction : Option Fields → Option F × Option Number × Option Number
  event_fraction payload =
      if is_phase_progress (field_of "kind" payload)
      then fraction_of (int_in (field_of "current" payload)) (int_in (field_of "total" payload))
      else (none, none, none)

  abbrev pub or_start : Option F → F
  or_start none = floats.float_zero
  or_start (some x) = x

  -- `_task_fraction`
  unfoldable pub task_fraction : Task → Option Fields → F × Option Number × Option Number
  task_fraction t payload =
      let (fraction, current, total) = event_fraction payload in
      if is_terminal t.status
      then (floats.float_one, none, none)
      else (or_start fraction, current, total)

  unfoldable pub report : (now : ℕ) → Dict JobEvent → Task → TaskProgressOut
  report now latest t =
      let event = get t.task_id latest in
      let (fraction, current, total) = task_fraction t (payload_of event) in
      record {
        task_id = t.task_id;
        kind = t.kind;
        status = t.status;
        progress = fraction;
        phase = field_of "phase" (payload_of event);
        current = current;
        total = total;
        latest_event_id = id_of event;
        latest_event_kind = field_of "kind" (payload_of event);
        started_at = t.started_at;
        finished_at = t.finished_at;
        elapsed_seconds = elapsed t.started_at t.finished_at now;
      }

  abbrev pub reports : (now : ℕ) → Dict JobEvent → List Task → List TaskProgressOut
  reports now latest [] = []
  reports now latest (t ∷ ts) = report now latest t ∷ reports now latest ts

  -- `progress_sum`, from 0.0 on
  abbrev progress_sum : F → List TaskProgressOut → F
  progress_sum sum [] = sum
  progress_sum sum (r ∷ rs) = progress_sum (floats.add sum r.progress) rs

  abbrev overall : JobStatus → List TaskProgressOut → F
  overall status [] = if is_over status then floats.float_one else floats.float_zero
  overall status (r ∷ rs) =
      floats.divide_by (progress_sum floats.float_zero (r ∷ rs)) (length (r ∷ rs))

  unfoldable pub summary : (now : ℕ) → List JobEvent → List Task → Job → JobProgressOut
  summary now events tasks j =
      let latest = latest_events j.job_id events in
      let rs = reports now (by_task latest []) tasks in
      record {
        job_id = j.job_id;
        recipe = j.recipe;
        status = j.status;
        progress = clamp (overall j.status rs);
        total_tasks = length tasks;
        completed_tasks = count (λ t. is_terminal t.status) tasks;
        task_counts = counted_statuses tasks [];
        current_task_id = Option.map (λ t. t.task_id) (current_task tasks);
        current_task_kind = Option.map (λ t. t.kind) (current_task tasks);
        current_phase = field_of "phase" (payload_of (first_event latest));
        latest_event_id = id_of (first_event latest);
        latest_event = payload_of (first_event latest);
        tasks = rs;
      }

  abbrev pub summarised : (now : ℕ) → List JobEvent → List Task → Result Job → Result JobProgressOut
  summarised now events tasks (err e) = err e
  summarised now events tasks (ok j) = ok (summary now events tasks j)

  unfoldable pub get_job_progress :
      (tenant_id job_id : String) → (now : ℕ) → List JobEvent → Db → Result JobProgressOut
  get_job_progress tenant_id job_id now events db =
      summarised now events (rows_of job_id db.tasks) (get_job tenant_id job_id db)
