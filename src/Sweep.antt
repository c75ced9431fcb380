-- ===== src/Sweep.antt =====
-- The fixed-point loop over task rows that the dispatcher (`_mark_dependency_failures_and_ready`
-- of server/workers/dispatcher.py) and the janitor (`propagate_terminal_dependencies` of
-- server/orchestrator/janitor.py) both write out: rounds over the rows, each with the status map
-- that the rows before it have updated, until a round changes nothing.
pub mod Laws
pub mod Agrees
use scene_api.Base.{ℕ, zero, suc, Option, none, some, List, [], ◌∷◌, ◌++◌, map, put}
use scene_api.Db.{Task}
use scene_api.Readiness.{StatusMap}

-- `{t.task_id: t.status for t in rows}`
abbrev pub status_by_id : List Task → StatusMap
status_by_id rows = map (λ t. (t.task_id, t.status)) rows

-- The loop body: the row as the body changes it, or `none` where it goes on to the next row.
abbrev pub Visit : Type 0
Visit = StatusMap → Task → Option Task

pub record Swept : Type 0 where
  pub rows : List Task
  pub statuses : StatusMap
  pub changed : List Task

abbrev pub note : Option Task → StatusMap → StatusMap
note none m = m
note (some t) m = put t.task_id t.status m

abbrev pub replaced : Task → Option Task → Task
replaced t none = t
replaced t (some t') = t'

abbrev listed : Option Task → List Task → List Task
listed none ts = ts
listed (some t) ts = t ∷ ts

-- One round.
unfoldable pub sweep : Visit → StatusMap → List Task → Swept
sweep visit m [] = record { rows = []; statuses = m; changed = [] }
sweep visit m (t ∷ ts) =
    let seen = visit m t in
    let rest = sweep visit (note seen m) ts in
    record {
      rows = replaced t seen ∷ rest.rows;
      statuses = rest.statuses;
      changed = listed seen rest.changed;
    }

-- `while progressed`: on to the rest after a round with changes.
abbrev pub proceed : List Task → Swept → Swept → Swept
proceed [] s rest = s
proceed (c ∷ cs) s rest = record rest { changed = c ∷ cs ++ rest.changed }

-- The `while` loop; on fuel 0 it stops where it is.
unfoldable pub settle : ℕ → Visit → StatusMap → List Task → Swept
settle zero visit m rows = record { rows = rows; statuses = m; changed = [] }
settle (suc fuel) visit m rows =
    let s = sweep visit m rows in
    let rest = settle fuel visit s.statuses s.rows in proceed s.changed s rest
