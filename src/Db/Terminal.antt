-- ===== src/Db/Terminal.antt =====
-- Changes of the task table that leave rows in a terminal status alone.
use mathlib.Core.Option.{some-injective}
use mathlib.Core.Bool.{false≢true}
use scene_api.Base.{
  String, ◌≡◌, refl, sym, ap, ◌∙◌, inl, inr, Bool, true, false, some, List, [], ◌∷◌, arith, ◌==◌,
  eq_iff, Bool-cases, update_where, Zip,
}
use scene_api.Db.{Task, TaskStatus, find_task, save_task}

-- Neither pending nor running.
abbrev pub is_terminal : TaskStatus → Bool
is_terminal TaskStatus.pending = false
is_terminal TaskStatus.running = false
is_terminal _ = true

-- The row found under an id is the same after the change, if its status was terminal.
abbrev pub KeepsTerminal : List Task → List Task → Type 0
KeepsTerminal rows rows' =
    (id : String) (t : Task)
    → find_task id rows ≡ some t
    → is_terminal t.status ≡ true
    → find_task id rows' ≡ some t

pub KeepsTerminal-refl : (rows : List Task) → KeepsTerminal rows rows
KeepsTerminal-refl rows id t e h = e

pub KeepsTerminal-trans :
    (xs ys zs : List Task) → KeepsTerminal xs ys → KeepsTerminal ys zs → KeepsTerminal xs zs
KeepsTerminal-trans xs ys zs p q id t e h = q id t (p id t e h) h

-- A step of one row: the same id, and the same row if it was terminal.
pub record RowStep (t t' : Task) : Type 0 where
  pub same_id : t'.task_id ≡ t.task_id
  pub kept : is_terminal t.status ≡ true → t' ≡ t

pub RowStep-refl : (t : Task) → RowStep t t
RowStep-refl t = record { same_id = refl; kept = λ _. refl }

pub RowStep-trans : (a b c : Task) → RowStep a b → RowStep b c → RowStep a c
RowStep-trans a b c p q = record {
  same_id = q.same_id ∙ p.same_id;
  kept = λ h. let e = p.kept h in q.kept (rw e h) ∙ e;
}

pub KeepsTerminal-Zip : (rows rows' : List Task) → Zip RowStep rows rows' → KeepsTerminal rows rows'
KeepsTerminal-Zip [] [] z id t e h = e
KeepsTerminal-Zip [] (y ∷ ys) z id t e h = absurd z
KeepsTerminal-Zip (x ∷ xs) [] z id t e h = absurd z
KeepsTerminal-Zip (x ∷ xs) (y ∷ ys) z id t e h = elim (Bool-cases (x.task_id == id)) [
  | inl matched ↦
      let x_is_t = some-injective x t (rw matched at e) in
      rw (z.0.kept (rw x_is_t h), matched) (ap some x_is_t)
  | inr miss ↦ rw (z.0.same_id, miss) (KeepsTerminal-Zip xs ys z.1 id t (rw miss at e) h)
]

pub update_where-RowStep :
    (p : Task → Bool) (f : Task → Task) (step : (t : Task) → p t ≡ true → RowStep t (f t))
    (rows : List Task)
    → Zip RowStep rows (update_where p f rows)
update_where-RowStep p f step [] = tt
update_where-RowStep p f step (t ∷ ts) = elim (Bool-cases (p t)) [
  | inl e ↦ rw e (step t e, update_where-RowStep p f step ts)
  | inr e ↦ rw e (RowStep-refl t, update_where-RowStep p f step ts)
]

pub find-save_ne :
    (id : String) (t : Task) (rows : List Task)
    → (t.task_id == id) ≡ false
    → find_task id (save_task t rows) ≡ find_task id rows
find-save_ne id t [] h = refl
find-save_ne id t (u ∷ us) h = ground (
  arith,
  eq_iff t.task_id id,
  eq_iff u.task_id id,
  eq_iff u.task_id t.task_id,
  find-save_ne id t us h,
)

-- A row is written over only if it was not terminal.
pub KeepsTerminal-save :
    (rows : List Task) (old t : Task)
    → find_task t.task_id rows ≡ some old
    → is_terminal old.status ≡ false
    → KeepsTerminal rows (save_task t rows)
KeepsTerminal-save rows old t found open_row id u e h = elim (Bool-cases (t.task_id == id)) [
  | inl matched ↦
      let at_id : find_task t.task_id rows ≡ some u = rw ((eq_iff t.task_id id).0 matched) e in
      let old_is_u = some-injective old u (sym found ∙ at_id) in
      absurd (false≢true (sym open_row ∙ rw old_is_u h))
  | inr miss ↦ rw (find-save_ne id t rows miss) e
]
