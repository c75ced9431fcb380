-- ===== src/Db/Rows.antt =====
-- Looking a row up by its id, after an UPDATE.
use mathlib.Core.Option
use scene_api.Base.{
  String, ◌≡◌, refl, sym, subst, inl, inr, Bool, some, List, [], ◌∷◌, arith, eq_iff, eq_refl,
  if◌then◌else◌, Bool-cases, update_where,
}
use scene_api.Db.{Task, find_task, save_task}

-- A row that is found has the id that was asked for.
pub id-find :
    (id : String) (rows : List Task) (t : Task) → find_task id rows ≡ some t → t.task_id ≡ id
id-find id [] t e = cc
id-find id (u ∷ us) t e = ground (arith, eq_iff u.task_id id, id-find id us t)

-- So it is found under its own id too.
pub find_self :
    (id : String) (rows : List Task) (t : Task)
    → find_task id rows ≡ some t
    → find_task t.task_id rows ≡ some t
find_self id rows t e =
    subst (λ (x : String). find_task x rows ≡ some t) (sym (id-find id rows t e)) e

module _ (p : Task → Bool) (f : Task → Task)
    (same_id : (t : Task) → (f t).task_id ≡ t.task_id) where
  pub find-update_where :
      (id : String) (rows : List Task)
      → find_task id (update_where p f rows)
        ≡ Option.map (λ t. if p t then f t else t) (find_task id rows)
  find-update_where id [] = refl
  find-update_where id (u ∷ us) = elim (Bool-cases (p u)) [
    | inl e ↦ ground (arith, e, same_id u, find-update_where id us)
    | inr e ↦ ground (arith, e, find-update_where id us)
  ]

-- A row that is written is found.
pub find-save_self :
    (rows : List Task) (old t : Task)
    → find_task t.task_id rows ≡ some old
    → find_task t.task_id (save_task t rows) ≡ some t
find-save_self [] old t e = cc
find-save_self (u ∷ us) old t e =
    ground (arith, eq_iff u.task_id t.task_id, eq_refl t.task_id, find-save_self us old t)
