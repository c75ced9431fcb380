-- ===== src/Janitor/Frame.antt =====
-- What the janitor's sweeps change in the task table and in the list of calls.
use scene_api.Base.{
  ℕ, String, ◌≡◌, refl, ◌∙◌, true, ◌&&◌, some, List, [], ◌∷◌, ◌++◌, map, arith, ◌==◌, any, select,
  Zip,
}
use scene_api.Db.{set_reconstruction, Db, Task}
use scene_api.JobService.{finalize_job_if_ready}
use scene_api.Readiness.{StatusMap}
use scene_api.Janitor.{
  reclaim_expired_leases, finalize_all, propagate_terminal_dependencies, is_expired, propagate_loop,
  reset_lease, affected_reconstructions, visit_pending,
}
use scene_api.Db.Terminal.{
  RowStep-trans, update_where-RowStep, RowStep-refl, RowStep, KeepsTerminal, KeepsTerminal-Zip,
}
use scene_api.JobService.RollUp.{tasks-finalize, calls-finalize}
use scene_api.Sweep.Laws.{settle-Zip}

module _ (now : ℕ) where
  reclaim-RowStep :
      (reclaimed : List String) (t : Task)
      → (is_expired now t && any (λ id. id == t.task_id) reclaimed) ≡ true
      → RowStep t (reset_lease t)
  unfolding is_expired
  reclaim-RowStep reclaimed t e = record { same_id = refl; kept = λ h. ground arith }

  -- A reclaimed lease is a running task's.
  pub reclaim-KeepsTerminal :
      (rows : List Task) → KeepsTerminal rows (reclaim_expired_leases now rows).0
  unfolding reclaim_expired_leases
  reclaim-KeepsTerminal rows = KeepsTerminal-Zip _ _ (
      update_where-RowStep
        (λ t.
          is_expired now t
          && any (λ id. id == t.task_id) (map (λ t. t.task_id) (select (is_expired now) rows)))
        reset_lease (reclaim-RowStep _) rows)

  visit-RowStep : (m : StatusMap) (t t' : Task) → visit_pending now m t ≡ some t' → RowStep t t'
  unfolding visit_pending
  visit-RowStep m t t' e = ground arith

  propagate_loop-RowStep : (rows : List Task) → Zip RowStep rows (propagate_loop now rows).rows
  unfolding propagate_loop
  propagate_loop-RowStep rows =
      settle-Zip (visit_pending now) RowStep RowStep-refl visit-RowStep RowStep-trans _ _ rows

  tasks-finalize_all : (ids : List String) (db : Db) → (finalize_all now ids db).tasks ≡ db.tasks
  tasks-finalize_all [] db = refl
  tasks-finalize_all (id ∷ ids) db =
      tasks-finalize_all ids (finalize_job_if_ready id now db).0 ∙ tasks-finalize id now db

  calls-finalize_all : (ids : List String) (db : Db) → (finalize_all now ids db).calls ≡ db.calls
  calls-finalize_all [] db = refl
  calls-finalize_all (id ∷ ids) db =
      calls-finalize_all ids (finalize_job_if_ready id now db).0 ∙ calls-finalize id now db

  pub propagate-KeepsTerminal :
      (db : Db) → KeepsTerminal db.tasks (propagate_terminal_dependencies now db).0.tasks
  unfolding propagate_terminal_dependencies
  propagate-KeepsTerminal db =
      rw tasks-finalize_all (KeepsTerminal-Zip _ _ (propagate_loop-RowStep db.tasks))

  pub calls-propagate :
      (db : Db)
      → (propagate_terminal_dependencies now db).0.calls
        ≡ db.calls
          ++ map
              (λ a. set_reconstruction a.0 a.1 a.2)
              (affected_reconstructions (propagate_loop now db.tasks).changed [])
  unfolding propagate_terminal_dependencies
  calls-propagate db = rw calls-finalize_all
