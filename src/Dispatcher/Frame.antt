-- ===== src/Dispatcher/Frame.antt =====
-- What the roll-ups after a terminal task change in the task table and in the list of calls.
use scene_api.Base.{ℕ, String, ◌≡◌, ap, ◌∙◌, some, List, ◌++◌, map, arith, Zip}
use scene_api.Db.{Task, Db, enqueue}
use scene_api.Db.Terminal.{RowStep, RowStep-refl, RowStep-trans}
use scene_api.Readiness.{StatusMap}
use scene_api.Sweep.Laws.{settle-Zip}
use scene_api.JobService.RollUp.{tasks-finalize, calls-finalize}
use scene_api.Dispatcher.{
  visit_job, mark_loop, mark_dependency_failures_and_ready, advance_job_after_terminal,
  maybe_finalize_job, post_terminal,
}

pub visit-RowStep :
    (job_id : String) (now : ℕ) (m : StatusMap) (t t' : Task)
    → visit_job job_id now m t ≡ some t'
    → RowStep t t'
unfolding visit_job
visit-RowStep job_id now m t t' e = ground arith

pub mark_loop-RowStep :
    (job_id : String) (now : ℕ) (rows : List Task)
    → Zip RowStep rows (mark_loop job_id now rows).rows
unfolding mark_loop
mark_loop-RowStep job_id now rows =
    settle-Zip (visit_job job_id now) RowStep RowStep-refl (visit-RowStep job_id now) RowStep-trans
      _ _ rows

module _ (job_id : String) (now : ℕ) (db : Db) where
  pub tasks-maybe_finalize : (maybe_finalize_job job_id now db).tasks ≡ db.tasks
  unfolding maybe_finalize_job
  tasks-maybe_finalize = ground arith

  pub calls-maybe_finalize : (maybe_finalize_job job_id now db).calls ≡ db.calls
  unfolding maybe_finalize_job
  calls-maybe_finalize = ground arith

  pub tasks-advance :
      (advance_job_after_terminal job_id now db).tasks ≡ (mark_loop job_id now db.tasks).rows
  unfolding advance_job_after_terminal mark_dependency_failures_and_ready
  tasks-advance = tasks-finalize _ _ _

  pub calls-advance :
      (advance_job_after_terminal job_id now db).calls
      ≡ db.calls
        ++ map (λ id. enqueue id) (mark_dependency_failures_and_ready job_id now db.tasks).1
  unfolding advance_job_after_terminal
  calls-advance = rw calls-finalize

module _ (job_id : String) (now : ℕ) (db : Db) where
  pub tasks-post_terminal :
      (post_terminal job_id now db).tasks ≡ (mark_loop job_id now db.tasks).rows
  unfolding post_terminal
  tasks-post_terminal =
      tasks-advance job_id now (maybe_finalize_job job_id now db)
      ∙ ap (λ (rows : List Task). (mark_loop job_id now rows).rows)
          (tasks-maybe_finalize job_id now db)

  pub calls-post_terminal :
      (post_terminal job_id now db).calls
      ≡ db.calls
        ++ map (λ id. enqueue id) (mark_dependency_failures_and_ready job_id now db.tasks).1
  unfolding post_terminal
  calls-post_terminal = rw (calls-advance, calls-maybe_finalize, tasks-maybe_finalize)
