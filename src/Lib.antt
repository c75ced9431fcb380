-- ===== src/Lib.antt =====
-- Verification library of SceneAPI: the orchestrator of the server, its pipelines, its listings and
-- its uploads, and the plugin hub.
--
-- A request becomes a job with a DAG of tasks. Workers take tasks up under leases, run their
-- handlers and commit the results; a janitor recovers what dead workers left and passes failures
-- on. All parts share one database. The model is explicit state passing: a database `Db` holds the
-- rows of `task` and `job` and the list of the calls made of other parts (deliveries, hooks,
-- artifact rows), and each operation is a function from a database to the next and its result.
--
-- Parts, and the code that they model (paths from the repository's root):
--   Db, Error     sceneapi/server/db/models.py (`Task`, `Job`) and core/errors.py: rows and errors
--   Readiness     sceneapi/server/orchestrator/readiness.py: both functions
--   Lease         sceneapi/server/orchestrator/lease.py, and `_owns_live_running_lease`
--   Sweep         the fixed-point loop that the dispatcher and the janitor both write out
--   JobService    sceneapi/server/services/job_service.py and orchestrator/dag.py: the task cache,
--                 cancellation and the roll-up of a job's status
--   Dispatcher    sceneapi/server/workers/dispatcher.py: `execute_task` as `pickup` (its first
--                 session) and `finish` (its last), and what follows a terminal task
--   Janitor       sceneapi/server/orchestrator/janitor.py: reclaim, propagation, retention
--   Scheduler     sceneapi/server/orchestrator/scheduler.py and resume.py
--   Number, Attributes
--                 sceneapi/server/core/attributes.py: declared attributes and their values
--   Pipelines     sceneapi/server/core/pipelines.py and processors.py (and core/config_stages.py): the
--                 table of processors, the two validations of a pipeline, and the dependencies
--                 between its steps that the scheduler gets
--   Pagination    sceneapi/server/db/pagination.py, and the listing of jobs
--   JobProgress   sceneapi/server/services/job_progress_service.py: the summary of a job
--   System        the parts together, as a step relation, and the invariants of its runs
--   Upload        sceneapi/server/services/upload_service.py, check_storage of quota_service.py, and
--                 TempUploadStore and the put of a blob store in storage/blobs.py; a request
--                 (db/session.py) keeps or rolls back the rows, and keeps the files as they are
--   Conversion    sceneapi/server/services/artifact_conversion_service.py: the search for a path of
--                 conversions between formats, the plan for an artifact, and its submission with the
--                 artifact vocabulary (sceneapi/server/core/artifacts.py)
--   Dataflow      sfm_hub/models/dataflow.py, and the typed extensions of a manifest in
--                 sfm_hub/models/manifest.py: the dataflow that a plugin declares, with the checks of its
--                 processors, extensions and pipelines, beside the server's own validation
--   Hub           sfm_hub/state.py and sfm_hub/routing.py: the hub's state and its changes, and the
--                 provider that a stage is sent to
--   Tests         small databases, and each theorem at work on one
--
-- Times are natural numbers in one unit from a fixed origin, and a session reads the clock once.
-- The `while` loops run on fuel, one round more than the table has rows: every round but the last
-- takes a row out of the pending ones, so the loops end by their own test (Sweep/Laws). The search of
-- Conversion has one round for each step and one for the start. A table is
-- a list, a SELECT by key is the first row with the key, and an UPDATE maps the rows that its WHERE
-- clause takes. The loop of the dispatcher runs over the whole table and leaves other jobs alone.
--
-- Parameters of the model (`Services`): the hash of a cache key, the choice that ORDER BY
-- finished_at DESC LIMIT 1 makes, fresh ids, and the normalisation of outputs. Where a theorem
-- needs it, the choice is assumed to be one of the matching rows. The hash of uploaded content
-- (SHA-256) and the entry points that the hub discovers are parameters as well, without
-- hypotheses, and so are the conversions that a backend lists, the tables of the
-- artifact vocabulary, the ids of the core data types and pipelines, the vocabulary
-- of data types (`is_data_type`) and the lookup of a processor. The floats of a summary are a
-- parameter, with the documented laws of `max` and `min` as hypotheses; their division is total, so
-- the OverflowError that Python raises for integers that no float holds is left out.
--
-- Not modelled: the handlers, the progress reporter and the hooks themselves, which the model
-- records as calls; exceptions of the database; an exception raised after a success was committed;
-- texts of messages and printed contracts; a JSON number that is not finite; the HTTP interface
-- and the queues' transport; the hub's files, locks and installers, and the validation of its
-- profiles' stage names. A session and the roll-ups that follow its commit are one step of System.
-- Resuming a job and the retention sweep are modelled, but are no steps of System, since they
-- reopen or remove terminal rows on purpose.
pub mod Base
pub mod Number
pub mod Dataflow
pub mod Db
pub mod Error
pub mod Readiness
pub mod Lease
pub mod Sweep
pub mod JobService
pub mod Dispatcher
pub mod Janitor
pub mod Scheduler
pub mod Attributes
pub mod Pagination
pub mod JobProgress
pub mod Pipelines
pub mod Conversion
pub mod Upload
pub mod Hub
pub mod System
pub mod Tests
