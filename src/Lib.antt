-- ===== src/Lib.antt =====
-- Verification of Meshium's migration pipeline and step engine (internal/mod/migration), and of the
-- job engine, the order of migrations, the compatibility checks, the risk engine, the checkpoints of
-- transfers and the rate limiter beside them.
--
-- Meshium moves workloads from one server to another. A migration has a row in a database; the
-- pipeline runs its stages over SSH, keeps its state, and is driven by an operator's verbs. This
-- library models that core.
--
--   State (state.go): the states, their names in the database, the transition table and the state
--   machine. State/Names, State/Table and State/Paths prove what the others use of them.
--   Pipeline: the row of one migration and the result of a call; Pipeline/Repo the calls of the
--   database (job.go, repo.go, pipeline_repo_stages.go, pipeline_repo_audit.go,
--   pipeline_repo_history.go); Pipeline/Verbs the operator's Pause, Cutover, Commit and Cancel
--   (pipeline_lifecycle.go), and Pipeline/Resume its Resume, Retry and Rollback; Pipeline/Run one run
--   of Execute from the load of the migration on (pipeline.go) with failPipeline, interruptPipeline
--   and rollbackPipeline (pipeline_recovery.go).
--   Pipeline/Moves and Pipeline/Legal follow the stored state through the verbs, Pipeline/Keeps and
--   Pipeline/Composite carry invariants of the database through a run; Pipeline/Operator,
--   Pipeline/Durable, Pipeline/Uncommitted, Pipeline/Completes, Pipeline/Reverts and
--   Pipeline/Manual hold the results.
--   Concurrency (pipeline_concurrency.go): the marks of running migrations, the counted locks on
--   servers and the slots. Concurrency/Runs steps them through concurrent runs, in the order of the
--   guards at the start of Execute; Concurrency/Slots is the semaphore with SetMaxConcurrent.
--   Fencing (fencing_authority.go, and the lease table of pipeline_repo_stages.go): the lease of a
--   cutover. Fencing/Tokens and Fencing/Stale serve any sequence of calls by any holders.
--   Cutover (cutover_substate.go) and Cutover/Run (cutover_orchestrator.go): the steps of a fenced
--   cutover over that lease.
--   Graph (internal/mod/discovery/graph.go): the graph of dependencies between discovered workloads,
--   and its topological sort, which gives the order of migrations. Graph/Counts counts ids in lists,
--   Graph/Loop and Graph/Progress carry the invariant of the loop, Graph/Order and Graph/Complete hold
--   the results.
--   Jobs (internal/jobengine): the jobs (job.go), in Jobs/Queue the queue in SQLite and the one in
--   memory (queue.go), in Jobs/Store the store (store.go), in Jobs/Engine and Jobs/Engine/Work the engine
--   (engine.go) over any queue and store. Jobs/Fifo and Jobs/Trace relate the two queues, Jobs/Faults is
--   about calls that fail, Jobs/Saved and Jobs/Columns about the store; Jobs/Engine/Lawful is the
--   interface between engine and store, on which Jobs/Engine/Stopped, Jobs/Engine/Outcome and
--   Jobs/Engine/Submitted rest.
--   Compat (internal/mod/discovery/compat.go): the check that a target can take a source's workload;
--   Compat/Parse reads versions, Compat/Versions is about their order, Compat/Ports about the ports and
--   Compat/Verdict about the verdict.
--   Checks (the second half of that file): the thirteen detailed checks of RunAllCompatibilityChecks, in
--   Checks/Host, Checks/Services and Checks/Site; Checks/Quiet is about the checks that never block,
--   Checks/Needs about those that may, Checks/Ready about what they ask of the target, Checks/Blocking about
--   the verdict.
--   Risk (risk_engine.go): the score of a migration, its class and its report.
--   Limiter (internal/shared/ratelimit.go): the rate limiter; Limiter/Cleanups is about its cleanups,
--   Limiter/Limits about how many requests get through.
--   Transfer (internal/mod/transfer/checkpoint.go): the checkpoints of transfers and what a restart does
--   with them.
--   StepEngine (engine.go, step.go, categories.go and the step rows of job.go, all in
--   internal/mod/migration): the engine that runs the steps of a migration and rolls them back.
--   StepEngine/Repo has its database calls, StepEngine/Rollback its changes of state and its rollback,
--   StepEngine/Run and StepEngine/Resume its two entries, StepEngine/Category the categories as steps.
--   StepEngine/Rows and StepEngine/Undo are about the stored data and the rollback; StepEngine/Loop,
--   StepEngine/Applied, StepEngine/Turn, StepEngine/Atomic and StepEngine/Made follow the loop,
--   StepEngine/Shown and StepEngine/Kept its results and rows, StepEngine/Passed the calls of Verify; StepEngine/Whole, StepEngine/Verified,
--   StepEngine/Stored and StepEngine/Categories hold the results.
--   Samples: concrete inputs.
--
-- A call of the database is a function from the row to a result and a row. It is numbered, and an
-- environment says which numbers fail and from when on the context is cancelled, so that a theorem
-- over all environments covers every failure. The environment also holds what is not modelled: the
-- answers of the stage handlers and of their undo, the status that a handler writes, the connections, the clock, the row of the traffic
-- switch, and in a cutover the answers of the actions. The times of a lease are texts; reading and
-- writing them is a parameter. Loops over lists are structural, and the retry loop of a stage runs
-- down the configured number of retries. The loop of the topological sort alone takes fuel, the number
-- of ids, of which each is taken once at most. Go's order of iteration over a map is an argument there.
--
-- A call of the job engine's database carries which of its statements fail and whether its context is
-- done; encoding/json is a parameter whose law is that it reads what it wrote. An execution of a job is a
-- record with the worker's own copy of the job, and what a handler does is a sequence of reports and a
-- return. Percentages are the bits of a float64, scores of risk are in half points, network speeds whole
-- numbers of Mbps; the downtime by transfer rate is a parameter.
--
-- A step of the step engine is any functions on a target of any type, as MigrationStep is an interface;
-- what the theorems need of a step is named as the law of that interface. An applier of a category is
-- modelled likewise, and the JSON of a backup is a parameter; the law asked of it is not kept by every
-- applier of the program, since an apply may fail after some of its writes. The engine's rows are those of the one
-- migration. In the detailed checks the functions of the package strings and the reading of a version,
-- which Compat/Parse models, are parameters, and both snapshots are there.
--
-- Identifiers and counts are native natural numbers. The rows of the stages are in the order of their
-- indexes, in which Execute creates them. What is sent to the user interface, log lines and error
-- texts are left out. Of the lease's table there is the one row of a migration; of a step's result in
-- a cutover, whether there is one. The stage handlers, the planner, the rest of discovery, the transfer
-- of files itself, the job engine's shutdown, broadcaster and handlers, the HTTP handlers and the web
-- client are not modelled.
pub mod Prelude
pub mod State
pub mod Pipeline
pub mod Concurrency
pub mod Fencing
pub mod Cutover
pub mod Graph
pub mod Jobs
pub mod Risk
pub mod StepEngine
pub mod Transfer
pub mod Compat
pub mod Checks
pub mod Limiter
pub mod Samples
