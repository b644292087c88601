-- ===== src/Jobs/Engine.antt =====
-- The engine that runs the jobs (internal/jobengine/engine.go) over any queue and store:
-- what its methods do to the queue, to the store and to the jobs that are running.
pub mod Work
pub mod Lawful
pub mod Stopped
pub mod Outcome
pub mod Submitted
use meshium.Prelude.{
  ℕ, zero, suc, ◌+◌, Bool, true, false, not, ◌||◌, ◌&&◌, if◌then◌else◌, ◌==◌, Option, none, some,
  String, List, [], ◌∷◌, ◌++◌, length, ◌⊎◌, inl, inr,
}
use Prim.Native.String.{◌++◌ as append}
use text.Mathlib.Text.{◌==◌ as str_eq}
use meshium.Jobs.{
  Job, JobStatus, JobProgress, Call, is_terminal, queued, running, paused, done, failed, cancelled,
}
use meshium.Jobs.Queue.{QueueError}
use meshium.Jobs.Store.{StoreError, JobFilter, status_eq, with_progress}

-- The operations of the interface JobStore that the engine calls, on a store of type `S`.
pub record JobStore (S : Type 0) : Type 1 where
  pub save : Call → Job → S → (StoreError ⊎ Unit {0}) × S
  pub load : Call → String → S → StoreError ⊎ Job
  pub list : Call → JobFilter → S → StoreError ⊎ List Job
  pub write_progress : Call → String → JobProgress → S → (StoreError ⊎ Unit {0}) × S

pub record JobQueue (Q : Type 0) : Type 1 where
  pub enqueue : Call → Job → Q → (QueueError ⊎ Unit {0}) × Q
  pub dequeue : Call → Q → (QueueError ⊎ Option Job) × Q
  pub remove : Call → String → Q → (QueueError ⊎ Unit {0}) × Q
  -- The text of an error of the queue.
  pub describe : QueueError → String

-- A call of executeJob whose handler runs: its copy of the job, and whether its context is cancelled.
pub record Execution : Type 0 where
  pub number : ℕ
  pub job : Job
  pub ctx_cancelled : Bool

-- `cancels` gives for a job's id the execution whose context its function cancels; the shutdown
-- manager's map has the same entries.
pub record Engine (S Q : Type 0) : Type 0 where
  pub started : Bool
  pub queue : Q
  pub store : S
  pub executions : List Execution
  pub cancels : List (String × ℕ)
  pub next_number : ℕ

pub data EngineError : Type 0 where
  engine_not_started : EngineError
  already_started : EngineError
  job_not_loaded : StoreError → EngineError
  in_terminal_state : JobStatus → EngineError
  not_running : JobStatus → EngineError
  not_paused : JobStatus → EngineError
  not_saved : StoreError → EngineError
  not_enqueued : QueueError → EngineError

pub record JobRequest : Type 0 where
  pub kind : String
  pub plan_id : String
  pub source_id : ℕ
  pub target_id : ℕ
  pub migration_id : ℕ

abbrev pub no_progress : JobProgress
no_progress = record {
  current_step = 0;
  total_steps = 0;
  current_name = "";
  percentage = 0;
  bytes_done = 0;
  bytes_total = 0;
  speed_bps = 0;
  eta = 0;
}

-- The job that Submit makes of a request, with the id of generateJobID.
abbrev pub new_job : JobRequest → String → ℕ → Job
new_job req id now = record {
  id = id;
  kind = req.kind;
  status = queued;
  created_at = now;
  started_at = none;
  finished_at = none;
  plan_id = req.plan_id;
  migration_id = req.migration_id;
  source_id = req.source_id;
  target_id = req.target_id;
  progress = no_progress;
  logs = [];
  error = "";
}

-- What the context of the call says of a save; the other fields are the database's.
abbrev pub in_context : Bool → Call → Call
in_context ctx_done call = record call { ctx_done = ctx_done }

abbrev pub lookup_cancel : String → List (String × ℕ) → Option ℕ
lookup_cancel id [] = none
lookup_cancel id ((k, n) ∷ rest) = if str_eq k id then some n else lookup_cancel id rest

abbrev pub delete_cancel : String → List (String × ℕ) → List (String × ℕ)
delete_cancel id [] = []
delete_cancel id ((k, n) ∷ rest) =
    if str_eq k id then delete_cancel id rest else (k, n) ∷ delete_cancel id rest

abbrev pub cancel_number : Option ℕ → List Execution → List Execution
cancel_number none executions = executions
cancel_number (some n) [] = []
cancel_number (some n) (x ∷ rest) =
    (if x.number == n then record x { ctx_cancelled = true } else x) ∷ cancel_number (some n) rest

abbrev pub find_execution : ℕ → List Execution → Option Execution
find_execution n [] = none
find_execution n (x ∷ rest) = if x.number == n then some x else find_execution n rest

abbrev pub delete_execution : ℕ → List Execution → List Execution
delete_execution n [] = []
delete_execution n (x ∷ rest) =
    if x.number == n then delete_execution n rest else x ∷ delete_execution n rest

abbrev pub saved_reply : StoreError ⊎ Unit {0} → EngineError ⊎ Unit {0}
saved_reply (inl err) = inl (not_saved err)
saved_reply (inr _) = inr tt

abbrev pub enqueued_reply : QueueError ⊎ Unit {0} → EngineError ⊎ Unit {0}
enqueued_reply (inl err) = inl (not_enqueued err)
enqueued_reply (inr _) = inr tt

module _ {S Q : Type 0} (jobs : JobStore S) (waiting : JobQueue Q) where
  abbrev pub submitted :
      Call → Job → QueueError ⊎ Unit {0} → Engine S Q → (EngineError ⊎ Job) × Engine S Q
  submitted call job (inr _) e = (inr job, e)
  submitted call job (inl err) e =
      let failure = record job {
        status = failed;
        error = append "enqueue failed: " (waiting.describe err);
      } in
      (inl (not_enqueued err), record e { store = (jobs.save call failure e.store).1 })

  abbrev pub submit_saved :
      Call
      → Call
      → Call
      → Job
      → StoreError ⊎ Unit {0}
      → Engine S Q
      → (EngineError ⊎ Job) × Engine S Q
  submit_saved enqueuing failing call job (inl err) e = (inl (not_saved err), e)
  submit_saved enqueuing failing call job (inr _) e =
      let (reply, queue) = waiting.enqueue enqueuing job e.queue in
      submitted failing job reply (record e { queue = queue })

  -- Submit: its three calls, the id and the time it takes, and the request.
  unfoldable pub submit :
      Call → Call → Call → String → ℕ → JobRequest → Engine S Q → (EngineError ⊎ Job) × Engine S Q
  submit saving enqueuing failing id now req e =
      let job = new_job req id now in
      let (reply, store) = jobs.save saving job e.store in
      if not e.started
      then (inl engine_not_started, e)
      else submit_saved enqueuing failing saving job reply (record e { store = store })

  abbrev pub mark_cancelled :
      Call → String → ℕ → Job → Engine S Q → (EngineError ⊎ Unit {0}) × Engine S Q
  mark_cancelled saving id now job e =
      let (reply, store) =
        jobs.save saving (record job { status = cancelled; finished_at = some now }) e.store in
      (saved_reply reply, record e { store = store })

  -- Cancel of a job that was loaded.
  abbrev pub cancel_loaded :
      Call
      → Call
      → String
      → ℕ
      → StoreError ⊎ Job
      → Engine S Q
      → (EngineError ⊎ Unit {0}) × Engine S Q
  cancel_loaded removing saving id now (inl err) e = (inl (job_not_loaded err), e)
  cancel_loaded removing saving id now (inr job) e =
      if is_terminal job.status
      then (inl (in_terminal_state job.status), e)
      else mark_cancelled saving id now job (
          if status_eq job.status queued
          then record e { queue = (waiting.remove removing id e.queue).1 }
          else if status_eq job.status running
          then record e { executions = cancel_number (lookup_cancel id e.cancels) e.executions }
          else e)

  unfoldable pub cancel :
      Call → Call → Call → String → ℕ → Engine S Q → (EngineError ⊎ Unit {0}) × Engine S Q
  unfolding is_terminal status_eq
  cancel loading removing saving id now e =
      cancel_loaded removing saving id now (jobs.load loading id e.store) e

  abbrev pub pause_loaded :
      Call → String → StoreError ⊎ Job → Engine S Q → (EngineError ⊎ Unit {0}) × Engine S Q
  pause_loaded saving id (inl err) e = (inl (job_not_loaded err), e)
  pause_loaded saving id (inr job) e =
      if not (status_eq job.status running)
      then (inl (not_running job.status), e)
      else let (reply, store) = jobs.save saving (record job { status = paused }) e.store in
        (
          saved_reply reply,
          record e {
            executions = cancel_number (lookup_cancel id e.cancels) e.executions;
            store = store;
          },
        )

  unfoldable pub pause : Call → Call → String → Engine S Q → (EngineError ⊎ Unit {0}) × Engine S Q
  unfolding status_eq
  pause loading saving id e = pause_loaded saving id (jobs.load loading id e.store) e

  abbrev pub requeue :
      Call → Job → StoreError ⊎ Unit {0} → Engine S Q → (EngineError ⊎ Unit {0}) × Engine S Q
  requeue enqueuing job (inl err) e = (inl (not_saved err), e)
  requeue enqueuing job (inr _) e =
      let (reply, queue) = waiting.enqueue enqueuing job e.queue in
      (enqueued_reply reply, record e { queue = queue })

  abbrev pub resume_loaded :
      Call → Call → String → StoreError ⊎ Job → Engine S Q → (EngineError ⊎ Unit {0}) × Engine S Q
  resume_loaded saving enqueuing id (inl err) e = (inl (job_not_loaded err), e)
  resume_loaded saving enqueuing id (inr job) e =
      if not (status_eq job.status paused)
      then (inl (not_paused job.status), e)
      else let (reply, store) = jobs.save saving (record job { status = queued }) e.store in
        requeue enqueuing (record job { status = queued }) reply (record e { store = store })

  unfoldable pub resume :
      Call → Call → Call → String → Engine S Q → (EngineError ⊎ Unit {0}) × Engine S Q
  unfolding status_eq
  resume loading saving enqueuing id e =
      resume_loaded saving enqueuing id (jobs.load loading id e.store) e
