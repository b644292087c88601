-- ===== src/Jobs/Engine/Work.antt =====
-- The work of the engine's workers (internal/jobengine/engine.go): executeJob up to the call of the
-- handler and from its return, its callback for progress, and the recovery at the start.
use meshium.Prelude.{
  ℕ, suc, Bool, true, false, if◌then◌else◌, ◌==◌, Option, none, some, String, List, [], ◌∷◌, ◌++◌,
  ◌⊎◌, inl, inr,
}
use meshium.Jobs.{Job, JobProgress, Call, running, paused, done, failed, cancelled}
use meshium.Jobs.Store.{StoreError, status_eq, with_progress}
use meshium.Jobs.Engine.{
  JobStore, Execution, Engine, EngineError, already_started, in_context, delete_cancel,
  find_execution, delete_execution,
}

-- What the handler factory gives: an error as its message "create handler: …", no handler with the
-- message for that, or a handler.
pub data Factory : Type 0 where
  factory_error : String → Factory
  no_handler : String → Factory
  made : Factory

-- The bits of the float64 100.
abbrev pub hundred : ℕ
hundred = 4636737291354636288

-- The job after its handler returned, with the handler's error if it returned one.
unfoldable pub finished : ℕ → Option String → Bool → Job → Job
unfolding status_eq
finished now none ctx_cancelled job = record job {
  finished_at = some now;
  status = done;
  progress = record job.progress { percentage = hundred };
}
finished now (some err) ctx_cancelled job =
    if ctx_cancelled
    then if status_eq job.status paused then record job { finished_at = some now } else record job {
      finished_at = some now;
      status = cancelled;
      error = "cancelled: context canceled";
    }
    else record job { finished_at = some now; status = failed; error = err }

abbrev pub put_progress : ℕ → JobProgress → List Execution → List Execution
put_progress n progress [] = []
put_progress n progress (x ∷ rest) =
    (if x.number == n then record x { job = with_progress x.job progress } else x)
    ∷ put_progress n progress rest

module _ {S : Type 0} (jobs : JobStore S) where
  abbrev pub save_paused : Call → List Job → S → S
  save_paused saving [] store = store
  save_paused saving (job ∷ rest) store =
      save_paused saving rest (jobs.save saving (record job { status = paused }) store).1

  abbrev pub recover_listed : Call → StoreError ⊎ List Job → S → (StoreError ⊎ Unit {0}) × S
  recover_listed saving (inl err) store = (inl err, store)
  recover_listed saving (inr found) store = (inr tt, save_paused saving found store)

  -- recoverJobs, the part that changes something: the queued jobs are only counted.
  unfoldable pub recover_jobs : Call → Call → S → (StoreError ⊎ Unit {0}) × S
  recover_jobs listing saving store =
      recover_listed saving
        (jobs.list listing (record { kind = ""; status = some running; limit = 0 }) store) store

module _ {S Q : Type 0} (jobs : JobStore S) where
  -- Start up to the workers; a recovery that fails is logged.
  unfoldable pub start : Call → Call → Engine S Q → (EngineError ⊎ Unit {0}) × Engine S Q
  unfolding recover_jobs
  start listing saving e = if e.started then (inl already_started, e) else (
    inr tt,
    record e { started = true; store = (recover_jobs jobs listing saving e.store).1 },
  )

  -- The deferred functions of executeJob: what is registered under the id is deleted, whichever
  -- execution it belongs to.
  abbrev pub unregister : ℕ → String → Engine S Q → Engine S Q
  unregister n id e = record e {
    executions = delete_execution n e.executions;
    cancels = delete_cancel id e.cancels;
  }

  abbrev pub fail_job : Call → String → ℕ → Job → Engine S Q → Engine S Q
  fail_job saving message now job e = record e {
    store =
        (jobs.save saving (record job { status = failed; error = message; finished_at = some now })
          e.store).1;
  }

  -- executeJob up to the call of the handler, on a job that a worker took from the queue.
  unfoldable pub begin_job : Call → Call → ℕ → Factory → Job → Engine S Q → Engine S Q
  begin_job saving failing now factory job e =
      let n = e.next_number in
      let started = record job { status = running; started_at = some now } in
      let x : Execution = record { number = n; job = started; ctx_cancelled = false } in
      let begun = record e {
        store = (jobs.save (in_context false saving) started e.store).1;
        executions = e.executions ++ x ∷ [];
        cancels = (job.id, n) ∷ delete_cancel job.id e.cancels;
        next_number = suc n;
      } in
      elim factory [
        | factory_error message ↦
            unregister n job.id (fail_job (in_context false failing) message now started begun)
        | no_handler message ↦
            unregister n job.id (fail_job (in_context false failing) message now started begun)
        | made ↦ begun
      ]

  abbrev pub finish_found : Call → ℕ → Option String → Option Execution → Engine S Q → Engine S Q
  finish_found saving now err none e = e
  finish_found saving now err (some x) e =
      let job = finished now err x.ctx_cancelled x.job in
      unregister x.number x.job.id
        (record e { store = (jobs.save (in_context x.ctx_cancelled saving) job e.store).1 })

  -- executeJob from the return of the handler of the execution `n`.
  unfoldable pub finish_job : Call → ℕ → Option String → ℕ → Engine S Q → Engine S Q
  unfolding finished
  finish_job saving now err n e = finish_found saving now err (find_execution n e.executions) e

  abbrev pub progress_found : Call → JobProgress → Option Execution → Engine S Q → Engine S Q
  progress_found writing progress none e = e
  progress_found writing progress (some x) e = record e {
    store = (jobs.write_progress (in_context x.ctx_cancelled writing) x.job.id progress e.store).1;
    executions = put_progress x.number progress e.executions;
  }

  -- The callback onProgress of the execution `n`.
  unfoldable pub on_progress : Call → JobProgress → ℕ → Engine S Q → Engine S Q
  on_progress writing progress n e =
      progress_found writing progress (find_execution n e.executions) e
