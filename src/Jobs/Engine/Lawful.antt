-- ===== src/Jobs/Engine/Lawful.antt =====
-- What the engine (internal/jobengine/engine.go) counts on in its store, and the store in SQLite
-- (store.go) as one.
use meshium.Prelude.{ℕ, ◌≡◌, ◌≢◌, ◌∙◌, ap, true, if◌then◌else◌, some, String, List, inr, arith}
use text.Mathlib.Text.{◌==◌ as str_eq}
use text.Mathlib.TextEquality.{eq_iff}
use meshium.Jobs.{Job, JobProgress, JobJson, Call, good_call}
use meshium.Jobs.Queue.{QueueError, QueueRow, enqueue, dequeue, remove}
use meshium.Jobs.Store.{JobRow, save_job, load_job, list_jobs, update_progress}
use meshium.Jobs.Saved.{save_job-load_job}
use meshium.Jobs.Engine.{JobStore, JobQueue}

-- A store gives back the job that was saved last under an id; a save that fails, and any write in a
-- context that is done, changes nothing; and a load that succeeds finds what the store has.
pub record IsLawful {S : Type 0} (jobs : JobStore S) : Type 0 where
  pub save_load :
      (call : Call) (job : Job) (store : S) (id : String)
      → ((jobs.save call job store).0 ≡ inr tt
          → jobs.load good_call id (jobs.save call job store).1
            ≡ (if str_eq job.id id then inr job else jobs.load good_call id store))
        × ((jobs.save call job store).0 ≢ inr tt → (jobs.save call job store).1 ≡ store)
  pub save_done :
      (call : Call) (job : Job) (store : S)
      → call.ctx_done ≡ true
      → (jobs.save call job store).1 ≡ store
  pub progress_done :
      (call : Call) (id : String) (progress : JobProgress) (store : S)
      → call.ctx_done ≡ true
      → (jobs.write_progress call id progress store).1 ≡ store
  pub load_found :
      (call : Call) (id : String) (store : S) (job : Job)
      → jobs.load call id store ≡ inr job
      → jobs.load good_call id store ≡ inr job

module _ {S : Type 0} (jobs : JobStore S) (lawful : IsLawful jobs) where
  pub saved_job :
      (job : Job) (saving : Call) (store : S) {id : String}
      → (jobs.save saving job store).0 ≡ inr tt
      → job.id ≡ id
      → jobs.load good_call id (jobs.save saving job store).1 ≡ inr job
  saved_job job saving store {id = id} ok named =
      let (found, _) = lawful.save_load saving job store id in
      found ok
      ∙ ap (λ b. if b then inr job else jobs.load good_call id store) ((eq_iff job.id id).1 named)

abbrev pub sqlite_store : JobJson → JobStore (List JobRow)
sqlite_store json = record {
  save = λ call job rows. save_job json call (some job) rows;
  load = load_job json;
  list = list_jobs json;
  write_progress = update_progress json;
}

-- `describe` is the text of an error, of which only the log and a failed job's error take notice.
abbrev pub sqlite_queue : JobJson → (QueueError → String) → ℕ → JobQueue (List QueueRow)
sqlite_queue json describe now = record {
  enqueue = λ call job rows. enqueue json call now (some job) rows;
  dequeue = dequeue json;
  remove = remove;
  describe = describe;
}

-- The store in SQLite is lawful, with any database errors.
pub sqlite_store-IsLawful : (json : JobJson) → IsLawful (sqlite_store json)
unfolding save_job update_progress load_job
sqlite_store-IsLawful json = record {
  save_load = save_job-load_job json;
  save_done = λ call job store h. ground (arith, h);
  progress_done = λ call id progress store h. ground (arith, h);
  load_found = λ call id store job h. ground (arith, h);
}
