-- ===== src/Jobs/Engine/Stopped.antt =====
-- A running job that is cancelled or paused (internal/jobengine/engine.go), and what its
-- handler does afterwards.
use meshium.Prelude.{
  ℕ, ◌≡◌, refl, sym, ◌∙◌, ap, subst, true, false, ◌==◌, Option, none, some, String, List, [], ◌∷◌,
  ◌⊎◌, inl, inr, if-cases, arith,
}
use meshium.Jobs.{
  Job, JobProgress, Call, good_call, is_terminal, queued, running, paused, cancelled,
}
use meshium.Jobs.Store.{StoreError, status_eq}
use meshium.Jobs.Engine.{
  JobStore, JobQueue, Execution, Engine, in_context, lookup_cancel, cancel_number, find_execution,
  delete_execution, saved_reply, mark_cancelled, cancel_loaded, cancel, pause_loaded, pause,
}
use meshium.Jobs.Engine.Work.{
  finish_job, finish_found, on_progress, progress_found, put_progress, finished,
}
use meshium.Jobs.Engine.Lawful.{IsLawful, saved_job}

-- What the goroutine of an execution does while its handler runs and when it returns: it reports
-- progress, or it ends with the handler's error, if any.
pub data WorkerAct : Type 0 where
  reports : Call → JobProgress → WorkerAct
  returns : Call → ℕ → Option String → WorkerAct

module _ {S Q : Type 0} (jobs : JobStore S) where
  abbrev pub act : ℕ → WorkerAct → Engine S Q → Engine S Q
  act n (reports call progress) e = on_progress jobs call progress n e
  act n (returns call now err) e = finish_job jobs call now err n e

  abbrev pub acts : ℕ → List WorkerAct → Engine S Q → Engine S Q
  acts n [] e = e
  acts n (a ∷ rest) e = acts n rest (act n a e)

-- Every execution with the number is cancelled.
abbrev pub IsStopped : ℕ → List Execution → Type 0
IsStopped n [] = Unit
IsStopped n (x ∷ rest) = ((x.number == n) ≡ true → x.ctx_cancelled ≡ true) × IsStopped n rest

cancel_number-IsStopped :
    (n : ℕ) (executions : List Execution) → IsStopped n (cancel_number (some n) executions)
cancel_number-IsStopped n [] = tt
cancel_number-IsStopped n (x ∷ rest) = ((λ h. ground (arith, h)), cancel_number-IsStopped n rest)

find_execution-IsStopped :
    (n : ℕ) (executions : List Execution) (x : Execution)
    → IsStopped n executions
    → find_execution n executions ≡ some x
    → x.ctx_cancelled ≡ true
find_execution-IsStopped n [] x h found = absurd (ground (arith, found))
find_execution-IsStopped n (y ∷ rest) x (first, later) found =
    ground (arith, first, found, find_execution-IsStopped n rest x later)

delete_execution-IsStopped :
    (n m : ℕ) (executions : List Execution)
    → IsStopped n executions
    → IsStopped n (delete_execution m executions)
delete_execution-IsStopped n m [] h = tt
delete_execution-IsStopped n m (x ∷ rest) (first, later) =
    let ih = delete_execution-IsStopped n m rest later in
    if-cases (IsStopped n) (x.number == m) (λ e. ih) (λ e. (first, ih))

put_progress-IsStopped :
    (n m : ℕ) (progress : JobProgress) (executions : List Execution)
    → IsStopped n executions
    → IsStopped n (put_progress m progress executions)
put_progress-IsStopped n m progress [] h = tt
put_progress-IsStopped n m progress (x ∷ rest) (first, later) =
    ((λ h. ground (arith, first, h)), put_progress-IsStopped n m progress rest later)

module _ {S Q : Type 0} (jobs : JobStore S) (lawful : IsLawful jobs) where
  finish_found-IsStopped :
      (call : Call) (now n : ℕ) (err : Option String) (found : Option Execution) (e : Engine S Q)
      → ((x : Execution) → found ≡ some x → x.ctx_cancelled ≡ true)
      → IsStopped n e.executions
      → ((finish_found jobs call now err found e).store ≡ e.store)
        × IsStopped n (finish_found jobs call now err found e).executions
  finish_found-IsStopped call now n err none e stopped h = (refl, h)
  finish_found-IsStopped call now n err (some x) e stopped h = (
    lawful.save_done (in_context x.ctx_cancelled call) (finished now err x.ctx_cancelled x.job)
        e.store (stopped x refl),
    delete_execution-IsStopped n x.number e.executions h,
  )

  progress_found-IsStopped :
      (call : Call) (progress : JobProgress) (n : ℕ) (found : Option Execution) (e : Engine S Q)
      → ((x : Execution) → found ≡ some x → x.ctx_cancelled ≡ true)
      → IsStopped n e.executions
      → ((progress_found jobs call progress found e).store ≡ e.store)
        × IsStopped n (progress_found jobs call progress found e).executions
  progress_found-IsStopped call progress n none e stopped h = (refl, h)
  progress_found-IsStopped call progress n (some x) e stopped h = (
    lawful.progress_done (in_context x.ctx_cancelled call) x.job.id progress e.store
        (stopped x refl),
    put_progress-IsStopped n x.number progress e.executions h,
  )

  acts-stopped :
      (n : ℕ) (later : List WorkerAct) (e : Engine S Q)
      → IsStopped n e.executions
      → (acts jobs n later e).store ≡ e.store
  unfolding on_progress finish_job
  acts-stopped n [] e h = refl
  acts-stopped n (reports call progress ∷ later) e h =
      let (same, kept) =
        progress_found-IsStopped call progress n (find_execution n e.executions) e
          (λ x found. find_execution-IsStopped n e.executions x h found) h in
      acts-stopped n later (on_progress jobs call progress n e) kept ∙ same
  acts-stopped n (returns call now err ∷ later) e h =
      let (same, kept) =
        finish_found-IsStopped call now n err (find_execution n e.executions) e
          (λ x found. find_execution-IsStopped n e.executions x h found) h in
      acts-stopped n later (finish_job jobs call now err n e) kept ∙ same

pub saved_reply-ok : (reply : StoreError ⊎ Unit {0}) → saved_reply reply ≡ inr tt → reply ≡ inr tt
saved_reply-ok (inl err) h = cc
saved_reply-ok (inr tt) h = refl

module _ {S Q : Type 0} (jobs : JobStore S) (waiting : JobQueue Q) where
  cancel-running :
      (loading removing saving : Call) (id : String) (now n : ℕ) (job : Job) (e : Engine S Q)
      → jobs.load loading id e.store ≡ inr job
      → job.status ≡ running
      → lookup_cancel id e.cancels ≡ some n
      → cancel jobs waiting loading removing saving id now e
        ≡ mark_cancelled jobs waiting saving id now job
            (record e { executions = cancel_number (some n) e.executions })
  unfolding cancel is_terminal status_eq
  cancel-running loading removing saving id now n job e found runs registered =
      let live : is_terminal job.status ≡ false = ap is_terminal runs in
      let not_queued : status_eq job.status queued ≡ false = ap (λ s. status_eq s queued) runs in
      let is_running : status_eq job.status running ≡ true = ap (λ s. status_eq s running) runs in
      ap (λ o. cancel_loaded jobs waiting removing saving id now o e) found
      ∙ rw (live, not_queued, is_running, registered) refl

  pause-running :
      (loading saving : Call) (id : String) (n : ℕ) (job : Job) (e : Engine S Q)
      → jobs.load loading id e.store ≡ inr job
      → job.status ≡ running
      → lookup_cancel id e.cancels ≡ some n
      → pause jobs waiting loading saving id e ≡ (
        saved_reply (jobs.save saving (record job { status = paused }) e.store).0,
        record e {
          executions = cancel_number (some n) e.executions;
          store = (jobs.save saving (record job { status = paused }) e.store).1;
        },
      )
  unfolding pause status_eq
  pause-running loading saving id n job e found runs registered =
      let is_running : status_eq job.status running ≡ true = ap (λ s. status_eq s running) runs in
      ap (λ o. pause_loaded jobs waiting saving id o e) found ∙ rw (is_running, registered) refl

module _ {S Q : Type 0} (jobs : JobStore S) (lawful : IsLawful jobs) where
  -- When a running job is cancelled or paused, the call succeeds, and the engine has registered the
  -- execution `n` for the job's id, then whatever progress that execution still reports, however
  -- it returns, and whatever the database does to its writes, loading the job gives the job as Cancel or
  -- Pause saved it.
  pub stop_sticks :
      (waiting : JobQueue Q) (loading removing saving : Call) (id : String) (now n : ℕ)
      (later : List WorkerAct) (job : Job) (e : Engine S Q)
      → jobs.load loading id e.store ≡ inr job
      → job.id ≡ id
      → job.status ≡ running
      → lookup_cancel id e.cancels ≡ some n
      → ((cancel jobs waiting loading removing saving id now e).0 ≡ inr tt
          → jobs.load good_call id
              (acts jobs n later (cancel jobs waiting loading removing saving id now e).1).store
            ≡ inr (record job { status = cancelled; finished_at = some now }))
        × ((pause jobs waiting loading saving id e).0 ≡ inr tt
            → jobs.load good_call id
                (acts jobs n later (pause jobs waiting loading saving id e).1).store
              ≡ inr (record job { status = paused }))
  unfolding cancel pause is_terminal status_eq
  stop_sticks waiting loading removing saving id now n later job e found named runs registered =
      let stopped = cancel_number-IsStopped n e.executions in
      let cancelled_job = record job { status = cancelled; finished_at = some now } in
      let paused_job = record job { status = paused } in
      let cancels =
        cancel-running jobs waiting loading removing saving id now n job e found runs registered in
      let pauses = pause-running jobs waiting loading saving id n job e found runs registered in
      (
        λ ok.
            subst (λ r. jobs.load good_call id (acts jobs n later r.1).store ≡ inr cancelled_job)
              (sym cancels)
              (ap (jobs.load good_call id) (
                  acts-stopped jobs lawful n later
                    (record e {
                      executions = cancel_number (some n) e.executions;
                      store = (jobs.save saving cancelled_job e.store).1;
                    })
                    stopped)
                ∙ saved_job jobs lawful cancelled_job saving e.store
                    (saved_reply-ok (jobs.save saving cancelled_job e.store).0
                      (sym (ap (λ r. r.0) cancels) ∙ ok))
                    named),
        λ ok.
            subst (λ r. jobs.load good_call id (acts jobs n later r.1).store ≡ inr paused_job)
              (sym pauses)
              (ap (jobs.load good_call id) (
                  acts-stopped jobs lawful n later
                    (record e {
                      executions = cancel_number (some n) e.executions;
                      store = (jobs.save saving paused_job e.store).1;
                    })
                    stopped)
                ∙ saved_job jobs lawful paused_job saving e.store
                    (saved_reply-ok (jobs.save saving paused_job e.store).0
                      (sym (ap (λ r. r.0) pauses) ∙ ok))
                    named),
      )
