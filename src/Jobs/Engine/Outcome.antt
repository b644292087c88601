-- ===== src/Jobs/Engine/Outcome.antt =====
-- What becomes of a job of the engine (internal/jobengine/engine.go) that runs to its end, that is
-- paused and resumed, or that has come to its end already.
use meshium.Prelude.{
  ℕ, ◌<◌, ◌≡◌, refl, sym, ◌∙◌, ap, subst, true, false, if◌then◌else◌, ==_self, Option, none, some,
  String, List, [], ◌∷◌, ◌++◌, ◌⊎◌, inl, inr, arith,
}
use meshium.Jobs.{
  Job, JobProgress, JobStatus, Call, good_call, is_terminal, queued, running, paused, done, failed,
  cancelled,
}
use meshium.Jobs.Queue.{QueueError}
use meshium.Jobs.Store.{StoreError, status_eq}
use meshium.Jobs.Engine.{
  JobStore, JobQueue, Execution, Engine, in_context, lookup_cancel, cancel_number, find_execution,
  delete_execution, saved_reply, enqueued_reply, cancel_loaded, cancel, pause_loaded, pause,
  resume_loaded, requeue, resume, in_terminal_state, not_running, not_paused,
}
use meshium.Jobs.Engine.Work.{
  begin_job, made, finish_job, finish_found, finished, hundred, on_progress, progress_found,
  put_progress,
}
use meshium.Jobs.Engine.Lawful.{IsLawful, saved_job}
use meshium.Jobs.Engine.Stopped.{saved_reply-ok}

-- The executions have numbers below the next one.
abbrev pub IsNumbered : ℕ → List Execution → Type 0
IsNumbered n [] = Unit
IsNumbered n (x ∷ rest) = (x.number < n) × IsNumbered n rest

find_execution-append :
    (x : Execution) (executions : List Execution)
    → IsNumbered x.number executions
    → find_execution x.number (executions ++ x ∷ []) ≡ some x
find_execution-append x [] h = ap (λ b. if b then some x else none) (==_self x.number)
find_execution-append x (y ∷ rest) (less, h) = ground (arith, less, find_execution-append x rest h)

delete_execution-append :
    (x : Execution) (executions : List Execution)
    → IsNumbered x.number executions
    → delete_execution x.number (executions ++ x ∷ []) ≡ executions
delete_execution-append x [] h = ap (λ b. if b then [] else x ∷ []) (==_self x.number)
delete_execution-append x (y ∷ rest) (less, h) =
    ground (arith, less, delete_execution-append x rest h)

-- The job that executeJob saves when it starts.
abbrev pub started_job : ℕ → Job → Job
started_job now job = record job { status = running; started_at = some now }

-- The job as its end leaves it, by the handler's error, if any.
abbrev pub ended : ℕ → Option String → Job → Job
ended later none job = record job {
  finished_at = some later;
  status = done;
  progress = record job.progress { percentage = hundred };
}
ended later (some err) job = record job { finished_at = some later; status = failed; error = err }

finished-ended :
    (later : ℕ) (err : Option String) (job : Job)
    → finished later err false job ≡ ended later err job
unfolding finished
finished-ended later none job = refl
finished-ended later (some err) job = refl

finished_id : (now : ℕ) (err : Option String) (job : Job) → (finished now err false job).id ≡ job.id
unfolding finished
finished_id now none job = refl
finished_id now (some err) job = refl

terminal_idle :
    (s : JobStatus)
    → is_terminal s ≡ true
    → (status_eq s running ≡ false) × (status_eq s paused ≡ false)
unfolding is_terminal status_eq
terminal_idle queued h = cc
terminal_idle running h = cc
terminal_idle paused h = cc
terminal_idle done h = (refl, refl)
terminal_idle failed h = (refl, refl)
terminal_idle cancelled h = (refl, refl)

put_progress-append :
    (x : Execution) (p : JobProgress) (executions : List Execution)
    → IsNumbered x.number executions
    → put_progress x.number p (executions ++ x ∷ [])
      ≡ executions ++ record x { job = record x.job { progress = p } } ∷ []
put_progress-append x p [] h =
    ap (λ b. (if b then record x { job = record x.job { progress = p } } else x) ∷ [])
      (==_self x.number)
put_progress-append x p (y ∷ rest) (less, h) = ground (arith, less, put_progress-append x p rest h)

-- The job with the progress that was reported last.
abbrev pub progressed : List (Call × JobProgress) → Job → Job
progressed [] job = job
progressed ((call, p) ∷ rest) job = progressed rest (record job { progress = p })

progressed_id :
    (reported : List (Call × JobProgress)) (job : Job) → (progressed reported job).id ≡ job.id
progressed_id [] job = refl
progressed_id ((call, p) ∷ rest) job = progressed_id rest (record job { progress = p })

-- The reports of the handler of an execution, each with the state of the database at its write.
abbrev pub reporting :
    {S Q : Type 0} → JobStore S → ℕ → List (Call × JobProgress) → Engine S Q → Engine S Q
reporting jobs n [] e = e
reporting jobs n ((call, p) ∷ rest) e = reporting jobs n rest (on_progress jobs call p n e)

module _ {S Q : Type 0} (jobs : JobStore S) where
  on_progress-executions :
      (x : Execution) (before : List Execution) (call : Call) (p : JobProgress) (e : Engine S Q)
      → IsNumbered x.number before
      → e.executions ≡ before ++ x ∷ []
      → (on_progress jobs call p x.number e).executions
        ≡ before ++ record x { job = record x.job { progress = p } } ∷ []
  unfolding on_progress
  on_progress-executions x before call p e numbered same =
      let found = ap (find_execution x.number) same ∙ find_execution-append x before numbered in
      ap (λ o. (progress_found jobs call p o e).executions) found
      ∙ ap (put_progress x.number p) same
      ∙ put_progress-append x p before numbered

  reporting-executions :
      (x : Execution) (before : List Execution)
      → IsNumbered x.number before
      → (reported : List (Call × JobProgress)) (e : Engine S Q) → e.executions ≡ before ++ x ∷ []
      → (reporting jobs x.number reported e).executions
        ≡ before ++ record x { job = progressed reported x.job } ∷ []
  reporting-executions x before numbered [] e same = same
  reporting-executions x before numbered ((call, p) ∷ rest) e same =
      reporting-executions (record x { job = record x.job { progress = p } }) before numbered rest
        (on_progress jobs call p x.number e)
        (on_progress-executions x before call p e numbered same)

module _ {S Q : Type 0} (jobs : JobStore S) (lawful : IsLawful jobs) where
  -- A job that a worker takes, for which there is a handler, runs to its end when nothing cancels it and
  -- the engine does nothing else than to take in the handler's reports of progress, which may fail to be
  -- written: if the last save succeeds, the store has the job with the last progress reported, as done
  -- when the handler returns no error and as failed with the error's text otherwise, with the times of
  -- its start and its end, and the executions are those from before.
  pub run_to_end :
      (starting failing ending : Call) (now later : ℕ) (reported : List (Call × JobProgress))
      (err : Option String) (job : Job) (e : Engine S Q)
      → IsNumbered e.next_number e.executions
      → (jobs.save
          (in_context false ending)
          (finished later err false (progressed reported (started_job now job)))
          (reporting jobs e.next_number reported
            (begin_job jobs starting failing now made job e)).store).0
        ≡ inr tt
      → let after = finish_job jobs ending later err e.next_number (
          reporting jobs e.next_number reported (begin_job jobs starting failing now made job e)) in
        (jobs.load good_call job.id after.store
          ≡ inr (ended later err (progressed reported (started_job now job))))
        × (after.executions ≡ e.executions)
  unfolding begin_job finish_job finished
  run_to_end starting failing ending now later reported err job e numbered saved =
      let n = e.next_number in
      let first : Execution = record {
        number = n;
        job = started_job now job;
        ctx_cancelled = false;
      } in
      let x : Execution = record first { job = progressed reported first.job } in
      let begun = begin_job jobs starting failing now made job e in
      let at_end = reporting jobs n reported begun in
      let kept : at_end.executions ≡ e.executions ++ x ∷ [] =
        reporting-executions jobs first e.executions numbered reported begun refl in
      let last = finished later err false x.job in
      let stored =
        saved_job jobs lawful last (in_context false ending) at_end.store saved
          (finished_id later err x.job ∙ progressed_id reported first.job) in
      subst
        (λ o.
          (jobs.load good_call job.id (finish_found jobs ending later err o at_end).store
            ≡ inr (ended later err x.job))
          × ((finish_found jobs ending later err o at_end).executions ≡ e.executions))
        (sym (ap (find_execution n) kept ∙ find_execution-append x e.executions numbered))
        (
          stored ∙ ap inr (finished-ended later err x.job),
          ap (delete_execution n) kept ∙ delete_execution-append x e.executions numbered,
        )

enqueued_reply-ok : (reply : QueueError ⊎ Unit {0}) → enqueued_reply reply ≡ inr tt → reply ≡ inr tt
enqueued_reply-ok (inl err) h = cc
enqueued_reply-ok (inr tt) h = refl

module _ {S Q : Type 0} (jobs : JobStore S) (waiting : JobQueue Q) where
  requeue-ok :
      (enqueuing : Call) (job : Job) (reply : StoreError ⊎ Unit {0}) (e : Engine S Q)
      → (requeue jobs waiting enqueuing job reply e).0 ≡ inr tt
      → (reply ≡ inr tt)
        × (waiting.enqueue enqueuing job e.queue
            ≡ (inr tt, (requeue jobs waiting enqueuing job reply e).1.queue))
        × ((requeue jobs waiting enqueuing job reply e).1.store ≡ e.store)
  requeue-ok enqueuing job (inl err) e h = absurd (cc)
  requeue-ok enqueuing job (inr tt) e h =
      let sent = waiting.enqueue enqueuing job e.queue in
      (refl, ap (λ r. (r, sent.1)) (enqueued_reply-ok sent.0 h), refl)

  -- Of a job that is done, failed or cancelled, Cancel, Pause and Resume give an error and change
  -- nothing: neither the store, nor the queue, nor an execution.
  pub terminal_stays :
      (loading removing saving enqueuing : Call) (id : String) (now : ℕ) (job : Job)
      (e : Engine S Q)
      → jobs.load loading id e.store ≡ inr job
      → is_terminal job.status ≡ true
      → (cancel jobs waiting loading removing saving id now e
          ≡ (inl (in_terminal_state job.status), e))
        × (pause jobs waiting loading saving id e ≡ (inl (not_running job.status), e))
        × (resume jobs waiting loading saving enqueuing id e ≡ (inl (not_paused job.status), e))
  unfolding cancel pause resume is_terminal status_eq
  terminal_stays loading removing saving enqueuing id now job e found terminal =
      let (idle, awake) = terminal_idle job.status terminal in
      (
        ap (λ o. cancel_loaded jobs waiting removing saving id now o e) found ∙ rw terminal refl,
        ap (λ o. pause_loaded jobs waiting saving id o e) found ∙ rw idle refl,
        ap (λ o. resume_loaded jobs waiting saving enqueuing id o e) found ∙ rw awake refl,
      )

module _ {S Q : Type 0} (jobs : JobStore S) (waiting : JobQueue Q) (lawful : IsLawful jobs) where
  pause_form :
      (loading saving : Call) (id : String) (job : Job) (e : Engine S Q)
      → jobs.load loading id e.store ≡ inr job
      → job.status ≡ running
      → let saved = jobs.save saving (record job { status = paused }) e.store in
        pause jobs waiting loading saving id e ≡ (
          saved_reply saved.0,
          record e {
            executions = cancel_number (lookup_cancel id e.cancels) e.executions;
            store = saved.1;
          },
        )
  unfolding pause status_eq
  pause_form loading saving id job e found runs =
      let is_running : status_eq job.status running ≡ true = ap (λ s. status_eq s running) runs in
      ap (λ o. pause_loaded jobs waiting saving id o e) found ∙ rw is_running refl

  resume_form :
      (loading saving enqueuing : Call) (id : String) (job : Job) (e : Engine S Q)
      → jobs.load loading id e.store ≡ inr job
      → job.status ≡ paused
      → let saved = jobs.save saving (record job { status = queued }) e.store in
        resume jobs waiting loading saving enqueuing id e
        ≡ requeue jobs waiting enqueuing
            (record job { status = queued })
            saved.0
            (record e { store = saved.1 })
  unfolding resume status_eq
  resume_form loading saving enqueuing id job e found rests =
      let is_paused : status_eq job.status paused ≡ true = ap (λ s. status_eq s paused) rests in
      ap (λ o. resume_loaded jobs waiting saving enqueuing id o e) found ∙ rw is_paused refl

  -- When a running job is paused and then resumed, and both calls succeed, the store has the job as it
  -- was before but queued, and it was put into the queue.
  pub pause-resume :
      (loading pausing saving enqueuing : Call) (id : String) (job : Job) (e : Engine S Q)
      → jobs.load loading id e.store ≡ inr job
      → job.id ≡ id
      → job.status ≡ running
      → (pause jobs waiting loading pausing id e).0 ≡ inr tt
      → (resume jobs waiting good_call saving enqueuing id
          (pause jobs waiting loading pausing id e).1).0
        ≡ inr tt
      → let after =
          (resume jobs waiting good_call saving enqueuing id
            (pause jobs waiting loading pausing id e).1).1 in
        let again = record job { status = queued } in
        (jobs.load good_call id after.store ≡ inr again)
        × (waiting.enqueue enqueuing again e.queue ≡ (inr tt, after.queue))
  pause-resume loading pausing saving enqueuing id job e found named runs ok ok' =
      let rest = record job { status = paused } in
      let again = record job { status = queued } in
      let pauses = pause_form loading pausing id job e found runs in
      let after = (pause jobs waiting loading pausing id e).1 in
      let kept =
        saved_reply-ok (jobs.save pausing rest e.store).0 (sym (ap (λ r. r.0) pauses) ∙ ok) in
      let stored =
        ap (λ r. jobs.load good_call id r.1.store) pauses
        ∙ saved_job jobs lawful rest pausing e.store kept named in
      let resumes = resume_form good_call saving enqueuing id rest after stored refl in
      let saved = jobs.save saving again after.store in
      let (wrote, sent, same) =
        requeue-ok jobs waiting enqueuing again saved.0 (record after { store = saved.1 })
          (sym (ap (λ r. r.0) resumes) ∙ ok') in
      (
        ap (λ r. jobs.load good_call id r.1.store) resumes
            ∙ ap (jobs.load good_call id) same
            ∙ saved_job jobs lawful again saving after.store wrote named,
        ap (waiting.enqueue enqueuing again) (sym (ap (λ r. r.1.queue) pauses))
            ∙ sent
            ∙ ap (λ r. (inr tt, r.1.queue)) (sym resumes),
      )
