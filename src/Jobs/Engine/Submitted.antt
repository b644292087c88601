-- ===== src/Jobs/Engine/Submitted.antt =====
-- Submitting a job (internal/jobengine/engine.go) to the store and the queue in SQLite.
use meshium.Prelude.{
  ℕ, ◌≡◌, ◌≢◌, refl, sym, ◌∙◌, ap, subst, true, false, not, if◌then◌else◌, none, some, Option-cases,
  String, List, [], ◌∷◌, ◌++◌, ◌⊎◌, inl, inr, arith,
}
use text.Mathlib.Text.{◌==◌ as str_eq}
use meshium.Jobs.{Job, JobJson, good_call}
use meshium.Jobs.Queue.{QueueError, QueueRow, enqueue, memory_enqueue}
use meshium.Jobs.Fifo.{IsQueueOf}
use meshium.Jobs.Trace.{do_enqueue, IsFresh, of_unit, enqueue-AgreeOn}
use meshium.Jobs.Store.{JobRow, save_job, load_job}
use meshium.Jobs.Engine.{
  Engine, engine_not_started, JobRequest, new_job, submitted, submit_saved, submit,
}
use meshium.Jobs.Engine.Lawful.{sqlite_store, sqlite_queue, sqlite_store-IsLawful, saved_job}

save_job-ok :
    (json : JobJson) (job : Job) (rows : List JobRow)
    → str_eq job.id "" ≡ false
    → json.marshal job ≢ none
    → (save_job json good_call (some job) rows).0 ≡ inr tt
unfolding save_job
save_job-ok json job rows named encoded = elim (Option-cases (json.marshal job)) [
  | inl p ↦ absurd (encoded p)
  | inr (text, p) ↦ ground (arith, named, p)
]

of_unit_path : (a b : QueueError ⊎ Unit {0}) → of_unit a ≡ of_unit b → a ≡ b
of_unit_path a b h = ap (λ r. elim r [ of_unit x ↦ x | _ ↦ a ]) h

-- When the engine is started, the job that a request makes has an id, can be encoded and is not in the
-- queue yet, and the database serves the calls, Submit returns the job; loading it then gives it as
-- queued, and it stands in the queue behind the jobs that were there.
pub submit_queued :
    (json : JobJson) (describe : QueueError → String) (id : String) (now later : ℕ)
    (req : JobRequest) (e : Engine (List JobRow) (List QueueRow)) (waiting : List Job)
    → e.started ≡ true
    → IsQueueOf json e.queue waiting
    → IsFresh json (do_enqueue later (some (new_job req id now))) waiting
    → let after =
        submit
          (sqlite_store json)
          (sqlite_queue json describe later)
          good_call
          good_call
          good_call
          id
          now
          req
          e in
      (after.0 ≡ inr (new_job req id now))
      × (load_job json good_call id after.1.store ≡ inr (new_job req id now))
      × IsQueueOf json after.1.queue (waiting ++ new_job req id now ∷ [])
unfolding submit memory_enqueue
submit_queued json describe id now later req e waiting started stands fresh =
    let job = new_job req id now in
    let (named, encoded, _) = fresh in
    let saved = save_job json good_call (some job) e.store in
    let ok = save_job-ok json job e.store named encoded in
    let (reply, queue) = enqueue-AgreeOn json later job e.queue waiting stands fresh in
    let store = sqlite_store json in
    let line = sqlite_queue json describe later in
    let sent = enqueue json good_call later (some job) e.queue in
    let sent_ok = of_unit_path sent.0 (inr tt) reply in
    let stored : Engine (List JobRow) (List QueueRow) = record e { store = saved.1 } in
    let done : Engine (List JobRow) (List QueueRow) = record stored { queue = sent.1 } in
    let form : submit store line good_call good_call good_call id now req e ≡ (inr job, done) =
      ap
        (λ b.
          if not b
          then (inl engine_not_started, e)
          else submit_saved store line good_call good_call good_call job saved.0 stored)
        started
      ∙ ap (λ r. submit_saved store line good_call good_call good_call job r stored) ok
      ∙ ap (λ r. submitted store line good_call job r done) sent_ok in
    (
      ap (λ r. r.0) form,
      ap (λ r. load_job json good_call id r.1.store) form
          ∙ saved_job store (sqlite_store-IsLawful json) job good_call e.store ok refl,
      subst (λ r. IsQueueOf json r.1.queue (waiting ++ job ∷ [])) (sym form) queue,
    )
