-- ===== src/Samples/JobRuns.antt =====
-- Concrete runs of the job engine (internal/jobengine): of its queue, its store and the engine itself.
use meshium.Prelude.{
  ◌≡◌, ◌≢◌, refl, inl, inr, ◌⊎◌, true, false, if◌then◌else◌, String, List, [], ◌∷◌, some, none, All,
}
use text.Mathlib.Text.{◌==◌ as str_eq}
use meshium.Jobs.{Job, JobProgress, good_call, is_terminal, queued, running, paused, cancelled}
use meshium.Jobs.Queue.{
  QueueRow, front, enqueue, insert_row, dequeue, dequeue_row, remove, memory_enqueue,
  memory_dequeue, memory_remove, unmarshal_failed,
}
use meshium.Jobs.Fifo.{IsQueueOf}
use meshium.Jobs.Trace.{
  QueueOp, do_enqueue, do_dequeue, do_peek, do_size, do_remove, QueueReply, sql_replies,
  memory_replies, sqlite_refines_memory,
}
use meshium.Jobs.Faults.{others, queue_errors_keep}
use meshium.Jobs.Store.{
  JobRow, JobFilter, row_of, save_job, load_job, list_jobs, update_progress, status_eq,
}
use meshium.Jobs.Saved.{save_job-load_job}
use meshium.Jobs.Listed.{Exists, Encodes}
use meshium.Jobs.Columns.{IsTable, job_matches, list_jobs-IsTable}
use meshium.Jobs.Engine.{
  JobRequest, submit, JobStore, JobQueue, Engine, no_progress, cancel, pause, resume,
}
use meshium.Jobs.Engine.Submitted.{submit_queued}
use meshium.Jobs.Engine.Work.{begin_job, made, finish_job, finished}
use meshium.Jobs.Engine.Lawful.{sqlite_store, sqlite_queue, sqlite_store-IsLawful}
use meshium.Jobs.Engine.Stopped.{WorkerAct, reports, returns, acts, stop_sticks}
use meshium.Jobs.Engine.Outcome.{
  ended, started_job, progressed, reporting, run_to_end, pause-resume,
}
use meshium.Samples.Encoding.{job_with, few_jobs}

abbrev first_job : Job
first_job = job_with "job-1" queued

abbrev second_job : Job
second_job = job_with "job-2" queued

abbrev queue_ops : List QueueOp
queue_ops =
    do_enqueue 1 (some first_job)
    ∷ do_enqueue 2 (some second_job)
    ∷ do_size
    ∷ do_dequeue
    ∷ do_remove "job-9"
    ∷ do_peek
    ∷ do_enqueue 3 (some first_job)
    ∷ do_remove "job-2"
    ∷ do_dequeue
    ∷ do_dequeue
    ∷ []

no_text : (text : String) → some text ≢ none
no_text text h = cc

sqlite_refines_memory_example : sql_replies few_jobs queue_ops [] ≡ memory_replies queue_ops []
unfolding memory_enqueue memory_dequeue memory_remove status_eq
sqlite_refines_memory_example = sqlite_refines_memory few_jobs queue_ops [] [] tt (
  (refl, no_text "waiting", refl),
  (
    (refl, no_text "other", refl),
    (tt, (tt, (tt, (tt, ((refl, no_text "waiting", refl), (tt, (tt, (tt, tt)))))))),
  ),
)

queue_test :
    memory_replies
      (do_enqueue 1 (some first_job) ∷ do_enqueue 2 (some second_job) ∷ do_remove "job-1" ∷ [])
      []
    ≡ QueueReply.of_unit (inr tt) ∷ QueueReply.of_unit (inr tt) ∷ QueueReply.of_unit (inr tt) ∷ []
unfolding memory_enqueue memory_remove
queue_test = refl

abbrev bad_rows : List QueueRow
bad_rows = record { id = "job-1"; job = "no job"; position = 1; queued_at = 1 } ∷ []

queue_errors_keep_example :
    ((enqueue few_jobs good_call 2 (some first_job) bad_rows).0 ≡ inl unmarshal_failed
      → (enqueue few_jobs good_call 2 (some first_job) bad_rows).1 ≡ bad_rows)
    × ((dequeue few_jobs good_call bad_rows).0 ≡ inl unmarshal_failed
        → ((dequeue few_jobs good_call bad_rows).1 ≡ bad_rows)
          ⊎ ((unmarshal_failed ≡ unmarshal_failed)
              × ((r : QueueRow) × (front bad_rows ≡ some r)
                  × ((dequeue few_jobs good_call bad_rows).1 ≡ others r.id bad_rows))))
    × ((remove good_call "job-1" bad_rows).0 ≡ inl unmarshal_failed
        → (remove good_call "job-1" bad_rows).1 ≡ bad_rows)
queue_errors_keep_example =
    queue_errors_keep few_jobs good_call 2 (some first_job) "job-1" bad_rows unmarshal_failed

dequeue_test : dequeue few_jobs good_call bad_rows ≡ (inl unmarshal_failed, [])
unfolding dequeue dequeue_row
dequeue_test = refl

abbrev working_job : Job
working_job = job_with "job-1" running

abbrev job_rows : List JobRow
job_rows = row_of working_job "working" ∷ []

save_job-load_job_example :
    ((save_job few_jobs good_call (some second_job) job_rows).0 ≡ inr tt
      → load_job few_jobs good_call "job-2"
          (save_job few_jobs good_call (some second_job) job_rows).1
        ≡ (if str_eq second_job.id "job-2"
            then inr second_job
            else load_job few_jobs good_call "job-2" job_rows))
    × ((save_job few_jobs good_call (some second_job) job_rows).0 ≢ inr tt
        → (save_job few_jobs good_call (some second_job) job_rows).1 ≡ job_rows)
save_job-load_job_example = save_job-load_job few_jobs good_call second_job job_rows "job-2"

abbrev running_filter : JobFilter
running_filter = record { kind = ""; status = some running; limit = 0 }

list_jobs-IsTable_example :
    ((jobs : List Job) × (list_jobs few_jobs good_call running_filter job_rows ≡ inr jobs)
      × All (λ j. job_matches running_filter j ≡ true) jobs
      × (running_filter.limit ≡ 0
          → (listed : Job) → job_matches running_filter listed ≡ true
          → Exists (Encodes few_jobs listed) job_rows
          → Exists (λ j. j ≡ listed) jobs))
    × IsTable few_jobs (save_job few_jobs good_call (some second_job) job_rows).1
    × IsTable few_jobs (update_progress few_jobs good_call "job-1" no_progress job_rows).1
unfolding status_eq
list_jobs-IsTable_example =
    list_jobs-IsTable few_jobs running_filter good_call second_job "job-1" no_progress job_rows
      ((working_job, refl, refl, refl, refl), tt)

abbrev jobs_store : JobStore (List JobRow)
jobs_store = sqlite_store few_jobs

abbrev jobs_queue : JobQueue (List QueueRow)
jobs_queue = sqlite_queue few_jobs (λ err. "error") 4

abbrev busy_engine : Engine (List JobRow) (List QueueRow)
busy_engine = record {
  started = true;
  queue = [];
  store = job_rows;
  executions = record { number = 0; job = working_job; ctx_cancelled = false } ∷ [];
  cancels = ("job-1", 0) ∷ [];
  next_number = 1;
}

abbrev late_acts : List WorkerAct
late_acts = reports good_call no_progress ∷ returns good_call 9 none ∷ []

stop_sticks_example :
    ((cancel jobs_store jobs_queue good_call good_call good_call "job-1" 5 busy_engine).0 ≡ inr tt
      → load_job few_jobs good_call "job-1"
          (acts jobs_store 0 late_acts
            (cancel jobs_store jobs_queue good_call good_call good_call "job-1" 5
              busy_engine).1).store
        ≡ inr (record working_job { status = cancelled; finished_at = some 5 }))
    × ((pause jobs_store jobs_queue good_call good_call "job-1" busy_engine).0 ≡ inr tt
        → load_job few_jobs good_call "job-1"
            (acts jobs_store 0 late_acts
              (pause jobs_store jobs_queue good_call good_call "job-1" busy_engine).1).store
          ≡ inr (record working_job { status = paused }))
unfolding load_job status_eq
stop_sticks_example =
    stop_sticks jobs_store (sqlite_store-IsLawful few_jobs) jobs_queue good_call good_call good_call
      "job-1" 5 0 late_acts working_job busy_engine refl refl refl refl

abbrev idle_engine : Engine (List JobRow) (List QueueRow)
idle_engine = record {
  started = true;
  queue = [];
  store = [];
  executions = [];
  cancels = [];
  next_number = 0;
}

abbrev halfway : JobProgress
halfway = record no_progress { percentage = 4632233691727265792 }

run_to_end_example :
    let after = finish_job jobs_store good_call 9 none 0 (
      reporting jobs_store 0
        ((good_call, halfway) ∷ [])
        (begin_job jobs_store good_call good_call 8 made first_job idle_engine)) in
    (load_job few_jobs good_call "job-1" after.store
      ≡ inr (ended 9 none (progressed ((good_call, halfway) ∷ []) (started_job 8 first_job))))
    × (after.executions ≡ [])
unfolding begin_job save_job finished status_eq
run_to_end_example =
    run_to_end jobs_store (sqlite_store-IsLawful few_jobs) good_call good_call good_call 8 9
      ((good_call, halfway) ∷ []) none first_job idle_engine tt refl

pause-resume_example :
    let after =
      (resume jobs_store jobs_queue good_call good_call good_call "job-1"
        (pause jobs_store jobs_queue good_call good_call "job-1" busy_engine).1).1 in
    (load_job few_jobs good_call "job-1" after.store ≡ inr (record working_job { status = queued }))
    × (enqueue few_jobs good_call 4 (some (record working_job { status = queued })) []
        ≡ (inr tt, after.queue))
unfolding pause resume load_job save_job status_eq enqueue insert_row
pause-resume_example =
    pause-resume jobs_store jobs_queue (sqlite_store-IsLawful few_jobs) good_call good_call
      good_call good_call "job-1" working_job busy_engine refl refl refl refl refl

-- A worker has taken the queued job when it is cancelled: the cancelled job runs, and ends as done.
abbrev taken_engine : Engine (List JobRow) (List QueueRow)
taken_engine = record idle_engine { store = row_of first_job "waiting" ∷ [] }

race_test :
    let dropped =
      (cancel jobs_store jobs_queue good_call good_call good_call "job-1" 5 taken_engine).1 in
    let begun = begin_job jobs_store good_call good_call 8 made first_job dropped in
    (load_job few_jobs good_call "job-1" dropped.store
      ≡ inr (record first_job { status = cancelled; finished_at = some 5 }))
    × (load_job few_jobs good_call "job-1" (finish_job jobs_store good_call 9 none 0 begun).store
        ≡ inr (finished 9 none false (started_job 8 first_job)))
unfolding cancel begin_job finish_job load_job save_job finished status_eq is_terminal remove
race_test = (refl, refl)

abbrev first_request : JobRequest
first_request = record {
  kind = "migration";
  plan_id = "plan";
  source_id = 1;
  target_id = 2;
  migration_id = 1;
}

submit_queued_example :
    let after =
      submit jobs_store jobs_queue good_call good_call good_call "job-1" 7 first_request
        idle_engine in
    (after.0 ≡ inr first_job)
    × (load_job few_jobs good_call "job-1" after.1.store ≡ inr first_job)
    × IsQueueOf few_jobs after.1.queue (first_job ∷ [])
unfolding status_eq
submit_queued_example =
    submit_queued few_jobs (λ err. "error") "job-1" 7 4 first_request idle_engine [] refl tt
      (refl, no_text "waiting", refl)
