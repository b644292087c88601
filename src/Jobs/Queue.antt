-- ===== src/Jobs/Queue.antt =====
-- The queue of the job engine (internal/jobengine/queue.go): the one in a table of SQLite and the
-- one in memory.
use meshium.Prelude.{
  ℕ, suc, Bool, false, ◌||◌, if◌then◌else◌, ltb, Option, none, some, String, List, [], ◌∷◌, ◌++◌,
  length, ◌⊎◌, inl, inr,
}
use text.Mathlib.Text.{◌==◌ as str_eq}
use meshium.Jobs.{Job, JobJson, Call}

pub data QueueError : Type 0 where
  job_nil : QueueError
  id_empty : QueueError
  context_done : QueueError
  marshal_failed : QueueError
  query_failed : QueueError
  begin_failed : QueueError
  exec_failed : QueueError
  commit_failed : QueueError
  unmarshal_failed : QueueError
  not_in_queue : QueueError

-- A row of the table job_queue.
pub record QueueRow : Type 0 where
  pub id : String
  pub job : String
  pub position : ℕ
  pub queued_at : ℕ

abbrev pub larger : ℕ → Option ℕ → ℕ
larger p none = p
larger p (some q) = if ltb p q then q else p

-- `SELECT MAX(position)`.
abbrev pub max_position : List QueueRow → Option ℕ
max_position [] = none
max_position (r ∷ rest) = some (larger r.position (max_position rest))

abbrev lower : QueueRow → Option QueueRow → QueueRow
lower r none = r
lower r (some s) = if ltb s.position r.position then s else r

-- `ORDER BY position ASC LIMIT 1`.
abbrev pub front : List QueueRow → Option QueueRow
front [] = none
front (r ∷ rest) = some (lower r (front rest))

-- Whether the primary key is taken.
abbrev pub has_row : String → List QueueRow → Bool
has_row id [] = false
has_row id (r ∷ rest) = str_eq r.id id || has_row id rest

-- `DELETE FROM job_queue WHERE id = ?`.
abbrev pub delete_row : String → List QueueRow → List QueueRow
delete_row id [] = []
delete_row id (r ∷ rest) = if str_eq r.id id then delete_row id rest else r ∷ delete_row id rest

abbrev pub next_position : Option ℕ → ℕ
next_position none = 1
next_position (some m) = suc m

unfoldable pub insert_row :
    Call → Job → ℕ → Option String → List QueueRow → (QueueError ⊎ Unit {0}) × List QueueRow
insert_row call job now none rows = (inl marshal_failed, rows)
insert_row call job now (some text) rows =
    if call.query_fails
    then (inl query_failed, rows)
    else if call.exec_fails || has_row job.id rows
    then (inl exec_failed, rows)
    else (
      inr tt,
      rows
          ++ record {
            id = job.id;
            job = text;
            position = next_position (max_position rows);
            queued_at = now;
          }
            ∷ [],
    )

-- Enqueue at the time `now`; none is the nil pointer.
unfoldable pub enqueue :
    JobJson → Call → ℕ → Option Job → List QueueRow → (QueueError ⊎ Unit {0}) × List QueueRow
unfolding insert_row
enqueue json call now none rows = (inl job_nil, rows)
enqueue json call now (some job) rows =
    if str_eq job.id ""
    then (inl id_empty, rows)
    else if call.ctx_done
    then (inl context_done, rows)
    else insert_row call job now (json.marshal job) rows

abbrev pub parsed : Option Job → QueueError ⊎ Option Job
parsed none = inl unmarshal_failed
parsed (some job) = inr (some job)

unfoldable pub dequeue_row :
    JobJson → Call → Option QueueRow → List QueueRow → (QueueError ⊎ Option Job) × List QueueRow
dequeue_row json call none rows = (inr none, rows)
dequeue_row json call (some r) rows =
    if call.exec_fails
    then (inl exec_failed, rows)
    else if call.commit_fails
    then (inl commit_failed, rows)
    else (parsed (json.unmarshal r.job), delete_row r.id rows)

-- Dequeue: the transaction keeps the rows unless it commits.
unfoldable pub dequeue : JobJson → Call → List QueueRow → (QueueError ⊎ Option Job) × List QueueRow
unfolding dequeue_row
dequeue json call rows =
    if call.ctx_done
    then (inl context_done, rows)
    else if call.begin_fails
    then (inl begin_failed, rows)
    else if call.query_fails
    then (inl query_failed, rows)
    else dequeue_row json call (front rows) rows

abbrev pub peek_row : JobJson → Option QueueRow → QueueError ⊎ Option Job
peek_row json none = inr none
peek_row json (some r) = parsed (json.unmarshal r.job)

unfoldable pub peek : JobJson → Call → List QueueRow → QueueError ⊎ Option Job
peek json call rows =
    if call.ctx_done
    then inl context_done
    else if call.query_fails
    then inl query_failed
    else peek_row json (front rows)

unfoldable pub size : Call → List QueueRow → QueueError ⊎ ℕ
size call rows =
    if call.ctx_done
    then inl context_done
    else if call.query_fails
    then inl query_failed
    else inr (length rows)

unfoldable pub remove : Call → String → List QueueRow → (QueueError ⊎ Unit {0}) × List QueueRow
remove call id rows =
    if call.ctx_done
    then (inl context_done, rows)
    else if call.exec_fails
    then (inl exec_failed, rows)
    else (if has_row id rows then inr tt else inl not_in_queue, delete_row id rows)

-- The queue in memory, InMemoryJobQueue: a list of jobs, each call under the mutex.
unfoldable pub memory_enqueue : Option Job → List Job → (QueueError ⊎ Unit {0}) × List Job
memory_enqueue none jobs = (inl job_nil, jobs)
memory_enqueue (some job) jobs = (inr tt, jobs ++ job ∷ [])

unfoldable pub memory_dequeue : List Job → (QueueError ⊎ Option Job) × List Job
memory_dequeue [] = (inr none, [])
memory_dequeue (job ∷ jobs) = (inr (some job), jobs)

unfoldable pub memory_peek : List Job → QueueError ⊎ Option Job
memory_peek [] = inr none
memory_peek (job ∷ jobs) = inr (some job)

unfoldable pub memory_size : List Job → QueueError ⊎ ℕ
memory_size jobs = inr (length jobs)

unfoldable pub memory_remove : String → List Job → (QueueError ⊎ Unit {0}) × List Job
memory_remove id [] = (inl not_in_queue, [])
memory_remove id (job ∷ jobs) =
    let rest = memory_remove id jobs in
    if str_eq job.id id then (inr tt, jobs) else (rest.0, job ∷ rest.1)
