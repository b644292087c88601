-- ===== src/Jobs/Store.antt =====
-- The store of the job engine (internal/jobengine/store.go): the tables jobs and job_logs of SQLite.
use meshium.Prelude.{
  ℕ, zero, suc, Bool, true, false, ◌||◌, ◌&&◌, if◌then◌else◌, leb, ◌==◌, Option, none, some, String,
  List, [], ◌∷◌, ◌++◌, ◌⊎◌, inl, inr,
}
use text.Mathlib.Text.{◌==◌ as str_eq}
use meshium.Jobs.{
  Job, JobStatus, JobProgress, JobLog, JobJson, Call, queued, running, paused, done, failed,
  cancelled,
}

pub data StoreError : Type 0 where
  job_nil : StoreError
  id_empty : StoreError
  context_done : StoreError
  marshal_failed : StoreError
  query_failed : StoreError
  exec_failed : StoreError
  unmarshal_failed : StoreError
  job_not_found : StoreError

-- A row of the table jobs.
pub record JobRow : Type 0 where
  pub id : String
  pub kind : String
  pub status : JobStatus
  pub job : String
  pub plan_id : String
  pub migration_id : ℕ
  pub created_at : ℕ
  pub started_at : Option ℕ
  pub finished_at : Option ℕ
  pub error : String

pub record JobFilter : Type 0 where
  pub kind : String
  pub status : Option JobStatus
  pub limit : ℕ

abbrev pub row_of : Job → String → JobRow
row_of job text = record {
  id = job.id;
  kind = job.kind;
  status = job.status;
  job = text;
  plan_id = job.plan_id;
  migration_id = job.migration_id;
  created_at = job.created_at;
  started_at = job.started_at;
  finished_at = job.finished_at;
  error = job.error;
}

-- `INSERT … ON CONFLICT(id) DO UPDATE`: the time of creation is not updated.
abbrev pub upsert : JobRow → List JobRow → List JobRow
upsert row [] = row ∷ []
upsert row (r ∷ rest) =
    if str_eq r.id row.id
    then record row { id = r.id; created_at = r.created_at } ∷ rest
    else r ∷ upsert row rest

-- `SELECT job FROM jobs WHERE id = ?`.
abbrev pub text_of : String → List JobRow → Option String
text_of id [] = none
text_of id (r ∷ rest) = if str_eq r.id id then some r.job else text_of id rest

-- `UPDATE jobs SET job = ? WHERE id = ?`.
abbrev pub set_text : String → String → List JobRow → List JobRow
set_text id text [] = []
set_text id text (r ∷ rest) =
    if str_eq r.id id then record r { job = text } ∷ rest else r ∷ set_text id text rest

abbrev pub save_text :
    Call → Job → Option String → List JobRow → (StoreError ⊎ Unit {0}) × List JobRow
save_text call job none rows = (inl marshal_failed, rows)
save_text call job (some text) rows =
    if call.exec_fails then (inl exec_failed, rows) else (inr tt, upsert (row_of job text) rows)

-- SaveJob; none is the nil pointer.
unfoldable pub save_job :
    JobJson → Call → Option Job → List JobRow → (StoreError ⊎ Unit {0}) × List JobRow
save_job json call none rows = (inl job_nil, rows)
save_job json call (some job) rows =
    if str_eq job.id ""
    then (inl id_empty, rows)
    else if call.ctx_done
    then (inl context_done, rows)
    else save_text call job (json.marshal job) rows

abbrev pub decoded : Option Job → StoreError ⊎ Job
decoded none = inl unmarshal_failed
decoded (some job) = inr job

abbrev pub loaded : JobJson → Option String → StoreError ⊎ Job
loaded json none = inl job_not_found
loaded json (some text) = decoded (json.unmarshal text)

unfoldable pub load_job : JobJson → Call → String → List JobRow → StoreError ⊎ Job
load_job json call id rows =
    if call.ctx_done
    then inl context_done
    else if call.query_fails
    then inl query_failed
    else loaded json (text_of id rows)

abbrev pub with_progress : Job → JobProgress → Job
with_progress job progress = record job { progress = progress }

abbrev pub write_text :
    Call → String → Option String → List JobRow → (StoreError ⊎ Unit {0}) × List JobRow
write_text call id none rows = (inl marshal_failed, rows)
write_text call id (some text) rows =
    if call.exec_fails then (inl exec_failed, rows) else (inr tt, set_text id text rows)

abbrev pub write_progress :
    JobJson
    → Call
    → String
    → JobProgress
    → StoreError ⊎ Job
    → List JobRow
    → (StoreError ⊎ Unit {0}) × List JobRow
write_progress json call id progress (inl e) rows = (inl e, rows)
write_progress json call id progress (inr job) rows =
    write_text call id (json.marshal (with_progress job progress)) rows

-- UpdateProgress: the job is loaded, changed and written back.
unfoldable pub update_progress :
    JobJson → Call → String → JobProgress → List JobRow → (StoreError ⊎ Unit {0}) × List JobRow
unfolding load_job
update_progress json call id progress rows =
    write_progress json call id progress (load_job json call id rows) rows

-- The comparison of two statuses as texts.
unfoldable pub status_eq : JobStatus → JobStatus → Bool
status_eq queued queued = true
status_eq running running = true
status_eq paused paused = true
status_eq done done = true
status_eq failed failed = true
status_eq cancelled cancelled = true
status_eq _ _ = false

abbrev pub has_status : Option JobStatus → JobStatus → Bool
has_status none s = true
has_status (some t) s = status_eq t s

-- The conditions of the query of ListJobs.
unfoldable pub matches : JobFilter → JobRow → Bool
unfolding status_eq
matches filter r =
    (str_eq filter.kind "" || str_eq r.kind filter.kind) && has_status filter.status r.status

-- `ORDER BY created_at DESC`; rows of one time stay in the order of the table.
abbrev pub insert_newest : JobRow → List JobRow → List JobRow
insert_newest r [] = r ∷ []
insert_newest r (s ∷ rest) =
    if leb s.created_at r.created_at then r ∷ s ∷ rest else s ∷ insert_newest r rest

abbrev pub newest_first : List JobRow → List JobRow
newest_first [] = []
newest_first (r ∷ rest) = insert_newest r (newest_first rest)

unfoldable pub selected : JobFilter → List JobRow → List JobRow
unfolding matches
selected filter [] = []
selected filter (r ∷ rest) =
    if matches filter r then r ∷ selected filter rest else selected filter rest

abbrev pub limited : ℕ → List JobRow → List JobRow
limited n [] = []
limited zero (r ∷ rest) = []
limited (suc n) (r ∷ rest) = r ∷ limited n rest

abbrev pub cons_job : Option Job → StoreError ⊎ List Job → StoreError ⊎ List Job
cons_job none jobs = inl unmarshal_failed
cons_job (some job) (inl e) = inl e
cons_job (some job) (inr jobs) = inr (job ∷ jobs)

abbrev pub decode_all : JobJson → List JobRow → StoreError ⊎ List Job
decode_all json [] = inr []
decode_all json (r ∷ rest) = cons_job (json.unmarshal r.job) (decode_all json rest)

unfoldable pub list_jobs : JobJson → Call → JobFilter → List JobRow → StoreError ⊎ List Job
unfolding selected
list_jobs json call filter rows =
    let found = newest_first (selected filter rows) in
    if call.ctx_done
    then inl context_done
    else if call.query_fails
    then inl query_failed
    else decode_all json (if filter.limit == 0 then found else limited filter.limit found)

-- A row of the table job_logs.
pub record LogRow : Type 0 where
  pub job_id : String
  pub log : JobLog

-- The time 0 stands for Go's zero time, which becomes the time of the call.
unfoldable pub append_log :
    Call → ℕ → String → JobLog → List LogRow → (StoreError ⊎ Unit {0}) × List LogRow
append_log call now id log rows =
    let time = if log.timestamp == 0 then now else log.timestamp in
    if call.ctx_done
    then (inl context_done, rows)
    else if call.exec_fails
    then (inl exec_failed, rows)
    else (inr tt, rows ++ record { job_id = id; log = record log { timestamp = time } } ∷ [])
