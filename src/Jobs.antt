-- ===== src/Jobs.antt =====
-- The job engine (internal/jobengine): its jobs (job.go), and in the children its queue, its store
-- and the engine that runs them.
pub mod Queue
pub mod Fifo
pub mod Trace
pub mod Store
pub mod Saved
pub mod Listed
pub mod Columns
pub mod Faults
pub mod Engine
use meshium.Prelude.{ℕ, Bool, true, false, Option, none, some, String, List, ◌≡◌}

pub data JobStatus : Type 0 where
  queued : JobStatus
  running : JobStatus
  paused : JobStatus
  done : JobStatus
  failed : JobStatus
  cancelled : JobStatus

unfoldable pub is_terminal : JobStatus → Bool
is_terminal queued = false
is_terminal running = false
is_terminal paused = false
is_terminal done = true
is_terminal failed = true
is_terminal cancelled = true

unfoldable pub is_active : JobStatus → Bool
is_active queued = true
is_active running = true
is_active paused = true
is_active done = false
is_active failed = false
is_active cancelled = false

-- The percentage is given by the bits of its float64.
pub record JobProgress : Type 0 where
  pub current_step : ℕ
  pub total_steps : ℕ
  pub current_name : String
  pub percentage : ℕ
  pub bytes_done : ℕ
  pub bytes_total : ℕ
  pub speed_bps : ℕ
  pub eta : ℕ

pub record JobLog : Type 0 where
  pub timestamp : ℕ
  pub level : String
  pub step : String
  pub message : String

pub record Job : Type 0 where
  pub id : String
  pub kind : String
  pub status : JobStatus
  pub created_at : ℕ
  pub started_at : Option ℕ
  pub finished_at : Option ℕ
  pub plan_id : String
  pub migration_id : ℕ
  pub source_id : ℕ
  pub target_id : ℕ
  pub progress : JobProgress
  pub logs : List JobLog
  pub error : String

-- The package encoding/json on jobs: what it writes it reads again.
pub record JobJson : Type 0 where
  pub marshal : Job → Option String
  pub unmarshal : String → Option Job
  pub unmarshal-marshal :
      (job : Job) (text : String) → marshal job ≡ some text → unmarshal text ≡ some job

-- What a call meets: whether its context is done, and which of its statements the database refuses.
pub record Call : Type 0 where
  pub ctx_done : Bool
  pub begin_fails : Bool
  pub query_fails : Bool
  pub exec_fails : Bool
  pub commit_fails : Bool

-- A call in a context that is not done, to a database that refuses nothing.
abbrev pub good_call : Call
good_call = record {
  ctx_done = false;
  begin_fails = false;
  query_fails = false;
  exec_fails = false;
  commit_fails = false;
}
