-- ===== src/StepEngine.antt =====
-- The step engine of internal/mod/migration: the rows of one migration's steps and checkpoints
-- (job.go), the interface of a step (step.go) and the state of a run (engine.go).
pub mod Repo
pub mod Rollback
pub mod Run
pub mod Resume
pub mod Rows
pub mod Undo
pub mod Loop
pub mod Applied
pub mod Turn
pub mod Atomic
pub mod Made
pub mod Whole
pub mod Shown
pub mod Passed
pub mod Verified
pub mod Kept
pub mod Stored
pub mod Category
pub mod Categories
use meshium.Prelude.{ℕ, Bool, String, List, Option}
use meshium.State.{MigrationState}
use meshium.State.Machine.{StateMachine}
use meshium.Pipeline.Repo.{UndoResult}

pub data StepState : Type 0 where
  pending preparing prepared applying applied verifying verified failed : StepState

-- A row of migration_job_steps, less the texts of errors and the times.
pub record JobStep : Type 0 where
  pub id : ℕ
  pub step_name : String
  pub step_index : ℕ
  pub state : StepState
  pub prepare_data : String
  pub apply_data : String
  pub verify_data : String

-- A row of migration_checkpoints; `verified` is false once the step is rolled back.
pub record Checkpoint : Type 0 where
  pub step_name : String
  pub step_index : ℕ
  pub verified : Bool
  pub checkpoint_data : String

-- What a phase is given, less the connection and the callback.
pub record StepContext : Type 0 where
  pub ctx_err : Bool
  pub prepare_data : String
  pub apply_data : String

-- A step works on a target server of type `T`; a phase answers its data, or none for an error, and
-- leaves the target as it may.
pub record MigrationStep (T : Type 0) : Type 0 where
  pub name : String
  pub prepare : StepContext → T → Option String × T
  pub apply : StepContext → T → Option String × T
  pub verify : StepContext → T → Option String × T
  pub roll_back : StepContext → T → UndoResult × T

-- The target server and the rows of the migration; the number of calls made so far.
pub record World (T : Type 0) : Type 0 where
  pub target : T
  pub state : String
  pub status : String
  pub rows : List JobStep
  pub checkpoints : List Checkpoint
  pub last_id : ℕ
  pub calls : ℕ

-- A step with its index and the id of its row.
pub record Job (T : Type 0) : Type 0 where
  pub index : ℕ
  pub id : ℕ
  pub step : MigrationStep T

pub record StepResult : Type 0 where
  pub name : String
  pub index : ℕ
  pub state : StepState
  pub skipped : Bool

-- The variables of a run: `applied_steps` is kept newest first; `final_state` and `results` are those
-- of the EngineResult.
pub record Local (T : Type 0) : Type 0 where
  pub sm : StateMachine
  pub applied_steps : List (Job T)
  pub results : List StepResult
  pub final_state : MigrationState
  pub world : World T

pub data Error : Type 0 where
  not_found cannot_resume no_step no_target no_connection no_checkpoints : Error
  invalid_transition not_persisted cancelled : Error
  prepare_failed apply_failed verify_failed : String → Error

pub data Result (A : Type 0) : Type 0 where
  ok : A → Result A
  err : Error → Result A

-- What the engine does not decide: which database call fails, when the context is cancelled, the
-- row id that the driver reports after an upsert that inserted nothing, and whether the target
-- server is known and can be connected to.
pub record Env : Type 0 where
  pub fails : ℕ → Bool
  pub cancelled_at : ℕ → Bool
  pub reported : ℕ → ℕ
  pub target_known : Bool
  pub connects : Bool

-- A part of a run: its result or error, and the variables it leaves behind in either case.
abbrev pub M : Type 0 → Type 0 → Type 0
M T A = Local T → Result A × Local T

abbrev pub pure : {T A : Type 0} → A → M T A
pure a l = (ok a, l)

abbrev pub fail : {T A : Type 0} → Error → M T A
fail e l = (err e, l)

abbrev pub then_on : {T A B : Type 0} → Result A → (A → M T B) → M T B
then_on (ok a) f l = f a l
then_on (err e) f l = (err e, l)

infixl 5 ◌>>=◌ ◌>>◌
abbrev pub ◌>>=◌ : {T A B : Type 0} → M T A → (A → M T B) → M T B
◌>>=◌ m f l = then_on (m l).0 f (m l).1

abbrev pub ◌>>◌ : {T A B : Type 0} → M T A → M T B → M T B
m >> k = m >>= λ _. k
