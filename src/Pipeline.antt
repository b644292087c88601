-- ===== src/Pipeline.antt =====
-- The row of one migration and what the pipeline reads and writes of it
-- (internal/mod/migration/job.go, repo.go, pipeline_repo_stages.go).
pub mod Repo
pub mod Moves
pub mod Verbs
pub mod Legal
pub mod Run
pub mod Keeps
pub mod Composite
pub mod Durable
pub mod Operator
pub mod Reverts
pub mod Resume
pub mod Manual
pub mod Completes
pub mod Uncommitted
use meshium.Prelude.{
  ℕ, suc, ◌+◌, ◌≡◌, refl, Bool, true, false, ◌||◌, List, [], ◌∷◌, ◌++◌, if◌then◌else◌, String,
  Option, none, some, ◌==◌,
}
use text.Mathlib.Text.{◌==◌ as str_eq}
use meshium.State.{MigrationState, state_string}
use meshium.State.Machine.{state_from_string}

pub data StageState : Type 0 where
  pending running completed failed : StageState

-- What `stageCheckpointJSON` writes.
pub record StageCheckpoint : Type 0 where
  pub stage : String
  pub attempt : ℕ
  pub stage_total : ℕ

pub record Stage : Type 0 where
  pub stage_name : String
  pub stage_index : ℕ
  pub state : StageState
  pub attempt_count : ℕ
  pub checkpoint_data : Option StageCheckpoint
  pub error : String

pub record AuditEntry : Type 0 where
  pub event_type : String
  pub previous_state : String
  pub new_state : String
  pub actor : String

pub record CutoverRecord : Type 0 where
  pub previous_state : String
  pub traffic_switched : Bool
  pub completed : Bool

-- The row of the migration, its stages, its audit log and its cutover records; the stages whose
-- handlers have been run and undone, in order; and the number of calls made so far.
pub record World : Type 0 where
  pub state : String
  pub status : String
  pub error : String
  pub completed_at : String
  pub stages : List Stage
  pub audit : List AuditEntry
  pub cutovers : List CutoverRecord
  pub ran : List String
  pub undone : List String
  pub calls : ℕ

pub data Error : Type 0 where
  db_error unknown_state no_stage cannot_connect : Error
  cannot_pause cannot_cut_over cannot_commit cannot_retry cannot_resume : MigrationState → Error
  cannot_roll_back cannot_cancel cannot_transition : MigrationState → Error
  cutover_not_confirmed rollback_failed interrupted_run : Error
  stage_failed : String → Error

pub data Result {ℓ} (A : Type ℓ) : Type ℓ where
  ok : A → Result A
  err : Error → Result A

-- A Go call: its result or error, and the state that it leaves behind in either case.
abbrev pub M : Type 0 → Type 0
M A = World → Result A × World

abbrev pub pure : {A : Type 0} → A → M A
pure a w = (ok a, w)

abbrev pub fail : {A : Type 0} → Error → M A
fail e w = (err e, w)

abbrev pub then_on : {A B : Type 0} → Result A → (A → M B) → M B
then_on (ok a) f w = f a w
then_on (err e) f w = (err e, w)

infixl 5 ◌>>=◌ ◌>>◌
abbrev pub ◌>>=◌ : {A B : Type 0} → M A → (A → M B) → M B
◌>>=◌ m f w = then_on (m w).0 f (m w).1

abbrev pub ◌>>◌ : {A B : Type 0} → M A → M B → M B
m >> k = m >>= λ _. k

-- A call whose error is logged or dropped.
abbrev pub optional : {A : Type 0} → Result A → Option A
optional (ok a) = some a
optional (err e) = none

abbrev pub attempt : {A : Type 0} → M A → M (Option A)
attempt m w = (ok (optional (m w).0), (m w).1)

abbrev pub ensure : Bool → Error → M (Unit {0})
ensure b e = if b then pure tt else fail e
