-- ===== src/Pipeline/Repo.antt =====
-- The database calls of the pipeline (internal/mod/migration/job.go, repo.go and
-- pipeline_repo_stages.go), over an environment that says which of them fail.
use meshium.Prelude.{
  ℕ, suc, Bool, true, false, List, [], ◌∷◌, ◌++◌, if◌then◌else◌, String, Option, none, some,
}
use text.Mathlib.Text.{◌==◌ as str_eq}
use meshium.State.{MigrationState, state_string, created}
use meshium.State.Machine.{state_from_string}
use meshium.Pipeline.{
  ◌>>=◌, attempt, ◌>>◌, pure, StageState, StageCheckpoint, Stage, AuditEntry, CutoverRecord, World,
  Result, ok, err, M, db_error, unknown_state, pending, completed,
}

pub data StageResult : Type 0 where
  done awaits_cutover : StageResult
  breaks : StageResult

pub data UndoResult : Type 0 where
  undone unsafe_topology undo_error : UndoResult

-- What the pipeline does not decide: which database call fails, when the caller's context is
-- cancelled, what the stage handlers answer, the status and its reason that a handler writes if it writes
-- one, as finalization does, whether an operator pauses the run before a stage, the clock, the configured
-- retries, and the row that GetTrafficSwitchConfig reads.
pub record Env : Type 0 where
  pub fails : ℕ → Bool
  pub cancelled : ℕ → Bool
  pub run_stage : String → ℕ → StageResult
  pub outcome : String → ℕ → Option (String × String)
  pub undo_stage : String → UndoResult
  pub connects : Bool
  pub pauses : ℕ → Bool
  pub now : String
  pub max_retries : ℕ
  pub switch_state : Option String

-- The migration's state: the `state` column or, where that is empty, the `status` column.
unfoldable pub column : World → String
column w = if str_eq w.state "" then w.status else w.state

unfoldable pub decode : World → Option MigrationState
unfolding column
decode w = state_from_string (column w)

-- `currentState, _ = StateFromString(migration.Status)`: an unknown text counts as Created.
unfoldable pub state_or_created : Option MigrationState → MigrationState
state_or_created none = created
state_or_created (some s) = s

abbrev pub or_status : String → Option MigrationState → MigrationState
or_status status none = state_or_created (state_from_string status)
or_status status (some s) = s

abbrev or_unknown : Option MigrationState → Result MigrationState
or_unknown none = err unknown_state
or_unknown (some s) = ok s

-- A new row for a stage, or the reset of the one that is there; attempts and checkpoint stay.
unfoldable pub upsert : String → ℕ → List Stage → List Stage
upsert name i [] =
    record {
      stage_name = name;
      stage_index = i;
      state = pending;
      attempt_count = 0;
      checkpoint_data = none;
      error = "";
    }
    ∷ []
upsert name i (s ∷ rest) =
    if str_eq s.stage_name name
    then record s { stage_index = i; state = pending; error = "" } ∷ rest
    else s ∷ upsert name i rest

-- An UPDATE of the row of one stage.
unfoldable pub update : (Stage → Stage) → String → List Stage → List Stage
update f name [] = []
update f name (s ∷ rest) = if str_eq s.stage_name name then f s ∷ rest else s ∷ update f name rest

abbrev is_completed : StageState → Bool
is_completed completed = true
is_completed _ = false

-- The names of the stages whose state is `completed`, in the order of their rows.
unfoldable pub completed_names : List Stage → List String
completed_names [] = []
completed_names (s ∷ rest) =
    if is_completed s.state then s.stage_name ∷ completed_names rest else completed_names rest

module _ (env : Env) where
  -- One call of the database: it fails, or it does what it says.
  abbrev pub call : {A : Type 0} → M A → M A
  call body w =
      let w' = record w { calls = suc w.calls } in
      if env.fails w.calls then (err db_error, w') else body w'

  -- A call that is refused once the context is cancelled.
  abbrev pub call_ctx : {A : Type 0} → M A → M A
  call_ctx body w =
      let w' = record w { calls = suc w.calls } in
      if env.cancelled w.calls then (err db_error, w') else call body w'

  unfoldable pub load_migration : M String
  load_migration = call λ w. (ok w.status, w)

  unfoldable pub get_migration_state : M MigrationState
  unfolding decode column
  get_migration_state = call λ w. (or_unknown (decode w), w)

  -- The state of the migration, or what its status says where the state cannot be read.
  unfoldable pub current_state : String → M MigrationState
  current_state status = do r ← attempt get_migration_state; pure (or_status status r)

  -- GetMigration and then the state, as the verbs begin.
  unfoldable pub load_state : M MigrationState
  unfolding load_migration current_state
  load_state = do status ← load_migration; current_state status

  abbrev pub write_state : MigrationState → M (Unit {0})
  write_state s w = (ok tt, record w { state = state_string s; status = state_string s })

  unfoldable pub set_migration_state : MigrationState → M (Unit {0})
  set_migration_state s = call_ctx (write_state s)

  -- The same under context.Background().
  unfoldable pub set_migration_state_background : MigrationState → M (Unit {0})
  set_migration_state_background s = call (write_state s)

  unfoldable pub update_migration_status : String → String → M (Unit {0})
  update_migration_status status error =
      call λ w. (ok tt, record w { status = status; error = error })

  unfoldable pub set_migration_completed_at : M (Unit {0})
  set_migration_completed_at = call λ w. (ok tt, record w { completed_at = env.now })

  unfoldable pub create_audit_entry : AuditEntry → M (Unit {0})
  create_audit_entry a = call_ctx λ w. (ok tt, record w { audit = w.audit ++ a ∷ [] })

  unfoldable pub create_cutover_record : CutoverRecord → M (Unit {0})
  create_cutover_record c = call_ctx λ w. (ok tt, record w { cutovers = c ∷ w.cutovers })

  abbrev complete_last : List CutoverRecord → List CutoverRecord
  complete_last [] = []
  complete_last (c ∷ rest) = record c { completed = true } ∷ rest

  unfoldable pub update_cutover_record : M (Unit {0})
  update_cutover_record = call_ctx λ w. (ok tt, record w { cutovers = complete_last w.cutovers })

  unfoldable pub get_traffic_switch_config : M (Option String)
  get_traffic_switch_config = call λ w. (ok env.switch_state, w)

  unfoldable pub get_completed_stages : M (List String)
  get_completed_stages = call λ w. (ok (completed_names w.stages), w)

  unfoldable pub create_stage : String → ℕ → M (Unit {0})
  unfolding upsert
  create_stage name i = do
    call_ctx λ w. (ok tt, record w { stages = upsert name i w.stages })
    call_ctx (pure tt)

  unfoldable pub update_stage_state : String → StageState → String → M (Unit {0})
  unfolding update
  update_stage_state name s error = call_ctx λ w. (
    ok tt,
    record w { stages = update (λ r. record r { state = s; error = error }) name w.stages },
  )

  unfoldable pub update_stage_checkpoint : String → StageCheckpoint → M (Unit {0})
  unfolding update
  update_stage_checkpoint name c = call_ctx λ w. (
    ok tt,
    record w { stages = update (λ r. record r { checkpoint_data = some c }) name w.stages },
  )

  unfoldable pub increment_stage_attempt : String → M (Unit {0})
  unfolding update
  increment_stage_attempt name = call_ctx λ w. (
    ok tt,
    record w {
      stages = update (λ r. record r { attempt_count = suc r.attempt_count }) name w.stages;
    },
  )
