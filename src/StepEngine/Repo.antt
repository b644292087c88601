-- ===== src/StepEngine/Repo.antt =====
-- The database calls of the step engine (internal/mod/migration/job.go).
use meshium.Prelude.{
  ℕ, suc, Bool, true, false, ◌&&◌, ◌||◌, List, [], ◌∷◌, if◌then◌else◌, String, Option, none, some,
  ◌==◌,
}
use text.Mathlib.Text.{◌==◌ as str_eq}
use meshium.State.{MigrationState, state_string}
use meshium.State.Machine.{state_from_string}
use meshium.Pipeline.Repo.{state_or_created, or_status}
use meshium.StepEngine.{StepState, pending, JobStep, Checkpoint, World, Env}

-- `ON CONFLICT(migration_id, step_name) DO UPDATE SET state = 'pending'`, or a new row.
unfoldable pub insert_step : ℕ → String → ℕ → List JobStep → List JobStep
insert_step id name index [] =
    record {
      id = id;
      step_name = name;
      step_index = index;
      state = pending;
      prepare_data = "";
      apply_data = "";
      verify_data = "";
    }
    ∷ []
insert_step id name index (row ∷ rest) =
    if str_eq row.step_name name
    then record row { state = pending } ∷ rest
    else row ∷ insert_step id name index rest

unfoldable pub has_step : String → List JobStep → Bool
has_step name [] = false
has_step name (row ∷ rest) = str_eq row.step_name name || has_step name rest

unfoldable pub update_step : StepState → ℕ → List JobStep → List JobStep
update_step state id [] = []
update_step state id (row ∷ rest) =
    (if row.id == id then record row { state = state } else row) ∷ update_step state id rest

pub data Phase : Type 0 where
  preparation application verification : Phase

-- The row with the data of one phase.
abbrev pub with_data : Phase → String → JobStep → JobStep
with_data preparation data' row = record row { prepare_data = data' }
with_data application data' row = record row { apply_data = data' }
with_data verification data' row = record row { verify_data = data' }

unfoldable pub set_data : Phase → String → ℕ → List JobStep → List JobStep
set_data phase data' id [] = []
set_data phase data' id (row ∷ rest) =
    (if row.id == id then with_data phase data' row else row) ∷ set_data phase data' id rest

unfoldable pub step_at : ℕ → List JobStep → Option JobStep
step_at index [] = none
step_at index (row ∷ rest) = if row.step_index == index then some row else step_at index rest

unfoldable pub upsert_checkpoint : String → ℕ → String → List Checkpoint → List Checkpoint
upsert_checkpoint name index data' [] =
    record { step_name = name; step_index = index; verified = true; checkpoint_data = data' } ∷ []
upsert_checkpoint name index data' (c ∷ rest) =
    if str_eq c.step_name name
    then record c { verified = true; checkpoint_data = data' } ∷ rest
    else c ∷ upsert_checkpoint name index data' rest

unfoldable pub clear : String → List Checkpoint → List Checkpoint
clear name [] = []
clear name (c ∷ rest) =
    (if str_eq c.step_name name then record c { verified = false } else c) ∷ clear name rest

-- The indices of the verified checkpoints: `skipSet`.
unfoldable pub is_verified : ℕ → List Checkpoint → Bool
is_verified index [] = false
is_verified index (c ∷ rest) = (c.verified && c.step_index == index) || is_verified index rest

module _ {T : Type 0} (env : Env) where
  -- One call more, and whether it succeeds. The methods named Context check the context first.
  unfoldable pub tick : World T → World T
  tick w = record w { calls = suc w.calls }

  unfoldable pub call : (World T → World T) → World T → Bool × World T
  unfolding tick
  call change w = if env.fails w.calls then (false, tick w) else (true, change (tick w))

  unfoldable pub call_context : (World T → World T) → World T → Bool × World T
  unfolding tick
  call_context change w =
      if env.cancelled_at w.calls || env.fails w.calls
      then (false, tick w)
      else (true, change (tick w))

  -- SetMigrationState.
  unfoldable pub put_state : MigrationState → World T → World T
  put_state s w = record w { state = state_string s; status = state_string s }

  unfoldable pub set_state : MigrationState → World T → Bool × World T
  unfolding call_context put_state
  set_state s w = call_context (put_state s) w

  unfoldable pub set_state_background : MigrationState → World T → Bool × World T
  unfolding call put_state
  set_state_background s w = call (put_state s) w

  -- `currentState, err := GetMigrationState(id)`, and where that fails the state in the `status`
  -- column of the row that was loaded before; an unknown text counts as Created.
  unfoldable pub current_state : World T → MigrationState × World T
  unfolding tick state_or_created
  current_state w = (
    if env.fails w.calls
        then state_or_created (state_from_string w.status)
        else or_status w.status
            (state_from_string (if str_eq w.state "" then w.status else w.state)),
    tick w,
  )

  -- CreateJobStepContext: the id of the row, or none for an error. After an update of a row that is
  -- there, LastInsertId is what the driver reports.
  unfoldable pub create_step : String → ℕ → World T → Option ℕ × World T
  unfolding tick insert_step has_step
  create_step name index w =
      if env.cancelled_at w.calls || env.fails w.calls
      then (none, tick w)
      else if has_step name w.rows
      then (some (env.reported w.calls), record (tick w) { rows = insert_step 0 name index w.rows })
      else (
        some (suc w.last_id),
        record (tick w) {
          rows = insert_step (suc w.last_id) name index w.rows;
          last_id = suc w.last_id;
        },
      )

  unfoldable pub update_step_state : ℕ → StepState → World T → World T
  unfolding call_context update_step
  update_step_state id state w =
      (call_context (λ v. record v { rows = update_step state id v.rows }) w).1

  -- `if data != "" { SetJobStepData }`
  unfoldable pub set_step_data : ℕ → Phase → String → World T → World T
  unfolding call set_data
  set_step_data id phase data' w =
      if str_eq data' ""
      then w
      else (call (λ v. record v { rows = set_data phase data' id v.rows }) w).1

  unfoldable pub get_step : ℕ → World T → Option JobStep × World T
  unfolding tick step_at
  get_step index w = (if env.fails w.calls then none else step_at index w.rows, tick w)

  unfoldable pub create_checkpoint : String → ℕ → String → World T → World T
  unfolding call_context upsert_checkpoint
  create_checkpoint name index data' w =
      (call_context
        (λ v. record v { checkpoints = upsert_checkpoint name index data' v.checkpoints }) w).1

  unfoldable pub clear_checkpoint : String → World T → World T
  unfolding call clear
  clear_checkpoint name w = (call (λ v. record v { checkpoints = clear name v.checkpoints }) w).1
