-- ===== src/Pipeline/Run.antt =====
-- One run of the stages: Execute (internal/mod/migration/pipeline.go, from the load of the
-- migration on) with failPipeline, interruptPipeline and rollbackPipeline (pipeline_recovery.go) and
-- rollbackTerminalState (topology.go).
use meshium.Prelude.{
  ℕ, zero, suc, Bool, false, ◌||◌, List, [], ◌∷◌, ◌++◌, reverse, if◌then◌else◌, String, Option,
  none, some, ltb, length,
}
use text.Mathlib.Text.{◌==◌ as str_eq}
use meshium.State.{
  MigrationState, state_eq, committed, paused, failed, rollback, rolled_back, rollback_degraded,
  interrupted, resuming, awaiting_cutover, needs_manual_intervention,
}
use meshium.State.Machine.{StateMachine, transition, force_transition, new_state_machine}
use meshium.Pipeline.{
  StageState, M, ◌>>=◌, ◌>>◌, pure, fail, attempt, ensure, ok, cannot_transition, cannot_connect,
  interrupted_run, stage_failed, running, completed,
}
use meshium.Pipeline.Repo.{
  Env, StageResult, UndoResult, done, awaits_cutover, undone, unsafe_topology, undo_error,
  load_migration, get_migration_state, load_state, set_migration_state,
  set_migration_state_background, update_migration_status, set_migration_completed_at,
  create_audit_entry, get_completed_stages, create_stage, update_stage_state,
  update_stage_checkpoint, increment_stage_attempt,
}
use meshium.Pipeline.Verbs.{allows, pause}

-- `if err := sm.Transition(to); err != nil { sm.ForceTransition(to) }`
unfoldable pub transition_or_force : StateMachine → MigrationState → StateMachine
unfolding transition force_transition
transition_or_force sm to =
    let (sm', valid) = transition sm to in if valid then sm' else force_transition sm to

-- The errors of the undo handlers, joined: whether there is one, and whether one of them is
-- ErrUnsafeTopology.
pub data RollbackError : Type 0 where
  no_error some_error unsafe_error : RollbackError

unfoldable pub join : RollbackError → UndoResult → RollbackError
join e undone = e
join e unsafe_topology = unsafe_error
join unsafe_error undo_error = unsafe_error
join _ undo_error = some_error

unfoldable pub rollback_terminal_state : RollbackError → MigrationState
rollback_terminal_state no_error = rolled_back
rollback_terminal_state unsafe_error = needs_manual_intervention
rollback_terminal_state some_error = rollback_degraded

unfoldable pub contains : String → List String → Bool
contains name [] = false
contains name (n ∷ rest) = str_eq n name || contains name rest

-- `maxRetries`: the configured number, or 3.
unfoldable pub retries : ℕ → ℕ
retries n = if ltb 0 n then n else 3

-- What the retry loop of one stage came to; a success carries the attempts used.
pub data StageOutcome : Type 0 where
  succeeded : ℕ → StageOutcome
  awaiting failing cancelled_run : StageOutcome

-- Whether the loop over the stages went through, or stopped early without an error.
pub data Progress : Type 0 where
  all_stages stopped : Progress

-- What the last attempt leaves: ErrAwaitingCutover is told apart after the retries.
unfoldable pub last_outcome : StageResult → StageOutcome
last_outcome awaits_cutover = awaiting
last_outcome _ = failing

-- Whether the state read before a stage says that an operator paused the run.
unfoldable pub is_paused : Option MigrationState → Bool
is_paused none = false
is_paused (some s) = state_eq s paused

abbrev pub or_old : Option (String × String) → String × String → String × String
or_old none old = old
or_old (some new) old = new

unfoldable pub or_empty : Option (List String) → List String
or_empty none = []
or_empty (some l) = l

module _ (env : Env) where
  -- ctx.Err() != nil
  unfoldable pub is_cancelled : M Bool
  is_cancelled w = (ok (env.cancelled w.calls), record w { calls = suc w.calls })

  -- What the Execute of a stage handler leaves in the migration's row: finalizationStage.Execute
  -- writes the status column by UpdateMigrationStatus, and not the state.
  unfoldable pub run_handler : String → M StageResult
  run_handler name w =
      let (status, error) = or_old (env.outcome name w.calls) (w.status, w.error) in
      (
        ok (env.run_stage name w.calls),
        record w { ran = w.ran ++ name ∷ []; calls = suc w.calls; status = status; error = error },
      )

  unfoldable pub undo_handler : String → M UndoResult
  undo_handler name w = (ok (env.undo_stage name), record w { undone = w.undone ++ name ∷ [] })

  unfoldable pub fail_pipeline : M (Unit {0})
  fail_pipeline = do
    attempt (set_migration_state env failed)
    attempt (update_migration_status env "failed" "")
    pure tt

  unfoldable pub interrupt_pipeline : M (Unit {0})
  interrupt_pipeline = do
    attempt (set_migration_state_background env interrupted)
    attempt (update_migration_status env "interrupted" "interrupted by context cancellation")
    pure tt

  -- The loop of rollbackPipeline over the completed stages, the last one first; a stage without a
  -- registered handler is passed over.
  unfoldable pub undo_all : List String → RollbackError → List String → M RollbackError
  unfolding undo_handler join contains
  undo_all handlers e [] = pure e
  undo_all handlers e (name ∷ rest) =
      if contains name handlers
      then (undo_handler name >>= λ r. undo_all handlers (join e r) rest)
      else undo_all handlers e rest

  -- SetMigrationRolledBackAt, for a clean rollback only.
  unfoldable pub note_rolled_back : MigrationState → M (Unit {0})
  note_rolled_back terminal =
      if state_eq terminal rolled_back
      then (attempt (set_migration_completed_at env) >> pure tt)
      else pure tt

  -- The end of rollbackPipeline: the terminal state, by a validated transition.
  unfoldable pub finish_rollback : StateMachine → RollbackError → M (Unit {0})
  unfolding rollback_terminal_state note_rolled_back
  finish_rollback sm e =
      let terminal = rollback_terminal_state e in
      if (transition sm terminal).1
      then (attempt (set_migration_state env terminal) >> note_rolled_back terminal)
      else (attempt (set_migration_state env needs_manual_intervention) >> pure tt)

  -- rollbackPipeline; its early returns leave the migration in Rollback.
  unfoldable pub rollback_pipeline : List String → StateMachine → M (Unit {0})
  unfolding transition_or_force undo_all finish_rollback
  rollback_pipeline handlers sm =
      let sm' = transition_or_force (transition_or_force sm failed) rollback in
      do
        attempt (set_migration_state env failed)
        attempt (set_migration_state env rollback)
        done_stages ← get_completed_stages env
        load_migration env
        ensure env.connects cannot_connect
        e ← undo_all handlers no_error (reverse done_stages)
        finish_rollback sm' e

  -- After one attempt: done, or cancelled, or on with `again`.
  unfoldable pub settle : ℕ → StageResult → M StageOutcome → M StageOutcome
  settle used done again = pure (succeeded (suc used))
  settle used _ again = is_cancelled >>= λ c. if c then pure cancelled_run else again

  unfoldable pub one_attempt : String → ℕ → (StageResult → M StageOutcome) → M StageOutcome
  unfolding run_handler settle
  one_attempt name used again = run_handler name >>= λ r. settle used r (again r)

  -- The wait before another attempt, which a cancelled context ends.
  unfoldable pub wait_and : String → M StageOutcome → M StageOutcome
  wait_and name again =
      attempt (increment_stage_attempt env name)
      >> (is_cancelled >>= λ c. if c then pure cancelled_run else again)

  -- The retry loop of one stage: `left` more attempts may follow, `used` have been made.
  unfoldable pub try_stage : String → ℕ → ℕ → M StageOutcome
  unfolding one_attempt wait_and
  try_stage name zero used = one_attempt name used (λ r. pure (last_outcome r))
  try_stage name (suc left) used =
      one_attempt name used (λ _. wait_and name (try_stage name left (suc used)))

  -- What Execute does with the outcome of a stage.
  unfoldable pub record_outcome :
      List String → StateMachine → String → ℕ → StageOutcome → M Progress
  unfolding interrupt_pipeline rollback_pipeline
  record_outcome handlers sm name total (succeeded used) = do
    update_stage_checkpoint env name (record { stage = name; attempt = used; stage_total = total })
    attempt (update_stage_state env name completed "")
    attempt (
        create_audit_entry env (record {
          event_type = "stage_completed";
          previous_state = "";
          new_state = name;
          actor = "pipeline";
        }))
    pure all_stages
  record_outcome handlers sm name total awaiting = do
    attempt (update_stage_state env name completed "awaiting_cutover")
    attempt (set_migration_state env awaiting_cutover)
    pure stopped
  record_outcome handlers sm name total failing = do
    attempt (update_stage_state env name StageState.failed "stage failed")
    attempt (rollback_pipeline handlers sm)
    fail (stage_failed name)
  record_outcome handlers sm name total cancelled_run = interrupt_pipeline >> fail interrupted_run

  -- One stage that is not yet completed.
  unfoldable pub run_stage : List String → StateMachine → String → ℕ → ℕ → M Progress
  unfolding record_outcome try_stage
  run_stage handlers sm name i total = do
    create_stage env name i
    attempt (update_stage_state env name running "")
    outcome ← try_stage name (retries env.max_retries) 0
    record_outcome handlers sm name total outcome

  -- An operator's Pause may run between two stages.
  unfoldable pub operator : ℕ → M (Unit {0})
  operator i = if env.pauses i then (attempt (pause env) >> pure tt) else pure tt

  -- On to the later stages, unless the run has stopped.
  unfoldable pub go_on : M Progress → Progress → M Progress
  go_on later all_stages = later
  go_on later stopped = pure stopped

  -- A stage that is not paused before: skipped if it was completed before the run.
  unfoldable pub unpaused :
      List String → StateMachine → List String → String → ℕ → ℕ → M Progress → M Progress
  unfolding run_stage contains go_on
  unpaused handlers sm done_stages name i total later =
      if contains name done_stages
      then later
      else (run_stage handlers sm name i total >>= go_on later)

  -- One round of the loop over the stages, with the rest of the loop.
  unfoldable pub stage_round :
      List String → StateMachine → List String → String → ℕ → ℕ → M Progress → M Progress
  unfolding unpaused interrupt_pipeline is_paused operator
  stage_round handlers sm done_stages name i total later =
      operator i
      >> (is_cancelled >>= λ c.
          if c
          then (interrupt_pipeline >> fail interrupted_run)
          else (attempt (get_migration_state env) >>= λ s.
              if is_paused s
              then pure stopped
              else unpaused handlers sm done_stages name i total later))

  -- The loop over the stages: `done_stages` are the ones that were completed before the run.
  unfoldable pub run_stages :
      List String → StateMachine → List String → ℕ → ℕ → List String → M Progress
  unfolding stage_round
  run_stages handlers sm done_stages total i [] = pure all_stages
  run_stages handlers sm done_stages total i (name ∷ rest) =
      stage_round handlers sm done_stages name i total
        (run_stages handlers sm done_stages total (suc i) rest)

  -- After the last stage: commit, by a validated transition only.
  unfoldable pub commit_run : StateMachine → Progress → M (Unit {0})
  commit_run sm stopped = pure tt
  commit_run sm all_stages =
      if (transition sm committed).1
      then (attempt (set_migration_state env committed)
          >> (attempt (set_migration_completed_at env) >> pure tt))
      else (attempt (set_migration_state env needs_manual_intervention)
          >> fail (cannot_transition committed))

  -- The state machine of the run: an interrupted migration is first moved to Resuming.
  unfoldable pub start_machine : MigrationState → M StateMachine
  start_machine s =
      if state_eq s interrupted
      then (do
        ensure (allows s resuming) (cannot_transition resuming)
        attempt (set_migration_state env resuming)
        pure (new_state_machine resuming))
      else pure (new_state_machine s)

  -- The connections to the two servers; without them the run fails.
  unfoldable pub connect : M (Unit {0})
  unfolding fail_pipeline
  connect = if env.connects then pure tt else (fail_pipeline >> fail cannot_connect)

  -- The run after its state machine is set up.
  unfoldable pub run_from : List String → StateMachine → M (Unit {0})
  unfolding run_stages commit_run connect or_empty
  run_from handlers sm = do
    attempt (update_migration_status env "running" "")
    connect
    done_stages ← attempt (get_completed_stages env)
    p ← run_stages handlers sm (or_empty done_stages) (length handlers) 0 handlers
    commit_run sm p

  unfoldable pub execute : List String → M (Unit {0})
  unfolding start_machine run_from
  execute handlers = do s ← load_state env; sm ← start_machine s; run_from handlers sm
