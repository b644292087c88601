-- ===== src/Pipeline/Verbs.antt =====
-- The operator's verbs Pause, Cutover, Commit and Cancel
-- (internal/mod/migration/pipeline_lifecycle.go).
use meshium.Prelude.{Bool, true, false, if◌then◌else◌, String, Option, none, some}
use text.Mathlib.Text.{◌==◌ as str_eq}
use meshium.State.{
  MigrationState, to_string, state_eq, verification, pre_cutover, traffic_switch, post_verification,
  observation, committed, paused, cancelled, awaiting_cutover, needs_manual_intervention,
}
use meshium.State.Machine.{transition, new_state_machine}
use meshium.Pipeline.{
  AuditEntry, CutoverRecord, M, ◌>>=◌, ◌>>◌, pure, fail, attempt, ensure, cannot_pause,
  cannot_cut_over, cannot_commit, cannot_cancel, cannot_transition, cutover_not_confirmed,
}
use meshium.Pipeline.Repo.{
  Env, load_state, get_migration_state, set_migration_state, set_migration_completed_at,
  create_audit_entry, create_cutover_record, update_cutover_record, get_traffic_switch_config,
}

-- `NewStateMachine(from).Transition(to) == nil`
unfoldable pub allows : MigrationState → MigrationState → Bool
unfolding transition new_state_machine
allows from to = (transition (new_state_machine from) to).1

abbrev pub by_user : String → MigrationState → MigrationState → AuditEntry
by_user event from to = record {
  event_type = event;
  previous_state = to_string from;
  new_state = to_string to;
  actor = "user";
}

abbrev pub started : MigrationState → CutoverRecord
started s = record { previous_state = to_string s; traffic_switched = true; completed = false }

-- `cfg == nil || cfg.SwitchState == trafficSwitchManualState`
unfoldable pub is_unconfirmed : Option String → Bool
is_unconfirmed none = true
is_unconfirmed (some switch_state) = str_eq switch_state "manual_required"

module _ (env : Env) where
  unfoldable pub pause_from : MigrationState → M (Unit {0})
  pause_from s = do
    ensure (allows s paused) (cannot_pause s)
    set_migration_state env paused
    attempt (create_audit_entry env (by_user "migration_paused" s paused))
    pure tt

  unfoldable pub pause : M (Unit {0})
  unfolding pause_from
  pause = do s ← load_state env; if state_eq s paused then pure tt else pause_from s

  -- `transitionTo` of Cutover: the state machine, then the database.
  unfoldable pub transition_to : MigrationState → MigrationState → M MigrationState
  transition_to from to = do
    ensure (allows from to) (cannot_transition to)
    set_migration_state env to
    pure to

  -- One `if currentState == from { transitionTo(to) }` of Cutover.
  unfoldable pub cut_over_step : MigrationState → MigrationState → MigrationState → M MigrationState
  unfolding transition_to
  cut_over_step from to s = if state_eq s from then transition_to s to else pure s

  unfoldable pub cut_over_from : MigrationState → M (Unit {0})
  cut_over_from s = do
    create_cutover_record env (started s)
    a ← cut_over_step verification pre_cutover s
    b ← cut_over_step pre_cutover traffic_switch a
    c ← cut_over_step traffic_switch post_verification b
    d ← cut_over_step post_verification observation c
    attempt (update_cutover_record env)
    attempt (create_audit_entry env (by_user "migration_cutover_confirmed" s d))
    pure tt

  -- The `switch currentState` of Cutover.
  unfoldable pub cut_over_by_state : MigrationState → M (Unit {0})
  cut_over_by_state observation = pure tt
  cut_over_by_state committed = pure tt
  cut_over_by_state verification = cut_over_from verification
  cut_over_by_state pre_cutover = cut_over_from pre_cutover
  cut_over_by_state traffic_switch = cut_over_from traffic_switch
  cut_over_by_state post_verification = cut_over_from post_verification
  cut_over_by_state s = fail (cannot_cut_over s)

  unfoldable pub cutover : M (Unit {0})
  cutover = do s ← load_state env; cut_over_by_state s

  -- From `SetMigrationStateContext(committed)` to the end of Commit.
  unfoldable pub record_commit : MigrationState → M (Unit {0})
  record_commit s = do
    set_migration_state env committed
    set_migration_completed_at env
    attempt (create_audit_entry env (by_user "migration_committed" s committed))
    pure tt

  -- The transition was refused: fail closed.
  unfoldable pub commit_refused : M (Unit {0})
  commit_refused = do
    set_migration_state env needs_manual_intervention
    fail (cannot_transition committed)

  -- The branch of Commit for AwaitingCutover.
  unfoldable pub commit_awaiting : MigrationState → M (Unit {0})
  unfolding record_commit is_unconfirmed commit_refused
  commit_awaiting s = do
    cfg ← get_traffic_switch_config env
    ensure (if is_unconfirmed cfg then false else true) cutover_not_confirmed
    if allows s committed then record_commit s else commit_refused

  -- The branch of Commit for Observation; any other state is refused.
  unfoldable pub commit_observed : MigrationState → M (Unit {0})
  unfolding record_commit
  commit_observed s = do
    ensure (state_eq s observation) (cannot_commit s)
    ensure (allows s committed) (cannot_transition committed)
    record_commit s

  unfoldable pub commit_from : MigrationState → M (Unit {0})
  unfolding commit_awaiting commit_observed
  commit_from s =
      if state_eq s committed
      then pure tt
      else if state_eq s awaiting_cutover
      then commit_awaiting s
      else commit_observed s

  unfoldable pub commit : M (Unit {0})
  unfolding commit_from
  commit = do s ← load_state env; commit_from s

  unfoldable pub cancel_from : MigrationState → M (Unit {0})
  cancel_from s = do
    ensure (allows s cancelled) (cannot_cancel s)
    set_migration_state env cancelled
    attempt (create_audit_entry env (by_user "migration_cancelled" s cancelled))
    pure tt

  -- Cancel reads the state with no fallback.
  unfoldable pub cancel : M (Unit {0})
  unfolding cancel_from
  cancel = do s ← get_migration_state env; if state_eq s cancelled then pure tt else cancel_from s
