-- ===== src/State/Machine.antt =====
-- internal/mod/migration/state.go: the transition table, StateFromString and StateMachine.
use meshium.Prelude.{
  Bool, true, false, ◌||◌, List, [], ◌∷◌, if◌then◌else◌, String, Option, none, some,
}
use text.Mathlib.Text.{◌==◌ as str_eq}
use meshium.State.{
  MigrationState, created, planning, discovery, compatibility_check, risk_assessment, backup,
  snapshot, transferring, applying, verifying, provision_target, install_dependencies, initial_sync,
  live_replication, verification, pre_cutover, traffic_switch, post_verification, observation,
  committed, failed, rollback, rolled_back, rollback_degraded, interrupted, paused, resuming,
  cancelled, awaiting_cutover, needs_manual_intervention, state_eq, all_states, state_string,
}

-- `transitionTable`: the legal successors of each state.
unfoldable pub transition_table : MigrationState → List MigrationState
transition_table created = planning ∷ []
transition_table planning = discovery ∷ backup ∷ failed ∷ interrupted ∷ paused ∷ []
transition_table discovery = compatibility_check ∷ failed ∷ interrupted ∷ paused ∷ []
transition_table compatibility_check = risk_assessment ∷ failed ∷ interrupted ∷ paused ∷ []
transition_table risk_assessment = backup ∷ failed ∷ interrupted ∷ paused ∷ []
transition_table backup = provision_target ∷ snapshot ∷ failed ∷ interrupted ∷ paused ∷ []
transition_table snapshot = transferring ∷ failed ∷ interrupted ∷ paused ∷ []
transition_table transferring = applying ∷ committed ∷ failed ∷ interrupted ∷ paused ∷ []
transition_table applying = verifying ∷ committed ∷ failed ∷ interrupted ∷ paused ∷ rollback ∷ []
transition_table verifying =
    pre_cutover ∷ committed ∷ applying ∷ failed ∷ interrupted ∷ paused ∷ rollback ∷ []
transition_table provision_target = install_dependencies ∷ failed ∷ interrupted ∷ paused ∷ []
transition_table install_dependencies = initial_sync ∷ failed ∷ interrupted ∷ paused ∷ []
transition_table initial_sync = live_replication ∷ failed ∷ interrupted ∷ paused ∷ []
transition_table live_replication = verification ∷ failed ∷ interrupted ∷ paused ∷ []
transition_table verification = pre_cutover ∷ failed ∷ interrupted ∷ paused ∷ []
transition_table pre_cutover = traffic_switch ∷ failed ∷ interrupted ∷ paused ∷ []
transition_table traffic_switch = post_verification ∷ failed ∷ interrupted ∷ paused ∷ rollback ∷ []
transition_table post_verification = observation ∷ failed ∷ interrupted ∷ paused ∷ rollback ∷ []
transition_table observation = committed ∷ failed ∷ interrupted ∷ paused ∷ rollback ∷ []
transition_table committed = []
transition_table failed = rollback ∷ interrupted ∷ []
transition_table rollback =
    rolled_back ∷ rollback_degraded ∷ needs_manual_intervention ∷ failed ∷ []
transition_table rolled_back = []
transition_table rollback_degraded = []
transition_table interrupted = resuming ∷ failed ∷ cancelled ∷ []
transition_table paused = resuming ∷ failed ∷ cancelled ∷ []
transition_table resuming =
    planning ∷ discovery ∷ compatibility_check ∷ risk_assessment ∷ backup ∷ snapshot ∷ transferring
    ∷ applying ∷ verifying ∷ provision_target ∷ install_dependencies ∷ initial_sync
    ∷ live_replication ∷ verification ∷ pre_cutover ∷ traffic_switch ∷ post_verification
    ∷ observation ∷ failed ∷ interrupted ∷ committed ∷ []
transition_table cancelled = []
transition_table awaiting_cutover = committed ∷ needs_manual_intervention ∷ rollback ∷ failed ∷ []
transition_table needs_manual_intervention = []

-- The loop of `IsValidTransition` over the allowed successors.
unfoldable pub holds : MigrationState → List MigrationState → Bool
unfolding state_eq
holds to [] = false
holds to (candidate ∷ rest) = state_eq candidate to || holds to rest

unfoldable pub is_valid_transition : MigrationState → MigrationState → Bool
unfolding transition_table holds
is_valid_transition from to = holds to (transition_table from)

-- `stringState`, the reverse of `stateString`, and the lookup of `StateFromString`.
unfoldable pub find_state : String → List MigrationState → Option MigrationState
unfolding state_string
find_state text [] = none
find_state text (s ∷ rest) = if str_eq (state_string s) text then some s else find_state text rest

unfoldable pub state_from_string : String → Option MigrationState
unfolding find_state
state_from_string text = find_state text all_states

-- The state behind its mutex; every method runs in one critical section.
pub record StateMachine : Type 0 where
  pub state : MigrationState

unfoldable pub new_state_machine : MigrationState → StateMachine
new_state_machine initial = record { state = initial }

-- The machine after `Transition`, and whether the call succeeded.
unfoldable pub transition : StateMachine → MigrationState → StateMachine × Bool
unfolding is_valid_transition
transition sm to =
    if is_valid_transition sm.state to then (record sm { state = to }, true) else (sm, false)

unfoldable pub force_transition : StateMachine → MigrationState → StateMachine
force_transition sm to = record sm { state = to }

-- A series of `Transition` calls, refused ones included.
unfoldable pub transitions : StateMachine → List MigrationState → StateMachine
unfolding transition
transitions sm [] = sm
transitions sm (to ∷ rest) = transitions (transition sm to).0 rest
