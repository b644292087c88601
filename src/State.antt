-- ===== src/State.antt =====
-- internal/mod/migration/state.go: the lifecycle states of a migration, their names in the
-- database, the table of legal transitions and the state machine that enforces it.

pub mod Machine
pub mod Names
pub mod Table
pub mod Paths
use meshium.Prelude.{
  ℕ, ◌≡◌, refl, Bool, true, false, ◌||◌, List, [], ◌∷◌, ◌==◌, if◌then◌else◌, String, Option, none,
  some, arith, ◌↔◌, ==_iff, ==_self, ap, ◌∙◌, sym,
}

pub data MigrationState : Type 0 where
  created planning discovery compatibility_check risk_assessment backup snapshot : MigrationState
  transferring applying verifying provision_target install_dependencies : MigrationState
  initial_sync live_replication verification pre_cutover traffic_switch : MigrationState
  post_verification observation committed failed rollback rolled_back : MigrationState
  rollback_degraded interrupted paused resuming cancelled awaiting_cutover : MigrationState
  needs_manual_intervention : MigrationState

-- The value of the constant: `iota` in declaration order.
unfoldable pub iota : MigrationState → ℕ
iota created = 0
iota planning = 1
iota discovery = 2
iota compatibility_check = 3
iota risk_assessment = 4
iota backup = 5
iota snapshot = 6
iota transferring = 7
iota applying = 8
iota verifying = 9
iota provision_target = 10
iota install_dependencies = 11
iota initial_sync = 12
iota live_replication = 13
iota verification = 14
iota pre_cutover = 15
iota traffic_switch = 16
iota post_verification = 17
iota observation = 18
iota committed = 19
iota failed = 20
iota rollback = 21
iota rolled_back = 22
iota rollback_degraded = 23
iota interrupted = 24
iota paused = 25
iota resuming = 26
iota cancelled = 27
iota awaiting_cutover = 28
iota needs_manual_intervention = 29

-- Go compares two states as integers.
unfoldable pub state_eq : MigrationState → MigrationState → Bool
unfolding iota
state_eq s t = iota s == iota t

-- The list of the states, in the order of their values.
abbrev pub all_states : List MigrationState
all_states =
    created ∷ planning ∷ discovery ∷ compatibility_check ∷ risk_assessment ∷ backup ∷ snapshot
    ∷ transferring ∷ applying ∷ verifying ∷ provision_target ∷ install_dependencies ∷ initial_sync
    ∷ live_replication ∷ verification ∷ pre_cutover ∷ traffic_switch ∷ post_verification
    ∷ observation ∷ committed ∷ failed ∷ rollback ∷ rolled_back ∷ rollback_degraded ∷ interrupted
    ∷ paused ∷ resuming ∷ cancelled ∷ awaiting_cutover ∷ needs_manual_intervention ∷ []

unfoldable pub is_terminal : MigrationState → Bool
is_terminal committed = true
is_terminal rolled_back = true
is_terminal rollback_degraded = true
is_terminal cancelled = true
is_terminal needs_manual_intervention = true
is_terminal _ = false

unfoldable pub is_running : MigrationState → Bool
is_running committed = false
is_running failed = false
is_running rolled_back = false
is_running rollback_degraded = false
is_running interrupted = false
is_running paused = false
is_running cancelled = false
is_running awaiting_cutover = false
is_running needs_manual_intervention = false
is_running _ = true

unfoldable pub can_resume : MigrationState → Bool
can_resume interrupted = true
can_resume paused = true
can_resume _ = false

-- `stateString`: the text stored in the database.
unfoldable pub state_string : MigrationState → String
state_string created = "planned"
state_string planning = "planning"
state_string discovery = "discovery"
state_string compatibility_check = "compatibility_check"
state_string risk_assessment = "risk_assessment"
state_string backup = "backup"
state_string snapshot = "snapshot"
state_string transferring = "transferring"
state_string applying = "applying"
state_string verifying = "verifying"
state_string provision_target = "provision_target"
state_string install_dependencies = "install_dependencies"
state_string initial_sync = "initial_sync"
state_string live_replication = "live_replication"
state_string verification = "verification"
state_string pre_cutover = "pre_cutover"
state_string traffic_switch = "traffic_switch"
state_string post_verification = "post_verification"
state_string observation = "observation"
state_string committed = "completed"
state_string failed = "failed"
state_string rollback = "rolling_back"
state_string rolled_back = "rolled_back"
state_string rollback_degraded = "rollback_degraded"
state_string interrupted = "interrupted"
state_string paused = "paused"
state_string resuming = "resuming"
state_string cancelled = "cancelled"
state_string awaiting_cutover = "awaiting_cutover"
state_string needs_manual_intervention = "needs_manual_intervention"

-- `String`: the readable name, which the audit log uses.
unfoldable pub to_string : MigrationState → String
unfolding state_string
to_string created = "created"
to_string committed = "committed"
to_string rollback = "rollback"
to_string s = state_string s
