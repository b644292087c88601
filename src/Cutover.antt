-- ===== src/Cutover.antt =====
-- The steps of a fenced cutover: the sub-states and their machine
-- (internal/mod/migration/cutover_substate.go), and the orchestrator (cutover_orchestrator.go).
pub mod Run
pub mod Good
pub mod Steps
pub mod Order
pub mod Completes
use meshium.Prelude.{
  ℕ, suc, ◌+◌, ◌-◌, ◌≡◌, Bool, true, false, not, ◌&&◌, ◌||◌, if◌then◌else◌, ◌==◌, Option, none,
  some, String, List, [], ◌∷◌,
}

pub data SubState : Type 0 where
  preflight seed replicating verifying awaiting_cutover fencing_source : SubState
  catching_up verifying_target switching promoting observing completed : SubState

-- The place of a sub-state in the order of the constants.
unfoldable pub position : SubState → ℕ
position preflight = 0
position seed = 1
position replicating = 2
position verifying = 3
position awaiting_cutover = 4
position fencing_source = 5
position catching_up = 6
position verifying_target = 7
position switching = 8
position promoting = 9
position observing = 10
position completed = 11

unfoldable pub sub_eq : SubState → SubState → Bool
unfolding position
sub_eq s t = position s == position t

unfoldable pub sub_name : SubState → String
sub_name preflight = "Preflight"
sub_name seed = "Seed"
sub_name replicating = "Replicating"
sub_name verifying = "Verifying"
sub_name awaiting_cutover = "AwaitingCutover"
sub_name fencing_source = "FencingSource"
sub_name catching_up = "CatchingUp"
sub_name verifying_target = "VerifyingTarget"
sub_name switching = "SwitchingTraffic"
sub_name promoting = "PromotingTarget"
sub_name observing = "Observing"
sub_name completed = "Completed"

-- The legal edges out of a sub-state.
unfoldable pub cutover_transitions : SubState → List SubState
cutover_transitions preflight = seed ∷ preflight ∷ []
cutover_transitions seed = replicating ∷ seed ∷ []
cutover_transitions replicating = verifying ∷ replicating ∷ []
cutover_transitions verifying = awaiting_cutover ∷ verifying ∷ []
cutover_transitions awaiting_cutover = fencing_source ∷ awaiting_cutover ∷ []
cutover_transitions fencing_source = catching_up ∷ fencing_source ∷ []
cutover_transitions catching_up = verifying_target ∷ catching_up ∷ []
cutover_transitions verifying_target = switching ∷ verifying_target ∷ []
cutover_transitions switching = promoting ∷ switching ∷ []
cutover_transitions promoting = observing ∷ promoting ∷ []
cutover_transitions observing = completed ∷ observing ∷ []
cutover_transitions completed = []

abbrev member : SubState → List SubState → Bool
member s [] = false
member s (t ∷ rest) = sub_eq t s || member s rest

unfoldable pub valid_cutover_transition : SubState → SubState → Bool
unfolding sub_eq cutover_transitions
valid_cutover_transition from to = sub_eq from to || member to (cutover_transitions from)

-- The persisted checkpoint; of a step's result it matters whether there is one.
pub record Checkpoint : Type 0 where
  pub sub_state : Option SubState
  pub token : ℕ
  pub holder : String
  pub steps : SubState → Bool

-- `&cutoverCheckpoint{}`
unfoldable pub empty_checkpoint : Checkpoint
empty_checkpoint = record { sub_state = none; token = 0; holder = ""; steps = λ _. false }

-- The edges that Run drives, in its order.
abbrev pub run_steps : List (SubState × SubState)
run_steps =
    (preflight, seed)
    ∷ (seed, replicating)
    ∷ (replicating, verifying)
    ∷ (verifying, awaiting_cutover)
    ∷ (awaiting_cutover, fencing_source)
    ∷ (fencing_source, catching_up)
    ∷ (catching_up, verifying_target)
    ∷ (verifying_target, switching)
    ∷ (switching, promoting)
    ∷ (promoting, observing)
    ∷ (observing, completed)
    ∷ []
