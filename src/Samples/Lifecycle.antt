-- ===== src/Samples/Lifecycle.antt =====
-- The states of a migration (state.go), at concrete inputs.
use meshium.Prelude.{◌≡◌, refl, false, some}
use meshium.State.{MigrationState, created, committed}
use meshium.State.Machine.{new_state_machine, transition, state_from_string}

names_test : state_from_string "rolling_back" ≡ some MigrationState.rollback
unfolding state_from_string
names_test = refl

transition_test : (transition (new_state_machine created) committed).1 ≡ false
unfolding transition new_state_machine
transition_test = refl
