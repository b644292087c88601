-- ===== src/Samples/Guards.antt =====
-- The guards of the pipeline (internal/mod/migration/pipeline_concurrency.go), at concrete inputs.
use meshium.Prelude.{ℕ, ◌≡◌, ◌≤◌, refl, true, false, List, [], ◌∷◌, arith}
use meshium.Concurrency.{try_acquire, try_acquire_resource}
use meshium.Concurrency.Runs.{Event, enter, claim, finish, event, events, new_system, is_idle, idle}
use meshium.Concurrency.Exclusion.{Exclusive, reachable-Exclusive, all_released}
use meshium.Concurrency.Slots.{Slots, give_back, set_max, slot_events, set_max-strands}

-- Migration 1 holds servers 3 and 4 when migration 2 asks for 4 and 5.
abbrev collision : List Event
collision = enter 1 ∷ enter 2 ∷ claim 1 3 4 ∷ []

collision_test : is_idle ((event (claim 2 4 5) (events collision new_system)).phase 2) ≡ true
unfolding event events new_system try_acquire try_acquire_resource
collision_test = refl

reachable-Exclusive_example : Exclusive (events collision new_system)
reachable-Exclusive_example = reachable-Exclusive collision

abbrev over : List Event
over = enter 1 ∷ claim 1 3 4 ∷ finish 1 ∷ []

over_idle : (m : ℕ) → (events over new_system).phase m ≡ idle
unfolding events event new_system
over_idle m = ground arith

all_released_example :
    ((events over new_system).locks 3 ≡ 0) × ((events over new_system).running 3 ≡ false)
all_released_example = all_released over over_idle 3

abbrev shared : ℕ
shared = 4

abbrev other : ℕ
other = 5

abbrev two_slots : Slots
two_slots = record { sem = record { capacity = 2; taken = 1 }; in_flight = 1 }

set_max-strands_example :
    two_slots.in_flight ≤ (slot_events (set_max 4 ∷ give_back ∷ []) two_slots).in_flight
set_max-strands_example = set_max-strands 4 (give_back ∷ []) two_slots (omega arith)
