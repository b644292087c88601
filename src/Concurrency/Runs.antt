-- ===== src/Concurrency/Runs.antt =====
-- Concurrent runs of Execute (internal/mod/migration/pipeline.go, its guards) as steps on the marks
-- and the locks of the pipeline.
use meshium.Prelude.{ℕ, Bool, true, false, Option, none, some, List, [], ◌∷◌}
use meshium.Concurrency.{assign, try_acquire, release, try_acquire_resource, release_resource_locks}

-- Where the run of a migration stands: not started, past tryAcquire, or holding its servers.
pub data Phase : Type 0 where
  idle entered : Phase
  holding : List ℕ → Phase

pub record System : Type 0 where
  pub running : ℕ → Bool
  pub locks : ℕ → ℕ
  pub phase : ℕ → Phase

-- The steps of concurrent runs of Execute: a run enters, gives up before it holds servers, claims
-- its servers, or ends.
pub data Event : Type 0 where
  enter give_up finish : ℕ → Event
  claim : ℕ → ℕ → ℕ → Event

-- The deferred release of a run that holds no servers.
abbrev pub withdraw : ℕ → System → System
withdraw m sys = record sys { running = release m sys.running; phase = assign sys.phase m idle }

abbrev pub claimed : ℕ → Option (List ℕ) × (ℕ → ℕ) → System → System
claimed m (some l, locks) sys = record sys { locks = locks; phase = assign sys.phase m (holding l) }
claimed m (none, locks) sys = withdraw m sys

abbrev pub entering : ℕ → Bool × (ℕ → Bool) → System → System
entering m (true, running) sys = record sys {
  running = running;
  phase = assign sys.phase m entered;
}
entering m (false, running) sys = sys

abbrev pub giving_up : ℕ → Phase → System → System
giving_up m entered sys = withdraw m sys
giving_up m _ sys = sys

abbrev pub claiming : ℕ → ℕ → ℕ → Phase → System → System
claiming m source target entered sys =
    claimed m (try_acquire_resource (source ∷ target ∷ []) sys.locks) sys
claiming m source target _ sys = sys

abbrev pub finishing : ℕ → Phase → System → System
finishing m (holding l) sys = withdraw m (record sys { locks = release_resource_locks l sys.locks })
finishing m _ sys = sys

-- An event of a run that is not at that point does nothing.
unfoldable pub event : Event → System → System
event (enter m) sys = entering m (try_acquire m sys.running) sys
event (give_up m) sys = giving_up m (sys.phase m) sys
event (claim m source target) sys = claiming m source target (sys.phase m) sys
event (finish m) sys = finishing m (sys.phase m) sys

unfoldable pub events : List Event → System → System
unfolding event
events [] sys = sys
events (e ∷ rest) sys = events rest (event e sys)

unfoldable pub new_system : System
new_system = record { running = λ _. false; locks = λ _. 0; phase = λ _. idle }

abbrev pub held : Phase → List ℕ
held (holding l) = l
held _ = []

abbrev pub is_idle : Phase → Bool
is_idle idle = true
is_idle _ = false
