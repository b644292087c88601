-- ===== src/Pipeline/Uncommitted.antt =====
-- A run of Execute (internal/mod/migration/pipeline.go) from a state that has no legal transition to
-- Committed does not leave the migration committed.
use meshium.Prelude.{false, ◌≡◌, ◌≢◌}
use text.Mathlib.Text.{◌==◌ as str_eq}
use meshium.Pipeline.{World}
use meshium.Pipeline.Run
use meshium.Pipeline.Keeps.{Keeps}

-- The column of the state is set, and not to the name of Committed.
pub record Uncommitted (w : World) : Type 0 where
  pub state_text : w.state ≢ "completed"
  pub state_set : str_eq w.state "" ≡ false
