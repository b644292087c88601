-- ===== src/Samples/Steps.antt =====
-- The step engine (internal/mod/migration/engine.go, step.go), at concrete inputs: the target is one
-- flag, and a category sets it.
use meshium.Prelude.{
  ◌≡◌, refl, Bool, true, false, List, [], ◌∷◌, String, Option, none, some, if◌then◌else◌, arith,
  sym, ap, ◌∙◌, All,
}
use text.Mathlib.Text.{◌==◌ as str_eq}
use meshium.State.{created, rolled_back, committed}
use meshium.State.Machine.{state_from_string}
use meshium.Pipeline.Repo.{undone}
use meshium.StepEngine.{MigrationStep, World, Env}
use meshium.StepEngine.Repo.{current_state}
use meshium.StepEngine.Run.{run}
use meshium.StepEngine.Resume.{resume}
use meshium.StepEngine.Undo.{calm}
use meshium.StepEngine.Loop.{Holds}
use meshium.StepEngine.Whole.{IsAtomic, run-IsAtomic}
use meshium.StepEngine.Passed.{IsPassed}
use meshium.StepEngine.Verified.{IsCommitted, run-IsCommitted}
use meshium.StepEngine.Shown.{Any, all_verified}
use meshium.StepEngine.Stored.{stored-resume}
use meshium.StepEngine.Kept.{stored}
use meshium.StepEngine.Category.{
  Applier, CategoryRegistry, StepRecord, steps, category_step, build_steps,
}
use meshium.StepEngine.Categories.{IsLawful, IsCodec, category_step-IsReversible}

-- Collected data of `false` cannot be applied.
abbrev flag_applier : Applier Bool Bool Bool
flag_applier = record {
  backup = λ t. (some t, t);
  apply = λ d t. (d, if d then true else t);
  roll_back = λ b t. (undone, b);
}

abbrev to_text : Bool → Option String
to_text true = some "on"
to_text false = some "off"

abbrev from_text : String → Option Bool
from_text text =
    if str_eq text "on" then some true else if str_eq text "off" then some false else none

flag_applier-IsLawful : IsLawful flag_applier
flag_applier-IsLawful = record {
  backs_up = λ t. refl;
  refuses = λ d t h. ground (arith, h);
  undoes = λ d b t h done. ground (arith, h);
}

abbrev read : Option String → Option Bool
read none = none
read (some text) = from_text text

read-to_text : (b : Bool) → read (to_text b) ≡ some b
read-to_text true = refl
read-to_text false = refl

abbrev is_empty : Option String → Bool
is_empty none = false
is_empty (some text) = str_eq text ""

to_text_not_empty : (b : Bool) → is_empty (to_text b) ≡ false
to_text_not_empty true = refl
to_text_not_empty false = refl

text-IsCodec : IsCodec to_text from_text
text-IsCodec = record {
  reads = λ b text h. ap read (sym h) ∙ read-to_text b;
  not_empty = λ b h. cc (ap is_empty h, to_text_not_empty b);
}

-- Every call goes through.
abbrev quiet : Env
quiet = record {
  fails = λ _. false;
  cancelled_at = λ _. false;
  reported = λ _. 0;
  target_known = true;
  connects = true;
}

abbrev fresh : World Bool
fresh = record {
  target = false;
  state = "planned";
  status = "planned";
  rows = [];
  checkpoints = [];
  last_id = 6;
  calls = 0;
}

-- Two categories, of which the second cannot be applied.
abbrev registry : CategoryRegistry Bool Bool Bool
registry = ("packages", flag_applier) ∷ ("configs", flag_applier) ∷ []

abbrev record_of : String → String → StepRecord
record_of category text = record {
  category = category;
  action = "collect";
  status = "completed";
  data_text = text;
}

abbrev records : List StepRecord
records = record_of "packages" "on" ∷ record_of "configs" "off" ∷ []

abbrev step_of : String → Bool → MigrationStep Bool
step_of category d = category_step to_text from_text category flag_applier d

abbrev broken : List (MigrationStep Bool)
broken = step_of "packages" true ∷ step_of "configs" false ∷ []

-- The second step fails, the first is undone.
broken_test :
    ((run quiet broken fresh).1.sm.state ≡ rolled_back)
    × ((run quiet broken fresh).1.world.target ≡ false)
unfolding run category_step state_from_string
broken_test = (refl, refl)

-- Both steps go through.
abbrev working : List (MigrationStep Bool)
working = step_of "packages" true ∷ step_of "configs" true ∷ []

working_test :
    ((run quiet working fresh).1.sm.state ≡ committed)
    × ((run quiet working fresh).1.world.target ≡ true)
unfolding run category_step state_from_string
working_test = (refl, refl)

fresh_created : (current_state (calm quiet) fresh).0 ≡ created
unfolding current_state state_from_string
fresh_created = refl

broken_built :
    build_steps to_text from_text from_text registry records ("packages" ∷ "configs" ∷ [])
    ≡ steps broken
unfolding build_steps
broken_built = refl

run-IsAtomic_example : IsAtomic quiet working false (run (calm quiet) working fresh)
unfolding category_step
run-IsAtomic_example =
    run-IsAtomic quiet working fresh
      (
        category_step-IsReversible to_text from_text "packages" flag_applier true text-IsCodec
            flag_applier-IsLawful,
        (
          category_step-IsReversible to_text from_text "configs" flag_applier true text-IsCodec
              flag_applier-IsLawful,
          tt,
        ),
      )
      ((refl, tt), (tt, tt)) refl fresh_created

run-IsCommitted_example :
    Holds
      (λ _ l.
        (IsCommitted quiet (all_verified 0 working) l × (l.final_state ≡ committed))
        × All IsPassed working)
      (Any quiet)
      (run quiet working fresh)
run-IsCommitted_example = run-IsCommitted quiet working fresh

-- The first step was verified before the interruption; the second is applied by the resumed run.
abbrev interrupted_run : World Bool
interrupted_run = record fresh {
  target = true;
  state = "interrupted";
  status = "interrupted";
  checkpoints =
      record { step_name = "packages"; step_index = 0; verified = true; checkpoint_data = "" } ∷ [];
}

resumed_test : (resume quiet working interrupted_run).1.sm.state ≡ committed
unfolding resume category_step state_from_string
resumed_test = refl

stored-resume_example :
    stored 1 (resume quiet working interrupted_run).1.world.rows ≡ stored 1 interrupted_run.rows
stored-resume_example = stored-resume quiet working interrupted_run 1
