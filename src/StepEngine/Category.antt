-- ===== src/StepEngine/Category.antt =====
-- The category modules as steps of the engine: CategoryStepAdapter (internal/mod/migration/step.go),
-- the registry (categories.go) and BuildStepsFromCategories (engine.go). The JSON of a backup and of
-- collected data is a parameter.
use meshium.Prelude.{Bool, ◌&&◌, not, List, [], ◌∷◌, if◌then◌else◌, String, Option, none, some}
use text.Mathlib.Text.{◌==◌ as str_eq}
use meshium.Pipeline.Repo.{UndoResult, undo_error}
use meshium.StepEngine.{StepContext, MigrationStep}

-- An applier works on a target of type `T`, with backups `B` and collected data `D`.
pub record Applier (T B D : Type 0) : Type 0 where
  pub backup : T → Option B × T
  pub apply : D → T → Bool × T
  pub roll_back : B → T → UndoResult × T

-- CategoryRegistry: the modules by name.
abbrev pub CategoryRegistry : Type 0 → Type 0 → Type 0 → Type 0
CategoryRegistry T B D = List (String × Applier T B D)

-- A row of migration_steps, less the columns that are not read here.
pub record StepRecord : Type 0 where
  pub category : String
  pub action : String
  pub status : String
  pub data_text : String

-- What BuildStepsFromCategories returns.
pub data Built (T : Type 0) : Type 0 where
  steps : List (MigrationStep T) → Built T
  unknown_category no_collected_data : String → Built T

module _ {T B D : Type 0} where
  unfoldable pub register : String → Applier T B D → CategoryRegistry T B D → CategoryRegistry T B D
  register name a [] = (name, a) ∷ []
  register name a ((key, b) ∷ rest) =
      if str_eq key name then (name, a) ∷ rest else (key, b) ∷ register name a rest

  unfoldable pub get : String → CategoryRegistry T B D → Option (Applier T B D)
  get name [] = none
  get name ((key, a) ∷ rest) = if str_eq key name then some a else get name rest

abbrev pub marshalled : {B : Type 0} → (B → Option String) → Option B → Option String
marshalled marshal none = none
marshalled marshal (some b) = marshal b

module _ {T B D : Type 0} (marshal : B → Option String) (unmarshal : String → Option B) where
  -- The apply itself, once there is a backup and its text.
  unfoldable pub apply_data : Applier T B D → D → T → Option String → Option String × T
  apply_data a collected t none = (none, t)
  apply_data a collected t (some text) =
      let (done, t') = a.apply collected t in if done then (some text, t') else (none, t')

  -- CategoryStepAdapter.Apply: no apply without a backup. The connection of the target is there, as the
  -- engine has connected before its first step.
  unfoldable pub adapter_apply : Applier T B D → D → StepContext → T → Option String × T
  unfolding apply_data
  adapter_apply a collected c t =
      let (b, t') = a.backup t in apply_data a collected t' (marshalled marshal b)

  abbrev pub roll_back_with : Applier T B D → Option B → T → UndoResult × T
  roll_back_with a none t = (undo_error, t)
  roll_back_with a (some b) t = a.roll_back b t

  -- CategoryStepAdapter.Rollback: no rollback without the data of the apply.
  unfoldable pub adapter_roll_back : Applier T B D → StepContext → T → UndoResult × T
  adapter_roll_back a c t =
      if str_eq c.apply_data ""
      then (undo_error, t)
      else roll_back_with a (unmarshal c.apply_data) t

  -- NewCategoryStepAdapter, with the Prepare and Verify of BaseStep.
  unfoldable pub category_step : String → Applier T B D → D → MigrationStep T
  unfolding adapter_apply adapter_roll_back
  category_step category a collected = record {
    name = category;
    prepare = λ c t. (some "", t);
    apply = adapter_apply a collected;
    verify = λ c t. (some "", t);
    roll_back = adapter_roll_back a;
  }

module _ {D : Type 0} (parse : String → Option D) where
  abbrev pub or_else : Option D → Option D → Option D
  or_else none o = o
  or_else (some d) o = some d

  -- The data of a category: those of the last completed collection that can be parsed.
  unfoldable pub collected_data : String → List StepRecord → Option D
  collected_data category [] = none
  collected_data category (r ∷ rest) = or_else (collected_data category rest) (
      if str_eq r.action "collect"
        && (str_eq r.status "completed"
            && (not (str_eq r.data_text "") && str_eq r.category category))
      then parse r.data_text
      else none)

module _ {T B D : Type 0} (marshal : B → Option String) (unmarshal : String → Option B)
    (parse : String → Option D) where
  abbrev pub cons_step : MigrationStep T → Built T → Built T
  cons_step step (steps l) = steps (step ∷ l)
  cons_step step other = other

  -- The step of one category before the others, or the error of the first that has none.
  abbrev pub add_step : String → Option (Applier T B D) → Option D → Built T → Built T
  add_step category none o rest = unknown_category category
  add_step category (some a) none rest = no_collected_data category
  add_step category (some a) (some d) rest =
      cons_step (category_step marshal unmarshal category a d) rest

  unfoldable pub build_steps : CategoryRegistry T B D → List StepRecord → List String → Built T
  unfolding get collected_data category_step
  build_steps registry records [] = steps []
  build_steps registry records (category ∷ rest) =
      add_step category (get category registry) (collected_data parse category records)
        (build_steps registry records rest)
