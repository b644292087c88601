-- ===== src/StepEngine/Categories.antt =====
-- A run of categories: the steps that BuildStepsFromCategories makes (internal/mod/migration/step.go,
-- engine.go) in the hands of Run.
use meshium.Prelude.{
  ◌≡◌, ◌≢◌, refl, sym, ◌∙◌, ap, subst, true, false, List, [], ◌∷◌, String, Option, none, some, All,
  arith, inl, inr, Bool-cases,
}
use text.Mathlib.Text.{◌==◌ as str_eq}
use text.Mathlib.TextEquality.{eq_iff}
use meshium.State.{created}
use meshium.Pipeline.Repo.{undone}
use meshium.StepEngine.{StepContext, MigrationStep, World, Env}
use meshium.StepEngine.Repo.{current_state}
use meshium.StepEngine.Run.{run}
use meshium.StepEngine.Undo.{calm, IsReversible}
use meshium.StepEngine.Whole.{IsAtomic, run-IsAtomic}
use meshium.StepEngine.Made.{AreDistinct}
use meshium.StepEngine.Category.{
  Applier, CategoryRegistry, StepRecord, Built, steps, unknown_category, no_collected_data, get,
  apply_data, marshalled, adapter_apply, adapter_roll_back, category_step, collected_data, add_step,
  build_steps,
}

-- The law of an applier under which its step can be undone, which the appliers of the program do not all
-- keep, since an apply may fail after some of its writes: a backup changes nothing, an apply that fails
-- has changed nothing, and a rollback with the backup undoes the apply.
pub record IsLawful {T B D : Type 0} (a : Applier T B D) : Type 0 where
  pub backs_up : (t : T) → (a.backup t).1 ≡ t
  pub refuses : (d : D) (t : T) → (a.apply d t).0 ≡ false → (a.apply d t).1 ≡ t
  pub undoes :
      (d : D) (b : B) (t : T)
      → (a.backup t).0 ≡ some b
      → (a.apply d t).0 ≡ true
      → a.roll_back b (a.apply d t).1 ≡ (undone, t)

-- A backup is read as it was written, and its text is not empty.
pub record IsCodec {B : Type 0} (marshal : B → Option String) (unmarshal : String → Option B)
    : Type 0 where
  pub reads : (b : B) (text : String) → marshal b ≡ some text → unmarshal text ≡ some b
  pub not_empty : (b : B) → marshal b ≢ some ""

marshalled-some :
    {B : Type 0} (marshal : B → Option String) (o : Option B) (text : String)
    → marshalled marshal o ≡ some text
    → (b : B) × (o ≡ some b) × (marshal b ≡ some text)
marshalled-some marshal none text h = ground arith
marshalled-some marshal (some b) text h = (b, refl, h)

module _ {T B D : Type 0} (marshal : B → Option String) (unmarshal : String → Option B) where
  apply_data-none :
      (a : Applier T B D) (d : D) (t : T) (o : Option String)
      → IsLawful a
      → (apply_data marshal unmarshal a d t o).0 ≡ none
      → (apply_data marshal unmarshal a d t o).1 ≡ t
  unfolding apply_data
  apply_data-none a d t none l h = refl
  apply_data-none a d t (some text) l h = elim (Bool-cases (a.apply d t).0) [
    | inl done ↦ ground (arith, done)
    | inr broken ↦ rw broken (l.refuses d t broken)
  ]

  apply_data-some :
      (a : Applier T B D) (d : D) (t : T) (o : Option String) (text : String)
      → (apply_data marshal unmarshal a d t o).0 ≡ some text
      → (o ≡ some text)
        × ((a.apply d t).0 ≡ true)
        × ((apply_data marshal unmarshal a d t o).1 ≡ (a.apply d t).1)
  unfolding apply_data
  apply_data-some a d t none text h = ground arith
  apply_data-some a d t (some other) text h = ground (arith, Bool-cases (a.apply d t).0)

  adapter_roll_back-backup :
      (a : Applier T B D) (c : StepContext) (b : B) (text : String) (t : T)
      → IsCodec marshal unmarshal
      → marshal b ≡ some text
      → c.apply_data ≡ text
      → adapter_roll_back marshal unmarshal a c t ≡ a.roll_back b t
  unfolding adapter_roll_back
  adapter_roll_back-backup a c b text t codec m e = elim (Bool-cases (str_eq c.apply_data "")) [
    | inl empty ↦
        elim (codec.not_empty b (m ∙ ap some (sym e ∙ (eq_iff c.apply_data "").0 empty))) [ ]
    | inr full ↦ rw (full, ap unmarshal e ∙ codec.reads b text m) refl
  ]

  -- The adapter of a lawful applier is a step that can be undone.
  pub category_step-IsReversible :
      (category : String) (a : Applier T B D) (d : D)
      → IsCodec marshal unmarshal
      → IsLawful a
      → IsReversible (category_step marshal unmarshal category a d)
  unfolding category_step adapter_apply
  category_step-IsReversible category a d codec l = record {
    prepares = λ c t. refl;
    verifies = λ c t. refl;
    refuses = λ c t h.
        apply_data-none a d (a.backup t).1 (marshalled marshal (a.backup t).0) l h ∙ l.backs_up t;
    undoes = λ c c' t text h e.
        let (m, done, x) =
          apply_data-some a d (a.backup t).1 (marshalled marshal (a.backup t).0) text h in
        let (b, saved, written) = marshalled-some marshal (a.backup t).0 text m in
        adapter_roll_back-backup a c' b text _ codec written e
        ∙ ap (a.roll_back b) (x ∙ ap (λ y. (a.apply d y).1) (l.backs_up t))
        ∙ l.undoes d b t saved (ap (λ y. (a.apply d y).0) (sym (l.backs_up t)) ∙ done);
  }

abbrev names_of : {T : Type 0} → List (MigrationStep T) → List String
names_of [] = []
names_of (step ∷ rest) = step.name ∷ names_of rest

-- No two texts of a list are the same.
abbrev pub AreDifferent : List String → Type 0
AreDifferent [] = Unit
AreDifferent (text ∷ rest) = All (λ other. str_eq text other ≡ false) rest × AreDifferent rest

-- The steps are made in the order of the categories, and each can be undone.
abbrev pub AreSteps : {T : Type 0} → List String → Built T → Type 0
AreSteps categories (steps l) = All IsReversible l × (names_of l ≡ categories)
AreSteps categories _ = Unit

others_differ :
    {T : Type 0} (name : String) (l : List (MigrationStep T)) (names : List String)
    → names_of l ≡ names
    → All (λ other. str_eq name other ≡ false) names
    → All (λ step. str_eq name step.name ≡ false) l
others_differ name l names e a = go l (subst (All (λ other. str_eq name other ≡ false)) (sym e) a)
  where
    go :
        {T : Type 0} (l : List (MigrationStep T))
        → All (λ other. str_eq name other ≡ false) (names_of l)
        → All (λ step. str_eq name step.name ≡ false) l
    go [] a = tt
    go (step ∷ rest) (h, a) = (h, go rest a)

names_differ : {T : Type 0} (l : List (MigrationStep T)) → AreDifferent (names_of l) → AreDistinct l
names_differ [] d = tt
names_differ (step ∷ rest) (h, d) =
    (others_differ step.name rest (names_of rest) refl h, names_differ rest d)

module _ {T B D : Type 0} (marshal : B → Option String) (unmarshal : String → Option B)
    (parse : String → Option D) where
  get-IsLawful :
      (name : String) (registry : CategoryRegistry T B D) (a : Applier T B D)
      → All (λ entry. IsLawful entry.1) registry
      → get name registry ≡ some a
      → IsLawful a
  unfolding get
  get-IsLawful name [] a l h = ground arith
  get-IsLawful name ((key, b) ∷ rest) a (lb, l) h = elim (Bool-cases (str_eq key name)) [
    | inl here ↦ subst IsLawful (ground (arith, here, h)) lb
    | inr there ↦ get-IsLawful name rest a l (ground (arith, there, h))
  ]

  add_step-AreSteps :
      (category : String) (a : Option (Applier T B D)) (d : Option D) (categories : List String)
      (rest : Built T)
      → IsCodec marshal unmarshal
      → ((b : Applier T B D) → a ≡ some b → IsLawful b)
      → AreSteps categories rest
      → AreSteps (category ∷ categories) (add_step marshal unmarshal parse category a d rest)
  unfolding category_step
  add_step-AreSteps category none d categories rest codec l h = tt
  add_step-AreSteps category (some a) none categories rest codec l h = tt
  add_step-AreSteps category (some a) (some d) categories (steps x) codec l (r, e) = (
    (category_step-IsReversible marshal unmarshal category a d codec (l a refl), r),
    ap (λ names. category ∷ names) e,
  )
  add_step-AreSteps category (some a) (some d) categories (unknown_category c) codec l h = tt
  add_step-AreSteps category (some a) (some d) categories (no_collected_data c) codec l h = tt

  build_steps-AreSteps :
      (registry : CategoryRegistry T B D) (records : List StepRecord) (categories : List String)
      → IsCodec marshal unmarshal
      → All (λ entry. IsLawful entry.1) registry
      → AreSteps categories (build_steps marshal unmarshal parse registry records categories)
  unfolding build_steps
  build_steps-AreSteps registry records [] codec l = (tt, refl)
  build_steps-AreSteps registry records (category ∷ rest) codec l =
      add_step-AreSteps category (get category registry) (collected_data parse category records)
        rest (build_steps marshal unmarshal parse registry records rest) codec
        (λ b e. get-IsLawful category registry b l e)
        (build_steps-AreSteps registry records rest codec l)

  -- A run of categories is atomic: of different categories with lawful appliers in the registry, whose
  -- backups are read back as they were written, the steps that BuildStepsFromCategories makes are run
  -- to the commit with every step applied, or to an error with the target as it was before. The
  -- migration has no step rows and is in Created, and database, connections and context never fail.
  run_categories-IsAtomic :
      (registry : CategoryRegistry T B D) (records : List StepRecord) (categories : List String)
      (l : List (MigrationStep T)) (env : Env) (w : World T)
      → IsCodec marshal unmarshal
      → All (λ entry. IsLawful entry.1) registry
      → AreDifferent categories
      → build_steps marshal unmarshal parse registry records categories ≡ steps l
      → w.rows ≡ []
      → (current_state (calm env) w).0 ≡ created
      → IsAtomic env l w.target (run (calm env) l w)
  run_categories-IsAtomic registry records categories l env w codec lawful d e empty at =
      let (r, names) =
        subst (AreSteps categories) e
          (build_steps-AreSteps registry records categories codec lawful) in
      run-IsAtomic env l w r (names_differ l (subst AreDifferent (sym names) d)) empty at
