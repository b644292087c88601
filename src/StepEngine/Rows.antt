-- ===== src/StepEngine/Rows.antt =====
-- What the statements of job.go on migration_job_steps do to the apply data of each step.
use meshium.Prelude.{
  ℕ, ◌+◌, ◌<◌, ◌≡◌, refl, false, List, [], ◌∷◌, if◌then◌else◌, String, Option, none, some, ◌==◌,
  All, arith, Bool-cases, inl, inr,
}
use text.Mathlib.Text.{◌==◌ as str_eq}
use meshium.StepEngine.{StepState, JobStep}
use meshium.StepEngine.Repo.{
  Phase, preparation, application, verification, insert_step, has_step, update_step, set_data,
  step_at,
}

-- The ids of the rows count up with the indices.
abbrev pub IsNumbered : ℕ → List JobStep → Type 0
IsNumbered base = All (λ row. row.id ≡ base + row.step_index)

abbrev pub data_of : Option JobStep → Option String
data_of none = none
data_of (some row) = some row.apply_data

-- The apply data of the step at an index, where it has a row.
unfoldable pub data_at : ℕ → List JobStep → Option String
unfolding step_at
data_at i rows = data_of (step_at i rows)

pub data_at-update_step :
    (i : ℕ) (s : StepState) (id : ℕ) (rows : List JobStep)
    → data_at i (update_step s id rows) ≡ data_at i rows
unfolding data_at update_step
data_at-update_step i s id [] = refl
data_at-update_step i s id (row ∷ rest) = ground (arith, data_at-update_step i s id rest)

pub update_step-IsNumbered :
    (base : ℕ) (s : StepState) (id : ℕ) (rows : List JobStep)
    → IsNumbered base rows
    → IsNumbered base (update_step s id rows)
unfolding update_step
update_step-IsNumbered base s id [] a = a
update_step-IsNumbered base s id (row ∷ rest) (h, a) =
    (ground arith, update_step-IsNumbered base s id rest a)

pub set_data-IsNumbered :
    (base : ℕ) (phase : Phase) (text : String) (id : ℕ) (rows : List JobStep)
    → IsNumbered base rows
    → IsNumbered base (set_data phase text id rows)
unfolding set_data
set_data-IsNumbered base phase text id [] a = a
set_data-IsNumbered base preparation text id (row ∷ rest) (h, a) =
    (ground arith, set_data-IsNumbered base preparation text id rest a)
set_data-IsNumbered base application text id (row ∷ rest) (h, a) =
    (ground arith, set_data-IsNumbered base application text id rest a)
set_data-IsNumbered base verification text id (row ∷ rest) (h, a) =
    (ground arith, set_data-IsNumbered base verification text id rest a)

pub data_at-set_data_prepare :
    (i : ℕ) (text : String) (id : ℕ) (rows : List JobStep)
    → data_at i (set_data preparation text id rows) ≡ data_at i rows
unfolding data_at set_data
data_at-set_data_prepare i text id [] = refl
data_at-set_data_prepare i text id (row ∷ rest) =
    ground (arith, data_at-set_data_prepare i text id rest)

pub data_at-set_data_verify :
    (i : ℕ) (text : String) (id : ℕ) (rows : List JobStep)
    → data_at i (set_data verification text id rows) ≡ data_at i rows
unfolding data_at set_data
data_at-set_data_verify i text id [] = refl
data_at-set_data_verify i text id (row ∷ rest) =
    ground (arith, data_at-set_data_verify i text id rest)

-- The apply data of the other steps stay.
pub data_at-set_data_other :
    (base i k : ℕ) (text : String) (rows : List JobStep)
    → IsNumbered base rows
    → i < k
    → data_at i (set_data application text (base + k) rows) ≡ data_at i rows
unfolding data_at set_data
data_at-set_data_other base i k text [] a h = refl
data_at-set_data_other base i k text (row ∷ rest) (e, a) h =
    ground (arith, data_at-set_data_other base i k text rest a h)

pub data_at-set_data_later :
    (base i k : ℕ) (text : String) (rows : List JobStep)
    → IsNumbered base rows
    → k < i
    → data_at i (set_data application text (base + k) rows) ≡ data_at i rows
unfolding data_at set_data
data_at-set_data_later base i k text [] a h = refl
data_at-set_data_later base i k text (row ∷ rest) (e, a) h =
    ground (arith, data_at-set_data_later base i k text rest a h)

-- The row of a step is given its apply data.
pub data_at-set_data :
    (base k : ℕ) (old text : String) (rows : List JobStep)
    → IsNumbered base rows
    → data_at k rows ≡ some old
    → data_at k (set_data application text (base + k) rows) ≡ some text
unfolding data_at set_data
data_at-set_data base k old text [] a h = ground arith
data_at-set_data base k old text (row ∷ rest) (e, a) h =
    ground (arith, data_at-set_data base k old text rest a)

-- A step that has no row gets one at the end, without data.
pub data_at-insert_step :
    (i id : ℕ) (name : String) (k : ℕ) (rows : List JobStep)
    → has_step name rows ≡ false
    → data_at k rows ≡ none
    → data_at i (insert_step id name k rows) ≡ (if i == k then some "" else data_at i rows)
unfolding data_at insert_step has_step
data_at-insert_step i id name k [] h n = ground arith
data_at-insert_step i id name k (row ∷ rest) h n =
    ground (arith, data_at-insert_step i id name k rest)

pub insert_step-IsNumbered :
    (base : ℕ) (name : String) (k : ℕ) (rows : List JobStep)
    → has_step name rows ≡ false
    → IsNumbered base rows
    → IsNumbered base (insert_step (base + k) name k rows)
unfolding insert_step has_step
insert_step-IsNumbered base name k [] h a = (refl, tt)
insert_step-IsNumbered base name k (row ∷ rest) h (e, a) =
    elim (Bool-cases (str_eq row.step_name name)) [
      | inl same ↦ ground arith
      | inr other ↦ rw other (e, insert_step-IsNumbered base name k rest (ground arith) a)
    ]

pub has_step-insert_step :
    (other : String) (id : ℕ) (name : String) (k : ℕ) (rows : List JobStep)
    → has_step other rows ≡ false
    → str_eq name other ≡ false
    → has_step other (insert_step id name k rows) ≡ false
unfolding insert_step has_step
has_step-insert_step other id name k [] h n = ground arith
has_step-insert_step other id name k (row ∷ rest) h n =
    ground (arith, has_step-insert_step other id name k rest)
