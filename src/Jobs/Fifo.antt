-- ===== src/Jobs/Fifo.antt =====
-- The rows of the queue in SQLite (internal/jobengine/queue.go) as a list of jobs.
use meshium.Prelude.{
  str_eq_sym, ℕ, suc, ◌≤◌, ◌<◌, ◌≡◌, refl, sym, ap, subst, subst₂, Bool, true, false, ◌||◌,
  if◌then◌else◌, Option, none, some, String, List, [], ◌∷◌, ◌++◌, length, ◌⊎◌, inl, inr, Bool-cases,
  arith,
}
use text.Mathlib.Text.{◌==◌ as str_eq}
use text.Mathlib.TextEquality.{eq_iff}
use meshium.Jobs.{Job, JobJson}
use meshium.Jobs.Queue.{
  larger, QueueError, QueueRow, max_position, front, has_row, delete_row, next_position,
  memory_remove, not_in_queue,
}

abbrev pub IsBelow : ℕ → List QueueRow → Type 0
IsBelow p [] = Unit
IsBelow p (r ∷ rest) = (p < r.position) × IsBelow p rest

-- The rows are those of the jobs, each decoded from its text, by rising positions and without an id
-- twice.
abbrev pub IsQueueOf : JobJson → List QueueRow → List Job → Type 0
IsQueueOf json [] [] = Unit
IsQueueOf json [] (job ∷ jobs) = ⊥
IsQueueOf json (r ∷ rows) [] = ⊥
IsQueueOf json (r ∷ rows) (job ∷ jobs) =
    (json.unmarshal r.job ≡ some job)
    × (r.id ≡ job.id)
    × IsBelow r.position rows
    × (has_row r.id rows ≡ false)
    × IsQueueOf json rows jobs

abbrev pub has_job : String → List Job → Bool
has_job id [] = false
has_job id (job ∷ jobs) = str_eq job.id id || has_job id jobs

module _ (json : JobJson) where
  pub has_row-has_job :
      (id : String) (rows : List QueueRow) (jobs : List Job)
      → IsQueueOf json rows jobs
      → has_row id rows ≡ has_job id jobs
  has_row-has_job id [] [] h = refl
  has_row-has_job id [] (job ∷ jobs) h = absurd h
  has_row-has_job id (r ∷ rows) [] h = absurd h
  has_row-has_job id (r ∷ rows) (job ∷ jobs) (text, same, below, once, rest) =
      subst₂ (λ i b. str_eq r.id id || has_row id rows ≡ str_eq i id || b) same
        (has_row-has_job id rows jobs rest) refl

  pub length-rows :
      (rows : List QueueRow) (jobs : List Job)
      → IsQueueOf json rows jobs
      → length rows ≡ length jobs
  length-rows [] [] h = refl
  length-rows [] (job ∷ jobs) h = absurd h
  length-rows (r ∷ rows) [] h = absurd h
  length-rows (r ∷ rows) (job ∷ jobs) (text, same, below, once, rest) =
      ap suc (length-rows rows jobs rest)

pub delete-absent :
    (id : String) (rows : List QueueRow) → has_row id rows ≡ false → delete_row id rows ≡ rows
delete-absent id [] h = refl
delete-absent id (r ∷ rows) h = ground (arith, delete-absent id rows, h)

delete-IsBelow :
    (id : String) (p : ℕ) (rows : List QueueRow) → IsBelow p rows → IsBelow p (delete_row id rows)
delete-IsBelow id p [] h = tt
delete-IsBelow id p (r ∷ rows) (first, rest) =
    let ih = delete-IsBelow id p rows rest in
    elim (Bool-cases (str_eq r.id id)) [
      | inl e ↦
          subst (λ b. IsBelow p (if b then delete_row id rows else r ∷ delete_row id rows)) (sym e)
            ih
      | inr e ↦
          subst (λ b. IsBelow p (if b then delete_row id rows else r ∷ delete_row id rows)) (sym e)
            (first, ih)
    ]

has_row-delete :
    (i id : String) (rows : List QueueRow)
    → has_row i rows ≡ false
    → has_row i (delete_row id rows) ≡ false
has_row-delete i id [] h = refl
has_row-delete i id (r ∷ rows) h = ground (arith, has_row-delete i id rows, h)

pub front-IsQueueOf :
    (json : JobJson) (r : QueueRow) (rows : List QueueRow) (jobs : List Job)
    → IsQueueOf json (r ∷ rows) jobs
    → front (r ∷ rows) ≡ some r
front-IsQueueOf json r rows [] h = absurd h
front-IsQueueOf json r [] (job ∷ jobs) h = refl
front-IsQueueOf json r (s ∷ rows) (job ∷ jobs) (text, same, (first, below), once, rest) =
    let ih = front-IsQueueOf json s rows jobs rest in ground (arith, ih, first)

-- Every position is below `p`.
abbrev pub IsUnder : ℕ → List QueueRow → Type 0
IsUnder p [] = Unit
IsUnder p (r ∷ rest) = (r.position < p) × IsUnder p rest

IsUnder-weaken : (p q : ℕ) (rows : List QueueRow) → p ≤ q → IsUnder p rows → IsUnder q rows
IsUnder-weaken p q [] le h = tt
IsUnder-weaken p q (r ∷ rows) le (first, rest) =
    (omega (arith, first, le), IsUnder-weaken p q rows le rest)

next_larger :
    (p : ℕ) (m : Option ℕ)
    → (p < next_position (some (larger p m)))
      × (next_position m ≤ next_position (some (larger p m)))
next_larger p none = (omega arith, omega arith)
next_larger p (some q) = (ground arith, ground arith)

pub next_position-IsUnder :
    (rows : List QueueRow) → IsUnder (next_position (max_position rows)) rows
next_position-IsUnder [] = tt
next_position-IsUnder (r ∷ rows) =
    let (here, grown) = next_larger r.position (max_position rows) in
    (
      here,
      IsUnder-weaken (next_position (max_position rows)) (next_position (max_position (r ∷ rows)))
          rows grown (next_position-IsUnder rows),
    )

IsBelow-snoc :
    (p : ℕ) (rows : List QueueRow) (s : QueueRow)
    → IsBelow p rows
    → p < s.position
    → IsBelow p (rows ++ s ∷ [])
IsBelow-snoc p [] s h less = (less, tt)
IsBelow-snoc p (r ∷ rows) s (first, rest) less = (first, IsBelow-snoc p rows s rest less)

has_row-append :
    (id : String) (xs ys : List QueueRow) → has_row id (xs ++ ys) ≡ (has_row id xs || has_row id ys)
has_row-append id [] ys = refl
has_row-append id (x ∷ xs) ys = ground (arith, has_row-append id xs ys)

-- A row with the next position and a new id is the row of a job at the back.
pub snoc-IsQueueOf :
    (json : JobJson) (rows : List QueueRow) (jobs : List Job) (s : QueueRow) (job : Job)
    → IsQueueOf json rows jobs
    → json.unmarshal s.job ≡ some job
    → s.id ≡ job.id
    → IsUnder s.position rows
    → has_row s.id rows ≡ false
    → IsQueueOf json (rows ++ s ∷ []) (jobs ++ job ∷ [])
snoc-IsQueueOf json [] [] s job h text same under new = (text, same, tt, refl, tt)
snoc-IsQueueOf json [] (j ∷ jobs) s job h text same under new = absurd h
snoc-IsQueueOf json (r ∷ rows) [] s job h text same under new = absurd h
snoc-IsQueueOf json (r ∷ rows) (j ∷ jobs) s job (text', same', below, once, rest) text same
      (first, under) new =
    (
      text',
      same',
      IsBelow-snoc r.position rows s below first,
      ground (arith, new, once, str_eq_sym r.id s.id, has_row-append r.id rows (s ∷ [])),
      snoc-IsQueueOf json rows jobs s job rest text same under (ground (arith, new)),
    )

-- What is left of the rows and of the jobs, by whether the first row and the first job are removed.
abbrev IsRemoval :
    JobJson → String → QueueRow → List QueueRow → Job → List Job → Bool → Bool → Type 0
unfolding memory_remove
IsRemoval json id r rows j jobs b c =
    let rest = memory_remove id jobs in
    let after : (QueueError ⊎ Unit {0}) × List Job =
      if c then (inr tt, jobs) else (rest.0, j ∷ rest.1) in
    (after.0 ≡ (if b || has_row id rows then inr tt else inl not_in_queue))
    × IsQueueOf json (if b then delete_row id rows else r ∷ delete_row id rows) after.1

pub delete_IsQueueOf :
    (json : JobJson) (id : String) (rows : List QueueRow) (jobs : List Job)
    → IsQueueOf json rows jobs
    → ((memory_remove id jobs).0 ≡ (if has_row id rows then inr tt else inl not_in_queue))
      × IsQueueOf json (delete_row id rows) (memory_remove id jobs).1
unfolding memory_remove
delete_IsQueueOf json id [] [] h = (refl, tt)
delete_IsQueueOf json id [] (j ∷ jobs) h = absurd h
delete_IsQueueOf json id (r ∷ rows) [] h = absurd h
delete_IsQueueOf json id (r ∷ rows) (j ∷ jobs) (text, same, below, once, rest) =
    let (reply, kept) = delete_IsQueueOf json id rows jobs rest in
    elim (Bool-cases (str_eq r.id id)) [
      | inl e ↦
          let e' = subst (λ i. str_eq i id ≡ true) same e in
          let gone =
            delete-absent id rows
              (subst (λ i. has_row i rows ≡ false) ((eq_iff r.id id).0 e) once) in
          subst₂ (IsRemoval json id r rows j jobs) (sym e) (sym e')
            (refl, subst (λ l. IsQueueOf json l jobs) (sym gone) rest)
      | inr e ↦
          let e' = subst (λ i. str_eq i id ≡ false) same e in
          subst₂ (IsRemoval json id r rows j jobs) (sym e) (sym e') (
            reply,
            (
              text,
              same,
              delete-IsBelow id r.position rows below,
              has_row-delete r.id id rows once,
              kept,
            ),
          )
    ]
