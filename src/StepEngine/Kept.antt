-- ===== src/StepEngine/Kept.antt =====
-- What a rollback in internal/mod/migration/engine.go leaves of the rows of the steps.
use meshium.Prelude.{ℕ, ◌≡◌, refl, ◌∙◌, List, [], ◌∷◌, String, arith, Bool-cases, inl, inr}
use meshium.State.{MigrationState, failed, rollback, needs_manual_intervention}
use meshium.State.Machine.{is_valid_transition, transition}
use meshium.Pipeline.Run.{RollbackError, no_error, rollback_terminal_state, transition_or_force}
use meshium.StepEngine.{JobStep, World, Job, Local, Result, ok, err, Env}
use meshium.StepEngine.Repo.{
  step_at, insert_step, tick, call, call_context, set_state, put_state, get_step, create_checkpoint,
  clear_checkpoint, current_state,
}
use meshium.StepEngine.Run.{load, start}
use meshium.StepEngine.Rollback.{
  data_or_empty, fail_migration, undo_step, undo_steps, finish_rollback, roll_back, if_any,
  fail_and_rollback,
}
use meshium.StepEngine.Loop.{Holds}

-- The apply data that a rollback of the step at an index is given.
unfoldable pub stored : ℕ → List JobStep → String
stored i rows = data_or_empty (step_at i rows)

pub stored-insert_step :
    (i id : ℕ) (name : String) (k : ℕ) (rows : List JobStep)
    → stored i (insert_step id name k rows) ≡ stored i rows
unfolding stored insert_step step_at
stored-insert_step i id name k [] = ground arith
stored-insert_step i id name k (row ∷ rest) = ground (arith, stored-insert_step i id name k rest)

module _ {T : Type 0} (env : Env) where
  pub rows-set_state : (s : MigrationState) (w : World T) → (set_state env s w).1.rows ≡ w.rows
  unfolding set_state call_context put_state tick
  rows-set_state s w = ground arith

  pub rows-clear_checkpoint :
      (name : String) (w : World T) → (clear_checkpoint env name w).rows ≡ w.rows
  unfolding clear_checkpoint call tick
  rows-clear_checkpoint name w = ground arith

  pub rows-create_checkpoint :
      (name : String) (i : ℕ) (text : String) (w : World T)
      → (create_checkpoint env name i text w).rows ≡ w.rows
  unfolding create_checkpoint call_context tick
  rows-create_checkpoint name i text w = ground arith

  pub rows-undo_steps :
      (jobs : List (Job T)) (e : RollbackError) (w : World T)
      → (undo_steps env jobs e w).1.rows ≡ w.rows
  unfolding undo_steps undo_step get_step tick
  rows-undo_steps [] e w = refl
  rows-undo_steps (job ∷ rest) e w =
      rows-undo_steps rest _ _ ∙ rows-clear_checkpoint job.step.name _

  pub rows-finish_rollback :
      (e : RollbackError) (l : Local T) → (finish_rollback env e l).world.rows ≡ l.world.rows
  unfolding finish_rollback transition
  rows-finish_rollback e l =
      elim (Bool-cases (is_valid_transition l.sm.state (rollback_terminal_state e))) [
        | inl valid ↦ rw valid (rows-set_state (rollback_terminal_state e) l.world)
        | inr refused ↦ rw refused (rows-set_state needs_manual_intervention l.world)
      ]

  pub rows-roll_back : (l : Local T) → (roll_back env l).world.rows ≡ l.world.rows
  unfolding roll_back
  rows-roll_back l =
      let w : World T = (set_state env rollback l.world).1 in
      let (e, w') = undo_steps env l.applied_steps no_error w in
      rows-finish_rollback e (record l { sm = transition_or_force l.sm rollback; world = w' })
      ∙ rows-undo_steps l.applied_steps no_error w
      ∙ rows-set_state rollback l.world

  pub rows-if_any :
      (jobs : List (Job T)) (l : Local T)
      → (if_any env jobs (roll_back env) (fail_migration env l)).world.rows ≡ l.world.rows
  unfolding fail_migration
  rows-if_any [] l = rows-set_state failed l.world
  rows-if_any (job ∷ rest) l = rows-roll_back (fail_migration env l) ∙ rows-set_state failed l.world

  pub rows-fail_and_rollback : (l : Local T) → (fail_and_rollback env l).world.rows ≡ l.world.rows
  unfolding fail_and_rollback
  rows-fail_and_rollback l = rows-if_any l.applied_steps l

pub ends_either :
    {T A : Type 0} (P : Local T → Type 0) (x : Result A × Local T) → P x.1 → Holds (λ _. P) P x
ends_either P (ok a, l) p = p
ends_either P (err e, l) p = p

pub keeps_anyway :
    {T A : Type 0} (P : Local T → Type 0) (x : Result A × Local T) → Holds (λ _. P) P x → P x.1
keeps_anyway P (ok a, l) p = p
keeps_anyway P (err e, l) p = p

pub rows-load :
    {T : Type 0} (env : Env) (s : MigrationState) (w : World T)
    → (load env (start env s w)).1.world.rows ≡ w.rows
unfolding load start tick current_state
rows-load env s w = elim (Bool-cases (env.fails w.calls)) [
  | inl lost ↦ rw lost refl
  | inr found ↦ rw found refl
]
