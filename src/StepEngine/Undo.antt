-- ===== src/StepEngine/Undo.antt =====
-- failAndRollback of internal/mod/migration/engine.go on steps whose rollback undoes them, with a
-- database and a context that let every call through.
use meshium.Prelude.{
  ◌≡◌, refl, sym, ◌∙◌, ap, subst, true, false, List, [], ◌∷◌, String, Option, none, some, ◌⊎◌, inl,
  inr, arith,
}
use meshium.State.{MigrationState, failed, rollback, rolled_back, state_string}
use meshium.State.Machine.{StateMachine, transition, force_transition, is_valid_transition}
use meshium.Pipeline.Repo.{undone}
use meshium.Pipeline.Run.{RollbackError, no_error, join, transition_or_force}
use meshium.StepEngine.{StepContext, JobStep, MigrationStep, World, Job, Local, Env}
use meshium.StepEngine.Repo.{
  step_at, get_step, tick, clear_checkpoint, call, call_context, set_state, put_state,
}
use meshium.StepEngine.Rollback.{
  data_or_empty, finish_rollback, undo_step, undo_steps, roll_back, if_any, fail_migration,
  fail_and_rollback,
}
use meshium.StepEngine.Rows.{data_of, data_at}

-- The same environment with every call let through.
abbrev pub calm : Env → Env
calm env = record env {
  fails = λ _. false;
  cancelled_at = λ _. false;
  target_known = true;
  connects = true;
}

-- The law that an atomic run needs of a step, which step.go leaves to the implementations: Prepare and
-- Verify change nothing, an Apply that fails has changed nothing, and Rollback, given the data of the
-- Apply, succeeds and undoes it.
pub record IsReversible {T : Type 0} (step : MigrationStep T) : Type 0 where
  pub prepares : (c : StepContext) (t : T) → (step.prepare c t).1 ≡ t
  pub verifies : (c : StepContext) (t : T) → (step.verify c t).1 ≡ t
  pub refuses : (c : StepContext) (t : T) → (step.apply c t).0 ≡ none → (step.apply c t).1 ≡ t
  pub undoes :
      (c c' : StepContext) (t : T) (text : String)
      → (step.apply c t).0 ≡ some text
      → c'.apply_data ≡ text
      → step.roll_back c' (step.apply c t).1 ≡ (undone, t)

-- The rollbacks of the jobs, each with its stored data, lead from the target `t` to `t0`.
module _ {T : Type 0} where
  abbrev pub Undoes : List JobStep → List (Job T) → T → T → Type 0
  Undoes rows [] t t0 = t ≡ t0
  Undoes rows (job ∷ rest) t t0 =
      (text : String) × (t' : T) × (data_at job.index rows ≡ some text)
      × ((c : StepContext) → c.apply_data ≡ text → job.step.roll_back c t ≡ (undone, t'))
      × Undoes rows rest t' t0

data_of-some :
    (row : Option JobStep) (text : String) → data_of row ≡ some text → data_or_empty row ≡ text
data_of-some none text e = ground arith
data_of-some (some row) text e = ground arith

transition_or_force_lands :
    (sm : StateMachine) (to : MigrationState) → (transition_or_force sm to).state ≡ to
unfolding transition_or_force transition force_transition
transition_or_force_lands sm to = ground arith

module _ {T : Type 0} (env : Env) where
  undo_step-eq :
      (job : Job T) (w : World T) (text : String) (t' : T)
      → data_at job.index w.rows ≡ some text
      → ((c : StepContext) → c.apply_data ≡ text → job.step.roll_back c w.target ≡ (undone, t'))
      → undo_step (calm env) job no_error w ≡ (
        no_error,
        clear_checkpoint
            (calm env)
            job.step.name
            (record (tick (calm env) (tick (calm env) w)) { target = t' }),
      )
  unfolding undo_step data_at get_step join tick
  undo_step-eq job w text t' e undo = rw (
      undo
        (record {
          ctx_err = false;
          prepare_data = "";
          apply_data = data_or_empty (step_at job.index w.rows);
        })
        (data_of-some (step_at job.index w.rows) text e))

  undo_steps-Undoes :
      (jobs : List (Job T)) (w : World T) (t0 : T)
      → Undoes w.rows jobs w.target t0
      → ((undo_steps (calm env) jobs no_error w).0 ≡ no_error)
        × ((undo_steps (calm env) jobs no_error w).1.target ≡ t0)
  unfolding undo_steps tick clear_checkpoint call
  undo_steps-Undoes [] w t0 e = (refl, e)
  undo_steps-Undoes (job ∷ rest) w t0 (text, t', e, undo, more) =
      subst
        (λ x.
          ((undo_steps (calm env) rest x.0 x.1).0 ≡ no_error)
          × ((undo_steps (calm env) rest x.0 x.1).1.target ≡ t0))
        (sym (undo_step-eq job w text t' e undo)) (undo_steps-Undoes rest _ t0 more)

  finish_rollback-clean :
      (e : RollbackError) (l : Local T)
      → e ≡ no_error
      → l.sm.state ≡ rollback
      → ((finish_rollback (calm env) e l).world.target ≡ l.world.target)
        × ((finish_rollback (calm env) e l).sm.state ≡ rolled_back)
        × ((finish_rollback (calm env) e l).world.state ≡ state_string rolled_back)
  unfolding finish_rollback transition is_valid_transition
  finish_rollback-clean e l h s = rw (h, s) (refl, refl, refl)

  roll_back-Undoes :
      (l : Local T) (t0 : T)
      → Undoes l.world.rows l.applied_steps l.world.target t0
      → ((roll_back (calm env) l).world.target ≡ t0)
        × ((roll_back (calm env) l).sm.state ≡ rolled_back)
        × ((roll_back (calm env) l).world.state ≡ state_string rolled_back)
  unfolding roll_back set_state call_context put_state tick
  roll_back-Undoes l t0 u =
      let undone_all =
        undo_steps-Undoes l.applied_steps (set_state (calm env) rollback l.world).1 t0 u in
      let (t, s, c) =
        finish_rollback-clean
          (undo_steps (calm env) l.applied_steps no_error
            (set_state (calm env) rollback l.world).1).0
          (record l {
            sm = transition_or_force l.sm rollback;
            world =
                (undo_steps (calm env) l.applied_steps no_error
                  (set_state (calm env) rollback l.world).1).1;
          })
          undone_all.0 (transition_or_force_lands l.sm rollback) in
      (t ∙ undone_all.1, s, c)

  -- The target is as it was, and the machine and the row say which end it was.
  abbrev pub IsReverted : T → Local T → Type 0
  IsReverted t0 l =
      (l.world.target ≡ t0)
      × (l.world.state ≡ state_string l.sm.state)
      × ((l.sm.state ≡ failed) ⊎ (l.sm.state ≡ rolled_back))

  if_any-IsReverted :
      (jobs : List (Job T)) (l : Local T) (t0 : T)
      → Undoes l.world.rows jobs l.world.target t0
      → l.applied_steps ≡ jobs
      → IsReverted t0 (if_any (calm env) jobs (roll_back (calm env)) (fail_migration (calm env) l))
  unfolding fail_migration set_state call_context put_state tick
  if_any-IsReverted [] l t0 u e = (
    u,
    sym (ap state_string (transition_or_force_lands l.sm failed)),
    inl (transition_or_force_lands l.sm failed),
  )
  if_any-IsReverted (job ∷ rest) l t0 u e =
      let (t, s, c) =
        roll_back-Undoes (fail_migration (calm env) l) t0
          (subst (λ jobs. Undoes l.world.rows jobs l.world.target t0) (sym e) u) in
      (t, c ∙ sym (ap state_string s), inr s)

  pub fail_and_rollback-IsReverted :
      (l : Local T) (t0 : T)
      → Undoes l.world.rows l.applied_steps l.world.target t0
      → IsReverted t0 (fail_and_rollback (calm env) l)
  unfolding fail_and_rollback
  fail_and_rollback-IsReverted l t0 u = if_any-IsReverted l.applied_steps l t0 u refl
