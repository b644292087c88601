-- ===== src/StepEngine/Rollback.antt =====
-- How internal/mod/migration/engine.go changes the state of a migration: transition, failMigration,
-- failAndRollback and interruptMigration; and how it runs a phase of a step.
use meshium.Prelude.{List, [], ◌∷◌, if◌then◌else◌, String, Option, none, some}
use meshium.State.{MigrationState, failed, rollback, interrupted, needs_manual_intervention}
use meshium.State.Machine.{transition}
use meshium.Pipeline.Run.{
  RollbackError, no_error, join, rollback_terminal_state, transition_or_force,
}
use meshium.StepEngine.{
  StepContext, World, Job, JobStep, Local, ok, err, invalid_transition, not_persisted, Env, M,
}
use meshium.StepEngine.Repo.{tick, set_state, set_state_background, get_step, clear_checkpoint}

-- The apply data of the row of a step, or "" where it cannot be read.
abbrev pub data_or_empty : Option JobStep → String
data_or_empty none = ""
data_or_empty (some row) = row.apply_data

module _ {T : Type 0} (env : Env) where
  -- Engine.transition.
  unfoldable pub transition_to : MigrationState → M T (Unit {0})
  unfolding transition set_state
  transition_to to l =
      let (persisted, w) = set_state env to l.world in
      if (transition l.sm to).1
      then (
        (if persisted then ok tt else err not_persisted),
        record l { sm = (transition l.sm to).0; world = w },
      )
      else (err invalid_transition, l)

  unfoldable pub fail_migration : Local T → Local T
  unfolding transition_or_force set_state
  fail_migration l = record l {
    sm = transition_or_force l.sm failed;
    world = (set_state env failed l.world).1;
  }

  -- A phase of a step is one call on the target; it sees the context as it is then.
  unfoldable pub run_phase :
      (StepContext → T → Option String × T) → String → String → World T → Option String × World T
  unfolding tick
  run_phase phase prepare_data apply_data' w =
      let (answer, t) =
        phase
          (record {
            ctx_err = env.cancelled_at w.calls;
            prepare_data = prepare_data;
            apply_data = apply_data';
          })
          w.target in
      (answer, record (tick env w) { target = t })

  -- One turn of the rollback loop: the undo of the step with its stored apply data, and the
  -- checkpoint cleared.
  unfoldable pub undo_step : Job T → RollbackError → World T → RollbackError × World T
  unfolding get_step join clear_checkpoint tick
  undo_step job e w =
      let (row, w1) = get_step env job.index w in
      let (answer, t) =
        job.step.roll_back
          (record {
            ctx_err = env.cancelled_at w1.calls;
            prepare_data = "";
            apply_data = data_or_empty row;
          })
          w1.target in
      (join e answer, clear_checkpoint env job.step.name (record (tick env w1) { target = t }))

  unfoldable pub undo_steps : List (Job T) → RollbackError → World T → RollbackError × World T
  unfolding undo_step
  undo_steps [] e w = (e, w)
  undo_steps (job ∷ rest) e w = undo_steps rest (undo_step job e w).0 (undo_step job e w).1

  -- The end of failAndRollback: the terminal state by a validated transition. Where it is refused
  -- the machine stays, and the row says NeedsManualIntervention.
  unfoldable pub finish_rollback : RollbackError → Local T → Local T
  unfolding rollback_terminal_state transition set_state
  finish_rollback e l =
      let terminal = rollback_terminal_state e in
      if (transition l.sm terminal).1
      then record l {
        sm = (transition l.sm terminal).0;
        world = (set_state env terminal l.world).1;
      }
      else record l { world = (set_state env needs_manual_intervention l.world).1 }

  unfoldable pub roll_back : Local T → Local T
  unfolding transition_or_force set_state undo_steps finish_rollback
  roll_back l =
      let sm = transition_or_force l.sm rollback in
      let (e, w) = undo_steps l.applied_steps no_error (set_state env rollback l.world).1 in
      finish_rollback e (record l { sm = sm; world = w })

  abbrev pub if_any : List (Job T) → (Local T → Local T) → Local T → Local T
  if_any [] f l = l
  if_any (job ∷ rest) f l = f l

  unfoldable pub fail_and_rollback : Local T → Local T
  unfolding fail_migration roll_back
  fail_and_rollback l = if_any l.applied_steps roll_back (fail_migration l)

  unfoldable pub interrupt_migration : Local T → Local T
  unfolding transition_or_force set_state_background
  interrupt_migration l = record l {
    sm = transition_or_force l.sm interrupted;
    world = (set_state_background env interrupted l.world).1;
  }
