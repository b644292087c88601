-- ===== src/StepEngine/Run.antt =====
-- Run of internal/mod/migration/engine.go, step by step.
use meshium.Prelude.{
  ℕ, suc, Bool, true, false, ◌+◌, List, [], ◌∷◌, ◌++◌, if◌then◌else◌, String, Option, none, some,
  ◌==◌, ltb, length,
}
use meshium.State.{
  MigrationState, created, planning, backup, snapshot, transferring, applying, verifying, committed,
}
use meshium.State.Machine.{new_state_machine}
use meshium.StepEngine.{
  StepState, StepContext, MigrationStep, World, Job, Local, Error, Result, ok, err, not_found,
  no_step, no_target, no_connection, cancelled, prepare_failed, apply_failed, verify_failed, Env, M,
  pure, fail, ◌>>=◌, ◌>>◌,
}
use meshium.StepEngine.Repo.{
  preparation, application, verification, tick, current_state, create_step, update_step_state,
  set_step_data, create_checkpoint,
}
use meshium.StepEngine.Rollback.{
  transition_to, fail_migration, run_phase, fail_and_rollback, interrupt_migration,
}

module _ {T : Type 0} (env : Env) where
  unfoldable pub set_step_state : Job T → StepState → M T (Unit {0})
  unfolding update_step_state
  set_step_state job s l = (ok tt, record l { world = update_step_state env job.id s l.world })

  unfoldable pub add_result : Job T → StepState → Bool → M T (Unit {0})
  add_result job s skipped l = (
    ok tt,
    record l {
      results =
          l.results
          ++ record { name = job.step.name; index = job.index; state = s; skipped = skipped } ∷ [];
    },
  )

  -- A phase of a step has failed: the context decides between an interrupt and a rollback.
  unfoldable pub break_off : {A : Type 0} → Job T → Error → M T A
  unfolding set_step_state add_result interrupt_migration fail_and_rollback
  break_off job e = do
    set_step_state job StepState.failed
    add_result job StepState.failed false
    λ l.
        if env.cancelled_at l.world.calls
        then (err cancelled, interrupt_migration env l)
        else (err e, fail_and_rollback env l)

  abbrev pub or_break_off : Job T → Error → Option String → M T String
  or_break_off job e none = break_off job e
  or_break_off job e (some data') = pure data'

  -- The state of the row before the phase, the phase, and its error.
  unfoldable pub do_phase :
      Job T
      → StepState
      → Error
      → (StepContext → T → Option String × T)
      → String
      → String
      → M T String
  unfolding set_step_state run_phase break_off
  do_phase job s e phase prepare_data apply_data' = do
    set_step_state job s
    λ l.
        let (answer, w) = run_phase env phase prepare_data apply_data' l.world in
        or_break_off job e answer (record l { world = w })

  unfoldable pub check_context : M T (Unit {0})
  unfolding interrupt_migration
  check_context l =
      if env.cancelled_at l.world.calls
      then (err cancelled, interrupt_migration env l)
      else (ok tt, l)

  abbrev pub when : Bool → M T (Unit {0}) → M T (Unit {0})
  when true m = m
  when false m = pure tt

  unfoldable pub prepare_step : Job T → M T String
  unfolding do_phase set_step_state set_step_data
  prepare_step job = do
    data' ← do_phase job StepState.preparing (prepare_failed job.step.name) job.step.prepare "" ""
    set_step_state job StepState.prepared
    λ l. (ok data', record l { world = set_step_data env job.id preparation data' l.world })

  -- After it the step counts as applied.
  unfoldable pub apply_step : Job T → String → M T String
  unfolding do_phase set_step_state set_step_data
  apply_step job prepare_data = do
    data' ←
        do_phase job StepState.applying (apply_failed job.step.name) job.step.apply prepare_data ""
    set_step_state job StepState.applied
    λ l. (
      ok data',
      record l {
        world = set_step_data env job.id application data' l.world;
        applied_steps = job ∷ l.applied_steps;
      },
    )

  unfoldable pub verify_step : Job T → String → String → M T (Unit {0})
  unfolding do_phase set_step_state set_step_data create_checkpoint add_result transition_to
  verify_step job prepare_data apply_data' = do
    transition_to env verifying
    data' ←
        do_phase job StepState.verifying (verify_failed job.step.name) job.step.verify prepare_data
          apply_data'
    set_step_state job StepState.verified
    λ l. (
      ok tt,
      record l {
        world =
            create_checkpoint env job.step.name job.index data'
              (set_step_data env job.id verification data' l.world);
      },
    )
    add_result job StepState.verified false

  -- One turn of the loop over the steps.
  unfoldable pub run_step : ℕ → Job T → M T (Unit {0})
  unfolding check_context transition_to prepare_step apply_step verify_step
  run_step total job = do
    check_context
    when (job.index == 0) (transition_to env applying)
    prepare_data ← prepare_step job
    apply_data' ← apply_step job prepare_data
    verify_step job prepare_data apply_data'
    when (ltb (job.index + 1) total) (transition_to env applying)

  unfoldable pub run_steps : ℕ → List (Job T) → M T (Unit {0})
  unfolding run_step
  run_steps total [] = pure tt
  run_steps total (job ∷ rest) = run_step total job >> run_steps total rest

  abbrev pub or_no_step : {A : Type 0} → Option ℕ → (ℕ → M T A) → M T A
  or_no_step none f = fail no_step
  or_no_step (some id) f = f id

  -- The loop of CreateJobStepContext calls.
  unfoldable pub create_steps : ℕ → List (MigrationStep T) → M T (List (Job T))
  unfolding create_step
  create_steps index [] l = (ok [], l)
  create_steps index (step ∷ rest) l =
      let (made, w) = create_step env step.name index l.world in
      or_no_step made
        (λ id. do
          jobs ← create_steps (suc index) rest
          pure (record { index = index; id = id; step = step } ∷ jobs))
        (record l { world = w })

  -- The target server and the connection to it, in Run: a failure marks the migration failed.
  unfoldable pub connect : M T (Unit {0})
  unfolding fail_migration
  connect l =
      if env.target_known
      then if env.connects then (ok tt, l) else (err no_connection, fail_migration env l)
      else (err no_target, fail_migration env l)

  -- Every exit after the rows are made sets `result.FinalState = sm.State()`.
  unfoldable pub report : {A : Type 0} → M T A → M T A
  report m l = let (r, l') = m l in (r, record l' { final_state = l'.sm.state })

  unfoldable pub run_jobs : List (Job T) → M T (Unit {0})
  unfolding transition_to connect run_steps
  run_jobs jobs = do
    transition_to env planning
    transition_to env backup
    connect
    transition_to env snapshot
    transition_to env transferring
    run_steps (length jobs) jobs
    transition_to env committed

  -- The variables at the start of Run and of Resume.
  unfoldable pub start : MigrationState → World T → Local T
  unfolding new_state_machine
  start s w = record {
    sm = new_state_machine s;
    applied_steps = [];
    results = [];
    final_state = s;
    world = w;
  }

  -- GetMigration, which only fails or not here; then the state of the machine.
  unfoldable pub load : M T (Unit {0})
  unfolding tick current_state new_state_machine
  load l =
      if env.fails l.world.calls then (err not_found, record l { world = tick env l.world }) else (
        ok tt,
        record l {
          sm = new_state_machine (current_state env (tick env l.world)).0;
          world = (current_state env (tick env l.world)).1;
        },
      )

  unfoldable pub run : List (MigrationStep T) → World T → Result (Unit {0}) × Local T
  unfolding load create_steps run_jobs report start
  run steps w = (do load; jobs ← create_steps 0 steps; report (run_jobs jobs)) (start created w)
