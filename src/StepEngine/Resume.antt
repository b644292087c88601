-- ===== src/StepEngine/Resume.antt =====
-- Resume of internal/mod/migration/engine.go.
use meshium.Prelude.{ℕ, suc, true, false, List, [], ◌∷◌, if◌then◌else◌, String, Option, none, some}
use meshium.State.{can_resume, resuming, applying, committed}
use meshium.StepEngine.{
  StepState, StepContext, MigrationStep, World, Job, JobStep, Local, Error, Result, ok, err,
  cannot_resume, no_target, no_connection, no_checkpoints, prepare_failed, apply_failed,
  verify_failed, Checkpoint, Env, M, pure, ◌>>=◌, ◌>>◌,
}
use meshium.StepEngine.Repo.{tick, create_step, get_step, create_checkpoint, is_verified}
use meshium.StepEngine.Run.{add_result, report, start, load, or_no_step}
use meshium.StepEngine.Rollback.{transition_to, run_phase, fail_and_rollback}

module _ {T : Type 0} (env : Env) where
  -- A phase that fails: no look at the context, and the row of the step stays as it is.
  unfoldable pub or_roll_back : Job T → Error → Option String → M T String
  unfolding add_result fail_and_rollback
  or_roll_back job e none = do
    add_result env job StepState.failed false
    λ l. (err e, fail_and_rollback env l)
  or_roll_back job e (some data') = pure data'

  unfoldable pub resume_phase :
      Job T → Error → (StepContext → T → Option String × T) → String → String → M T String
  unfolding run_phase or_roll_back
  resume_phase job e phase prepare_data apply_data l =
      let (answer, w) = run_phase env phase prepare_data apply_data l.world in
      or_roll_back job e answer (record l { world = w })

  unfoldable pub resume_step : Job T → M T (Unit {0})
  unfolding resume_phase create_checkpoint add_result
  resume_step job = do
    prepare_data ← resume_phase job (prepare_failed job.step.name) job.step.prepare "" ""
    apply_data ← resume_phase job (apply_failed job.step.name) job.step.apply prepare_data ""
    λ l. (ok tt, record l { applied_steps = job ∷ l.applied_steps })
    resume_phase job (verify_failed job.step.name) job.step.verify prepare_data apply_data
    λ l. (ok tt, record l { world = create_checkpoint env job.step.name job.index "" l.world })
    add_result env job StepState.verified false

  -- A step with a verified checkpoint counts as applied.
  unfoldable pub skip_step : Job T → M T (Unit {0})
  unfolding add_result
  skip_step job = do
    add_result env job StepState.verified true
    λ l. (ok tt, record l { applied_steps = job ∷ l.applied_steps })

  unfoldable pub resume_steps : List Checkpoint → List (Job T) → M T (Unit {0})
  unfolding is_verified skip_step resume_step
  resume_steps checkpoints [] = pure tt
  resume_steps checkpoints (job ∷ rest) =
      (if is_verified job.index checkpoints then skip_step job else resume_step job)
      >> resume_steps checkpoints rest

  -- The id of the row that is there, or of a new one.
  abbrev pub id_or_create : String → ℕ → Option JobStep → World T → Option ℕ × World T
  id_or_create name index (some row) w = (some row.id, w)
  id_or_create name index none w = create_step env name index w

  unfoldable pub load_steps : ℕ → List (MigrationStep T) → M T (List (Job T))
  unfolding get_step create_step
  load_steps index [] l = (ok [], l)
  load_steps index (step ∷ rest) l =
      let (found, w1) = get_step env index l.world in
      let (made, w) = id_or_create step.name index found w1 in
      or_no_step env made
        (λ id. do
          jobs ← load_steps (suc index) rest
          pure (record { index = index; id = id; step = step } ∷ jobs))
        (record l { world = w })

  unfoldable pub get_checkpoints : M T (List Checkpoint)
  unfolding tick
  get_checkpoints l = (
    if env.fails l.world.calls then err no_checkpoints else ok l.world.checkpoints,
    record l { world = tick env l.world },
  )

  -- The target server and the connection to it: in Resume a failure only returns.
  unfoldable pub reconnect : M T (Unit {0})
  reconnect l = (
    if env.target_known then if env.connects then ok tt else err no_connection else err no_target,
    l,
  )

  unfoldable pub check_can_resume : M T (Unit {0})
  unfolding can_resume
  check_can_resume l = (if can_resume l.sm.state then ok tt else err cannot_resume, l)

  unfoldable pub resume_jobs : List (MigrationStep T) → M T (Unit {0})
  unfolding transition_to get_checkpoints reconnect load_steps resume_steps
  resume_jobs steps = do
    transition_to env resuming
    checkpoints ← get_checkpoints
    reconnect
    jobs ← load_steps 0 steps
    transition_to env applying
    resume_steps checkpoints jobs
    transition_to env committed

  unfoldable pub resume : List (MigrationStep T) → World T → Result (Unit {0}) × Local T
  unfolding load check_can_resume resume_jobs report start
  resume steps w =
      (do load env; check_can_resume; report env (resume_jobs steps)) (start env resuming w)
