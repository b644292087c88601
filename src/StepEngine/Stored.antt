-- ===== src/StepEngine/Stored.antt =====
-- The apply data that Resume of internal/mod/migration/engine.go leaves in the rows of the steps.
use meshium.Prelude.{
  ℕ, suc, ◌≡◌, refl, ◌∙◌, ap, false, ◌||◌, List, [], ◌∷◌, String, Option, none, some, arith,
  Bool-cases, Option-cases, inl, inr,
}
use meshium.State.{MigrationState, resuming, applying, committed}
use meshium.State.Machine.{is_valid_transition, transition}
use meshium.StepEngine.{
  StepState, StepContext, JobStep, MigrationStep, World, Job, Local, Error, Result, ok, err, Env,
  Checkpoint, prepare_failed, apply_failed, verify_failed,
}
use meshium.StepEngine.Repo.{
  tick, call_context, set_state, put_state, create_step, get_step, is_verified,
}
use meshium.StepEngine.Run.{add_result, load, start, report}
use meshium.StepEngine.Rollback.{transition_to, fail_and_rollback, run_phase}
use meshium.StepEngine.Resume.{
  or_roll_back, resume_phase, resume_step, skip_step, resume_steps, id_or_create, load_steps,
  get_checkpoints, reconnect, check_can_resume, resume_jobs, resume,
}
use meshium.StepEngine.Loop.{Holds, then_on-Holds}
use meshium.StepEngine.Kept.{
  stored, stored-insert_step, rows-create_checkpoint, rows-fail_and_rollback, ends_either,
  keeps_anyway, rows-load,
}

module _ {T : Type 0} (env : Env) (old : List JobStep) where
  -- The stored apply data are those of the rows `old`.
  abbrev pub Keeps : Local T → Type 0
  Keeps l = (i : ℕ) → stored i l.world.rows ≡ stored i old

  Keeps_rows : (l l' : Local T) → l'.world.rows ≡ l.world.rows → Keeps l → Keeps l'
  Keeps_rows l l' e k i = ap (stored i) e ∙ k i

  transition_to-Keeps :
      (to : MigrationState) (l : Local T)
      → Keeps l
      → Holds (λ _. Keeps) Keeps (transition_to env to l)
  unfolding transition_to transition set_state call_context put_state tick
  transition_to-Keeps to l k = elim (Bool-cases (is_valid_transition l.sm.state to)) [
    | inl valid ↦ elim (Bool-cases (env.cancelled_at l.world.calls || env.fails l.world.calls)) [
      | inl lost ↦ rw (valid, lost) k
      | inr kept ↦ rw (valid, kept) k
    ]
    | inr refused ↦ rw refused k
  ]

  or_roll_back-Keeps :
      (job : Job T) (e : Error) (o : Option String) (l : Local T)
      → Keeps l
      → Holds (λ _. Keeps) Keeps (or_roll_back env job e o l)
  unfolding or_roll_back add_result
  or_roll_back-Keeps job e none l k =
      let l' : Local T = (add_result env job StepState.failed false l).1 in
      Keeps_rows l (fail_and_rollback env l') (rows-fail_and_rollback env l') k
  or_roll_back-Keeps job e (some text) l k = k

  resume_phase-Keeps :
      (job : Job T) (e : Error) (phase : StepContext → T → Option String × T) (p a : String)
      (l : Local T)
      → Keeps l
      → Holds (λ _. Keeps) Keeps (resume_phase env job e phase p a l)
  unfolding resume_phase run_phase tick
  resume_phase-Keeps job e phase p a l k = or_roll_back-Keeps job e _ _ k

  resume_step-Keeps :
      (job : Job T) (l : Local T) → Keeps l → Holds (λ _. Keeps) Keeps (resume_step env job l)
  unfolding resume_step add_result
  resume_step-Keeps job l k =
      then_on-Holds (λ _. Keeps) (λ _. Keeps) Keeps
        (resume_phase env job (prepare_failed job.step.name) job.step.prepare "" "" l) _
        (resume_phase-Keeps job (prepare_failed job.step.name) job.step.prepare "" "" l k)
        (λ p l1 k1.
          then_on-Holds (λ _. Keeps) (λ _. Keeps) Keeps
            (resume_phase env job (apply_failed job.step.name) job.step.apply p "" l1) _
            (resume_phase-Keeps job (apply_failed job.step.name) job.step.apply p "" l1 k1)
            (λ a l2 k2.
              let l3 : Local T = record l2 { applied_steps = job ∷ l2.applied_steps } in
              then_on-Holds (λ _. Keeps) (λ _. Keeps) Keeps
                (resume_phase env job (verify_failed job.step.name) job.step.verify p a l3) _
                (resume_phase-Keeps job (verify_failed job.step.name) job.step.verify p a l3 k2)
                (λ v l4 k4 i.
                  ap (stored i) (rows-create_checkpoint env job.step.name job.index "" l4.world)
                  ∙ k4 i)))

  resume_steps-Keeps :
      (cs : List Checkpoint) (jobs : List (Job T)) (l : Local T)
      → Keeps l
      → Holds (λ _. Keeps) Keeps (resume_steps env cs jobs l)
  unfolding resume_steps skip_step add_result
  resume_steps-Keeps cs [] l k = k
  resume_steps-Keeps cs (job ∷ rest) l k = elim (Bool-cases (is_verified job.index cs)) [
    | inl skip ↦ rw skip (resume_steps-Keeps cs rest _ k)
    | inr go ↦ rw go (
        then_on-Holds (λ _. Keeps) (λ _. Keeps) Keeps (resume_step env job l) _
          (resume_step-Keeps job l k) (λ u l1 k1. resume_steps-Keeps cs rest l1 k1))
  ]

  create_step-Keeps :
      (name : String) (index : ℕ) (w : World T)
      → (i : ℕ) → stored i (create_step env name index w).1.rows ≡ stored i w.rows
  unfolding create_step tick
  create_step-Keeps name index w i = ground (
    arith,
    stored-insert_step i 0 name index w.rows,
    stored-insert_step i (suc w.last_id) name index w.rows,
  )

  id_or_create-Keeps :
      (name : String) (index : ℕ) (found : Option JobStep) (w : World T) (i : ℕ)
      → stored i (id_or_create env name index found w).1.rows ≡ stored i w.rows
  id_or_create-Keeps name index none w i = create_step-Keeps name index w i
  id_or_create-Keeps name index (some row) w i = refl

  load_steps-Keeps :
      (index : ℕ) (steps : List (MigrationStep T)) (l : Local T)
      → Keeps l
      → Holds (λ _. Keeps) Keeps (load_steps env index steps l)
  unfolding load_steps get_step tick
  load_steps-Keeps index [] l k = k
  load_steps-Keeps index (step ∷ rest) l k =
      let (found, w1) = get_step env index l.world in
      let made : Option ℕ × World T = id_or_create env step.name index found w1 in
      let k1 : Keeps (record l { world = made.1 }) =
        λ i. id_or_create-Keeps step.name index found w1 i ∙ k i in
      elim (Option-cases made.0) [
        | inl e ↦ rw e k1
        | inr (id, e) ↦ rw e (
            then_on-Holds (λ _. Keeps) (λ _. Keeps) Keeps
              (load_steps env (suc index) rest (record l { world = made.1 })) _
              (load_steps-Keeps (suc index) rest (record l { world = made.1 }) k1)
              (λ jobs l' k'. k'))
      ]

  resume_jobs-Keeps :
      (steps : List (MigrationStep T)) (l : Local T)
      → Keeps l
      → Holds (λ _. Keeps) Keeps (resume_jobs env steps l)
  unfolding resume_jobs get_checkpoints reconnect tick
  resume_jobs-Keeps steps l k =
      then_on-Holds (λ _. Keeps) (λ _. Keeps) Keeps (transition_to env resuming l) _
        (transition_to-Keeps resuming l k)
        (λ u l1 k1.
          then_on-Holds (λ _. Keeps) (λ _. Keeps) Keeps (get_checkpoints env l1) _
            (ends_either Keeps (get_checkpoints env l1) k1)
            (λ cs l2 k2.
              then_on-Holds (λ _. Keeps) (λ _. Keeps) Keeps (reconnect env l2) _
                (ends_either Keeps (reconnect env l2) k2)
                (λ u l3 k3.
                  then_on-Holds (λ _. Keeps) (λ _. Keeps) Keeps (load_steps env 0 steps l3) _
                    (load_steps-Keeps 0 steps l3 k3)
                    (λ jobs l4 k4.
                      then_on-Holds (λ _. Keeps) (λ _. Keeps) Keeps (transition_to env applying l4)
                        _ (transition_to-Keeps applying l4 k4)
                        (λ u l5 k5.
                          then_on-Holds (λ _. Keeps) (λ _. Keeps) Keeps
                            (resume_steps env cs jobs l5) _ (resume_steps-Keeps cs jobs l5 k5)
                            (λ u l6 k6. transition_to-Keeps committed l6 k6))))))

  report-Keeps :
      (x : Result (Unit {0}) × Local T)
      → Holds (λ _. Keeps) Keeps x
      → Holds (λ _. Keeps) Keeps (report env (λ _. x) x.1)
  unfolding report
  report-Keeps (ok a, l) k = k
  report-Keeps (err e, l) k = k

-- Whatever its steps do, whatever calls fail and however it ends, a resumed run leaves the apply data
-- that the rows hold for each step as they were before it: none for a step without a row.
pub stored-resume :
    {T : Type 0} (env : Env) (steps : List (MigrationStep T)) (w : World T) (i : ℕ)
    → stored i (resume env steps w).1.world.rows ≡ stored i w.rows
unfolding resume check_can_resume
stored-resume {T} env steps w i =
    keeps_anyway (Keeps env w.rows) (resume env steps w)
      (then_on-Holds (λ _. Keeps env w.rows) (λ _. Keeps env w.rows) (Keeps env w.rows)
        (load env (start env resuming w)) _
        (ends_either (Keeps env w.rows) (load env (start env resuming w))
          (λ j. ap (stored j) (rows-load env resuming w)))
        (λ u l k.
          then_on-Holds (λ _. Keeps env w.rows) (λ _. Keeps env w.rows) (Keeps env w.rows)
            (check_can_resume env l) _ (ends_either (Keeps env w.rows) (check_can_resume env l) k)
            (λ v l' k'.
              report-Keeps env w.rows (resume_jobs env steps l')
                (resume_jobs-Keeps env w.rows steps l' k'))))
      i
