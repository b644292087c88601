-- ===== src/StepEngine/Atomic.antt =====
-- The steps of Run in internal/mod/migration/engine.go one after the other, up to the commit.
use meshium.Prelude.{
  ℕ, zero, suc, ◌+◌, ◌≡◌, refl, subst, Bool, true, false, List, [], ◌∷◌, String, ◌⊎◌, inl, inr,
  arith, length, ◌==◌, ltb, if◌then◌else◌,
}
use meshium.State.{MigrationState, transferring, applying, verifying}
use meshium.State.Machine.{is_valid_transition}
use meshium.StepEngine.{StepState, Job, Local, Env, verify_failed}
use meshium.StepEngine.Repo.{verification, tick, call_context, set_step_data, create_checkpoint}
use meshium.StepEngine.Run.{
  set_step_state, add_result, do_phase, check_context, when, prepare_step, apply_step, verify_step,
  run_step, run_steps,
}
use meshium.StepEngine.Rollback.{transition_to}
use meshium.StepEngine.Rows.{data_at-set_data_verify}
use meshium.StepEngine.Undo.{calm}
use meshium.StepEngine.Loop.{
  Holds, then_on-Holds, Before, Stops, Before-kept, transition_to-Before, set_step_state-Before,
  do_phase-Before,
}
use meshium.StepEngine.Turn.{apply_step-Before}
use meshium.StepEngine.Applied.{IsJob, set_step_data-Before, prepare_step-Before}

valid_verifying : is_valid_transition applying verifying ≡ true
unfolding is_valid_transition
valid_verifying = refl

valid_applying :
    (s : MigrationState)
    → (s ≡ transferring) ⊎ (s ≡ verifying)
    → is_valid_transition s applying ≡ true
unfolding is_valid_transition
valid_applying s h = ground arith

module _ {T : Type 0} (env : Env) (base n : ℕ) (t0 : T) (B : Type 0) where
  verified_kept :
      (k : ℕ) (job : Job T) (text : String) (l : Local T)
      → Before base n t0 k verifying l
      → Before base n t0 k verifying
          (add_result
            (calm env)
            job
            StepState.verified
            false
            (record (set_step_state (calm env) job StepState.verified l).1 {
              world = create_checkpoint (calm env) job.step.name job.index text (
                  set_step_data
                    (calm env)
                    job.id
                    verification
                    text
                    (set_step_state (calm env) job StepState.verified l).1.world);
            })).1
  unfolding add_result create_checkpoint call_context tick
  verified_kept k job text l b =
      let b1 =
        set_step_data-Before env base n t0 B k verifying job verification text
          (set_step_state (calm env) job StepState.verified l).1
          (λ i rows. data_at-set_data_verify i text job.id rows)
          (set_step_state-Before env base n t0 B k verifying job StepState.verified l b) in
      Before-kept env base n t0 B k verifying _ _ b1.at refl refl b1.numbered (λ i. refl) verifying
        b1

  verify_step-Before :
      (i k : ℕ) (job : Job T) (p a : String) (l : Local T)
      → IsJob env base n t0 B i job
      → Before base n t0 k applying l
      → Holds
          (λ _. Before base n t0 k verifying)
          (Stops env base n t0 B)
          (verify_step (calm env) job p a l)
  unfolding verify_step
  verify_step-Before i k job p a l j b =
      then_on-Holds (λ _. Before base n t0 k verifying) (λ _. Before base n t0 k verifying)
        (Stops env base n t0 B) (transition_to (calm env) verifying l) _
        (transition_to-Before env base n t0 B k applying verifying l valid_verifying b)
        (λ u l1 b1.
          then_on-Holds (λ _. Before base n t0 k verifying) (λ _. Before base n t0 k verifying)
            (Stops env base n t0 B)
            (do_phase (calm env) job StepState.verifying (verify_failed job.step.name)
              job.step.verify p a l1)
            _
            (do_phase-Before env base n t0 B k verifying job StepState.verifying
              (verify_failed job.step.name) job.step.verify p a l1 j.reversible.verifies
              (λ c t e. j.tells (c, t, inr (inr e))) b1)
            (λ text l2 b2. verified_kept k job text l2 b2))

  when_transition-Before :
      (k : ℕ) (s to : MigrationState) (test : Bool) (l : Local T)
      → (test ≡ true → is_valid_transition s to ≡ true)
      → Before base n t0 k s l
      → Holds
          (λ _. Before base n t0 k (if test then to else s))
          (Stops env base n t0 B)
          (when (calm env) test (transition_to (calm env) to) l)
  when_transition-Before k s to true l valid b =
      transition_to-Before env base n t0 B k s to l (valid refl) b
  when_transition-Before k s to false l valid b = b

  -- The state of the machine before the step with index `i`, or after the last one.
  abbrev pub state_before : ℕ → List (Job T) → MigrationState
  state_before zero jobs = transferring
  state_before (suc i) [] = verifying
  state_before (suc i) (job ∷ rest) = applying

  state_first :
      (i : ℕ) (job : Job T) (rest : List (Job T))
      → job.index ≡ i
      → ((job.index == 0) ≡ true
          → is_valid_transition (state_before i (job ∷ rest)) applying ≡ true)
        × ((if job.index == 0 then applying else state_before i (job ∷ rest)) ≡ applying)
  state_first zero job rest e = (λ _. valid_applying transferring (inl refl), rw e refl)
  state_first (suc i) job rest e = ground (arith, e)

  state_last :
      (i : ℕ) (job : Job T) (rest : List (Job T))
      → job.index ≡ i
      → i + length (job ∷ rest) ≡ n
      → (if ltb (job.index + 1) n then applying else verifying) ≡ state_before (suc i) rest
  state_last i job [] e h = ground (arith, e, h)
  state_last i job (next ∷ rest) e h = ground (arith, e, h)

  run_step-Before :
      (i : ℕ) (job : Job T) (rest : List (Job T)) (l : Local T)
      → IsJob env base n t0 B i job
      → i + length (job ∷ rest) ≡ n
      → Before base n t0 i (state_before i (job ∷ rest)) l
      → Holds
          (λ _. Before base n t0 (suc i) (state_before (suc i) rest))
          (Stops env base n t0 B)
          (run_step (calm env) n job l)
  unfolding run_step check_context
  run_step-Before i job rest l j h b =
      let first = state_first i job rest j.index_is in
      let E = Stops env base n t0 B in
      let Q : MigrationState → ℕ → Local T → Type 0 = λ s k. Before base n t0 k s in
      let after : Local T → Type 0 = Before base n t0 (suc i) (state_before (suc i) rest) in
      then_on-Holds (λ _. Q applying i) (λ _. after) E
        (when (calm env) (job.index == 0) (transition_to (calm env) applying) l) _
        (subst
          (λ s.
            Holds (λ _. Q s i) E
              (when (calm env) (job.index == 0) (transition_to (calm env) applying) l))
          first.1
          (when_transition-Before i (state_before i (job ∷ rest)) applying (job.index == 0) l
            first.0 b))
        (λ u l1 b1.
          then_on-Holds (λ _. Q applying i) (λ _. after) E (prepare_step (calm env) job l1) _
            (prepare_step-Before env base n t0 B i applying job l1 j b1)
            (λ p l2 b2.
              then_on-Holds (λ _. Q applying (suc i)) (λ _. after) E
                (apply_step (calm env) job p l2) _
                (apply_step-Before env base n t0 B i job p l2 j (omega (arith, h)) b2)
                (λ a l3 b3.
                  then_on-Holds (λ _. Q verifying (suc i)) (λ _. after) E
                    (verify_step (calm env) job p a l3) _
                    (verify_step-Before i (suc i) job p a l3 j b3)
                    (λ v l4 b4.
                      subst
                        (λ s.
                          Holds (λ _. Q s (suc i)) E
                            (when (calm env) (ltb (job.index + 1) n)
                              (transition_to (calm env) applying) l4))
                        (state_last i job rest j.index_is h)
                        (when_transition-Before (suc i) verifying applying (ltb (job.index + 1) n)
                          l4 (λ _. valid_applying verifying (inr refl)) b4)))))

  -- The jobs from index `i` on.
  abbrev pub AreJobs : ℕ → List (Job T) → Type 0
  AreJobs i [] = Unit
  AreJobs i (job ∷ rest) = IsJob env base n t0 B i job × AreJobs (suc i) rest

  pub run_steps-Before :
      (i : ℕ) (jobs : List (Job T)) (l : Local T)
      → AreJobs i jobs
      → i + length jobs ≡ n
      → Before base n t0 i (state_before i jobs) l
      → Holds
          (λ _. Before base n t0 n (state_before n []))
          (Stops env base n t0 B)
          (run_steps (calm env) n jobs l)
  unfolding run_steps
  run_steps-Before i [] l a h b =
      subst (λ k. Before base n t0 k (state_before k []) l) (omega (arith, h)) b
  run_steps-Before i (job ∷ rest) l (j, a) h b =
      then_on-Holds (λ _. Before base n t0 (suc i) (state_before (suc i) rest))
        (λ _. Before base n t0 n (state_before n [])) (Stops env base n t0 B)
        (run_step (calm env) n job l) _ (run_step-Before i job rest l j h b)
        (λ u l1 b1. run_steps-Before (suc i) rest l1 a (omega (arith, h)) b1)
