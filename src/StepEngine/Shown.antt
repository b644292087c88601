-- ===== src/StepEngine/Shown.antt =====
-- The results that one step of Run of internal/mod/migration/engine.go adds.
use meshium.Prelude.{
  ℕ, suc, ◌+◌, ◌≡◌, refl, sym, ◌∙◌, ap, subst, Bool, true, false, List, [], ◌∷◌, ◌++◌, ◌||◌, String,
  Option, none, some, ◌==◌, ltb, Bool-cases, inl, inr,
}
use mathlib.Core.List.{append_assoc, append-nil}
use meshium.State.{MigrationState, applying, verifying, state_string}
use meshium.State.Machine.{is_valid_transition, transition}
use meshium.StepEngine.{
  StepState, StepContext, MigrationStep, Job, StepResult, Local, Error, Result, ok, err, Env,
  verify_failed, prepare_failed, apply_failed,
}
use meshium.StepEngine.Repo.{tick, call_context, set_state, put_state}
use meshium.StepEngine.Run.{
  set_step_state, add_result, break_off, or_break_off, do_phase, check_context, when, prepare_step,
  apply_step, verify_step, run_step, run_steps,
}
use meshium.StepEngine.Rollback.{transition_to, run_phase}
use meshium.StepEngine.Loop.{Holds, then_on-Holds}

-- The results of steps that are all verified, from an index on.
abbrev pub all_verified : {T : Type 0} → ℕ → List (MigrationStep T) → List StepResult
all_verified i [] = []
all_verified i (step ∷ rest) =
    record { name = step.name; index = i; state = StepState.verified; skipped = false }
    ∷ all_verified (suc i) rest

-- The result of a job that is verified.
abbrev pub verified_of : {T : Type 0} → List (Job T) → List StepResult
verified_of [] = []
verified_of (job ∷ rest) =
    record { name = job.step.name; index = job.index; state = StepState.verified; skipped = false }
    ∷ verified_of rest

module _ {T : Type 0} (env : Env) where
  -- Nothing is said of an error.
  abbrev pub Any : Local T → Type 0
  Any l = Unit {0}

  abbrev pub Shows : {A : Type 0} → List StepResult → A → Local T → Type 0
  Shows xs a l = l.results ≡ xs

  pub transition_to-Shows :
      (xs : List StepResult) (to : MigrationState) (l : Local T)
      → l.results ≡ xs
      → Holds
          (λ _ l'. (l'.results ≡ xs) × (l'.sm.state ≡ to) × (l'.world.state ≡ state_string to))
          Any
          (transition_to env to l)
  unfolding transition_to transition set_state call_context put_state tick
  transition_to-Shows xs to l e = elim (Bool-cases (is_valid_transition l.sm.state to)) [
    | inl valid ↦ elim (Bool-cases (env.cancelled_at l.world.calls || env.fails l.world.calls)) [
      | inl lost ↦ rw (valid, lost) tt
      | inr kept ↦ rw (valid, kept) (e, refl, refl)
    ]
    | inr refused ↦ rw refused tt
  ]

  pub moved-Shows :
      (xs : List StepResult) (to : MigrationState) (x : Result (Unit {0}) × Local T)
      → Holds
          (λ _ l'. (l'.results ≡ xs) × (l'.sm.state ≡ to) × (l'.world.state ≡ state_string to))
          Any
          x
      → Holds (Shows xs) Any x
  moved-Shows xs to (ok a, l) h = h.0
  moved-Shows xs to (err e, l) h = h

  pub or_break_off-Shows :
      (xs : List StepResult) (job : Job T) (e : Error) (o : Option String) (l : Local T)
      → l.results ≡ xs
      → Holds (Shows xs) Any (or_break_off env job e o l)
  unfolding break_off
  or_break_off-Shows xs job e none l h =
      let l' : Local T =
        (add_result env job StepState.failed false
          (set_step_state env job StepState.failed l).1).1 in
      elim (Bool-cases (env.cancelled_at l'.world.calls)) [
        | inl gone ↦ rw gone tt
        | inr there ↦ rw there tt
      ]
  or_break_off-Shows xs job e (some text) l h = h

  pub do_phase-Shows :
      (xs : List StepResult) (job : Job T) (s : StepState) (e : Error)
      (phase : StepContext → T → Option String × T) (p a : String) (l : Local T)
      → l.results ≡ xs
      → Holds (Shows xs) Any (do_phase env job s e phase p a l)
  unfolding do_phase set_step_state run_phase
  do_phase-Shows xs job s e phase p a l h = or_break_off-Shows xs job e _ _ h

  pub check_context-Shows :
      (xs : List StepResult) (l : Local T)
      → l.results ≡ xs
      → Holds (Shows xs) Any (check_context env l)
  unfolding check_context
  check_context-Shows xs l h = elim (Bool-cases (env.cancelled_at l.world.calls)) [
    | inl gone ↦ rw gone tt
    | inr there ↦ rw there h
  ]

  pub when-Shows :
      (xs : List StepResult) (test : Bool) (to : MigrationState) (l : Local T)
      → l.results ≡ xs
      → Holds (Shows xs) Any (when env test (transition_to env to) l)
  when-Shows xs true to l h =
      moved-Shows xs to (transition_to env to l) (transition_to-Shows xs to l h)
  when-Shows xs false to l h = h

  pub prepare_step-Shows :
      (xs : List StepResult) (job : Job T) (l : Local T)
      → l.results ≡ xs
      → Holds (Shows xs) Any (prepare_step env job l)
  unfolding prepare_step set_step_state
  prepare_step-Shows xs job l h =
      then_on-Holds (Shows xs) (Shows xs) Any
        (do_phase env job StepState.preparing (prepare_failed job.step.name) job.step.prepare "" ""
          l)
        _
        (do_phase-Shows xs job StepState.preparing (prepare_failed job.step.name) job.step.prepare
          "" "" l h)
        (λ text l' h'. h')

  pub apply_step-Shows :
      (xs : List StepResult) (job : Job T) (p : String) (l : Local T)
      → l.results ≡ xs
      → Holds (Shows xs) Any (apply_step env job p l)
  unfolding apply_step set_step_state
  apply_step-Shows xs job p l h =
      then_on-Holds (Shows xs) (Shows xs) Any
        (do_phase env job StepState.applying (apply_failed job.step.name) job.step.apply p "" l) _
        (do_phase-Shows xs job StepState.applying (apply_failed job.step.name) job.step.apply p "" l
          h)
        (λ text l' h'. h')

  pub verify_step-Shows :
      (xs : List StepResult) (job : Job T) (p a : String) (l : Local T)
      → l.results ≡ xs
      → Holds (Shows (xs ++ verified_of (job ∷ []))) Any (verify_step env job p a l)
  unfolding verify_step set_step_state add_result
  verify_step-Shows xs job p a l h =
      then_on-Holds (Shows xs) (Shows (xs ++ verified_of (job ∷ []))) Any
        (transition_to env verifying l) _
        (moved-Shows xs verifying (transition_to env verifying l)
          (transition_to-Shows xs verifying l h))
        (λ u l1 h1.
          then_on-Holds (Shows xs) (Shows (xs ++ verified_of (job ∷ []))) Any
            (do_phase env job StepState.verifying (verify_failed job.step.name) job.step.verify p a
              l1)
            _
            (do_phase-Shows xs job StepState.verifying (verify_failed job.step.name) job.step.verify
              p a l1 h1)
            (λ text l2 h2. ap (λ x. x ++ verified_of (job ∷ [])) h2))

  pub run_step-Shows :
      (xs : List StepResult) (n : ℕ) (job : Job T) (l : Local T)
      → l.results ≡ xs
      → Holds (Shows (xs ++ verified_of (job ∷ []))) Any (run_step env n job l)
  unfolding run_step
  run_step-Shows xs n job l h =
      let ys : List StepResult = xs ++ verified_of (job ∷ []) in
      then_on-Holds (Shows xs) (Shows ys) Any (check_context env l) _ (check_context-Shows xs l h)
        (λ u l1 h1.
          then_on-Holds (Shows xs) (Shows ys) Any
            (when env (job.index == 0) (transition_to env applying) l1) _
            (when-Shows xs (job.index == 0) applying l1 h1)
            (λ u l2 h2.
              then_on-Holds (Shows xs) (Shows ys) Any (prepare_step env job l2) _
                (prepare_step-Shows xs job l2 h2)
                (λ p l3 h3.
                  then_on-Holds (Shows xs) (Shows ys) Any (apply_step env job p l3) _
                    (apply_step-Shows xs job p l3 h3)
                    (λ a l4 h4.
                      then_on-Holds (Shows ys) (Shows ys) Any (verify_step env job p a l4) _
                        (verify_step-Shows xs job p a l4 h4)
                        (λ v l5 h5. when-Shows ys (ltb (job.index + 1) n) applying l5 h5)))))

  pub run_steps-Shows :
      (xs : List StepResult) (n : ℕ) (jobs : List (Job T)) (l : Local T)
      → l.results ≡ xs
      → Holds (Shows (xs ++ verified_of jobs)) Any (run_steps env n jobs l)
  unfolding run_steps
  run_steps-Shows xs n [] l h = h ∙ sym (append-nil xs)
  run_steps-Shows xs n (job ∷ rest) l h =
      then_on-Holds (Shows (xs ++ verified_of (job ∷ []))) (Shows (xs ++ verified_of (job ∷ rest)))
        Any (run_step env n job l) _ (run_step-Shows xs n job l h)
        (λ u l1 h1.
          subst (λ ys. Holds (Shows ys) Any (run_steps env n rest l1))
            (append_assoc xs (verified_of (job ∷ [])) (verified_of rest))
            (run_steps-Shows (xs ++ verified_of (job ∷ [])) n rest l1 h1))
