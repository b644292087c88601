-- ===== src/StepEngine/Passed.antt =====
-- The calls of Verify in a run of internal/mod/migration/engine.go that ends without an error.
use meshium.Prelude.{
  ℕ, suc, ◌≡◌, refl, false, List, [], ◌∷◌, String, Option, none, some, ◌==◌, length, All,
  Bool-cases, Option-cases, inl, inr,
}
use meshium.State.{created, planning, backup, snapshot, transferring, applying, verifying}
use meshium.StepEngine.{
  StepState, StepContext, MigrationStep, World, Job, Local, Error, Result, ok, err, Env, M, then_on,
  verify_failed,
}
use meshium.StepEngine.Repo.{create_step}
use meshium.StepEngine.Run.{
  set_step_state, add_result, break_off, or_break_off, do_phase, check_context, when, prepare_step,
  apply_step, verify_step, run_step, run_steps, create_steps, connect, run_jobs, load, start, run,
  report,
}
use meshium.StepEngine.Rollback.{transition_to, run_phase}
use meshium.StepEngine.Loop.{Holds, then_on-Holds}
use meshium.StepEngine.Shown.{Any}

-- A call of the step's Verify has returned no error.
abbrev pub IsPassed : {T : Type 0} → MigrationStep T → Type 0
IsPassed {T} step =
    (c : StepContext) × (t : T) × (text : String) × ((step.verify c t).0 ≡ some text)

module _ {T : Type 0} (env : Env) where
  pub both-Holds :
      {A : Type 0} (P Q : A → Local T → Type 0) (x : Result A × Local T)
      → Holds P (Any env) x
      → Holds Q (Any env) x
      → Holds (λ a l. P a l × Q a l) (Any env) x
  both-Holds P Q (ok a, l) p q = (p, q)
  both-Holds P Q (err e, l) p q = tt

  -- What a result promises by itself.
  const-Holds :
      {A : Type 0} (P : Type 0) (x : Result A × Local T) → P → Holds (λ _ _. P) (Any env) x
  const-Holds P (ok a, l) p = p
  const-Holds P (err e, l) p = tt

  imp-Holds :
      {A : Type 0} (P Q : Type 0) (x : Result A × Local T)
      → (P → Q)
      → Holds (λ _ _. P) (Any env) x
      → Holds (λ _ _. Q) (Any env) x
  imp-Holds P Q (ok a, l) f p = f p
  imp-Holds P Q (err e, l) f p = tt

  -- What holds after the second part, whatever the first one did.
  last-Holds :
      {A B : Type 0} (Q : B → Local T → Type 0) (r : Result A × Local T) (f : A → M T B)
      → ((a : A) (l : Local T) → Holds Q (Any env) (f a l))
      → Holds Q (Any env) (then_on r.0 f r.1)
  last-Holds Q (ok a, l) f h = h a l
  last-Holds Q (err e, l) f h = tt

  -- And the other way round.
  first-Holds :
      {A B : Type 0} (P : Type 0) (r : Result A × Local T) (f : A → M T B)
      → Holds (λ _ _. P) (Any env) r
      → Holds (λ _ _. P) (Any env) (then_on r.0 f r.1)
  first-Holds P (ok a, l) f p = const-Holds P (f a l) p
  first-Holds P (err e, l) f p = tt

  or_break_off-answered :
      (job : Job T) (e : Error) (o : Option String) (l : Local T)
      → Holds (λ text _. o ≡ some text) (Any env) (or_break_off env job e o l)
  unfolding break_off
  or_break_off-answered job e none l =
      let l' : Local T =
        (add_result env job StepState.failed false
          (set_step_state env job StepState.failed l).1).1 in
      elim (Bool-cases (env.cancelled_at l'.world.calls)) [
        | inl gone ↦ rw gone tt
        | inr there ↦ rw there tt
      ]
  or_break_off-answered job e (some text) l = refl

  or_break_off-IsPassed :
      (job : Job T) (e : Error) (c : StepContext) (t : T) (l : Local T)
      → Holds
          (λ _ _. IsPassed job.step)
          (Any env)
          (or_break_off env job e (job.step.verify c t).0 l)
  or_break_off-IsPassed job e c t l =
      passed (or_break_off env job e (job.step.verify c t).0 l)
        (or_break_off-answered job e (job.step.verify c t).0 l)
    where
      passed :
          (x : Result String × Local T)
          → Holds (λ text _. (job.step.verify c t).0 ≡ some text) (Any env) x
          → Holds (λ _ _. IsPassed job.step) (Any env) x
      passed (ok text, l') h = (c, t, text, h)
      passed (err e', l') h = tt

  do_phase-IsPassed :
      (job : Job T) (s : StepState) (e : Error) (p a : String) (l : Local T)
      → Holds (λ _ _. IsPassed job.step) (Any env) (do_phase env job s e job.step.verify p a l)
  unfolding do_phase set_step_state run_phase
  do_phase-IsPassed job s e p a l = or_break_off-IsPassed job e _ _ _

  verify_step-IsPassed :
      (job : Job T) (p a : String) (l : Local T)
      → Holds (λ _ _. IsPassed job.step) (Any env) (verify_step env job p a l)
  unfolding verify_step
  verify_step-IsPassed job p a l =
      last-Holds (λ _ _. IsPassed job.step) (transition_to env verifying l) _
        (λ u l1.
          first-Holds (IsPassed job.step)
            (do_phase env job StepState.verifying (verify_failed job.step.name) job.step.verify p a
              l1)
            _ (do_phase-IsPassed job StepState.verifying (verify_failed job.step.name) p a l1))

  run_step-IsPassed :
      (n : ℕ) (job : Job T) (l : Local T)
      → Holds (λ _ _. IsPassed job.step) (Any env) (run_step env n job l)
  unfolding run_step
  run_step-IsPassed n job l =
      last-Holds (λ _ _. IsPassed job.step) (check_context env l) _
        (λ u l1.
          last-Holds (λ _ _. IsPassed job.step)
            (when env (job.index == 0) (transition_to env applying) l1) _
            (λ u l2.
              last-Holds (λ _ _. IsPassed job.step) (prepare_step env job l2) _
                (λ p l3.
                  last-Holds (λ _ _. IsPassed job.step) (apply_step env job p l3) _
                    (λ a l4.
                      first-Holds (IsPassed job.step) (verify_step env job p a l4) _
                        (verify_step-IsPassed job p a l4)))))

  run_steps-IsPassed :
      (n : ℕ) (jobs : List (Job T)) (l : Local T)
      → Holds (λ _ _. All (λ job. IsPassed job.step) jobs) (Any env) (run_steps env n jobs l)
  unfolding run_steps
  run_steps-IsPassed n [] l = tt
  run_steps-IsPassed n (job ∷ rest) l =
      let all : Type 0 = All (λ job. IsPassed job.step) rest in
      then_on-Holds (λ _ _. IsPassed job.step) (λ _ _. IsPassed job.step × all) (Any env)
        (run_step env n job l) _ (run_step-IsPassed n job l)
        (λ u l1 p.
          imp-Holds all (IsPassed job.step × all) (run_steps env n rest l1) (λ q. (p, q))
            (run_steps-IsPassed n rest l1))

  -- The jobs are made of the steps.
  create_steps-IsPassed :
      (k : ℕ) (steps : List (MigrationStep T)) (l : Local T)
      → Holds
          (λ jobs _. All (λ job. IsPassed job.step) jobs → All IsPassed steps)
          (Any env)
          (create_steps env k steps l)
  unfolding create_steps
  create_steps-IsPassed k [] l = λ h. tt
  create_steps-IsPassed k (step ∷ rest) l =
      let made : Option ℕ × World T = create_step env step.name k l.world in
      elim (Option-cases made.0) [
        | inl e ↦ rw e tt
        | inr (id, e) ↦ rw e (
            then_on-Holds (λ jobs _. All (λ job. IsPassed job.step) jobs → All IsPassed rest)
              (λ jobs _. All (λ job. IsPassed job.step) jobs → All IsPassed (step ∷ rest)) (Any env)
              (create_steps env (suc k) rest (record l { world = made.1 }))
              (λ jobs l'. (ok (record { index = k; id = id; step = step } ∷ jobs), l'))
              (create_steps-IsPassed (suc k) rest (record l { world = made.1 }))
              (λ jobs l' f (p, q). (p, f q)))
      ]

  run_jobs-IsPassed :
      (jobs : List (Job T)) (l : Local T)
      → Holds (λ _ _. All (λ job. IsPassed job.step) jobs) (Any env) (run_jobs env jobs l)
  unfolding run_jobs
  run_jobs-IsPassed jobs l =
      let P : Type 0 = All (λ job. IsPassed job.step) jobs in
      last-Holds (λ _ _. P) (transition_to env planning l) _
        (λ u l1.
          last-Holds (λ _ _. P) (transition_to env backup l1) _
            (λ u l2.
              last-Holds (λ _ _. P) (connect env l2) _
                (λ u l3.
                  last-Holds (λ _ _. P) (transition_to env snapshot l3) _
                    (λ u l4.
                      last-Holds (λ _ _. P) (transition_to env transferring l4) _
                        (λ u l5.
                          first-Holds P (run_steps env (length jobs) jobs l5) _
                            (run_steps-IsPassed (length jobs) jobs l5))))))

  report-IsPassed :
      (P : Type 0) (x : Result (Unit {0}) × Local T)
      → Holds (λ _ _. P) (Any env) x
      → Holds (λ _ _. P) (Any env) (report env (λ _. x) x.1)
  unfolding report
  report-IsPassed P (ok a, l) h = h
  report-IsPassed P (err e, l) h = h

  pub run-IsPassed :
      (steps : List (MigrationStep T)) (w : World T)
      → Holds (λ _ _. All IsPassed steps) (Any env) (run env steps w)
  unfolding run
  run-IsPassed steps w =
      last-Holds (λ _ _. All IsPassed steps) (load env (start env created w)) _
        (λ u l.
          then_on-Holds (λ jobs _. All (λ job. IsPassed job.step) jobs → All IsPassed steps)
            (λ _ _. All IsPassed steps) (Any env) (create_steps env 0 steps l) _
            (create_steps-IsPassed 0 steps l)
            (λ jobs l' f. report-IsPassed (All IsPassed steps) (run_jobs env jobs l') (
              imp-Holds (All (λ job. IsPassed job.step) jobs) (All IsPassed steps)
                (run_jobs env jobs l') f (run_jobs-IsPassed jobs l'))))
