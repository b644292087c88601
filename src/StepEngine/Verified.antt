-- ===== src/StepEngine/Verified.antt =====
-- What Run of internal/mod/migration/engine.go has done where it returns no error, whatever calls
-- fail and whenever the context is cancelled.
use meshium.Prelude.{
  ℕ, suc, ◌≡◌, refl, ap, subst, false, List, [], ◌∷◌, Option, arith, length, Bool-cases,
  Option-cases, inl, inr, All,
}
use meshium.State.{
  MigrationState, created, planning, backup, snapshot, transferring, committed, state_string,
}
use meshium.StepEngine.{
  StepState, MigrationStep, World, Job, StepResult, Local, Result, ok, err, Env,
}
use meshium.StepEngine.Repo.{create_step}
use meshium.StepEngine.Run.{run_steps, create_steps, connect, run_jobs, load, start, run, report}
use meshium.StepEngine.Rollback.{transition_to}
use meshium.StepEngine.Loop.{Holds, then_on-Holds}
use meshium.StepEngine.Passed.{IsPassed, both-Holds, run-IsPassed}
use meshium.StepEngine.Shown.{
  all_verified, verified_of, Any, Shows, transition_to-Shows, moved-Shows, run_steps-Shows,
}

module _ {T : Type 0} (env : Env) where
  create_steps-Shows :
      (xs : List StepResult) (k : ℕ) (steps : List (MigrationStep T)) (l : Local T)
      → l.results ≡ xs
      → Holds
          (λ jobs l'. (verified_of jobs ≡ all_verified k steps) × (l'.results ≡ xs))
          (Any env)
          (create_steps env k steps l)
  unfolding create_steps
  create_steps-Shows xs k [] l h = (refl, h)
  create_steps-Shows xs k (step ∷ rest) l h =
      let made : Option ℕ × World T = create_step env step.name k l.world in
      elim (Option-cases made.0) [
        | inl e ↦ rw e tt
        | inr (id, e) ↦ rw e (
            then_on-Holds
              (λ jobs l'. (verified_of jobs ≡ all_verified (suc k) rest) × (l'.results ≡ xs))
              (λ jobs l'. (verified_of jobs ≡ all_verified k (step ∷ rest)) × (l'.results ≡ xs))
              (Any env) (create_steps env (suc k) rest (record l { world = made.1 }))
              (λ jobs l'. (ok (record { index = k; id = id; step = step } ∷ jobs), l'))
              (create_steps-Shows xs (suc k) rest (record l { world = made.1 }) h)
              (λ jobs l' q. (
                ap
                    (λ x.
                      record {
                        name = step.name;
                        index = k;
                        state = StepState.verified;
                        skipped = false;
                      }
                      ∷ x)
                    q.0,
                q.1,
              )))
      ]

  connect-Shows :
      (xs : List StepResult) (l : Local T)
      → l.results ≡ xs
      → Holds (Shows env xs) (Any env) (connect env l)
  unfolding connect
  connect-Shows xs l h = ground (arith, h)

  -- What Run shows where it returns no error: the commit, and every step verified.
  abbrev pub IsCommitted : List StepResult → Local T → Type 0
  IsCommitted xs l =
      (l.results ≡ xs) × (l.sm.state ≡ committed) × (l.world.state ≡ state_string committed)

  run_jobs-IsCommitted :
      (jobs : List (Job T)) (l : Local T)
      → l.results ≡ []
      → Holds (λ _. IsCommitted (verified_of jobs)) (Any env) (run_jobs env jobs l)
  unfolding run_jobs
  run_jobs-IsCommitted jobs l h =
      let Q : Unit {0} → Local T → Type 0 = λ _. IsCommitted (verified_of jobs) in
      let go : (to : MigrationState) (l' : Local T)
          → l'.results ≡ []
          → Holds (Shows env []) (Any env) (transition_to env to l') =
        λ to l' h'.
          moved-Shows env [] to (transition_to env to l') (transition_to-Shows env [] to l' h') in
      then_on-Holds (Shows env []) Q (Any env) (transition_to env planning l) _ (go planning l h)
        (λ u l1 h1.
          then_on-Holds (Shows env []) Q (Any env) (transition_to env backup l1) _ (go backup l1 h1)
            (λ u l2 h2.
              then_on-Holds (Shows env []) Q (Any env) (connect env l2) _ (connect-Shows [] l2 h2)
                (λ u l3 h3.
                  then_on-Holds (Shows env []) Q (Any env) (transition_to env snapshot l3) _
                    (go snapshot l3 h3)
                    (λ u l4 h4.
                      then_on-Holds (Shows env []) Q (Any env) (transition_to env transferring l4) _
                        (go transferring l4 h4)
                        (λ u l5 h5.
                          then_on-Holds (Shows env (verified_of jobs)) Q (Any env)
                            (run_steps env (length jobs) jobs l5) _
                            (run_steps-Shows env [] (length jobs) jobs l5 h5)
                            (λ u l6 h6.
                              transition_to-Shows env (verified_of jobs) committed l6 h6))))))

  report-IsCommitted :
      (xs : List StepResult) (x : Result (Unit {0}) × Local T)
      → Holds (λ _. IsCommitted xs) (Any env) x
      → Holds
          (λ _ l. IsCommitted xs l × (l.final_state ≡ committed))
          (Any env)
          (report env (λ _. x) x.1)
  unfolding report
  report-IsCommitted xs (ok a, l) h = (h, h.1)
  report-IsCommitted xs (err e, l) h = h

  load-Shows : (w : World T) → Holds (Shows env []) (Any env) (load env (start env created w))
  unfolding load start
  load-Shows w = elim (Bool-cases (env.fails w.calls)) [
    | inl lost ↦ rw lost tt
    | inr found ↦ rw found refl
  ]

  run-committed :
      (steps : List (MigrationStep T)) (w : World T)
      → Holds
          (λ _ l. IsCommitted (all_verified 0 steps) l × (l.final_state ≡ committed))
          (Any env)
          (run env steps w)
  unfolding run
  run-committed steps w =
      let Q : Unit {0} → Local T → Type 0 =
        λ _ l. IsCommitted (all_verified 0 steps) l × (l.final_state ≡ committed) in
      then_on-Holds (Shows env []) Q (Any env) (load env (start env created w)) _ (load-Shows w)
        (λ u l h.
          then_on-Holds (λ jobs l'. (verified_of jobs ≡ all_verified 0 steps) × (l'.results ≡ [])) Q
            (Any env) (create_steps env 0 steps l) _ (create_steps-Shows [] 0 steps l h)
            (λ jobs l' q. report-IsCommitted (all_verified 0 steps) (run_jobs env jobs l') (
              subst (λ xs. Holds (λ _. IsCommitted xs) (Any env) (run_jobs env jobs l')) q.0
                (run_jobs-IsCommitted jobs l' q.1))))

  -- Whatever calls fail and whenever the context is cancelled, a run without an error has committed
  -- in the machine, in the row and in its result, lists each step, in order, as verified, and for each
  -- step a call of its Verify has returned no error.
  pub run-IsCommitted :
      (steps : List (MigrationStep T)) (w : World T)
      → Holds
          (λ _ l.
            (IsCommitted (all_verified 0 steps) l × (l.final_state ≡ committed))
            × All IsPassed steps)
          (Any env)
          (run env steps w)
  run-IsCommitted steps w =
      both-Holds env (λ _ l. IsCommitted (all_verified 0 steps) l × (l.final_state ≡ committed))
        (λ _ _. All IsPassed steps) (run env steps w) (run-committed steps w)
        (run-IsPassed env steps w)
