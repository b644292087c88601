-- ===== src/StepEngine/Whole.antt =====
-- Run of internal/mod/migration/engine.go from the load of the migration to its end.
use meshium.Prelude.{
  ◌≢◌, ℕ, zero, suc, ◌+◌, ◌<◌, ◌≡◌, refl, sym, ◌∙◌, ap, subst, true, List, [], ◌⊎◌, inl, inr, arith,
  All, length,
}
use meshium.State.{
  MigrationState, created, planning, backup, snapshot, transferring, verifying, committed,
  state_string,
}
use meshium.State.Machine.{is_valid_transition, transition}
use meshium.StepEngine.{MigrationStep, World, Job, Local, Result, ok, err, Env}
use meshium.StepEngine.Repo.{tick, has_step, current_state, set_state, call_context, put_state}
use meshium.StepEngine.Run.{create_steps, connect, run_jobs, run_steps, load, start, run, report}
use meshium.StepEngine.Rollback.{transition_to}
use meshium.StepEngine.Rows.{IsNumbered, data_at}
use meshium.StepEngine.Undo.{calm, IsReversible, IsReverted, Undoes}
use meshium.StepEngine.Loop.{Holds, then_on-Holds, All-of, Before, Stops, transition_to-Before}
use meshium.StepEngine.Atomic.{AreJobs, state_before, run_steps-Before}
use meshium.StepEngine.Made.{
  AreDistinct, AnyBreaks, AnyBreaks-All, commits_from, goes_on, IsMade, create_steps-IsMade,
}

module _ {T : Type 0} (env : Env) (base n : ℕ) (t0 : T) (B : Type 0) where
  IsMade-Before :
      (l : Local T)
      → IsMade env base n t0 B n l
      → (l' : Local T) → l' ≡ l
      → Before base n t0 0 created l'
  IsMade-Before l m l' e = subst (Before base n t0 0 created) (sym e) (record {
    at = m.at;
    numbered = m.numbered;
    fresh = λ k low high. m.present k high;
    earlier = subst (All (λ job. job.index < 0)) (sym m.fresh_run) tt;
    count = ap length m.fresh_run;
    undoes =
        subst (λ jobs. Undoes l.world.rows jobs l.world.target t0) (sym m.fresh_run) m.target_is;
  })

  -- The end of a run that committed.
  abbrev pub IsDone : Local T → Type 0
  IsDone l =
      (l.sm.state ≡ committed)
      × (l.world.state ≡ state_string committed)
      × (length l.applied_steps ≡ n)
      × Undoes l.world.rows l.applied_steps l.world.target t0

  last_state :
      (k : ℕ)
      → (state_before env base n t0 B k [] ≡ transferring)
        ⊎ (state_before env base n t0 B k [] ≡ verifying)
  last_state zero = inl refl
  last_state (suc k) = inr refl

  commit-IsDone :
      (l : Local T)
      → Before base n t0 n (state_before env base n t0 B n []) l
      → Holds (λ _. IsDone) (Stops env base n t0 B) (transition_to (calm env) committed l)
  unfolding transition_to transition set_state call_context put_state tick
  commit-IsDone l b =
      let v : is_valid_transition l.sm.state committed ≡ true =
        ap (λ s. is_valid_transition s committed) b.at
        ∙ commits_from (state_before env base n t0 B n []) (last_state n) in
      rw v (refl, refl, b.count, b.undoes)

  run_jobs-IsDone :
      (jobs : List (Job T)) (l : Local T)
      → AreJobs env base n t0 B 0 jobs
      → length jobs ≡ n
      → Before base n t0 0 created l
      → Holds (λ _. IsDone) (Stops env base n t0 B) (run_jobs (calm env) jobs l)
  unfolding run_jobs connect
  run_jobs-IsDone jobs l a h b =
      let E = Stops env base n t0 B in
      let Q : MigrationState → Local T → Type 0 = Before base n t0 0 in
      let go = transition_to-Before env base n t0 B 0 in
      then_on-Holds (λ _. Q planning) (λ _. IsDone) E (transition_to (calm env) planning l) _
        (go created planning l goes_on.0 b)
        (λ u l1 b1.
          then_on-Holds (λ _. Q backup) (λ _. IsDone) E (transition_to (calm env) backup l1) _
            (go planning backup l1 goes_on.1 b1)
            (λ u l2 b2.
              then_on-Holds (λ _. Q snapshot) (λ _. IsDone) E (transition_to (calm env) snapshot l2)
                _ (go backup snapshot l2 goes_on.2 b2)
                (λ u l3 b3.
                  then_on-Holds (λ _. Q transferring) (λ _. IsDone) E
                    (transition_to (calm env) transferring l3) _
                    (go snapshot transferring l3 goes_on.3 b3)
                    (λ u l4 b4.
                      then_on-Holds (λ _. Before base n t0 n (state_before env base n t0 B n []))
                        (λ _. IsDone) E (run_steps (calm env) (length jobs) jobs l4) _
                        (subst
                          (λ k.
                            Holds (λ _. Before base n t0 n (state_before env base n t0 B n [])) E
                              (run_steps (calm env) k jobs l4))
                          (sym h)
                          (run_steps-Before env base n t0 B 0 jobs l4 a (omega (arith, h)) b4))
                        (λ u l5 b5. commit-IsDone l5 b5)))))

  start-IsMade :
      (l : Local T)
      → l.applied_steps ≡ []
      → l.world.target ≡ t0
      → l.sm.state ≡ created
      → l.world.rows ≡ []
      → base ≡ suc l.world.last_id
      → IsMade env base n t0 B 0 l
  unfolding data_at
  start-IsMade l a t s e b = record {
    fresh_run = a;
    target_is = t;
    at = s;
    numbered = subst (IsNumbered base) (sym e) tt;
    next_is = omega (arith, b);
    present = λ j h. ground (arith, h);
    absent = λ j h. rw e refl;
  }

  report-Holds :
      (x : Result (Unit {0}) × Local T)
      → Holds (λ _. IsDone) (Stops env base n t0 B) x
      → Holds
          (λ _ l. IsDone l × (l.final_state ≡ l.sm.state))
          (λ l. Stops env base n t0 B l × (l.final_state ≡ l.sm.state))
          (report (calm env) (λ _. x) x.1)
  unfolding report
  report-Holds (ok a, l) h = (h, refl)
  report-Holds (err e, l) h = (h, refl)

-- How a run ends: committed, with every step applied and its rollback at hand, or with the target
-- as it was, and then some step breaks.
abbrev pub IsAtomic :
    {T : Type 0} → Env → List (MigrationStep T) → T → Result (Unit {0}) × Local T → Type 0
IsAtomic env steps t0 (r, l) =
    (l.final_state ≡ l.sm.state)
    × (((r ≡ ok tt) × IsDone env 0 (length steps) t0 (Unit {0}) l)
        ⊎ ((r ≢ ok tt) × IsReverted env t0 l × AnyBreaks steps))

ends_atomically :
    {T : Type 0} (env : Env) (base : ℕ) (steps : List (MigrationStep T)) (t0 : T)
    (x : Result (Unit {0}) × Local T)
    → Holds
        (λ _ l.
          IsDone env base (length steps) t0 (AnyBreaks steps) l × (l.final_state ≡ l.sm.state))
        (λ l. Stops env base (length steps) t0 (AnyBreaks steps) l × (l.final_state ≡ l.sm.state))
        x
    → IsAtomic env steps t0 x
ends_atomically env base steps t0 (ok tt, l) (d, f) = (f, inl (refl, d))
ends_atomically env base steps t0 (err e, l) ((r, b), f) = (f, inr (λ h. ground arith, r, b))

-- Run is atomic for steps that keep a law, which the interface of a step does not ask for: Prepare and
-- Verify change nothing, an Apply that fails has changed nothing, and Rollback with the data of the Apply
-- succeeds and undoes it. Take such steps, of different names, a migration without step rows that
-- is in Created, and a database, connections and a context that never fail. Then the run either
-- succeeds, is committed in the machine and in the row, has applied every step, and the rollbacks of
-- its steps with their stored data would lead back to the first target; or it returns an error, the
-- target is as it was before, machine and row agree on Failed or RolledBack, and a phase of some step
-- can fail. The result reports the state of the machine.
pub run-IsAtomic :
    {T : Type 0} (env : Env) (steps : List (MigrationStep T)) (w : World T)
    → All IsReversible steps
    → AreDistinct steps
    → w.rows ≡ []
    → (current_state (calm env) w).0 ≡ created
    → IsAtomic env steps w.target (run (calm env) steps w)
unfolding run load tick current_state start has_step
run-IsAtomic {T} env steps w r d empty at =
    let base : ℕ = suc w.last_id in
    let n : ℕ = length steps in
    let B : Type 0 = AnyBreaks steps in
    ends_atomically env base steps w.target (run (calm env) steps w) (
      then_on-Holds
        (λ jobs l'.
          AreJobs env base n w.target B 0 jobs
          × (length jobs ≡ n)
          × IsMade env base n w.target B (0 + n) l')
        (λ _ l. IsDone env base n w.target B l × (l.final_state ≡ l.sm.state))
        (λ l. Stops env base n w.target B l × (l.final_state ≡ l.sm.state))
        (create_steps (calm env) 0 steps (load (calm env) (start (calm env) created w)).1) _
        (create_steps-IsMade env base n w.target B _ 0 steps
          (load (calm env) (start (calm env) created w)).1 (AnyBreaks-All B steps r (λ b. b)) d
          (All-of _ steps (λ step. rw empty refl))
          (start-IsMade env base n w.target B (load (calm env) (start (calm env) created w)).1 refl
            refl at empty refl))
        (λ jobs l' q.
          let (a, len, m) = q in
          report-Holds env base n w.target B (run_jobs (calm env) jobs l') (
            run_jobs-IsDone env base n w.target B jobs l' a len (
              IsMade-Before env base n w.target B l'
                (subst (λ k. IsMade env base n w.target B k l') (omega arith) m) l' refl))))
