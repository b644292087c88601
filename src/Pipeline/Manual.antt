-- ===== src/Pipeline/Manual.antt =====
-- What the operator's Resume, Retry and Rollback (internal/mod/migration/pipeline_lifecycle.go) come to
-- where no call of the database fails.
use meshium.Prelude.{
  ℕ, suc, ◌≡◌, refl, ◌∙◌, ap, true, false, ◌⊎◌, inl, inr, ◌||◌, if◌then◌else◌, String, Option, some,
  List, ◌++◌, reverse, arith,
}
use meshium.State.{
  MigrationState, state_string, state_eq, can_resume, interrupted, failed, resuming, committed,
  rollback, rolled_back, rollback_degraded,
}
use meshium.State.Machine.{is_valid_transition, transition, new_state_machine}
use meshium.State.Table.{can_resume-valid}
use meshium.Pipeline.{World, err, cannot_resume}
use meshium.Pipeline.Repo.{
  Env, decode, completed_names, load_state, load_migration, current_state, get_migration_state,
  set_migration_state, create_audit_entry, get_completed_stages, set_migration_completed_at,
}
use meshium.Pipeline.Verbs.{allows}
use meshium.Pipeline.Completes.{smooth, outstanding, Committed, decode_stored, execute-Committed}
use meshium.Pipeline.Reverts.{
  faultless, handled, undo_all-joined, any, is_broken, joined, joined-verdict, seen_error,
}
use meshium.Pipeline.Resume.{resume, retry, roll_back, finish_manual, as_text}
use meshium.Pipeline.Run

may_resume : (s : MigrationState) → can_resume s ≡ true → allows s resuming ≡ true
unfolding allows transition new_state_machine
may_resume s r = rw (can_resume-valid s, r) refl

resuming_commits : is_valid_transition resuming committed ≡ true
unfolding is_valid_transition
resuming_commits = refl

-- Nothing fails, and every stage answers that it is done: then Resume of an interrupted or paused
-- migration ends without an error and leaves it committed, and has run, in order, exactly the handlers
-- of the stages that were not completed before.
pub resume-Committed :
    (now : String) (n : ℕ) (config : Option String)
    (outcome : String → ℕ → Option (String × String)) (handlers : List String) (s : MigrationState)
    (w : World)
    → w.state ≡ state_string s
    → can_resume s ≡ true
    → Committed
        (outstanding (completed_names w.stages) handlers)
        w
        (resume (smooth now n config outcome) handlers w)
unfolding resume load_state load_migration current_state get_migration_state set_migration_state
resume-Committed now n config outcome handlers s w e r =
    rw (decode_stored s (record w { calls = suc (suc w.calls) }) e, r, may_resume s r)
      (execute-Committed now n config outcome handlers resuming _ refl (inr resuming_commits))

-- The same for Retry of an interrupted or a failed migration.
pub retry-Committed :
    (now : String) (n : ℕ) (config : Option String)
    (outcome : String → ℕ → Option (String × String)) (handlers : List String) (s : MigrationState)
    (w : World)
    → w.state ≡ state_string s
    → (s ≡ interrupted) ⊎ (s ≡ failed)
    → Committed
        (outstanding (completed_names w.stages) handlers)
        w
        (retry (smooth now n config outcome) handlers w)
unfolding retry load_state load_migration current_state get_migration_state can_resume allows
    transition is_valid_transition new_state_machine set_migration_state create_audit_entry
retry-Committed now n config outcome handlers s w e (inl p) =
    rw (decode_stored s (record w { calls = suc (suc w.calls) }) e, p)
      (resume-Committed now n config outcome handlers interrupted _ (e ∙ ap state_string p) refl)
retry-Committed now n config outcome handlers s w e (inr p) =
    rw (decode_stored s (record w { calls = suc (suc w.calls) }) e, p)
      (resume-Committed now n config outcome handlers interrupted _ refl refl)

not_rolled :
    (s : MigrationState)
    → allows s rollback ≡ true
    → (state_eq s rollback || state_eq s rolled_back) ≡ false
unfolding allows transition is_valid_transition new_state_machine state_eq
not_rolled s a = ground (arith, a)

finish_manual-verdict :
    (env : Env) (e : Run.RollbackError) (w : World)
    → let v : World = (finish_manual (faultless env) e w).1 in
      (decode v ≡ some (if seen_error e then rollback_degraded else rolled_back))
      × (v.undone ≡ w.undone)
unfolding finish_manual as_text Run.rollback_terminal_state allows transition is_valid_transition
    new_state_machine set_migration_state set_migration_completed_at
finish_manual-verdict env Run.no_error w = (decode_stored rolled_back _ refl, refl)
finish_manual-verdict env Run.some_error w = (decode_stored rollback_degraded _ refl, refl)
finish_manual-verdict env Run.unsafe_error w = (decode_stored rollback_degraded _ refl, refl)

-- With a database and a connection to the servers that work, and without a cancellation, Rollback from a
-- stored state that may be rolled back undoes the completed stages that have a handler, the last one first, going on past errors. The migration is then rolled
-- back if all of them went well, else degraded: also when a stage met an unsafe topology, which a
-- rollback by the pipeline leaves to the operator.
pub roll_back-verdict :
    (env : Env) (handlers : List String) (s : MigrationState) (w : World)
    → w.state ≡ state_string s
    → allows s rollback ≡ true
    → let v : World = (roll_back (faultless env) handlers w).1 in
      let l : List String = handled handlers (reverse (completed_names w.stages)) in
      (decode v
        ≡ some
            (if any (λ n. is_broken (env.undo_stage n)) l then rollback_degraded else rolled_back))
      × (v.undone ≡ w.undone ++ l)
unfolding roll_back load_state load_migration current_state get_migration_state set_migration_state
    get_completed_stages
roll_back-verdict env handlers s w e a =
    rw
      (
        decode_stored s (record w { calls = suc (suc w.calls) }) e,
        not_rolled s a,
        a,
        undo_all-joined (faultless env) handlers Run.no_error (reverse (completed_names w.stages)),
      )
      (let l : List String = handled handlers (reverse (completed_names w.stages)) in
        let (p, q) = finish_manual-verdict env (joined env.undo_stage Run.no_error l) _ in
        (
          p
              ∙ ap (λ b. some (if b then rollback_degraded else rolled_back))
                  (joined-verdict env.undo_stage Run.no_error l).1,
          q,
        ))

-- With a database that works, and without a cancellation, Retry of a migration that is stored as Resuming
-- is refused, although Retry lists that state: it hands it on to Resume, which does not take it.
pub retry_resuming :
    (env : Env) (handlers : List String) (w : World)
    → w.state ≡ state_string resuming
    → (retry (faultless env) handlers w).0 ≡ err (cannot_resume resuming)
unfolding retry resume can_resume load_state load_migration current_state get_migration_state
retry_resuming env handlers w e = rw (
  decode_stored resuming (record w { calls = suc (suc w.calls) }) e,
  decode_stored resuming (record w { calls = suc (suc (suc (suc w.calls))) }) e,
)
