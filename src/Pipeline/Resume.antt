-- ===== src/Pipeline/Resume.antt =====
-- The operator's verbs that run stages or their undo: Resume, Retry and Rollback
-- (internal/mod/migration/pipeline_lifecycle.go).
use meshium.Prelude.{Bool, true, false, ◌||◌, if◌then◌else◌, String, List, reverse}
use meshium.State.{
  MigrationState, state_eq, can_resume, interrupted, failed, resuming, rollback, rolled_back,
  needs_manual_intervention,
}
use meshium.Pipeline.{
  M, ◌>>=◌, ◌>>◌, pure, fail, attempt, ensure, cannot_resume, cannot_retry, cannot_transition,
  cannot_roll_back, cannot_connect, rollback_failed,
}
use meshium.Pipeline.Repo.{
  Env, load_state, set_migration_state, set_migration_completed_at, create_audit_entry,
  get_completed_stages,
}
use meshium.Pipeline.Verbs.{allows, by_user}
use meshium.Pipeline.Run.{
  RollbackError, no_error, some_error, execute, undo_all, rollback_terminal_state,
}

-- `fmt.Errorf("rollback failed: %s", …)` keeps the texts of the errors and not the errors, so that
-- errors.Is finds ErrUnsafeTopology in it no more.
unfoldable pub as_text : RollbackError → RollbackError
as_text no_error = no_error
as_text _ = some_error

abbrev is_clean : RollbackError → Bool
is_clean no_error = true
is_clean _ = false

module _ (env : Env) where
  unfoldable pub resume_from : List String → MigrationState → M (Unit {0})
  resume_from handlers s = do
    ensure (can_resume s) (cannot_resume s)
    ensure (allows s resuming) (cannot_transition resuming)
    attempt (set_migration_state env resuming)
    execute env handlers

  unfoldable pub resume : List String → M (Unit {0})
  unfolding resume_from
  resume handlers = do s ← load_state env; resume_from handlers s

  -- The `switch currentState` of Retry.
  unfoldable pub retry_from : List String → MigrationState → M (Unit {0})
  unfolding resume
  retry_from handlers interrupted = resume handlers
  retry_from handlers failed = do
    ensure (allows failed interrupted) (cannot_transition interrupted)
    set_migration_state env interrupted
    attempt (create_audit_entry env (by_user "migration_retried" failed interrupted))
    resume handlers
  retry_from handlers resuming = resume handlers
  retry_from handlers s = fail (cannot_retry s)

  unfoldable pub retry : List String → M (Unit {0})
  unfolding retry_from
  retry handlers = do s ← load_state env; retry_from handlers s

  -- The end of Rollback: with an error the terminal state is written as it is, without one by a
  -- validated transition.
  unfoldable pub finish_manual : RollbackError → M (Unit {0})
  unfolding as_text
  finish_manual e =
      if is_clean e
      then (if allows rollback rolled_back
          then (attempt (set_migration_state env rolled_back)
              >> (attempt (set_migration_completed_at env) >> pure tt))
          else (attempt (set_migration_state env needs_manual_intervention)
              >> fail (cannot_transition rolled_back)))
      else (attempt (set_migration_state env (rollback_terminal_state (as_text e)))
          >> fail rollback_failed)

  unfoldable pub roll_back_from : List String → MigrationState → M (Unit {0})
  unfolding finish_manual
  roll_back_from handlers s = do
    ensure (allows s rollback) (cannot_roll_back s)
    set_migration_state env rollback
    done_stages ← get_completed_stages env
    ensure env.connects cannot_connect
    e ← undo_all env handlers no_error (reverse done_stages)
    finish_manual e

  unfoldable pub roll_back : List String → M (Unit {0})
  unfolding roll_back_from
  roll_back handlers = do
    s ← load_state env
    if state_eq s rollback || state_eq s rolled_back then pure tt else roll_back_from handlers s
