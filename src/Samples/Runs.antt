-- ===== src/Samples/Runs.antt =====
-- The pipeline (internal/mod/migration/pipeline.go, pipeline_lifecycle.go, pipeline_recovery.go), at
-- concrete inputs.
use meshium.Prelude.{◌≡◌, refl, none, some, List, [], ◌∷◌, String, reverse, inl, ◌++◌}
use meshium.State.{
  created, interrupted, failed, awaiting_cutover, rollback_degraded, needs_manual_intervention,
}
use meshium.State.Machine.{new_state_machine}
use meshium.Pipeline.{World, completed, StageCheckpoint}
use meshium.State.Machine.{state_from_string}
use meshium.Pipeline.Verbs.{allows}
use meshium.Pipeline.Repo.{
  decode, completed_names, load_state, get_migration_state, get_completed_stages,
  update_migration_status, set_migration_state, create_stage, update_stage_checkpoint,
  create_audit_entry, update_stage_state, set_migration_completed_at,
}
use meshium.Pipeline.Moves.{Outcome}
use meshium.Pipeline.Run
use meshium.Pipeline.Completes.{smooth, outstanding, Committed, execute-Committed}
use meshium.Pipeline.Durable.{Durable, execute-Durable}
use meshium.Pipeline.Operator.{committing, perform, Promise, perform-Outcome}
use meshium.Pipeline.Reverts.{faultless, handled, verdict, rollback_pipeline-verdict}
use meshium.Samples.Values.{faulty, finalizes, stage, migration, migration-Consistent}

abbrev checkpoint : StageCheckpoint
checkpoint = record { stage = "a"; attempt = 1; stage_total = 2 }

-- Stopped after its first stage.
abbrev half_done : World
half_done = migration interrupted (stage "a" completed (some checkpoint) ∷ [])

half_done_test :
    (Run.execute (smooth "now" 2 none finalizes) ("a" ∷ "b" ∷ "c" ∷ []) half_done).1.ran
    ≡ "b" ∷ "c" ∷ []
unfolding Run.execute decode load_state get_migration_state state_from_string allows
    Run.is_cancelled get_completed_stages update_migration_status set_migration_state
    completed_names create_stage Run.retries update_stage_checkpoint create_audit_entry
    update_stage_state set_migration_completed_at
half_done_test = refl

fresh_test :
    decode (Run.execute (smooth "now" 2 none finalizes) ("a" ∷ []) (migration created [])).1
    ≡ some needs_manual_intervention
unfolding Run.execute decode state_from_string load_state get_migration_state Run.is_cancelled
    get_completed_stages update_migration_status completed_names create_stage Run.retries
    update_stage_checkpoint new_state_machine set_migration_state
fresh_test = refl

execute-Committed_example :
    Committed
      (outstanding (completed_names half_done.stages) ("a" ∷ "b" ∷ []))
      half_done
      (Run.execute (smooth "now" 2 none finalizes) ("a" ∷ "b" ∷ []) half_done)
execute-Committed_example =
    execute-Committed "now" 2 none finalizes ("a" ∷ "b" ∷ []) interrupted half_done refl (inl refl)

execute-Durable_example : Durable (Run.execute faulty ("a" ∷ "b" ∷ []) half_done).1
execute-Durable_example =
    execute-Durable faulty ("a" ∷ "b" ∷ []) half_done (record { rows = (λ _. inl (λ e. cc e), tt) })

perform-Outcome_example :
    Outcome awaiting_cutover
      (Promise faulty committing awaiting_cutover)
      (perform faulty committing (migration awaiting_cutover []))
perform-Outcome_example =
    perform-Outcome faulty committing awaiting_cutover (migration awaiting_cutover [])
      (migration-Consistent awaiting_cutover [])

abbrev two_done : World
two_done = migration failed (stage "a" completed none ∷ stage "b" completed none ∷ [])

verdict_test :
    verdict faulty.undo_stage (handled ("a" ∷ "b" ∷ []) (reverse (completed_names two_done.stages)))
    ≡ rollback_degraded
unfolding verdict handled completed_names Run.contains
verdict_test = refl

rollback_pipeline-verdict_example :
    let v : World =
      (Run.rollback_pipeline
        (faultless faulty)
        ("a" ∷ "b" ∷ [])
        (new_state_machine failed)
        two_done).1 in
    let l : List String = handled ("a" ∷ "b" ∷ []) (reverse (completed_names two_done.stages)) in
    (decode v ≡ some (verdict faulty.undo_stage l)) × (v.undone ≡ two_done.undone ++ l)
rollback_pipeline-verdict_example =
    rollback_pipeline-verdict faulty ("a" ∷ "b" ∷ []) (new_state_machine failed) two_done
