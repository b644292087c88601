-- ===== src/Samples/Verbs.antt =====
-- Resume, Retry and Rollback (internal/mod/migration/pipeline_lifecycle.go), at concrete inputs.
use meshium.Prelude.{◌≡◌, refl, none, some, List, [], ◌∷◌, ◌++◌, String, reverse, if◌then◌else◌}
use meshium.State.{
  MigrationState, paused, failed, resuming, rolled_back, rollback_degraded, can_resume,
}
use meshium.Pipeline.{World, completed, err, cannot_resume}
use meshium.Pipeline.Repo.{decode, completed_names}
use meshium.Pipeline.Verbs.{allows}
use meshium.Pipeline.Completes.{smooth, outstanding, Committed}
use meshium.Pipeline.Reverts.{faultless, handled, any, is_broken}
use meshium.Pipeline.Resume.{resume, retry, roll_back}
use meshium.Pipeline.Manual.{resume-Committed, roll_back-verdict, retry_resuming}
use meshium.Samples.Values.{faulty, finalizes, stage, migration}

abbrev after_two : MigrationState → World
after_two s = migration s (stage "a" completed none ∷ stage "b" completed none ∷ [])

resume-Committed_example :
    Committed
      (outstanding (completed_names (after_two paused).stages) ("a" ∷ "b" ∷ "c" ∷ []))
      (after_two paused)
      (resume (smooth "now" 0 none finalizes) ("a" ∷ "b" ∷ "c" ∷ []) (after_two paused))
unfolding can_resume
resume-Committed_example =
    resume-Committed "now" 0 none finalizes ("a" ∷ "b" ∷ "c" ∷ []) paused (after_two paused) refl
      refl

roll_back-verdict_example :
    let v : World = (roll_back (faultless faulty) ("a" ∷ "b" ∷ []) (after_two failed)).1 in
    let l : List String =
      handled ("a" ∷ "b" ∷ []) (reverse (completed_names (after_two failed).stages)) in
    (decode v
      ≡ some
          (if any (λ n. is_broken (faulty.undo_stage n)) l then rollback_degraded else rolled_back))
    × (v.undone ≡ (after_two failed).undone ++ l)
unfolding allows
roll_back-verdict_example =
    roll_back-verdict faulty ("a" ∷ "b" ∷ []) failed (after_two failed) refl refl

retry_resuming_example :
    (retry (faultless faulty) ("a" ∷ []) (after_two resuming)).0 ≡ err (cannot_resume resuming)
retry_resuming_example = retry_resuming faulty ("a" ∷ []) (after_two resuming) refl
