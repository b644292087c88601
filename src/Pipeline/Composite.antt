-- ===== src/Pipeline/Composite.antt =====
-- What a run of Execute keeps (internal/mod/migration/pipeline.go), from what its single calls keep.
use meshium.Prelude.{
  ℕ, zero, suc, false, ◌≡◌, ◌≢◌, refl, String, List, [], ◌∷◌, arith, reverse, length,
}
use text.Mathlib.Text.{◌==◌ as str_eq}
use meshium.State.{
  MigrationState, committed, interrupted, failed, rollback, paused, rolled_back,
  needs_manual_intervention, state_eq,
}
use meshium.State.Machine.{StateMachine, transition}
use meshium.Pipeline.{World, M, running, completed, AuditEntry, StageState}
use meshium.Pipeline.Repo.{
  Env, set_migration_state, set_migration_state_background, update_migration_status,
  set_migration_completed_at, create_audit_entry, get_completed_stages, create_stage,
  update_stage_state, increment_stage_attempt, load_state, get_migration_state, load_migration,
  StageResult, done,
}
use meshium.Pipeline.Verbs.{allows, pause, pause_from}
use meshium.Pipeline.Run
use meshium.Pipeline.Keeps.{
  Keeps, Any, Keeps-bind, Keeps-then, Keeps-attempt, Keeps-pure, Keeps-fail, Keeps-ensure, Keeps-if,
}

-- The single calls of a run keep `P`, those apart that write Committed or complete a stage.
pub record Primitives (env : Env) (P : World → Type 0) : Type 0 where
  pub set : (s : MigrationState) → s ≢ committed → Keeps P Any (set_migration_state env s)
  pub set_background : Keeps P Any (set_migration_state_background env interrupted)
  pub update_status :
      (s e : String) → str_eq s "completed" ≡ false → Keeps P Any (update_migration_status env s e)
  pub completed_at : Keeps P Any (set_migration_completed_at env)
  pub audit : (a : AuditEntry) → Keeps P Any (create_audit_entry env a)
  pub completed_stages : Keeps P Any (get_completed_stages env)
  pub load_migration : Keeps P Any (load_migration env)
  pub get_state : Keeps P Any (get_migration_state env)
  pub load_state : Keeps P Any (load_state env)
  pub create_stage : (n : String) (i : ℕ) → Keeps P Any (create_stage env n i)
  pub stage_state :
      (n : String) (s : StageState) (e : String)
      → s ≢ completed
      → Keeps P Any (update_stage_state env n s e)
  pub increment : (n : String) → Keeps P Any (increment_stage_attempt env n)
  pub is_cancelled : Keeps P Any (Run.is_cancelled env)
  pub run_handler : (n : String) → Keeps P Any (Run.run_handler env n)
  pub undo_handler : (n : String) → Keeps P Any (Run.undo_handler env n)

terminal_not_committed : (e : Run.RollbackError) → Run.rollback_terminal_state e ≢ committed
unfolding Run.rollback_terminal_state
terminal_not_committed e h = ground arith

module _ (env : Env) {P : World → Type 0} (prims : Primitives env P) where
  Keeps-pause : Keeps P Any (pause env)
  unfolding pause pause_from
  Keeps-pause = Keeps-bind prims.load_state λ s _.
      Keeps-if (state_eq s paused) (λ _. Keeps-pure tt)
        λ _. Keeps-then (Keeps-ensure (allows s paused) _) (
          Keeps-then (prims.set paused (λ e. cc))
            (Keeps-then (Keeps-attempt (prims.audit _)) (Keeps-pure tt)))

  -- A stopped run marks the migration interrupted.
  Keeps-interrupt : Keeps P Any (Run.interrupt_pipeline env)
  unfolding Run.interrupt_pipeline
  Keeps-interrupt =
      Keeps-then (Keeps-attempt prims.set_background)
        (Keeps-then (Keeps-attempt (prims.update_status _ _ refl)) (Keeps-pure tt))

  Keeps-fail_pipeline : Keeps P Any (Run.fail_pipeline env)
  unfolding Run.fail_pipeline
  Keeps-fail_pipeline =
      Keeps-then (Keeps-attempt (prims.set failed (λ e. cc)))
        (Keeps-then (Keeps-attempt (prims.update_status _ _ refl)) (Keeps-pure tt))

  Keeps-undo_all :
      (handlers : List String) (e : Run.RollbackError) (l : List String)
      → Keeps P Any (Run.undo_all env handlers e l)
  unfolding Run.undo_all
  Keeps-undo_all handlers e [] = Keeps-pure tt
  Keeps-undo_all handlers e (name ∷ rest) =
      Keeps-if (Run.contains name handlers)
        (λ _.
          Keeps-bind (prims.undo_handler name) λ r _. Keeps-undo_all handlers (Run.join e r) rest)
        λ _. Keeps-undo_all handlers e rest

  Keeps-finish_rollback :
      (sm : StateMachine) (e : Run.RollbackError) → Keeps P Any (Run.finish_rollback env sm e)
  unfolding Run.finish_rollback Run.note_rolled_back
  Keeps-finish_rollback sm e =
      let terminal = Run.rollback_terminal_state e in
      Keeps-if (transition sm terminal).1
        (λ _. Keeps-then (Keeps-attempt (prims.set terminal (terminal_not_committed e))) (
          Keeps-if (state_eq terminal rolled_back)
            (λ _. Keeps-then (Keeps-attempt prims.completed_at) (Keeps-pure tt))
            λ _. Keeps-pure tt))
        λ _.
          Keeps-then (Keeps-attempt (prims.set needs_manual_intervention (λ q. cc))) (Keeps-pure tt)

  Keeps-rollback_pipeline :
      (handlers : List String) (sm : StateMachine)
      → Keeps P Any (Run.rollback_pipeline env handlers sm)
  unfolding Run.rollback_pipeline
  Keeps-rollback_pipeline handlers sm = Keeps-then (Keeps-attempt (prims.set failed (λ q. cc))) (
      Keeps-then (Keeps-attempt (prims.set rollback (λ q. cc))) (
        Keeps-bind prims.completed_stages λ l _. Keeps-then prims.load_migration (
          Keeps-then (Keeps-ensure env.connects _) (
            Keeps-bind (Keeps-undo_all handlers Run.no_error (reverse l))
              λ e _. Keeps-finish_rollback _ e))))

  Keeps-settle :
      (used : ℕ) (r : StageResult) {again : M Run.StageOutcome}
      → Keeps P Any again
      → Keeps P Any (Run.settle env used r again)
  unfolding Run.settle
  Keeps-settle used done h = Keeps-pure tt
  Keeps-settle used _ h =
      Keeps-bind prims.is_cancelled λ c _. Keeps-if c (λ _. Keeps-pure tt) (λ _. h)

  Keeps-one_attempt :
      (name : String) (used : ℕ) (again : StageResult → M Run.StageOutcome)
      → ((r : StageResult) → Keeps P Any (again r))
      → Keeps P Any (Run.one_attempt env name used again)
  unfolding Run.one_attempt
  Keeps-one_attempt name used again h =
      Keeps-bind (prims.run_handler name) λ r _. Keeps-settle used r (h r)

  Keeps-wait_and :
      (name : String) {again : M Run.StageOutcome}
      → Keeps P Any again
      → Keeps P Any (Run.wait_and env name again)
  unfolding Run.wait_and
  Keeps-wait_and name h =
      Keeps-then (Keeps-attempt (prims.increment name))
        (Keeps-bind prims.is_cancelled λ c _. Keeps-if c (λ _. Keeps-pure tt) (λ _. h))

  pub Keeps-try_stage :
      (name : String) (left used : ℕ) → Keeps P Any (Run.try_stage env name left used)
  unfolding Run.try_stage
  Keeps-try_stage name zero used =
      Keeps-one_attempt name used _ λ r. Keeps-pure {a = Run.last_outcome r} tt
  Keeps-try_stage name (suc left) used =
      Keeps-one_attempt name used _ λ r. Keeps-wait_and name (Keeps-try_stage name left (suc used))

  -- The outcomes that complete no stage.
  pub Keeps-broken :
      (handlers : List String) (sm : StateMachine) (name : String) (total : ℕ)
      → Keeps P Any (Run.record_outcome env handlers sm name total Run.failing)
        × Keeps P Any (Run.record_outcome env handlers sm name total Run.cancelled_run)
  unfolding Run.record_outcome
  Keeps-broken handlers sm name total = (
    Keeps-then (Keeps-attempt (prims.stage_state name StageState.failed _ (λ q. cc)))
        (Keeps-then (Keeps-attempt (Keeps-rollback_pipeline handlers sm)) Keeps-fail),
    Keeps-then Keeps-interrupt Keeps-fail,
  )

  Keeps-operator : (i : ℕ) → Keeps P Any (Run.operator env i)
  unfolding Run.operator
  Keeps-operator i =
      Keeps-if (env.pauses i) (λ _. Keeps-then (Keeps-attempt Keeps-pause) (Keeps-pure tt))
        (λ _. Keeps-pure tt)

  Keeps-connect : Keeps P Any (Run.connect env)
  unfolding Run.connect
  Keeps-connect =
      Keeps-if env.connects (λ _. Keeps-pure tt) (λ _. Keeps-then Keeps-fail_pipeline Keeps-fail)

  module _
      (outcomes : (handlers : List String) (sm : StateMachine) (name : String) (total : ℕ)
          (o : Run.StageOutcome)
        → Keeps P Any (Run.record_outcome env handlers sm name total o)) where
    Keeps-run_stage :
        (handlers : List String) (sm : StateMachine) (name : String) (i total : ℕ)
        → Keeps P Any (Run.run_stage env handlers sm name i total)
    unfolding Run.run_stage
    Keeps-run_stage handlers sm name i total = Keeps-then (prims.create_stage name i) (
        Keeps-then (Keeps-attempt (prims.stage_state name running _ (λ q. cc)))
          (Keeps-bind (Keeps-try_stage name _ 0) λ o _. outcomes handlers sm name total o))

    Keeps-go_on :
        {later : M Run.Progress} (p : Run.Progress)
        → Keeps P Any later
        → Keeps P Any (Run.go_on env later p)
    unfolding Run.go_on
    Keeps-go_on Run.all_stages h = h
    Keeps-go_on Run.stopped h = Keeps-pure tt

    Keeps-unpaused :
        (handlers : List String) (sm : StateMachine) (done_stages : List String) (name : String)
        (i total : ℕ) {later : M Run.Progress}
        → Keeps P Any later
        → Keeps P Any (Run.unpaused env handlers sm done_stages name i total later)
    unfolding Run.unpaused
    Keeps-unpaused handlers sm done_stages name i total h =
        Keeps-if (Run.contains name done_stages) (λ _. h)
          λ _. Keeps-bind (Keeps-run_stage handlers sm name i total) λ p _. Keeps-go_on p h

    Keeps-stage_round :
        (handlers : List String) (sm : StateMachine) (done_stages : List String) (name : String)
        (i total : ℕ) {later : M Run.Progress}
        → Keeps P Any later
        → Keeps P Any (Run.stage_round env handlers sm done_stages name i total later)
    unfolding Run.stage_round
    Keeps-stage_round handlers sm done_stages name i total h = Keeps-then (Keeps-operator i) (
        Keeps-bind prims.is_cancelled λ c _.
          Keeps-if c (λ _. Keeps-then Keeps-interrupt Keeps-fail)
            λ _. Keeps-bind (Keeps-attempt prims.get_state) λ s _.
              Keeps-if (Run.is_paused s) (λ _. Keeps-pure {a = Run.stopped} tt)
                λ _. Keeps-unpaused handlers sm done_stages name i total h)

    pub Keeps-run_stages :
        (handlers : List String) (sm : StateMachine) (done_stages : List String) (total i : ℕ)
        (l : List String)
        → Keeps P Any (Run.run_stages env handlers sm done_stages total i l)
    unfolding Run.run_stages
    Keeps-run_stages handlers sm done_stages total i [] = Keeps-pure tt
    Keeps-run_stages handlers sm done_stages total i (name ∷ rest) =
        Keeps-stage_round handlers sm done_stages name i total
          (Keeps-run_stages handlers sm done_stages total (suc i) rest)

    -- Up to the commit.
    pub Keeps-run_from :
        (handlers : List String) (sm : StateMachine)
        → ((p : Run.Progress) → Keeps P Any (Run.commit_run env sm p))
        → Keeps P Any (Run.run_from env handlers sm)
    unfolding Run.run_from
    Keeps-run_from handlers sm commits = Keeps-then (Keeps-attempt (prims.update_status _ _ refl)) (
        Keeps-then Keeps-connect (
          Keeps-bind (Keeps-attempt prims.completed_stages) λ l _.
            Keeps-bind (Keeps-run_stages handlers sm (Run.or_empty l) (length handlers) 0 handlers)
              λ p _. commits p))
