-- ===== src/Pipeline/Durable.antt =====
-- In a run of Execute (internal/mod/migration/pipeline.go) no stage is marked completed before its
-- checkpoint is stored.
use meshium.Prelude.{
  ℕ, suc, ◌≡◌, ◌≢◌, refl, ◌⊎◌, inl, inr, subst, sym, suc, String, none, some, List, [], ◌∷◌,
  Bool-cases, arith, All,
}
use text.Mathlib.Text.{◌==◌ as str_eq}
use meshium.State.{
  MigrationState, committed, interrupted, awaiting_cutover, state_eq, resuming,
  needs_manual_intervention,
}
use meshium.State.Machine.{StateMachine, transition, new_state_machine}
use meshium.Pipeline.{
  World, Stage, StageState, StageCheckpoint, M, ◌>>◌, pure, attempt, completed, AuditEntry,
  cannot_transition, ok,
}
use meshium.Pipeline.Verbs.{allows}
use meshium.Pipeline.Repo.{
  Env, upsert, update, set_migration_state, set_migration_state_background, update_migration_status,
  set_migration_completed_at, create_audit_entry, get_completed_stages, create_stage,
  update_stage_state, update_stage_checkpoint, increment_stage_attempt, load_state,
  get_migration_state, load_migration, current_state, call_ctx,
}
use meshium.Pipeline.Run
use meshium.Pipeline.Composite.{Primitives, Keeps-broken, Keeps-run_from}
use meshium.Pipeline.Keeps.{
  Keeps, Any, Keeps-bind, Keeps-then, Keeps-attempt, Keeps-pure, Keeps-fail, Keeps-ensure, Keeps-if,
  Keeps-by, Keeps-two, Keeps-final,
}

-- A completed stage has its checkpoint, or is the one at which the run stopped for the operator.
abbrev pub HasEvidence : Stage → Type 0
HasEvidence s = s.state ≡ completed → (s.checkpoint_data ≢ none) ⊎ (s.error ≡ "awaiting_cutover")

pub record Durable (w : World) : Type 0 where
  pub rows : All HasEvidence w.stages

update_evidence :
    (f : Stage → Stage) (name : String)
    → ((s : Stage) → HasEvidence s → HasEvidence (f s))
    → (l : List Stage) → All HasEvidence l
    → All HasEvidence (update f name l)
unfolding update
update_evidence f name h [] a = tt
update_evidence f name h (s ∷ rest) (e, a) = elim (Bool-cases (str_eq s.stage_name name)) [
  | inl q ↦ rw q (h s e, a)
  | inr q ↦ rw q (e, update_evidence f name h rest a)
]

upsert_evidence :
    (name : String) (i : ℕ) (l : List Stage) → All HasEvidence l → All HasEvidence (upsert name i l)
unfolding upsert
upsert_evidence name i [] a = (λ e. cc, tt)
upsert_evidence name i (s ∷ rest) (e, a) = elim (Bool-cases (str_eq s.stage_name name)) [
  | inl q ↦ rw q (λ e. cc, a)
  | inr q ↦ rw q (e, upsert_evidence name i rest a)
]

-- A checkpoint and then the completion of one stage.
completed_evidence :
    (name : String) (c : StageCheckpoint) (l : List Stage)
    → All HasEvidence l
    → All HasEvidence (
        update
          (λ r. record r { state = completed; error = "" })
          name
          (update (λ r. record r { checkpoint_data = some c }) name l))
unfolding update
completed_evidence name c [] a = tt
completed_evidence name c (s ∷ rest) (e, a) = elim (Bool-cases (str_eq s.stage_name name)) [
  | inl q ↦ rw (q, q) (λ _. inl (λ n. cc), a)
  | inr q ↦ rw (q, q) (e, completed_evidence name c rest a)
]

update_as :
    (name : String) (st : StageState) (err : String) (l : List Stage)
    → (st ≡ completed → err ≡ "awaiting_cutover")
    → All HasEvidence l
    → All HasEvidence (update (λ r. record r { state = st; error = err }) name l)
update_as name st err l d a =
    update_evidence (λ r. record r { state = st; error = err }) name (λ s h c. inr (d c)) l a

update_attempts :
    (name : String) (l : List Stage)
    → All HasEvidence l
    → All HasEvidence (update (λ r. record r { attempt_count = suc r.attempt_count }) name l)
update_attempts name l a =
    update_evidence (λ r. record r { attempt_count = suc r.attempt_count }) name (λ s h. h) l a

update_checkpoint :
    (name : String) (c : StageCheckpoint) (l : List Stage)
    → All HasEvidence l
    → All HasEvidence (update (λ r. record r { checkpoint_data = some c }) name l)
update_checkpoint name c l a =
    update_evidence (λ r. record r { checkpoint_data = some c }) name (λ s h _. inl (λ n. cc)) l a

abbrev stage_completed : String → AuditEntry
stage_completed name = record {
  event_type = "stage_completed";
  previous_state = "";
  new_state = name;
  actor = "pipeline";
}

module _ (env : Env) where
  -- A call that leaves the rows of the stages alone.
  keeps_rows :
      {A : Type 0} (m : M A) → ((w : World) → (m w).1.stages ≡ w.stages) → Keeps Durable Any m
  keeps_rows m h = Keeps-by m λ w d. record { rows = subst (All HasEvidence) (sym (h w)) d.rows }

  Keeps-create_stage : (n : String) (i : ℕ) → Keeps Durable Any (create_stage env n i)
  unfolding create_stage
  Keeps-create_stage n i =
      Keeps-then {m = call_ctx env (λ w. (ok tt, record w { stages = upsert n i w.stages }))}
        {k = call_ctx env (pure tt)}
        (Keeps-by _
          λ w d. record { rows = ground (arith, upsert_evidence n i w.stages d.rows, d.rows) })
        (keeps_rows _ λ w. ground arith)

  Keeps-stage_state :
      (n : String) (s : StageState) (e : String)
      → (s ≡ completed → e ≡ "awaiting_cutover")
      → Keeps Durable Any (update_stage_state env n s e)
  unfolding update_stage_state
  Keeps-stage_state n s e q =
      Keeps-by _ λ w d. record { rows = ground (arith, update_as n s e w.stages q d.rows, d.rows) }

  Keeps-increment : (n : String) → Keeps Durable Any (increment_stage_attempt env n)
  unfolding increment_stage_attempt
  Keeps-increment n =
      Keeps-by _ λ w d. record { rows = ground (arith, update_attempts n w.stages d.rows, d.rows) }

  Keeps-set : (s : MigrationState) → Keeps Durable Any (set_migration_state env s)
  unfolding set_migration_state
  Keeps-set s = keeps_rows _ λ w. ground arith

  durable : Primitives env Durable
  unfolding set_migration_state_background update_migration_status set_migration_completed_at
      create_audit_entry get_completed_stages load_migration get_migration_state Run.is_cancelled
      Run.run_handler Run.undo_handler
  durable = record {
    set = λ s n. Keeps-set s;
    set_background = keeps_rows _ λ w. ground arith;
    update_status = λ s e _. keeps_rows _ λ w. ground arith;
    completed_at = keeps_rows _ λ w. ground arith;
    audit = λ a. keeps_rows _ λ w. ground arith;
    completed_stages = keeps_rows _ λ w. ground arith;
    load_migration = keeps_rows _ λ w. ground arith;
    get_state = keeps_rows _ λ w. ground arith;
    load_state = keeps_rows _ λ w. unfold load_state current_state in ground arith;
    create_stage = Keeps-create_stage;
    stage_state = λ n s e q. Keeps-stage_state n s e (λ c. absurd (q c));
    increment = Keeps-increment;
    is_cancelled = keeps_rows _ λ w. refl;
    run_handler = λ n. keeps_rows _ λ w. refl;
    undo_handler = λ n. keeps_rows _ λ w. refl;
  }

  -- The checkpoint of a stage and then its completion.
  Keeps-complete :
      (n : String) (c : StageCheckpoint)
      → Keeps Durable Any
          (update_stage_checkpoint env n c >> attempt (update_stage_state env n completed ""))
  unfolding update_stage_checkpoint update_stage_state
  Keeps-complete n c = Keeps-by _ λ w d. record {
    rows = ground (
      arith,
      completed_evidence n c w.stages d.rows,
      update_checkpoint n c w.stages d.rows,
      d.rows,
    );
  }

  Keeps-outcome :
      (handlers : List String) (sm : StateMachine) (name : String) (total : ℕ)
      (o : Run.StageOutcome)
      → Keeps Durable Any (Run.record_outcome env handlers sm name total o)
  unfolding Run.record_outcome
  Keeps-outcome handlers sm name total (Run.succeeded used) =
      let c : StageCheckpoint = record { stage = name; attempt = used; stage_total = total } in
      Keeps-two (update_stage_checkpoint env name c)
        (attempt (update_stage_state env name completed "")) (Keeps-complete name c)
        (Keeps-then (Keeps-attempt (durable.audit (stage_completed name)))
          (Keeps-pure {a = Run.all_stages} tt))
  Keeps-outcome handlers sm name total Run.awaiting =
      Keeps-then (Keeps-attempt (Keeps-stage_state name completed "awaiting_cutover" (λ _. refl))) (
        Keeps-then (Keeps-attempt (durable.set awaiting_cutover (λ e. cc)))
          (Keeps-pure {a = Run.stopped} tt))
  Keeps-outcome handlers sm name total Run.failing =
      (Keeps-broken env durable handlers sm name total).0
  Keeps-outcome handlers sm name total Run.cancelled_run =
      (Keeps-broken env durable handlers sm name total).1

  Keeps-commit_run :
      (sm : StateMachine) (p : Run.Progress) → Keeps Durable Any (Run.commit_run env sm p)
  unfolding Run.commit_run
  Keeps-commit_run sm Run.stopped = Keeps-pure tt
  Keeps-commit_run sm Run.all_stages =
      Keeps-if (transition sm committed).1
        (λ _.
          Keeps-then (Keeps-attempt (Keeps-set committed))
            (Keeps-then (Keeps-attempt durable.completed_at) (Keeps-pure tt)))
        λ _. Keeps-then (Keeps-attempt (durable.set needs_manual_intervention (λ e. cc))) Keeps-fail

  Keeps-start_machine : (s : MigrationState) → Keeps Durable Any (Run.start_machine env s)
  unfolding Run.start_machine
  Keeps-start_machine s =
      Keeps-if (state_eq s interrupted)
        (λ _. Keeps-then (Keeps-ensure (allows s resuming) (cannot_transition resuming)) (
          Keeps-then (Keeps-attempt (durable.set resuming (λ e. cc)))
            (Keeps-pure {a = new_state_machine resuming} tt)))
        λ _. Keeps-pure {a = new_state_machine s} tt

  Keeps-execute : (handlers : List String) → Keeps Durable Any (Run.execute env handlers)
  unfolding Run.execute
  Keeps-execute handlers = Keeps-bind durable.load_state λ s _.
      Keeps-bind (Keeps-start_machine s)
        λ sm _. Keeps-run_from env durable Keeps-outcome handlers sm (Keeps-commit_run sm)

-- Whatever fails and whenever the run is cancelled, a run of Execute from rows in which every
-- completed stage has its checkpoint, or the mark of the stop for the operator, leaves such rows.
pub execute-Durable :
    (env : Env) (handlers : List String) (w : World)
    → Durable w
    → Durable (Run.execute env handlers w).1
execute-Durable env handlers w d = Keeps-final (Keeps-execute env handlers) w d
