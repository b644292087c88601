-- ===== src/Pipeline/Completes.antt =====
-- A run of Execute (internal/mod/migration/pipeline.go) in which nothing fails.
use meshium.Prelude.{
  ℕ, zero, suc, true, false, ◌≡◌, ◌≢◌, refl, sym, ◌∙◌, ap, ◌⊎◌, inl, inr, if◌then◌else◌, String,
  Option, some, List, [], ◌∷◌, ◌++◌, Bool-cases, length,
}
use mathlib.Core.List.{append_assoc, append-nil}
use meshium.State.Names.{state_from_string-state_string}
use meshium.State.{state_string, MigrationState, committed, interrupted, resuming, paused, state_eq}
use meshium.State.Machine.{StateMachine, new_state_machine, transition, is_valid_transition}
use meshium.State.Table.{state_eq_iff}
use meshium.Pipeline.{World, Result, M, ok, then_on}
use meshium.Pipeline.Repo.{
  Env, done, undone, column, decode, completed_names, load_state, get_migration_state,
  load_migration, current_state, create_stage, update_stage_state, update_stage_checkpoint,
  create_audit_entry, set_migration_state, update_migration_status, get_completed_stages,
  set_migration_completed_at,
}
use meshium.Pipeline.Moves.{written_not_empty}
use meshium.Pipeline.Verbs.{allows}
use meshium.Pipeline.Run

-- No call fails, nothing is cancelled or paused, and every stage answers that it is done; a handler may
-- write the status column.
abbrev pub smooth : String → ℕ → Option String → (String → ℕ → Option (String × String)) → Env
smooth now n config outcome = record {
  fails = λ _. false;
  cancelled = λ _. false;
  run_stage = λ _ _. done;
  outcome = outcome;
  undo_stage = λ _. undone;
  connects = true;
  pauses = λ _. false;
  now = now;
  max_retries = n;
  switch_state = config;
}

-- The stages that a run has to do, given the ones that were completed before.
unfoldable pub outstanding : List String → List String → List String
outstanding done_stages [] = []
outstanding done_stages (name ∷ rest) =
    if Run.contains name done_stages
    then outstanding done_stages rest
    else name ∷ outstanding done_stages rest

-- What a stretch of such a run does: both columns stay and the handlers are run.
record Ran (names : List String) (w : World) (p : Result Run.Progress × World) : Type 0 where
  went_through : p.0 ≡ ok Run.all_stages
  state_kept : p.1.state ≡ w.state
  ran_names : p.1.ran ≡ w.ran ++ names

Ran-then :
    (names later : List String) (w : World) (p : Result Run.Progress × World) (env : Env)
    (k : M Run.Progress)
    → Ran names w p
    → Ran later p.1 (k p.1)
    → Ran (names ++ later) w (then_on p.0 (Run.go_on env k) p.1)
unfolding Run.go_on
Ran-then names later w p env k a b = rw a.went_through (record {
  went_through = b.went_through;
  state_kept = b.state_kept ∙ a.state_kept;
  ran_names = b.ran_names ∙ ap (◌++ later) a.ran_names ∙ append_assoc w.ran names later;
})

Ran-from :
    {names : List String} {p : Result Run.Progress × World} (w v : World)
    → v.state ≡ w.state
    → v.ran ≡ w.ran
    → Ran names v p
    → Ran names w p
Ran-from {names} w v es er a = record {
  went_through = a.went_through;
  state_kept = a.state_kept ∙ es;
  ran_names = a.ran_names ∙ ap (◌++ names) er;
}

pub decode_stored : (s : MigrationState) (w : World) → w.state ≡ state_string s → decode w ≡ some s
unfolding decode column
decode_stored s w e = rw (e, written_not_empty s) (state_from_string-state_string s)

not_paused : (s : MigrationState) → s ≢ paused → Run.is_paused (some s) ≡ false
unfolding Run.is_paused
not_paused s p = elim (Bool-cases (state_eq s paused)) [
  | inl e ↦ absurd (p ((state_eq_iff s paused).0 e))
  | inr e ↦ e
]

module _ (now : String) (n : ℕ) (config : Option String)
    (outcome : String → ℕ → Option (String × String)) where
  try_stage_done :
      (name : String) (left : ℕ) (w : World)
      → Run.try_stage (smooth now n config outcome) name left 0 w ≡ (
        ok (Run.succeeded 1),
        record w {
          ran = w.ran ++ name ∷ [];
          calls = suc w.calls;
          status = (Run.or_old (outcome name w.calls) (w.status, w.error)).0;
          error = (Run.or_old (outcome name w.calls) (w.status, w.error)).1;
        },
      )
  unfolding Run.try_stage Run.one_attempt Run.run_handler Run.settle
  try_stage_done name zero w = refl
  try_stage_done name (suc left) w = refl

  run_stage_done :
      (handlers : List String) (sm : StateMachine) (name : String) (i total : ℕ) (w : World)
      → Ran (name ∷ []) w (Run.run_stage (smooth now n config outcome) handlers sm name i total w)
  unfolding Run.run_stage create_stage update_stage_state Run.record_outcome update_stage_checkpoint
      create_audit_entry
  run_stage_done handlers sm name i total w =
      rw (try_stage_done name (Run.retries n))
        (record { went_through = refl; state_kept = refl; ran_names = refl })

  -- What the loop does with one stage, once the state is known.
  unpaused_done :
      (handlers : List String) (sm : StateMachine) (done_stages : List String) (name : String)
      (i total : ℕ) (later : M Run.Progress) (names : List String) (w v : World)
      → v.state ≡ w.state
      → v.ran ≡ w.ran
      → ((u : World) → u.state ≡ w.state → Ran names u (later u))
      → Ran
          (if Run.contains name done_stages then names else name ∷ names)
          w
          (Run.unpaused (smooth now n config outcome) handlers sm done_stages name i total later v)
  unfolding Run.unpaused
  unpaused_done handlers sm done_stages name i total later names w v es er h =
      Ran-from w v es er (elim (Bool-cases (Run.contains name done_stages)) [
        | inl skip ↦ rw skip (h v es)
        | inr run ↦
            let first = run_stage_done handlers sm name i total v in
            rw run (
              Ran-then (name ∷ []) names v _ (smooth now n config outcome) later first
                (h _ (first.state_kept ∙ es)))
      ])

  -- The loop from a stored state that is not Paused.
  run_stages_done :
      (handlers : List String) (sm : StateMachine) (done_stages : List String) (total i : ℕ)
      (l : List String) (s : MigrationState) (w : World)
      → w.state ≡ state_string s
      → s ≢ paused
      → Ran
          (outstanding done_stages l)
          w
          (Run.run_stages (smooth now n config outcome) handlers sm done_stages total i l w)
  unfolding Run.run_stages Run.stage_round outstanding Run.operator Run.is_cancelled
      get_migration_state
  run_stages_done handlers sm done_stages total i [] s w d p = record {
    went_through = refl;
    state_kept = refl;
    ran_names = sym (append-nil w.ran);
  }
  run_stages_done handlers sm done_stages total i (name ∷ rest) s w d p =
      rw (decode_stored s (record w { calls = suc (suc w.calls) }) d, not_paused s p)
        (unpaused_done handlers sm done_stages name i total _ _ w _ refl refl
          λ u es. run_stages_done handlers sm done_stages total (suc i) rest s u (es ∙ d) p)

-- A run that committed, with the handlers that it ran.
abbrev pub Committed : List String → World → Result (Unit {0}) × World → Type 0
Committed names w p = (p.0 ≡ ok tt) × (decode p.1 ≡ some committed) × (p.1.ran ≡ w.ran ++ names)

Committed-commit_run :
    (now : String) (n : ℕ) (config : Option String)
    (outcome : String → ℕ → Option (String × String)) (sm : StateMachine) (names : List String)
    (w : World) (p : Result Run.Progress × World)
    → (transition sm committed).1 ≡ true
    → Ran names w p
    → Committed names w (then_on p.0 (Run.commit_run (smooth now n config outcome) sm) p.1)
unfolding Run.commit_run set_migration_state set_migration_completed_at
Committed-commit_run now n config outcome sm names w p v r =
    rw (r.went_through, v) (refl, decode_stored committed _ refl, r.ran_names)

Committed-run_from :
    (now : String) (n : ℕ) (config : Option String)
    (outcome : String → ℕ → Option (String × String)) (handlers : List String) (sm : StateMachine)
    (s : MigrationState) (w : World)
    → w.state ≡ state_string s
    → s ≢ paused
    → (transition sm committed).1 ≡ true
    → Committed
        (outstanding (completed_names w.stages) handlers)
        w
        (Run.run_from (smooth now n config outcome) handlers sm w)
unfolding Run.run_from Run.connect update_migration_status get_completed_stages Run.or_empty
Committed-run_from now n config outcome handlers sm s w e p v =
    Committed-commit_run now n config outcome sm _ w _ v (
      Ran-from w _ refl refl (
        run_stages_done now n config outcome handlers sm (completed_names w.stages)
          (length handlers) 0 handlers s _ e p))

-- Setting up the state machine and running from there.
abbrev started_run : Env → List String → MigrationState → World → Result (Unit {0}) × World
started_run env handlers s w =
    then_on (Run.start_machine env s w).0 (Run.run_from env handlers) (Run.start_machine env s w).1

Committed-resumed :
    (now : String) (n : ℕ) (config : Option String)
    (outcome : String → ℕ → Option (String × String)) (handlers : List String) (w : World)
    → Committed
        (outstanding (completed_names w.stages) handlers)
        w
        (started_run (smooth now n config outcome) handlers interrupted w)
unfolding Run.start_machine set_migration_state allows transition is_valid_transition state_eq
    new_state_machine
Committed-resumed now n config outcome handlers w =
    Committed-run_from now n config outcome handlers (new_state_machine resuming) resuming _ refl
      (λ e. cc) refl

valid_not_paused : (s : MigrationState) → is_valid_transition s committed ≡ true → s ≢ paused
unfolding is_valid_transition
valid_not_paused s v e = cc (rw e at v)

Committed-valid :
    (now : String) (n : ℕ) (config : Option String)
    (outcome : String → ℕ → Option (String × String)) (handlers : List String) (s : MigrationState)
    (w : World)
    → w.state ≡ state_string s
    → is_valid_transition s committed ≡ true
    → state_eq s interrupted ≡ false
    → Committed
        (outstanding (completed_names w.stages) handlers)
        w
        (started_run (smooth now n config outcome) handlers s w)
unfolding Run.start_machine
Committed-valid now n config outcome handlers s w e v i = rw i (
    Committed-run_from now n config outcome handlers (new_state_machine s) s w e
      (valid_not_paused s v) (unfold transition new_state_machine is_valid_transition in rw v))

Committed-start :
    (now : String) (n : ℕ) (config : Option String)
    (outcome : String → ℕ → Option (String × String)) (handlers : List String) (s : MigrationState)
    (w : World)
    → w.state ≡ state_string s
    → (s ≡ interrupted) ⊎ (is_valid_transition s committed ≡ true)
    → Committed
        (outstanding (completed_names w.stages) handlers)
        w
        (started_run (smooth now n config outcome) handlers s w)
Committed-start now n config outcome handlers s w e (inl p) =
    rw p (Committed-resumed now n config outcome handlers w)
Committed-start now n config outcome handlers s w e (inr v) =
    elim (Bool-cases (state_eq s interrupted)) [
      | inl i ↦
          rw ((state_eq_iff s interrupted).0 i) (Committed-resumed now n config outcome handlers w)
      | inr i ↦ Committed-valid now n config outcome handlers s w e v i
    ]

-- Nothing fails, and every stage answers that it is done: then a run from a stored state with a legal
-- transition to Committed, or from Interrupted, ends without an error and leaves the migration
-- committed, and it has run, in order, exactly the handlers of the stages that were not completed
-- before.
pub execute-Committed :
    (now : String) (n : ℕ) (config : Option String)
    (outcome : String → ℕ → Option (String × String)) (handlers : List String) (s : MigrationState)
    (w : World)
    → w.state ≡ state_string s
    → (s ≡ interrupted) ⊎ (is_valid_transition s committed ≡ true)
    → Committed
        (outstanding (completed_names w.stages) handlers)
        w
        (Run.execute (smooth now n config outcome) handlers w)
unfolding Run.execute load_state load_migration current_state get_migration_state
execute-Committed now n config outcome handlers s w e h =
    rw (decode_stored s (record w { calls = suc (suc w.calls) }) e)
      (Committed-start now n config outcome handlers s _ e h)
