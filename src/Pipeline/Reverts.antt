-- ===== src/Pipeline/Reverts.antt =====
-- rollbackPipeline (internal/mod/migration/pipeline_recovery.go) where no call fails: which
-- stages are undone, in which order, and the terminal state.
use meshium.Prelude.{
  Bool, true, false, ◌≡◌, refl, ◌∙◌, ap, inl, inr, if◌then◌else◌, ◌||◌, String, List, [], ◌∷◌, ◌++◌,
  reverse, some, Bool-cases, arith,
}
use mathlib.Core.List.{append_assoc, append-nil}
use meshium.State.{
  MigrationState, state_eq, rollback, rolled_back, rollback_degraded, needs_manual_intervention,
  state_string,
}
use meshium.State.Machine.{StateMachine, transition, force_transition, is_valid_transition}
use meshium.Pipeline.{World, ok}
use meshium.Pipeline.Repo.{
  Env, UndoResult, undone, unsafe_topology, decode, completed_names, set_migration_state,
  get_completed_stages, load_migration, set_migration_completed_at,
}
use meshium.Pipeline.Completes.{decode_stored}
use meshium.Pipeline.Run

-- The same environment without faults in the database, without a cancellation, and with both servers
-- connected.
abbrev pub faultless : Env → Env
faultless env = record env { fails = λ _. false; cancelled = λ _. false; connects = true }

-- The stages of a list that have a registered handler.
unfoldable pub handled : List String → List String → List String
handled handlers [] = []
handled handlers (name ∷ rest) =
    if Run.contains name handlers then name ∷ handled handlers rest else handled handlers rest

abbrev is_unsafe : UndoResult → Bool
is_unsafe unsafe_topology = true
is_unsafe _ = false

abbrev pub is_broken : UndoResult → Bool
is_broken undone = false
is_broken _ = true

abbrev pub any : (String → Bool) → List String → Bool
any test [] = false
any test (name ∷ rest) = test name || any test rest

-- What the undo answers of the stages come to: one unsafe topology asks for the operator, any other
-- error leaves the rollback degraded.
unfoldable pub verdict : (String → UndoResult) → List String → MigrationState
verdict undo l =
    if any (λ n. is_unsafe (undo n)) l
    then needs_manual_intervention
    else if any (λ n. is_broken (undo n)) l
    then rollback_degraded
    else rolled_back

abbrev pub seen_unsafe : Run.RollbackError → Bool
seen_unsafe Run.unsafe_error = true
seen_unsafe _ = false

abbrev pub seen_error : Run.RollbackError → Bool
seen_error Run.no_error = false
seen_error _ = true

abbrev pub joined : (String → UndoResult) → Run.RollbackError → List String → Run.RollbackError
joined undo e [] = e
joined undo e (name ∷ rest) = joined undo (Run.join e (undo name)) rest

pub joined-verdict :
    (undo : String → UndoResult) (e : Run.RollbackError) (l : List String)
    → (seen_unsafe (joined undo e l) ≡ (seen_unsafe e || any (λ n. is_unsafe (undo n)) l))
      × (seen_error (joined undo e l) ≡ (seen_error e || any (λ n. is_broken (undo n)) l))
unfolding Run.join
joined-verdict undo e [] = ground arith
joined-verdict undo e (name ∷ rest) =
    ground (arith, joined-verdict undo (Run.join e (undo name)) rest)

terminal-verdict :
    (undo : String → UndoResult) (l : List String)
    → Run.rollback_terminal_state (joined undo Run.no_error l) ≡ verdict undo l
unfolding Run.rollback_terminal_state verdict
terminal-verdict undo l = ground (arith, joined-verdict undo Run.no_error l)

pub undo_all-joined :
    (env : Env) (handlers : List String) (e : Run.RollbackError) (l : List String) (w : World)
    → Run.undo_all env handlers e l w ≡ (
      ok (joined env.undo_stage e (handled handlers l)),
      record w { undone = w.undone ++ handled handlers l },
    )
unfolding Run.undo_all Run.undo_handler handled
undo_all-joined env handlers e [] w = rw (append-nil w.undone)
undo_all-joined env handlers e (name ∷ rest) w = elim (Bool-cases (Run.contains name handlers)) [
  | inl h ↦ rw h (
      undo_all-joined env handlers (Run.join e (env.undo_stage name)) rest
        (record w { undone = w.undone ++ name ∷ [] })
      ∙ rw (append_assoc w.undone (name ∷ []) (handled handlers rest)))
  | inr h ↦ rw h (undo_all-joined env handlers e rest w)
]

rolling_back :
    (sm : StateMachine) (to : MigrationState) → (Run.transition_or_force sm to).state ≡ to
unfolding Run.transition_or_force transition force_transition
rolling_back sm to = ground arith

ends_validly :
    (sm : StateMachine) (undo : String → UndoResult) (l : List String)
    → sm.state ≡ rollback
    → (transition sm (verdict undo l)).1 ≡ true
unfolding verdict transition is_valid_transition
ends_validly sm undo l e = ground arith

ends_in :
    (env : Env) (sm : StateMachine) (e : Run.RollbackError) (w : World)
    → (transition sm (Run.rollback_terminal_state e)).1 ≡ true
    → let v : World = (Run.finish_rollback (faultless env) sm e w).1 in
      (v.state ≡ state_string (Run.rollback_terminal_state e)) × (v.undone ≡ w.undone)
unfolding Run.finish_rollback Run.note_rolled_back set_migration_state set_migration_completed_at
ends_in env sm e w h =
    rw h (elim (Bool-cases (state_eq (Run.rollback_terminal_state e) rolled_back)) [
      | inl r ↦ rw r (refl, refl)
      | inr r ↦ rw r (refl, refl)
    ])

finish-verdict :
    (env : Env) (sm : StateMachine) (l : List String) (w : World)
    → sm.state ≡ rollback
    → let v : World =
        (Run.finish_rollback (faultless env) sm (joined env.undo_stage Run.no_error l) w).1 in
      (decode v ≡ some (verdict env.undo_stage l)) × (v.undone ≡ w.undone)
finish-verdict env sm l w h =
    let e = terminal-verdict env.undo_stage l in
    let (p, q) =
      ends_in env sm (joined env.undo_stage Run.no_error l) w
        (rw e (ends_validly sm env.undo_stage l h)) in
    (decode_stored _ _ (p ∙ ap state_string e), q)

-- With a database and a connection to the servers that work, and without a cancellation, rollbackPipeline
-- undoes the completed stages that have a handler, the
-- last one first, going on past errors, and leaves the migration rolled back if all of them went
-- well, in need of the operator if one of them met an unsafe topology, else degraded.
pub rollback_pipeline-verdict :
    (env : Env) (handlers : List String) (sm : StateMachine) (w : World)
    → let v : World = (Run.rollback_pipeline (faultless env) handlers sm w).1 in
      let l : List String = handled handlers (reverse (completed_names w.stages)) in
      (decode v ≡ some (verdict env.undo_stage l)) × (v.undone ≡ w.undone ++ l)
unfolding Run.rollback_pipeline set_migration_state get_completed_stages load_migration
rollback_pipeline-verdict env handlers sm w =
    rw (undo_all-joined (faultless env) handlers Run.no_error (reverse (completed_names w.stages)))
      (finish-verdict env _ (handled handlers (reverse (completed_names w.stages))) _
        (rolling_back _ rollback))
