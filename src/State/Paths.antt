-- ===== src/State/Paths.antt =====
-- What holds of a state machine (state.go) over any series of transitions.
use meshium.Prelude.{
  ◌≡◌, refl, ◌≢◌, Bool, true, false, List, [], ◌∷◌, arith, inl, inr, Bool-cases, All, ap, ◌≤◌,
  length,
}
use meshium.State.{
  MigrationState, created, planning, discovery, compatibility_check, risk_assessment, backup,
  committed, failed, interrupted, resuming, paused, awaiting_cutover, rollback, rolled_back,
  cancelled, is_terminal, rollback_degraded, needs_manual_intervention,
}
use meshium.State.Machine.{
  StateMachine, new_state_machine, is_valid_transition, transition, transitions,
}
use meshium.State.Table.{is_terminal_iff, awaiting_cutover_refused}

-- A derivation of one legal transition after another.
pub data Reach (s : MigrationState) : MigrationState → Type 0 where
  here : Reach s s
  next : {t u : MigrationState} → Reach s t → is_valid_transition t u ≡ true → Reach s u

Reach-transition :
    {s : MigrationState} (sm : StateMachine) (to : MigrationState)
    → Reach s sm.state
    → Reach s (transition sm to).0.state
unfolding transition
Reach-transition sm to r = elim (Bool-cases (is_valid_transition sm.state to)) [
  | inl valid ↦ rw valid (next r valid)
  | inr refused ↦ rw refused r
]

Reach-transitions :
    {s : MigrationState} (sm : StateMachine) (l : List MigrationState)
    → Reach s sm.state
    → Reach s (transitions sm l).state
unfolding transitions
Reach-transitions sm [] r = r
Reach-transitions sm (to ∷ rest) r =
    Reach-transitions (transition sm to).0 rest (Reach-transition sm to r)

-- Whatever transitions are tried, the machine only ever moves along the table.
pub transitions-Reach :
    (sm : StateMachine) (l : List MigrationState) → Reach sm.state (transitions sm l).state
transitions-Reach sm l = Reach-transitions sm l here

transition_terminal :
    (sm : StateMachine) (to : MigrationState)
    → is_terminal sm.state ≡ true
    → transition sm to ≡ (sm, false)
unfolding transition
transition_terminal sm to h = rw ((is_terminal_iff sm.state).0 h to)

-- A machine in a terminal state stays as it is, whatever transitions are tried.
pub transitions_terminal :
    (sm : StateMachine) (l : List MigrationState)
    → is_terminal sm.state ≡ true
    → transitions sm l ≡ sm
unfolding transitions
transitions_terminal sm [] h = refl
transitions_terminal sm (to ∷ rest) h =
    rw (transition_terminal sm to h) (transitions_terminal sm rest h)

transition_not_awaiting :
    (sm : StateMachine) (to : MigrationState)
    → sm.state ≢ awaiting_cutover
    → (transition sm to).0.state ≢ awaiting_cutover
unfolding transition
transition_not_awaiting sm to h = ground (arith, awaiting_cutover_refused sm.state)

-- Validated transitions alone never bring a migration to AwaitingCutover.
pub transitions_not_awaiting :
    (sm : StateMachine) (l : List MigrationState)
    → sm.state ≢ awaiting_cutover
    → (transitions sm l).state ≢ awaiting_cutover
unfolding transitions
transitions_not_awaiting sm [] h = h
transitions_not_awaiting sm (to ∷ rest) h =
    transitions_not_awaiting (transition sm to).0 rest (transition_not_awaiting sm to h)

-- The states from which a migration has neither been backed up nor resumed.
abbrev is_early : MigrationState → Bool
is_early created = true
is_early planning = true
is_early discovery = true
is_early compatibility_check = true
is_early risk_assessment = true
is_early failed = true
is_early interrupted = true
is_early paused = true
is_early cancelled = true
is_early rollback = true
is_early rolled_back = true
is_early rollback_degraded = true
is_early needs_manual_intervention = true
is_early _ = false

early_valid :
    (s t : MigrationState)
    → is_early s ≡ true
    → t ≢ backup
    → t ≢ resuming
    → is_valid_transition s t ≡ true
    → is_early t ≡ true
unfolding is_valid_transition
early_valid created t e b r v = ground arith
early_valid _ t e b r v = ground arith

transition_early :
    (sm : StateMachine) (to : MigrationState)
    → is_early sm.state ≡ true
    → to ≢ backup
    → to ≢ resuming
    → is_early (transition sm to).0.state ≡ true
unfolding transition
transition_early sm to e b r = elim (Bool-cases (is_valid_transition sm.state to)) [
  | inl valid ↦ rw valid (early_valid sm.state to e b r valid)
  | inr refused ↦ rw refused e
]

transitions_early :
    (sm : StateMachine) (l : List MigrationState)
    → is_early sm.state ≡ true
    → All (λ s. (s ≢ backup) × (s ≢ resuming)) l
    → is_early (transitions sm l).state ≡ true
unfolding transitions
transitions_early sm [] e a = e
transitions_early sm (to ∷ rest) e ((b, r), a) =
    transitions_early (transition sm to).0 rest (transition_early sm to e b r) a

-- A new migration whose transitions name neither Backup nor Resuming is never committed.
pub commit_needs_backup_or_resume :
    (l : List MigrationState)
    → All (λ s. (s ≢ backup) × (s ≢ resuming)) l
    → (transitions (new_state_machine created) l).state ≢ committed
unfolding new_state_machine
commit_needs_backup_or_resume l a h =
    cc (transitions_early (new_state_machine created) l refl a, ap is_early h)

-- From every state that may be interrupted, interrupting and resuming leads straight to
-- Committed, past all the phases that were left.
pub resume_skips_phases :
    (s : MigrationState)
    → is_valid_transition s interrupted ≡ true
    → (transitions (new_state_machine s) (interrupted ∷ resuming ∷ committed ∷ [])).state
      ≡ committed
unfolding transitions new_state_machine
resume_skips_phases s h = rw h

abbrev way_out : MigrationState → List MigrationState
way_out created = planning ∷ failed ∷ rollback ∷ rolled_back ∷ []
way_out failed = rollback ∷ rolled_back ∷ []
way_out rollback = rolled_back ∷ []
way_out committed = []
way_out rolled_back = []
way_out rollback_degraded = []
way_out cancelled = []
way_out needs_manual_intervention = []
way_out _ = failed ∷ rollback ∷ rolled_back ∷ []

-- From every state at most four legal transitions lead to a terminal state.
pub can_terminate :
    (s : MigrationState)
    → (l : List MigrationState) × (length l ≤ 4)
      × (is_terminal (transitions (new_state_machine s) l).state ≡ true)
unfolding transitions new_state_machine is_terminal
can_terminate created = (way_out created, omega arith, refl)
can_terminate failed = (way_out failed, omega arith, refl)
can_terminate rollback = (way_out rollback, omega arith, refl)
can_terminate s = (way_out s, ground arith, ground arith)
