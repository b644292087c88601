-- ===== src/State/Table.antt =====
-- What the transition table of state.go and the classes of states say of one another.
use meshium.Prelude.{◌≡◌, refl, ◌↔◌, true, false, arith, get_elem?, ==_iff, ==_self, ap, some}
use meshium.State.{
  MigrationState, created, committed, failed, interrupted, resuming, awaiting_cutover, rollback,
  is_terminal, iota, all_states, state_eq, can_resume, planning,
}
use meshium.State.Machine.{is_valid_transition}

terminal_refuses : (s t : MigrationState) → is_terminal s ≡ true → is_valid_transition s t ≡ false
unfolding is_valid_transition is_terminal
terminal_refuses committed t h = refl
terminal_refuses _ t h = ground arith

-- Some successor of a state that is not terminal.
abbrev exit : MigrationState → MigrationState
exit created = planning
exit failed = interrupted
exit rollback = failed
exit _ = failed

exit_valid : (s : MigrationState) → is_terminal s ≡ false → is_valid_transition s (exit s) ≡ true
unfolding is_valid_transition is_terminal
exit_valid created h = refl
exit_valid _ h = ground arith

-- The terminal states are exactly those that the table gives no successor.
pub is_terminal_iff :
    (s : MigrationState)
    → (is_terminal s ≡ true) ↔ ((t : MigrationState) → is_valid_transition s t ≡ false)
is_terminal_iff s =
    (λ h t. terminal_refuses s t h, λ all. ground (arith, exit_valid s, all (exit s)))

-- A migration may go to Resuming exactly from the states that CanResume names.
pub can_resume-valid : (s : MigrationState) → is_valid_transition s resuming ≡ can_resume s
unfolding is_valid_transition can_resume
can_resume-valid created = refl
can_resume-valid _ = refl

-- No table entry leads to AwaitingCutover.
pub awaiting_cutover_refused : (s : MigrationState) → is_valid_transition s awaiting_cutover ≡ false
unfolding is_valid_transition
awaiting_cutover_refused created = refl
awaiting_cutover_refused _ = refl

get_elem?-iota : (s : MigrationState) → get_elem? all_states (iota s) ≡ some s
unfolding iota
get_elem?-iota created = refl
get_elem?-iota _ = refl

-- Comparing the values of two states tells them apart.
pub state_eq_iff : (s t : MigrationState) → (state_eq s t ≡ true) ↔ (s ≡ t)
unfolding state_eq
state_eq_iff s t = (
  λ h. cc (
    get_elem?-iota s,
    get_elem?-iota t,
    ap (get_elem? all_states) ((==_iff (iota s) (iota t)).0 h),
  ),
  λ e. rw e (==_self (iota t)),
)
