-- ===== src/Pipeline/Legal.antt =====
-- The verbs of Pipeline/Verbs move a migration along the transition table of state.go only.
use meshium.Prelude.{
  true, false, ◌≡◌, ◌≢◌, refl, ◌∙◌, ap, sym, ◌⊎◌, inl, inr, if◌then◌else◌, Option, Bool-cases,
  arith, subst, subst₂, String,
}
use meshium.State.{
  MigrationState, created, planning, state_eq, verification, pre_cutover, traffic_switch,
  post_verification, observation, committed, paused, cancelled, awaiting_cutover,
}
use meshium.State.Machine.{is_valid_transition, transition, new_state_machine}
use meshium.State.Table.{state_eq_iff}
use meshium.Pipeline.{
  attempt, ensure, M, pure, ◌>>◌, cannot_pause, cannot_transition, cannot_cancel, cannot_commit,
  cutover_not_confirmed,
}
use meshium.Pipeline.Repo.{Env, set_migration_state, create_audit_entry}
use meshium.Pipeline.Moves.{
  Moves, Loaded, Moves-bind, Moves-map, Moves-pure, Moves-fail, Moves-ensure, Moves-set,
  Moves-load_state, Moves-get_migration_state, Quiet-Moves, Quiet-attempt, create_audit_entry-Quiet,
  create_cutover_record-Quiet, update_cutover_record-Quiet, Moves-get_traffic_switch_config,
  set_migration_completed_at-Quiet,
}
use meshium.Pipeline.Verbs.{
  allows, by_user, started, pause_from, pause, transition_to, cut_over_step, cut_over_from,
  cut_over_by_state, cutover, record_commit, is_unconfirmed, commit_refused, commit_awaiting,
  commit_observed, commit_from, commit, cancel_from, cancel,
}

-- What a reader's state machine allows is legal from the stored state, Planning excepted.
allowed :
    (r t to : MigrationState)
    → Loaded r t
    → to ≢ planning
    → allows r to ≡ true
    → is_valid_transition t to ≡ true
unfolding allows transition is_valid_transition new_state_machine
allowed r t to l n a = ground arith

-- A state other than Created that a reader finds is the stored one.
found_stored : (r t : MigrationState) → Loaded r t → r ≢ created → r ≡ t
found_stored r t (inl e) n = e
found_stored r t (inr e) n = absurd (n e)

found : (r t s : MigrationState) → Loaded r t → state_eq r s ≡ true → s ≢ created → t ≡ s
found r t s l e n =
    let p = (state_eq_iff r s).0 e in sym (found_stored r t l (λ q. n (sym p ∙ q))) ∙ p

-- A successful verb ends in the state.
abbrev pub Ends : MigrationState → Unit {0} → MigrationState → Type 0
Ends s _ t = t ≡ s

-- Cutover ends in Observation, or found the migration committed.
abbrev pub CutOver : Unit {0} → MigrationState → Type 0
CutOver _ t = (t ≡ observation) ⊎ (t ≡ committed)

-- One `if` of Cutover on the state alone.
abbrev advanced : MigrationState → MigrationState → MigrationState → MigrationState
advanced from to s = if state_eq s from then to else s

abbrev all_advanced : MigrationState → MigrationState
all_advanced s = advanced post_verification observation (
    advanced traffic_switch post_verification
      (advanced pre_cutover traffic_switch (advanced verification pre_cutover s)))

module _ (env : Env) where
  -- The end of a verb that has written its state: an audit entry, whose failure is ignored.
  audited :
      {s : MigrationState} {Q : Unit {0} → MigrationState → Type 0} (e : String)
      (from to : MigrationState)
      → Q tt s
      → Moves s Q (attempt (create_audit_entry env (by_user e from to)) >> pure tt)
  audited {s} {Q} e from to h =
      Moves-bind (Quiet-Moves (Quiet-attempt (create_audit_entry-Quiet env (by_user e from to))))
        λ _ _ d. Moves-pure (subst (Q tt) (sym d) h)

  Moves-pause_from :
      {t : MigrationState} (r : MigrationState)
      → Loaded r t
      → Moves t (Ends paused) (pause_from env r)
  unfolding pause_from
  Moves-pause_from {t} r l = Moves-ensure (allows r paused) (cannot_pause r) _ λ a.
      Moves-bind (Moves-set env paused (allowed r t paused l (λ e. cc) a))
        λ _ _ d. audited "migration_paused" r paused d

  pub Moves-pause : {s : MigrationState} → Moves s (Ends paused) (pause env)
  unfolding pause
  Moves-pause = Moves-bind (Moves-load_state env) λ r t (_, l).
      elim (Bool-cases (state_eq r paused)) [
        | inl e ↦ rw e (Moves-pure (found r t paused l e (λ q. cc)))
        | inr e ↦ rw e (Moves-pause_from r l)
      ]

  -- The state that Cutover carries along is the stored one, and the one expected.
  abbrev Carried : MigrationState → MigrationState → MigrationState → Type 0
  Carried s r t = (r ≡ t) × (r ≡ s)

  Moves-transition_to :
      {t : MigrationState} (s to : MigrationState)
      → s ≡ t
      → to ≢ planning
      → Moves t (Carried to) (transition_to env s to)
  unfolding transition_to
  Moves-transition_to {t} s to e n =
      Moves-ensure (allows s to) (cannot_transition to) (set_migration_state env to >> pure to) λ a.
        Moves-bind (Moves-set env to (allowed s t to (inl e) n a)) λ _ _ d. Moves-pure (sym d, refl)

  Moves-cut_over_step :
      {t : MigrationState} (from to s : MigrationState)
      → to ≢ planning
      → s ≡ t
      → Moves t (Carried (advanced from to s)) (cut_over_step env from to s)
  unfolding cut_over_step
  Moves-cut_over_step from to s n e = elim (Bool-cases (state_eq s from)) [
    | inl here_now ↦ rw here_now (Moves-transition_to s to e n)
    | inr elsewhere ↦ rw elsewhere (Moves-pure (e, refl))
  ]

  Moves-cut_over_from :
      (s : MigrationState) → all_advanced s ≡ observation → Moves s CutOver (cut_over_from env s)
  unfolding cut_over_from
  Moves-cut_over_from s done =
      Moves-bind (Quiet-Moves (create_cutover_record-Quiet env (started s))) λ _ t d0.
        Moves-bind (Moves-cut_over_step verification pre_cutover s (λ e. cc) (sym d0)) λ a _ da.
          Moves-bind (Moves-cut_over_step pre_cutover traffic_switch a (λ e. cc) da.0) λ b _ db.
            Moves-bind (Moves-cut_over_step traffic_switch post_verification b (λ e. cc) db.0)
              λ c _ dc.
                Moves-bind (Moves-cut_over_step post_verification observation c (λ e. cc) dc.0)
                  λ d u dd.
                    Moves-bind (Quiet-Moves (Quiet-attempt (update_cutover_record-Quiet env)))
                      λ _ v dv. audited "migration_cutover_confirmed" s d (
                        inl (
                          dv
                          ∙ sym dd.0
                          ∙ dd.1
                          ∙ ap (advanced post_verification observation) (
                              dc.1
                              ∙ ap (advanced traffic_switch post_verification)
                                  (db.1 ∙ ap (advanced pre_cutover traffic_switch) da.1))
                          ∙ done))

  from_stored :
      {t : MigrationState} (s : MigrationState)
      → Loaded s t
      → s ≢ created
      → all_advanced s ≡ observation
      → Moves t CutOver (cut_over_from env s)
  from_stored {t} s l n done =
      subst (λ u. Moves u CutOver (cut_over_from env s)) (found_stored s t l n)
        (Moves-cut_over_from s done)

  Moves-cut_over_by_state :
      {t : MigrationState} (s : MigrationState)
      → Loaded s t
      → Moves t CutOver (cut_over_by_state env s)
  unfolding cut_over_by_state state_eq
  Moves-cut_over_by_state {t} observation l =
      Moves-pure (inl (sym (found_stored observation t l (λ e. cc))))
  Moves-cut_over_by_state {t} committed l =
      Moves-pure (inr (sym (found_stored committed t l (λ e. cc))))
  Moves-cut_over_by_state verification l = from_stored verification l (λ e. cc) refl
  Moves-cut_over_by_state pre_cutover l = from_stored pre_cutover l (λ e. cc) refl
  Moves-cut_over_by_state traffic_switch l = from_stored traffic_switch l (λ e. cc) refl
  Moves-cut_over_by_state post_verification l = from_stored post_verification l (λ e. cc) refl
  Moves-cut_over_by_state _ l = Moves-fail

  pub Moves-cutover : {s : MigrationState} → Moves s CutOver (cutover env)
  unfolding cutover
  Moves-cutover = Moves-bind (Moves-load_state env) λ r _ (_, l). Moves-cut_over_by_state r l

  -- A successful Commit ends in Committed, and began there, in Observation, or in AwaitingCutover
  -- with the traffic switch confirmed.
  abbrev pub Commits : MigrationState → Unit {0} → MigrationState → Type 0
  Commits s _ t =
      (t ≡ committed)
      × ((s ≡ committed)
          ⊎ (s ≡ observation)
          ⊎ ((s ≡ awaiting_cutover) × (is_unconfirmed env.switch_state ≡ false)))

  Moves-record_commit :
      {t : MigrationState} (s : MigrationState)
      → is_valid_transition t committed ≡ true
      → Moves t (Ends committed) (record_commit env s)
  unfolding record_commit
  Moves-record_commit s v = Moves-bind (Moves-set env committed v) λ _ _ d.
      Moves-bind (Quiet-Moves (set_migration_completed_at-Quiet env))
        λ _ _ e. audited "migration_committed" s committed (e ∙ d)

  -- After the read of the traffic switch, from AwaitingCutover.
  confirm : Option String → M (Unit {0})
  confirm cfg =
      ensure (if is_unconfirmed cfg then false else true) cutover_not_confirmed
      >> (if allows awaiting_cutover committed
          then record_commit env awaiting_cutover
          else commit_refused env)

  abbrev Confirmed : Unit {0} → MigrationState → Type 0
  Confirmed _ t = (t ≡ committed) × (is_unconfirmed env.switch_state ≡ false)

  Moves-confirm : Moves awaiting_cutover Confirmed (confirm env.switch_state)
  unfolding confirm allows transition is_valid_transition new_state_machine
  Moves-confirm =
      Moves-ensure (if is_unconfirmed env.switch_state then false else true) cutover_not_confirmed
        (record_commit env awaiting_cutover)
        λ a. Moves-map (λ _ _ d. (d, ground arith)) (Moves-record_commit awaiting_cutover refl)

  Moves-commit_awaiting : Moves awaiting_cutover Confirmed (commit_awaiting env awaiting_cutover)
  unfolding commit_awaiting confirm
  Moves-commit_awaiting =
      Moves-bind (Moves-get_traffic_switch_config env)
        λ cfg t (d, e). subst₂ (λ c u. Moves u Confirmed (confirm c)) (sym e) (sym d) Moves-confirm

  Moves-commit_observed :
      {t : MigrationState} (s : MigrationState)
      → Loaded s t
      → Moves t (Commits t) (commit_observed env s)
  unfolding commit_observed
  Moves-commit_observed {t} s l = Moves-ensure (state_eq s observation) (cannot_commit s) _ λ o.
      Moves-ensure (allows s committed) (cannot_transition committed) _ λ a.
        Moves-map (λ _ _ d. (d, inr (inl (found s t observation l o (λ q. cc)))))
          (Moves-record_commit s (allowed s t committed l (λ e. cc) a))

  Moves-commit_from :
      {t : MigrationState} (s : MigrationState)
      → Loaded s t
      → Moves t (Commits t) (commit_from env s)
  unfolding commit_from
  Moves-commit_from {t} s l = elim (Bool-cases (state_eq s committed)) [
    | inl e ↦ let p = found s t committed l e (λ q. cc) in rw e (Moves-pure (p, inl p))
    | inr e ↦ rw e (elim (Bool-cases (state_eq s awaiting_cutover)) [
      | inl f ↦ rw f (
          from_awaiting (found s t awaiting_cutover l f (λ q. cc))
            ((state_eq_iff s awaiting_cutover).0 f))
      | inr f ↦ rw f (Moves-commit_observed s l)
    ])
  ]
    where
      from_awaiting :
          t ≡ awaiting_cutover → s ≡ awaiting_cutover → Moves t (Commits t) (commit_awaiting env s)
      from_awaiting p q =
          subst₂ (λ u v. Moves u (Commits u) (commit_awaiting env v)) (sym p) (sym q)
            (Moves-map (λ _ _ (d, e). (d, inr (inr (refl, e)))) Moves-commit_awaiting)

  pub Moves-commit : {s : MigrationState} → Moves s (Commits s) (commit env)
  unfolding commit
  Moves-commit {s} =
      Moves-bind (Moves-load_state env)
        λ r t (d, l). subst (λ u. Moves t (Commits u) (commit_from env r)) d (Moves-commit_from r l)

  Moves-cancel_from :
      {t : MigrationState} (r : MigrationState)
      → Loaded r t
      → Moves t (Ends cancelled) (cancel_from env r)
  unfolding cancel_from
  Moves-cancel_from {t} r l = Moves-ensure (allows r cancelled) (cannot_cancel r) _ λ a.
      Moves-bind (Moves-set env cancelled (allowed r t cancelled l (λ e. cc) a))
        λ _ _ d. audited "migration_cancelled" r cancelled d

  pub Moves-cancel : {s : MigrationState} → Moves s (Ends cancelled) (cancel env)
  unfolding cancel
  Moves-cancel = Moves-bind (Moves-get_migration_state env) λ r t (_, l).
      elim (Bool-cases (state_eq r cancelled)) [
        | inl e ↦ rw e (Moves-pure (found r t cancelled l e (λ q. cc)))
        | inr e ↦ rw e (Moves-cancel_from r l)
      ]
