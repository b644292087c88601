-- ===== src/Cutover/Steps.antt =====
-- One step of a cutover (internal/mod/migration/cutover_orchestrator.go: advance, with MarkStep and
-- Save) keeps checkpoint and actions in agreement.
use meshium.Prelude.{
  ℕ, suc, ◌≤◌, ◌≡◌, refl, sym, ◌∙◌, Bool, true, false, not, ◌||◌, ltb, lt→ltb, ltb→lt, some, ◌∷◌,
  inl, inr, subst, Bool-cases, arith,
}
use meshium.Fencing.{FenceLease, Answer, granted, refused, Table, assert_holds}
use meshium.Cutover.{SubState, position, sub_name, valid_cutover_transition, Checkpoint}
use meshium.Cutover.Run.{
  CutoverError, Env, World, stopped, sign, mark, is_at, save, mark_step, perform, fenced, advance,
  tick, next_call, mirrored, saved, illegal_transition, step_failed, fence_error,
}
use meshium.Cutover.Good.{
  has, place, Good, Orderly, Kept, Good-sign, Good-log, has-head, Good-mark, Stores, Orderly-Stores,
  equal,
}

module _ (env : Env) where
  pub mirrored_same :
      (w : World) (a : Answer (Unit {0}) × Table)
      → ((mirrored env w a).1.log ≡ w.log) × ((mirrored env w a).1.stored ≡ w.stored)
  mirrored_same w (granted x, t) = (refl, refl)
  mirrored_same w (refused e, t) = (refl, refl)

  pub save-Stores :
      (cp : Checkpoint) (lease : FenceLease) (w : World)
      → Stores (sign lease cp) w (save env cp lease w).1
  unfolding save
  save-Stores cp lease w =
      elim (Bool-cases (env.fails w.calls || (not env.stage_exists || env.fails (suc w.calls)))) [
        | inl h ↦ rw h (refl, inl refl)
        | inr h ↦
            let (a, b) = mirrored_same (record (tick env w) { stored = some (sign lease cp) }) _ in
            rw h (a, inr b)
      ]

  pub save_kept :
      (cp : Checkpoint) (lease : FenceLease) (w : World)
      → Orderly w
      → Good cp w.log
      → Orderly (save env cp lease w).1
  save_kept cp lease w o g =
      Orderly-Stores (sign lease cp) w _ (save-Stores cp lease w) o (Good-sign lease cp w.log g)

  pub saved-Kept :
      (cp : Checkpoint) (lease : FenceLease) (n : ℕ) (w : World)
      → Orderly w
      → Good cp w.log
      → suc n ≤ place cp.sub_state
      → Kept n (saved env (save env cp lease w).0, cp, (save env cp lease w).1)
  saved-Kept cp lease n w o g h = record {
    orderly = save_kept cp lease w o g;
    good = subst (Good cp) (sym (save-Stores cp lease w).0) g;
    further = λ _. h;
  }

  pub unmoved :
      (n : ℕ) (e : CutoverError) (cp : Checkpoint) (w : World)
      → Orderly w
      → Good cp w.log
      → Kept n (stopped e, cp, w)
  unmoved n e cp w o g = record { orderly = o; good = g; further = λ h. cc h }

  pub mark_step-Kept :
      (cp : Checkpoint) (lease : FenceLease) (from to : SubState) (w : World)
      → Orderly w
      → Good cp w.log
      → has from w.log ≡ true
      → cp.steps from ≡ false
      → place cp.sub_state ≡ position from
      → position to ≡ suc (position from)
      → Kept (position from) (mark_step env cp lease from to w)
  unfolding mark_step
  mark_step-Kept cp lease from to w o g d u p q =
      elim (Bool-cases (not (is_at from cp.sub_state) || not (valid_cutover_transition from to))) [
        | inl h ↦ rw h (unmoved _ illegal_transition cp w o g)
        | inr h ↦
            rw (h, u)
              (saved-Kept (sign lease (mark from to cp)) lease (position from) w o
                (Good-sign lease (mark from to cp) w.log (Good-mark from to cp w.log g d p q))
                (omega (arith, q)))
      ]

  -- Trying an action when all the earlier ones have succeeded.
  pub tried :
      (cp : Checkpoint) (from : SubState) (done : Bool) (w : World)
      → Orderly w
      → Good cp w.log
      → place cp.sub_state ≡ position from
      → Orderly (record (tick env w) { log = (from, done) ∷ w.log })
  tried cp from done w o g p = record {
    in_order = (
      λ t h.
          g.succeeded t
            (g.counted t ∙ lt→ltb (position t) (place cp.sub_state) (omega (arith, h, p))),
      o.in_order,
    );
    stored_good = λ c h. Good-log c (from, done) w.log (o.stored_good c h);
  }

  pub perform-Kept :
      (cp : Checkpoint) (lease : FenceLease) (from to : SubState) (w : World)
      → Orderly w
      → Good cp w.log
      → cp.steps from ≡ false
      → place cp.sub_state ≡ position from
      → position to ≡ suc (position from)
      → Kept (position from) (perform env cp lease from to w)
  unfolding perform
  perform-Kept cp lease from to w o g u p q = elim (Bool-cases (env.act from w.calls)) [
    | inl h ↦ rw h (
        mark_step-Kept cp lease from to _ (tried cp from true w o g p)
          (Good-log cp (from, true) w.log g) (has-head from w.log) u p q)
    | inr h ↦ rw h (
        unmoved _ (step_failed from) cp _ (tried cp from false w o g p)
          (Good-log cp (from, false) w.log g))
  ]

  -- A step of a run whose sub-state is at or past the step.
  pub advance-Kept :
      (cp : Checkpoint) (lease : FenceLease) (from to : SubState) (w : World)
      → Orderly w
      → Good cp w.log
      → position from ≤ place cp.sub_state
      → position to ≡ suc (position from)
      → Kept (position from) (advance env cp lease from to w)
  unfolding advance
  advance-Kept cp lease from to w o g p q = elim (Bool-cases (cp.steps from)) [
    | inl h ↦
        rw h (record { orderly = o; good = g; further = λ _. past (sym (g.counted from) ∙ h) })
    | inr h ↦ rw h (
        fenced_kept h (
          assert_holds env.times (next_call env w) lease.holder lease.fence_token (sub_name from)
            w.table))
  ]
    where
      past :
          ltb (position from) (place cp.sub_state) ≡ true → suc (position from) ≤ place cp.sub_state
      past h = ltb→lt (position from) (place cp.sub_state) h

      at_step : cp.steps from ≡ false → place cp.sub_state ≡ position from
      at_step h = equal (position from) (place cp.sub_state) p (sym (g.counted from) ∙ h)

      ticked : Orderly (tick env w)
      ticked = record { in_order = o.in_order; stored_good = o.stored_good }

      fenced_kept :
          cp.steps from ≡ false
          → (a : Answer FenceLease) → Kept (position from) (fenced env a cp lease from to w)
      fenced_kept h (granted l) =
          perform-Kept cp lease from to (tick env w) ticked g h (at_step h) q
      fenced_kept h (refused e) = unmoved (position from) (fence_error e) cp (tick env w) ticked g
