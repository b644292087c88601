-- ===== src/StepEngine/Turn.antt =====
-- One turn of the loop of Run in internal/mod/migration/engine.go: the three phases of a step that
-- can be undone.
use meshium.Prelude.{
  ℕ, suc, ◌<◌, ◌≡◌, sym, ◌∙◌, ap, subst, List, String, some, arith, if◌then◌else◌,
}
use text.Mathlib.Text.{◌==◌ as str_eq}
use meshium.Pipeline.Repo.{undone}
use meshium.State.{applying}
use meshium.StepEngine.{StepState, StepContext, JobStep, Job, Local, ok, Env, apply_failed}
use meshium.StepEngine.Repo.{
  application, tick, call_context, update_step_state, update_step, set_data,
}
use meshium.StepEngine.Run.{do_phase, apply_step}
use meshium.StepEngine.Rows.{data_at, data_at-update_step, update_step-IsNumbered}
use meshium.StepEngine.Undo.{calm}
use meshium.StepEngine.Loop.{Holds, then_on-Holds, Undoes-same, All-imp, Before, Stops}
use meshium.StepEngine.Applied.{
  stored_rows, stored_data, IsJob, IsApplied, do_phase-IsApplied, counted,
}

module _ {T : Type 0} (env : Env) (base n : ℕ) (t0 : T) (B : Type 0) where
  counted-Before :
      (i : ℕ) (job : Job T) (text : String) (c : StepContext) (l : Local T)
      → IsJob env base n t0 B i job
      → i < n
      → Before base n t0 i applying l
      → (job.step.apply c l.world.target).0 ≡ some text
      → Before base n t0 (suc i) applying (
          counted env base n t0 B job text
            (record l { world = record l.world { target = (job.step.apply c l.world.target).1 } }))
  unfolding update_step_state call_context tick
  counted-Before i job text c l j h b done =
      let l' : Local T =
        counted env base n t0 B job text
          (record l { world = record l.world { target = (job.step.apply c l.world.target).1 } }) in
      let rows : List JobStep = update_step StepState.applied job.id l.world.rows in
      let old : (k : ℕ) → data_at k rows ≡ data_at k l.world.rows =
        λ k. data_at-update_step k StepState.applied job.id l.world.rows in
      let stored = stored_rows env job.id application text (record (tick (calm env) l.world) {
        rows = rows;
        target = (job.step.apply c l.world.target).1;
      }) in
      let (numbered, mine, before, after) =
        stored_data base i text rows
          (update_step-IsNumbered base StepState.applied job.id l.world.rows b.numbered)
          (old i ∙ b.fresh i (omega arith) h) l'.world.rows
          (stored.0
            ∙ ap (λ x. if str_eq text "" then rows else set_data application text x rows)
                j.id_is) in
      record {
        at = b.at;
        numbered = numbered;
        fresh = λ k low high.
            after k (omega (arith, low)) ∙ old k ∙ b.fresh k (omega (arith, low)) high;
        earlier = (
          omega (arith, j.index_is),
          All-imp (λ x. x.index < i) (λ x. x.index < suc i) l.applied_steps
              (λ x low. omega (arith, low)) b.earlier,
        );
        count = ap suc b.count;
        undoes = (
          text,
          l.world.target,
          ap (λ x. data_at x l'.world.rows) j.index_is ∙ mine,
          λ c' e.
              subst (λ t. job.step.roll_back c' t ≡ (undone, l.world.target)) (sym stored.1)
                (j.reversible.undoes c c' l.world.target text done e),
          Undoes-same l.world.rows l'.world.rows l.applied_steps l.world.target t0
              (All-imp (λ x. x.index < i)
                (λ x. data_at x.index l'.world.rows ≡ data_at x.index l.world.rows) l.applied_steps
                (λ x low. before x.index low ∙ old x.index) b.earlier)
              b.undoes,
        );
      }

  pub apply_step-Before :
      (i : ℕ) (job : Job T) (p : String) (l : Local T)
      → IsJob env base n t0 B i job
      → i < n
      → Before base n t0 i applying l
      → Holds
          (λ _. Before base n t0 (suc i) applying)
          (Stops env base n t0 B)
          (apply_step (calm env) job p l)
  unfolding apply_step
  apply_step-Before i job p l j h b =
      then_on-Holds (IsApplied env base n t0 B i job) (λ _. Before base n t0 (suc i) applying)
        (Stops env base n t0 B)
        (do_phase (calm env) job StepState.applying (apply_failed job.step.name) job.step.apply p ""
          l)
        (λ text l'. (ok text, counted env base n t0 B job text l'))
        (do_phase-IsApplied env base n t0 B i job p l j b)
        (λ text l' a.
          let (l0, c, b0, done, e) = a in
          subst (λ x. Before base n t0 (suc i) applying (counted env base n t0 B job text x))
            (sym e) (counted-Before i job text c l0 j h b0 done))
