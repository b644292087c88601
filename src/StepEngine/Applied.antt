-- ===== src/StepEngine/Applied.antt =====
-- The Prepare and the Apply of one step in Run of internal/mod/migration/engine.go.
use meshium.Prelude.{
  ℕ, suc, ◌+◌, ◌<◌, ◌≡◌, refl, sym, ◌∙◌, ap, subst, false, List, ◌∷◌, String, Option, none, some,
  inl, inr, if◌then◌else◌, Bool-cases,
}
use text.Mathlib.Text.{◌==◌ as str_eq}
use text.Mathlib.TextEquality.{eq_iff}
use meshium.State.{MigrationState, applying}
use meshium.StepEngine.{
  StepState, StepContext, JobStep, World, Job, Local, Error, ok, Env, prepare_failed, apply_failed,
}
use meshium.StepEngine.Repo.{
  Phase, preparation, application, tick, call, call_context, update_step_state, set_step_data,
  update_step, set_data,
}
use meshium.StepEngine.Run.{set_step_state, or_break_off, do_phase, prepare_step}
use meshium.StepEngine.Rollback.{run_phase}
use meshium.StepEngine.Rows.{
  IsNumbered, data_at, data_at-update_step, update_step-IsNumbered, set_data-IsNumbered,
  data_at-set_data_prepare, data_at-set_data_other, data_at-set_data_later, data_at-set_data,
}
use meshium.StepEngine.Undo.{calm, IsReversible, Undoes}
use meshium.StepEngine.Loop.{
  Breaks, Holds, then_on-Holds, Before, Stops, break_off-Stops, Before-kept, set_step_state-Before,
  do_phase-Before,
}

pub stored_rows :
    {T : Type 0} (env : Env) (id : ℕ) (phase : Phase) (text : String) (w : World T)
    → ((set_step_data (calm env) id phase text w).rows
        ≡ (if str_eq text "" then w.rows else set_data phase text id w.rows))
      × ((set_step_data (calm env) id phase text w).target ≡ w.target)
unfolding set_step_data call tick
stored_rows env id phase text w = elim (Bool-cases (str_eq text "")) [
  | inl empty ↦ rw empty (refl, refl)
  | inr full ↦ rw full (refl, refl)
]

-- What storing the apply data of the step with index `i` comes to.
pub stored_data :
    (base i : ℕ) (text : String) (rows : List JobStep)
    → IsNumbered base rows
    → data_at i rows ≡ some ""
    → (rows' : List JobStep)
    → rows' ≡ (if str_eq text "" then rows else set_data application text (base + i) rows)
    → IsNumbered base rows'
      × (data_at i rows' ≡ some text)
      × ((k : ℕ) → k < i → data_at k rows' ≡ data_at k rows)
      × ((k : ℕ) → i < k → data_at k rows' ≡ data_at k rows)
stored_data base i text rows a fresh rows' e = elim (Bool-cases (str_eq text "")) [
  | inl empty ↦
      let same : rows' ≡ rows = e ∙ rw empty refl in
      rw same (a, fresh ∙ ap some (sym ((eq_iff text "").0 empty)), λ k h. refl, λ k h. refl)
  | inr full ↦
      let new : rows' ≡ set_data application text (base + i) rows = e ∙ rw full refl in
      rw new (
        set_data-IsNumbered base application text (base + i) rows a,
        data_at-set_data base i "" text rows a fresh,
        λ k h. data_at-set_data_other base k i text rows a h,
        λ k h. data_at-set_data_later base k i text rows a h,
      )
]

module _ {T : Type 0} (env : Env) (base n : ℕ) (t0 : T) (B : Type 0) where
  -- The step of a job: its index and row, that it can be undone, and what its failure tells.
  pub record IsJob (i : ℕ) (job : Job T) : Type 0 where
    pub index_is : job.index ≡ i
    pub id_is : job.id ≡ base + i
    pub reversible : IsReversible job.step
    pub tells : Breaks job.step → B

  pub set_step_data-Before :
      (i : ℕ) (s : MigrationState) (job : Job T) (phase : Phase) (text : String) (l : Local T)
      → ((k : ℕ) (rows : List JobStep)
          → data_at k (set_data phase text job.id rows) ≡ data_at k rows)
      → Before base n t0 i s l
      → Before base n t0 i s
          (record l { world = set_step_data (calm env) job.id phase text l.world })
  unfolding set_step_data call tick
  set_step_data-Before i s job phase text l same b = elim (Bool-cases (str_eq text "")) [
    | inl empty ↦ rw empty b
    | inr full ↦ rw full (
        Before-kept env base n t0 B i s l
          (record l {
            world = record (tick (calm env) l.world) {
              rows = set_data phase text job.id l.world.rows;
            };
          })
          b.at refl refl (set_data-IsNumbered base phase text job.id l.world.rows b.numbered)
          (λ k. same k l.world.rows) s b)
  ]

  pub prepare_step-Before :
      (i : ℕ) (s : MigrationState) (job : Job T) (l : Local T)
      → IsJob i job
      → Before base n t0 i s l
      → Holds (λ _. Before base n t0 i s) (Stops env base n t0 B) (prepare_step (calm env) job l)
  unfolding prepare_step
  prepare_step-Before i s job l j b =
      then_on-Holds (λ _. Before base n t0 i s) (λ _. Before base n t0 i s) (Stops env base n t0 B)
        (do_phase (calm env) job StepState.preparing (prepare_failed job.step.name) job.step.prepare
          "" "" l)
        (λ data' l'. (
          ok data',
          record l' {
            world =
                set_step_data (calm env) job.id preparation data'
                  (update_step_state (calm env) job.id StepState.prepared l'.world);
          },
        ))
        (do_phase-Before env base n t0 B i s job StepState.preparing (prepare_failed job.step.name)
          job.step.prepare "" "" l j.reversible.prepares (λ c t e. j.tells (c, t, inl e)) b)
        (λ data' l' b'.
          set_step_data-Before i s job preparation data'
            (set_step_state (calm env) job StepState.prepared l').1
            (λ k rows. data_at-set_data_prepare k data' job.id rows)
            (set_step_state-Before env base n t0 B i s job StepState.prepared l' b'))

  -- The target after the apply of the step, all else as it was before.
  abbrev pub IsApplied : ℕ → Job T → String → Local T → Type 0
  IsApplied i job text l =
      (l0 : Local T) × (c : StepContext) × Before base n t0 i applying l0
      × ((job.step.apply c l0.world.target).0 ≡ some text)
      × (l
          ≡ record l0 { world = record l0.world { target = (job.step.apply c l0.world.target).1 } })

  pub or_break_off-IsApplied :
      (i : ℕ) (job : Job T) (e : Error) (c : StepContext) (l : Local T) (o : Option String)
      → IsJob i job
      → Before base n t0 i applying l
      → (job.step.apply c l.world.target).0 ≡ o
      → Holds (IsApplied i job) (Stops env base n t0 B) (
          or_break_off
            (calm env)
            job
            e
            o
            (record l { world = record l.world { target = (job.step.apply c l.world.target).1 } }))
  or_break_off-IsApplied i job e c l none j b h =
      break_off-Stops env base n t0 B (IsApplied i job) job e _
        (subst (λ t. Undoes l.world.rows l.applied_steps t t0)
          (sym (j.reversible.refuses c l.world.target h)) b.undoes)
        (j.tells (c, l.world.target, inr (inl h)))
  or_break_off-IsApplied i job e c l (some text) j b h = (l, c, b, h, refl)

  pub do_phase-IsApplied :
      (i : ℕ) (job : Job T) (p : String) (l : Local T)
      → IsJob i job
      → Before base n t0 i applying l
      → Holds (IsApplied i job) (Stops env base n t0 B) (
          do_phase
            (calm env)
            job
            StepState.applying
            (apply_failed job.step.name)
            job.step.apply
            p
            ""
            l)
  unfolding do_phase set_step_state run_phase update_step_state call_context tick
  do_phase-IsApplied i job p l j b =
      or_break_off-IsApplied i job (apply_failed job.step.name)
        (record { ctx_err = false; prepare_data = p; apply_data = "" })
        (record l {
          world = record l.world {
            rows = update_step StepState.applying job.id l.world.rows;
            calls = suc (suc l.world.calls);
          };
        })
        _ j
        (Before-kept env base n t0 B i applying l _ b.at refl refl
          (update_step-IsNumbered base StepState.applying job.id l.world.rows b.numbered)
          (λ k. data_at-update_step k StepState.applying job.id l.world.rows) applying b)
        refl

  -- The variables after the apply of a job: its row, and the job among the applied ones.
  abbrev pub counted : Job T → String → Local T → Local T
  counted job text l = record l {
    world =
        set_step_data (calm env) job.id application text
          (update_step_state (calm env) job.id StepState.applied l.world);
    applied_steps = job ∷ l.applied_steps;
  }
