-- ===== src/StepEngine/Loop.antt =====
-- The loop of Run in internal/mod/migration/engine.go: what holds before each step, with a database
-- and a context that let every call through.
use meshium.Prelude.{
  ℕ, ◌<◌, ◌≤◌, ◌≡◌, refl, sym, ◌∙◌, ap, subst, true, false, List, [], ◌∷◌, String, Option, none,
  some, ◌⊎◌, All, length,
}
use meshium.State.{MigrationState}
use meshium.State.Machine.{transition, is_valid_transition}
use meshium.StepEngine.{
  StepState, StepContext, JobStep, MigrationStep, Job, Local, Error, Result, ok, err, Env, M,
  then_on,
}
use meshium.StepEngine.Repo.{
  tick, call_context, set_state, put_state, update_step_state, update_step,
}
use meshium.StepEngine.Run.{set_step_state, add_result, break_off, or_break_off, do_phase}
use meshium.StepEngine.Rollback.{transition_to, run_phase}
use meshium.StepEngine.Rows.{IsNumbered, data_at, data_at-update_step, update_step-IsNumbered}
use meshium.StepEngine.Undo.{calm, Undoes, IsReverted, fail_and_rollback-IsReverted}

-- A phase of the step fails in some situation.
abbrev pub Breaks : {T : Type 0} → MigrationStep T → Type 0
Breaks {T} step =
    (c : StepContext) × (t : T) × (((step.prepare c t).0 ≡ none)
      ⊎ ((step.apply c t).0 ≡ none)
      ⊎ ((step.verify c t).0 ≡ none))

-- What holds of the variables after a part of a run: one property of a result, another of an error.
abbrev pub Holds :
    {T A : Type 0} → (A → Local T → Type 0) → (Local T → Type 0) → Result A × Local T → Type 0
Holds Q E (ok a, l) = Q a l
Holds Q E (err e, l) = E l

pub then_on-Holds :
    {T A B : Type 0} (Q : A → Local T → Type 0) (R : B → Local T → Type 0) (E : Local T → Type 0)
    (r : Result A × Local T) (f : A → M T B)
    → Holds Q E r
    → ((a : A) (l : Local T) → Q a l → Holds R E (f a l))
    → Holds R E (then_on r.0 f r.1)
then_on-Holds Q R E (ok a, l) f q more = more a l q
then_on-Holds Q R E (err e, l) f q more = q

-- The rollbacks need only the data of the applied steps.
pub Undoes-same :
    {T : Type 0} (rows rows' : List JobStep) (jobs : List (Job T)) (t t0 : T)
    → All (λ job. data_at job.index rows' ≡ data_at job.index rows) jobs
    → Undoes rows jobs t t0
    → Undoes rows' jobs t t0
Undoes-same rows rows' [] t t0 same u = u
Undoes-same rows rows' (job ∷ rest) t t0 (e, same) (text, t', at, undo, u) =
    (text, t', e ∙ at, undo, Undoes-same rows rows' rest t' t0 same u)

pub All-of : {A : Type 0} (P : A → Type 0) (xs : List A) → ((x : A) → P x) → All P xs
All-of P [] f = tt
All-of P (x ∷ xs) f = (f x, All-of P xs f)

pub All-imp :
    {A : Type 0} (P Q : A → Type 0) (xs : List A) → ((x : A) → P x → Q x) → All P xs → All Q xs
All-imp P Q [] f a = a
All-imp P Q (x ∷ xs) f (p, a) = (f x p, All-imp P Q xs f a)

-- Before the step with index `i` of `n`: the state of the machine, the rows of the steps to come,
-- and that the applied steps can be undone.
pub record Before {T : Type 0} (base n : ℕ) (t0 : T) (i : ℕ) (s : MigrationState) (l : Local T)
    : Type 0 where
  pub at : l.sm.state ≡ s
  pub numbered : IsNumbered base l.world.rows
  pub fresh : (k : ℕ) → i ≤ k → k < n → data_at k l.world.rows ≡ some ""
  pub earlier : All (λ job. job.index < i) l.applied_steps
  pub count : length l.applied_steps ≡ i
  pub undoes : Undoes l.world.rows l.applied_steps l.world.target t0

module _ {T : Type 0} (env : Env) (base n : ℕ) (t0 : T) (B : Type 0) where
  -- What an error leaves: a reverted migration, and the reason `B`.
  abbrev pub Stops : Local T → Type 0
  Stops l = IsReverted env t0 l × B

  pub break_off-Stops :
      {A : Type 0} (Q : A → Local T → Type 0) (job : Job T) (e : Error) (l : Local T)
      → Undoes l.world.rows l.applied_steps l.world.target t0
      → B
      → Holds Q Stops (break_off (calm env) job e l)
  unfolding break_off set_step_state add_result update_step_state call_context tick
  break_off-Stops Q job e l u b = (
    fail_and_rollback-IsReverted env
        (add_result (calm env) job StepState.failed false
          (set_step_state (calm env) job StepState.failed l).1).1
        t0
        (Undoes-same l.world.rows (update_step StepState.failed job.id l.world.rows) l.applied_steps
          l.world.target t0
          (All-of _ l.applied_steps
            (λ j. data_at-update_step j.index StepState.failed job.id l.world.rows))
          u),
    b,
  )

  -- New states and data of the rows, and a new target, that keep what holds before a step.
  pub Before-kept :
      (i : ℕ) (s : MigrationState) (l l' : Local T)
      → l'.sm.state ≡ s
      → l'.applied_steps ≡ l.applied_steps
      → l'.world.target ≡ l.world.target
      → IsNumbered base l'.world.rows
      → ((k : ℕ) → data_at k l'.world.rows ≡ data_at k l.world.rows)
      → (s' : MigrationState) → Before base n t0 i s' l
      → Before base n t0 i s l'
  Before-kept i s l l' at a t numbered same s' b = record {
    at = at;
    numbered = numbered;
    fresh = λ k h h'. same k ∙ b.fresh k h h';
    earlier = subst (All (λ job. job.index < i)) (sym a) b.earlier;
    count = ap length a ∙ b.count;
    undoes =
        Undoes-same l.world.rows l'.world.rows l'.applied_steps l'.world.target t0
          (All-of _ l'.applied_steps (λ j. same j.index))
          (subst (λ x. Undoes l.world.rows l'.applied_steps x t0) (sym t)
            (subst (λ x. Undoes l.world.rows x l.world.target t0) (sym a) b.undoes));
  }

  pub transition_to-Before :
      (i : ℕ) (s to : MigrationState) (l : Local T)
      → is_valid_transition s to ≡ true
      → Before base n t0 i s l
      → Holds (λ _. Before base n t0 i to) Stops (transition_to (calm env) to l)
  unfolding transition_to transition set_state call_context put_state tick
  transition_to-Before i s to l valid b =
      let v : is_valid_transition l.sm.state to ≡ true =
        subst (λ x. is_valid_transition x to ≡ true) (sym b.at) valid in
      rw v (Before-kept i to l _ refl refl refl b.numbered (λ k. refl) s b)

  pub set_step_state-Before :
      (i : ℕ) (s : MigrationState) (job : Job T) (state : StepState) (l : Local T)
      → Before base n t0 i s l
      → Before base n t0 i s (set_step_state (calm env) job state l).1
  unfolding set_step_state update_step_state call_context tick
  set_step_state-Before i s job state l b =
      Before-kept i s l _ b.at refl refl
        (update_step-IsNumbered base state job.id l.world.rows b.numbered)
        (λ k. data_at-update_step k state job.id l.world.rows) s b

  or_break_off-Before :
      (i : ℕ) (s : MigrationState) (job : Job T) (e : Error) (o : Option String) (l : Local T)
      → (o ≡ none → B)
      → Before base n t0 i s l
      → Holds (λ _. Before base n t0 i s) Stops (or_break_off (calm env) job e o l)
  or_break_off-Before i s job e none l breaks b = break_off-Stops _ job e l b.undoes (breaks refl)
  or_break_off-Before i s job e (some text) l breaks b = b

  -- A phase that leaves the target as it is.
  pub do_phase-Before :
      (i : ℕ) (s : MigrationState) (job : Job T) (state : StepState) (e : Error)
      (phase : StepContext → T → Option String × T) (p a : String) (l : Local T)
      → ((c : StepContext) (t : T) → (phase c t).1 ≡ t)
      → ((c : StepContext) (t : T) → (phase c t).0 ≡ none → B)
      → Before base n t0 i s l
      → Holds (λ _. Before base n t0 i s) Stops (do_phase (calm env) job state e phase p a l)
  unfolding do_phase set_step_state run_phase update_step_state call_context tick
  do_phase-Before i s job state e phase p a l keeps breaks b =
      or_break_off-Before i s job e _ _
        (breaks (record { ctx_err = false; prepare_data = p; apply_data = a }) l.world.target)
        (Before-kept i s l _ b.at refl
          (keeps (record { ctx_err = false; prepare_data = p; apply_data = a }) l.world.target)
          (update_step-IsNumbered base state job.id l.world.rows b.numbered)
          (λ k. data_at-update_step k state job.id l.world.rows) s b)
