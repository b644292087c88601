-- ===== src/StepEngine/Made.antt =====
-- The rows of the steps that Run of internal/mod/migration/engine.go makes before it starts.
use meshium.Prelude.{
  ℕ, suc, ◌+◌, ◌<◌, ◌≤◌, ◌≡◌, refl, sym, ap, subst, true, false, List, [], ◌∷◌, none, some, ◌⊎◌,
  inl, inr, arith, All, length, ◌==◌, if◌then◌else◌,
}
use text.Mathlib.Text.{◌==◌ as str_eq}
use meshium.State.{
  MigrationState, created, planning, backup, snapshot, transferring, verifying, committed,
}
use meshium.State.Machine.{is_valid_transition}
use meshium.StepEngine.{MigrationStep, Local, ok, Env}
use meshium.StepEngine.Repo.{tick, create_step, insert_step, has_step}
use meshium.StepEngine.Run.{create_steps}
use meshium.StepEngine.Rows.{
  IsNumbered, data_at, data_at-insert_step, insert_step-IsNumbered, has_step-insert_step,
}
use meshium.StepEngine.Undo.{calm, IsReversible}
use meshium.StepEngine.Loop.{Breaks, Holds, then_on-Holds}
use meshium.StepEngine.Atomic.{AreJobs}

-- No two steps have the same name.
abbrev pub AreDistinct : {T : Type 0} → List (MigrationStep T) → Type 0
AreDistinct [] = Unit
AreDistinct (step ∷ rest) =
    All (λ other. str_eq step.name other.name ≡ false) rest × AreDistinct rest

-- Some step of the list breaks.
abbrev pub AnyBreaks : {T : Type 0} → List (MigrationStep T) → Type 0
AnyBreaks [] = ⊥
AnyBreaks (step ∷ rest) = Breaks step ⊎ AnyBreaks rest

pub All-zip :
    {A : Type 0} (P Q R : A → Type 0) (xs : List A)
    → ((x : A) → P x → Q x → R x)
    → All P xs
    → All Q xs
    → All R xs
All-zip P Q R [] f p q = tt
All-zip P Q R (x ∷ xs) f (p, ps) (q, qs) = (f x p q, All-zip P Q R xs f ps qs)

pub AnyBreaks-All :
    {T : Type 0} (B : Type 0) (steps : List (MigrationStep T))
    → All IsReversible steps
    → (AnyBreaks steps → B)
    → All (λ step. IsReversible step × (Breaks step → B)) steps
AnyBreaks-All B [] r f = tt
AnyBreaks-All B (step ∷ rest) (r, rs) f =
    ((r, λ b. f (inl b)), AnyBreaks-All B rest rs (λ b. f (inr b)))

pub commits_from :
    (s : MigrationState)
    → (s ≡ transferring) ⊎ (s ≡ verifying)
    → is_valid_transition s committed ≡ true
unfolding is_valid_transition
commits_from s h = ground arith

pub goes_on :
    (is_valid_transition created planning ≡ true)
    × (is_valid_transition planning backup ≡ true)
    × (is_valid_transition backup snapshot ≡ true)
    × (is_valid_transition snapshot transferring ≡ true)
unfolding is_valid_transition
goes_on = (refl, refl, refl, refl)

module _ {T : Type 0} (env : Env) (base n : ℕ) (t0 : T) (B : Type 0) where
  -- The rows of the steps below `k` are made.
  pub record IsMade (k : ℕ) (l : Local T) : Type 0 where
    pub fresh_run : l.applied_steps ≡ []
    pub target_is : l.world.target ≡ t0
    pub at : l.sm.state ≡ created
    pub numbered : IsNumbered base l.world.rows
    pub next_is : suc l.world.last_id ≡ base + k
    pub present : (j : ℕ) → j < k → data_at j l.world.rows ≡ some ""
    pub absent : (j : ℕ) → k ≤ j → data_at j l.world.rows ≡ none

  abbrev pub made : ℕ → MigrationStep T → Local T → Local T
  made k step l = record l {
    world = record (tick (calm env) l.world) {
      rows = insert_step (suc l.world.last_id) step.name k l.world.rows;
      last_id = suc l.world.last_id;
    };
  }

  pub made-IsMade :
      (k : ℕ) (step : MigrationStep T) (l : Local T)
      → has_step step.name l.world.rows ≡ false
      → IsMade k l
      → IsMade (suc k) (made k step l)
  unfolding tick
  made-IsMade k step l new m =
      let at : (j : ℕ)
          → data_at j (made k step l).world.rows
            ≡ (if j == k then some "" else data_at j l.world.rows) =
        λ j.
          data_at-insert_step j (suc l.world.last_id) step.name k l.world.rows new
            (m.absent k (omega arith)) in
      record {
        fresh_run = m.fresh_run;
        target_is = m.target_is;
        at = m.at;
        numbered =
            subst (λ id. IsNumbered base (insert_step id step.name k l.world.rows)) (sym m.next_is)
              (insert_step-IsNumbered base step.name k l.world.rows new m.numbered);
        next_is = omega (arith, m.next_is);
        present = λ j h. ground (arith, at j, m.present j, h);
        absent = λ j h. ground (arith, at j, m.absent j, h);
      }

  pub create_steps-IsMade :
      (E : Local T → Type 0) (k : ℕ) (steps : List (MigrationStep T)) (l : Local T)
      → All (λ step. IsReversible step × (Breaks step → B)) steps
      → AreDistinct steps
      → All (λ step. has_step step.name l.world.rows ≡ false) steps
      → IsMade k l
      → Holds
          (λ jobs l'.
            AreJobs env base n t0 B k jobs
            × (length jobs ≡ length steps)
            × IsMade (k + length steps) l')
          E
          (create_steps (calm env) k steps l)
  unfolding create_steps create_step tick
  create_steps-IsMade E k [] l r d new m = (tt, refl, subst (λ x. IsMade x l) (omega arith) m)
  create_steps-IsMade E k (step ∷ rest) l ((r, tells), rs) (d, ds) (new, news) m = rw new (
      then_on-Holds
        (λ jobs l'.
          AreJobs env base n t0 B (suc k) jobs
          × (length jobs ≡ length rest)
          × IsMade (suc k + length rest) l')
        (λ jobs l'.
          AreJobs env base n t0 B k jobs
          × (length jobs ≡ length (step ∷ rest))
          × IsMade (k + length (step ∷ rest)) l')
        E (create_steps (calm env) (suc k) rest (made k step l))
        (λ jobs l'. (ok (record { index = k; id = suc l.world.last_id; step = step } ∷ jobs), l'))
        (create_steps-IsMade E (suc k) rest (made k step l) rs ds
          (All-zip _ _ _ rest
            (λ other named old.
              has_step-insert_step other.name (suc l.world.last_id) step.name k l.world.rows old
                named)
            d news)
          (made-IsMade k step l new m))
        (λ jobs l' q.
          let (a, len, m') = q in
          (
            (record { index_is = refl; id_is = m.next_is; reversible = r; tells = tells }, a),
            ap suc len,
            subst (λ x. IsMade x l') (omega arith) m',
          )))
