-- ===== src/Cutover/Order.antt =====
-- The order of the actions of a cutover (internal/mod/migration/cutover_orchestrator.go), over any
-- number of runs that may break off anywhere.
use meshium.Prelude.{
  ℕ, suc, ◌≤◌, ◌≡◌, ◌≢◌, refl, sym, ◌∙◌, ap, Bool, true, false, ◌||◌, ltb, ◌==◌, Option, none, some,
  List, [], ◌∷◌, ◌⊎◌, inl, inr, subst, Bool-cases, Option-cases, arith,
}
use text.Mathlib.TextEquality.{eq_iff}
use text.Mathlib.Text.{◌==◌ as str_eq}
use meshium.Fencing.{
  is_released, is_live, FenceLease, Answer, granted, refused, Table, assert_holds,
}
use meshium.Cutover.{
  SubState, preflight, completed, position, sub_name, Checkpoint, empty_checkpoint, run_steps,
}
use meshium.Cutover.Run.{
  CutoverError, Env, World, Progress, advanced, skipped, stopped, sign, is_at, save, fenced,
  advance, after, drive, load, load_from, checked, bootstrap, acquire_or_recover, start, run_loaded,
  run, tick, next_call,
}
use Prim.Native.String.{String}
use meshium.Fencing.Tokens.{assert_holds_iff}
use meshium.Cutover.Good.{place, Good, InOrder, Orderly, Kept, Chain, Good-sign, granted_injective}
use meshium.Cutover.Steps.{save-Stores, save_kept, advance-Kept}

name_test : (s : SubState) → str_eq (sub_name s) "" ≡ false
unfolding sub_name
name_test preflight = refl
name_test _ = refl

sub_name_nonempty : (s : SubState) → sub_name s ≢ ""
sub_name_nonempty s e = cc ((eq_iff (sub_name s) "").1 e, name_test s)

named : {t : String} (s : SubState) → (sub_name s ≡ "") ⊎ (t ≡ sub_name s) → t ≡ sub_name s
named s (inl e) = absurd (sub_name_nonempty s e)
named s (inr e) = e

module _ (env : Env) where
  after-Kept :
      (n : ℕ) (lease : FenceLease) (rest : Checkpoint → World → Option CutoverError × World)
      (r : Progress × Checkpoint × World)
      → ((cp : Checkpoint) (w : World)
          → Orderly w
          → Good cp w.log
          → suc n ≤ place cp.sub_state
          → Orderly (rest cp w).1)
      → Kept n r
      → Orderly (after env lease r rest).1
  after-Kept n lease rest (advanced, cp, w) h k = h cp w k.orderly k.good (k.further refl)
  after-Kept n lease rest (skipped, cp, w) h k = h cp w k.orderly k.good (k.further refl)
  after-Kept n lease rest (stopped e, cp, w) h k = save_kept env cp lease w k.orderly k.good

  drive_kept :
      (n : ℕ) (steps : List (SubState × SubState)) (lease : FenceLease) (cp : Checkpoint)
      (w : World)
      → Chain n steps
      → Orderly w
      → Good cp w.log
      → n ≤ place cp.sub_state
      → Orderly (drive env steps lease cp w).1
  unfolding drive
  drive_kept n [] lease cp w c o g h = record { in_order = o.in_order; stored_good = o.stored_good }
  drive_kept n ((from, to) ∷ rest) lease cp w (a, b, c) o g h =
      after-Kept n lease _ (advance env cp lease from to w)
        (λ cp' w' o' g' h'. drive_kept (suc n) rest lease cp' w' c o' g' h')
        (subst (λ k. Kept k (advance env cp lease from to w)) a
          (advance-Kept env cp lease from to w o g (omega (arith, a, h)) (omega (arith, a, b))))

  run_steps-Chain : Chain 0 run_steps
  unfolding position
  run_steps-Chain = (
    refl,
    refl,
    (
      refl,
      refl,
      (
        refl,
        refl,
        (
          refl,
          refl,
          (
            refl,
            refl,
            (refl, refl, (refl, refl, (refl, refl, (refl, refl, (refl, refl, (refl, refl, tt)))))),
          ),
        ),
      ),
    ),
  )

  start_kept :
      (cp : Checkpoint) (a : Answer FenceLease) (w : World)
      → Orderly w
      → Good cp w.log
      → Orderly (start env run_steps cp (a, w)).1
  start_kept cp (refused e) w o g = o
  start_kept cp (granted lease) w o g = elim (Bool-cases (save env cp lease w).0) [
    | inl h ↦ rw h (
        drive_kept 0 run_steps lease (sign lease cp) _ run_steps-Chain
          (save_kept env cp lease w o g)
          (Good-sign lease cp _ (subst (Good cp) (sym (save-Stores env cp lease w).0) g))
          (omega arith))
    | inr h ↦ rw h (save_kept env cp lease w o g)
  ]

  Good-bootstrap :
      (cp : Checkpoint) (log : List (SubState × Bool)) → Good cp log → Good (bootstrap env cp) log
  unfolding position
  Good-bootstrap cp log g = elim (Option-cases cp.sub_state) [
    | inl e ↦ rw e (record {
      counted = λ s. g.counted s ∙ ap (λ x. ltb (position s) (place x)) e;
      succeeded = g.succeeded;
    })
    | inr (t, e) ↦ rw e (record {
      counted = λ s. g.counted s ∙ ap (λ x. ltb (position s) (place x)) e;
      succeeded = g.succeeded;
    })
  ]

  -- A checkpoint that Load returns is the stored one or the empty one.
  checked_same : (a : Answer FenceLease) (c cp : Checkpoint) → checked env a c ≡ granted cp → c ≡ cp
  checked_same (granted l) c cp h = cc h
  checked_same (refused e) c cp h = cc h

  load_from-Good :
      (w : World) (stored : Option Checkpoint) (cp : Checkpoint)
      → ((c : Checkpoint) → stored ≡ some c → Good c w.log)
      → load_from env w stored ≡ granted cp
      → Good cp w.log
  unfolding empty_checkpoint
  load_from-Good w none cp g h =
      subst (λ c. Good c w.log) (granted_injective _ _ h)
        (record { counted = λ s. ground arith; succeeded = λ s e. cc e })
  load_from-Good w (some c) cp g h = subst (λ c. Good c w.log) same (g c refl)
    where
      same : c ≡ cp
      same =
          elim (Bool-cases
            ((str_eq c.holder "" || (c.token == 0)) || is_at completed c.sub_state)) [
              | inl e ↦ granted_injective c cp (rw e at h)
              | inr e ↦ checked_same _ c cp (rw e at h)
            ]

  load-Good : (w : World) (cp : Checkpoint) → Orderly w → load env w ≡ granted cp → Good cp w.log
  unfolding load
  load-Good w cp o h = elim (Bool-cases (env.fails w.calls)) [
    | inl e ↦ cc (rw e at h)
    | inr e ↦ load_from-Good w w.stored cp o.stored_good (rw e at h)
  ]

  acquired_kept :
      (cp : Checkpoint) (w : World)
      → Orderly w
      → Good cp w.log
      → Orderly (start env run_steps cp (acquire_or_recover env cp w)).1
  unfolding acquire_or_recover
  acquired_kept cp w o g = elim (Bool-cases (str_eq cp.holder "" || (cp.token == 0))) [
    | inl h ↦
        rw h (start_kept cp _ _ (record { in_order = o.in_order; stored_good = o.stored_good }) g)
    | inr h ↦
        rw h (start_kept cp _ _ (record { in_order = o.in_order; stored_good = o.stored_good }) g)
  ]

  run_loaded-Orderly :
      (a : Answer Checkpoint) (w : World)
      → Orderly w
      → ((cp : Checkpoint) → a ≡ granted cp → Good cp w.log)
      → Orderly (run_loaded env run_steps a w).1
  run_loaded-Orderly (refused e) w o g = o
  run_loaded-Orderly (granted cp) w o g =
      elim (Bool-cases (is_at completed (bootstrap env cp).sub_state)) [
        | inl h ↦ rw h o
        | inr h ↦ rw h (acquired_kept (bootstrap env cp) w o (Good-bootstrap cp w.log (g cp refl)))
      ]

  run_kept : (w : World) → Orderly w → Orderly (run env run_steps w).1
  unfolding run
  run_kept w o =
      run_loaded-Orderly (load env w) (tick env (tick env w))
        (record { in_order = o.in_order; stored_good = o.stored_good }) λ cp h. load-Good w cp o h

  -- An action is tried only while the lease is the run's own, not released, not expired, and in the
  -- state of that step.
  pub advance_fenced :
      (cp : Checkpoint) (lease : FenceLease) (from to : SubState) (w : World)
      → (advance env cp lease from to w).2.log ≢ w.log
      → (row : FenceLease) × (w.table ≡ some row)
        × (is_released row ≡ false)
        × (row.holder ≡ lease.holder)
        × (row.fence_token ≡ lease.fence_token)
        × (is_live env.times (env.clock w.calls) row ≡ true)
        × (row.state ≡ sub_name from)
  unfolding advance
  advance_fenced cp lease from to w n = elim (Bool-cases (cp.steps from)) [
    | inl h ↦ absurd (n (rw h refl))
    | inr h ↦ held _ refl (rw h at n)
  ]
    where
      held :
          (a : Answer FenceLease)
          → assert_holds env.times
              (next_call env w)
              lease.holder
              lease.fence_token
              (sub_name from)
              w.table
            ≡ a
          → (fenced env a cp lease from to w).2.log ≢ w.log
          → (row : FenceLease) × (w.table ≡ some row)
            × (is_released row ≡ false)
            × (row.holder ≡ lease.holder)
            × (row.fence_token ≡ lease.fence_token)
            × (is_live env.times (env.clock w.calls) row ≡ true)
            × (row.state ≡ sub_name from)
      held (refused e) h k = absurd (k refl)
      held (granted row) h k =
          let (_, b, c, d, e, f, g) =
            (assert_holds_iff env.times (next_call env w) lease.holder lease.fence_token
                (sub_name from) w.table row).0
              h in
          (row, b, c, d, e, f, named from g)

-- Runs of the cutover one after another, each in its own environment and from whatever lease there
-- is by then.
unfoldable pub runs : List (Env × Table) → World → World
unfolding run
runs [] w = w
runs ((env, table) ∷ rest) w = runs rest (run env run_steps (record w { table = table })).1

runs_kept : (l : List (Env × Table)) (w : World) → Orderly w → Orderly (runs l w)
unfolding runs
runs_kept [] w o = o
runs_kept ((env, table) ∷ rest) w o = runs_kept rest _ (
    run_kept env (record w { table = table })
      (record { in_order = o.in_order; stored_good = o.stored_good }))

-- Before the first run: no checkpoint, no action tried, whatever lease there is.
unfoldable pub untouched : Table → World
untouched table = record { stored = none; table = table; log = []; calls = 0 }

-- However often the cutover is run, wherever its runs break off and whatever becomes of the lease
-- between them: an action is only ever tried after the actions of all the earlier steps have succeeded.
pub runs-InOrder : (l : List (Env × Table)) (table : Table) → InOrder (runs l (untouched table)).log
unfolding untouched
runs-InOrder l table =
    (runs_kept l (untouched table) (record { in_order = tt; stored_good = λ cp h. cc h })).in_order
