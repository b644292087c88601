-- ===== src/Cutover/Completes.antt =====
-- A cutover (internal/mod/migration/cutover_orchestrator.go) in which nothing fails runs through.
use meshium.Prelude.{
  ℕ, suc, ◌+◌, ◌<◌, ◌≡◌, refl, sym, ◌∙◌, ap, subst, Bool, true, false, if◌then◌else◌, ltb, lt→ltb,
  ==_self, String, Option, none, some, List, [], ◌∷◌, inr, arith,
}
use meshium.Fencing.{
  FenceLease, granted, Times, acquire, assert_holds, set_state, is_released, is_live, fresh,
}
use meshium.Fencing.Tokens.{assert_holds_iff}
use meshium.Cutover.{
  SubState, preflight, completed, position, sub_eq, sub_name, valid_cutover_transition, Checkpoint,
  empty_checkpoint, run_steps,
}
use meshium.Cutover.Run.{
  CutoverError, Env, World, Progress, advanced, skipped, stopped, sign, mark, is_at, save,
  mark_step, perform, advance, after, drive, load, acquire_or_recover, run, tick, next_call,
  state_name,
}
use meshium.Cutover.Good.{sub_eq_self, marked_count}
use meshium.Cutover.Order.{untouched}

-- No call fails, every action succeeds, and the clock goes as it may.
abbrev pub steady : Times → (ℕ → ℕ) → String → Env
steady times clock holder = record {
  times = times;
  fails = λ _. false;
  clock = clock;
  stage_exists = true;
  act = λ _ _. true;
  holder = holder;
}

-- The actions of the steps, all successful, the last one first.
abbrev pub all_tried : List (SubState × SubState) → List (SubState × Bool) → List (SubState × Bool)
all_tried [] log = log
all_tried ((from, to) ∷ rest) log = all_tried rest ((from, true) ∷ log)

abbrev final : SubState → List (SubState × SubState) → SubState
final s [] = s
final s ((from, to) ∷ rest) = final to rest

-- Legal edges that lead from one sub-state to the next.
abbrev Linked : SubState → List (SubState × SubState) → Type 0
Linked s [] = Unit {0}
Linked s ((from, to) ∷ rest) =
    (from ≡ s)
    × (position to ≡ suc (position from))
    × (valid_cutover_transition from to ≡ true)
    × Linked to rest

record Ready (times : Times) (clock : ℕ → ℕ) (lease : FenceLease) (s : SubState) (cp : Checkpoint)
    (w : World) : Type 0 where
  at_state : cp.sub_state ≡ some s
  counted : (t : SubState) → cp.steps t ≡ ltb (position t) (position s)
  row : FenceLease
  in_table : w.table ≡ some row
  same_id : row.id ≡ lease.id
  unreleased : is_released row ≡ false
  own_holder : row.holder ≡ lease.holder
  own_token : row.fence_token ≡ lease.fence_token
  live : (k : ℕ) → is_live times (clock k) row ≡ true
  named : row.state ≡ sub_name s
  saved : w.stored ≡ some (sign lease cp)

ltb_self : (n : ℕ) → ltb n n ≡ false
ltb_self n = ground arith

mark_counts :
    (t from to : SubState)
    → position to ≡ suc (position from)
    → (if sub_eq t from then true else ltb (position t) (position from))
      ≡ ltb (position t) (position to)
unfolding sub_eq
mark_counts t from to p = marked_count (position t) (position from) ∙ ap (ltb (position t)) (sym p)

module _ (times : Times) (clock : ℕ → ℕ) (holder : String) where
  save_done :
      (cp : Checkpoint) (lease row : FenceLease) (w : World)
      → w.table ≡ some row
      → row.id ≡ lease.id
      → save (steady times clock holder) cp lease w ≡ (
        true,
        record w {
          calls = 2 + (2 + w.calls);
          stored = some (sign lease cp);
          table = some (record row { state = state_name cp.sub_state });
        },
      )
  unfolding save set_state
  save_done cp lease row w e i = rw (e, i, ==_self lease.id) refl

  -- The world after a step is recorded.
  abbrev recorded : Checkpoint → FenceLease → FenceLease → World → World
  recorded cp lease row w = record w {
    calls = 2 + (2 + w.calls);
    stored = some (sign lease cp);
    table = some (record row { state = state_name cp.sub_state });
  }

  mark_step_done :
      (cp : Checkpoint) (lease row : FenceLease) (from to : SubState) (w : World)
      → is_at from cp.sub_state ≡ true
      → cp.steps from ≡ false
      → valid_cutover_transition from to ≡ true
      → w.table ≡ some row
      → row.id ≡ lease.id
      → mark_step (steady times clock holder) cp lease from to w ≡ (
        advanced,
        sign lease (mark from to cp),
        recorded (sign lease (mark from to cp)) lease row w,
      )
  unfolding mark_step
  mark_step_done cp lease row from to w a u v e i =
      rw (a, v, u, save_done (sign lease (mark from to cp)) lease row w e i) refl

  advance_equation :
      (cp : Checkpoint) (lease row : FenceLease) (from to : SubState) (w : World)
      → assert_holds times
          (next_call (steady times clock holder) w)
          lease.holder
          lease.fence_token
          (sub_name from)
          w.table
        ≡ granted row
      → is_at from cp.sub_state ≡ true
      → cp.steps from ≡ false
      → valid_cutover_transition from to ≡ true
      → w.table ≡ some row
      → row.id ≡ lease.id
      → advance (steady times clock holder) cp lease from to w ≡ (
        advanced,
        sign lease (mark from to cp),
        recorded
            (sign lease (mark from to cp))
            lease
            row
            (record w { calls = 2 + (2 + w.calls); log = (from, true) ∷ w.log }),
      )
  unfolding advance perform
  advance_equation cp lease row from to w h a u v e i =
      rw (u, h)
        (mark_step_done cp lease row from to
          (record w { calls = 2 + (2 + w.calls); log = (from, true) ∷ w.log }) a u v e i)

  advance_done :
      (lease : FenceLease) (from to : SubState) (cp : Checkpoint) (w : World)
      → Ready times clock lease from cp w
      → position to ≡ suc (position from)
      → valid_cutover_transition from to ≡ true
      → let r : Progress × Checkpoint × World =
          advance (steady times clock holder) cp lease from to w in
        (r.0 ≡ advanced) × Ready times clock lease to r.1 r.2 × (r.2.log ≡ (from, true) ∷ w.log)
  advance_done lease from to cp w r p v =
      rw
        (advance_equation cp lease r.row from to w held here
          (r.counted from ∙ ltb_self (position from)) v r.in_table r.same_id)
        (refl, next, refl)
    where
      held :
          assert_holds times
            (next_call (steady times clock holder) w)
            lease.holder
            lease.fence_token
            (sub_name from)
            w.table
          ≡ granted r.row
      held =
          (assert_holds_iff times (next_call (steady times clock holder) w) lease.holder
              lease.fence_token (sub_name from) w.table r.row).1
            (refl, r.in_table, r.unreleased, r.own_holder, r.own_token, r.live w.calls, inr r.named)

      here : is_at from cp.sub_state ≡ true
      here = ap (is_at from) r.at_state ∙ sub_eq_self from

      next : Ready times clock lease to (sign lease (mark from to cp)) (
          recorded
            (sign lease (mark from to cp))
            lease
            r.row
            (record w { calls = 2 + (2 + w.calls); log = (from, true) ∷ w.log }))
      next = record {
        at_state = refl;
        counted = λ t.
            ap (λ b. if sub_eq t from then true else b) (r.counted t) ∙ mark_counts t from to p;
        row = record r.row { state = sub_name to };
        in_table = refl;
        same_id = r.same_id;
        unreleased = r.unreleased;
        own_holder = r.own_holder;
        own_token = r.own_token;
        live = r.live;
        named = refl;
        saved = refl;
      }

  after_done :
      (lease : FenceLease) (r : Progress × Checkpoint × World)
      (k : Checkpoint → World → Option CutoverError × World)
      → r.0 ≡ advanced
      → after (steady times clock holder) lease r k ≡ k r.1 r.2
  after_done lease (advanced, cp, w) k h = refl
  after_done lease (skipped, cp, w) k h = cc h
  after_done lease (stopped e, cp, w) k h = cc h

  drive_done :
      (steps : List (SubState × SubState)) (lease : FenceLease) (s : SubState) (cp : Checkpoint)
      (w : World)
      → Linked s steps
      → Ready times clock lease s cp w
      → let r : Option CutoverError × World = drive (steady times clock holder) steps lease cp w in
        (r.0 ≡ none)
        × (r.1.log ≡ all_tried steps w.log)
        × ((c : Checkpoint) × (r.1.stored ≡ some c) × (c.sub_state ≡ some (final s steps)))
  unfolding drive
  drive_done [] lease s cp w l r = (refl, refl, (sign lease cp, r.saved, r.at_state))
  drive_done ((from, to) ∷ rest) lease s cp w (e, p, v, l) r =
      let (a, q, g) =
        advance_done lease from to cp w (subst (λ x. Ready times clock lease x cp w) (sym e) r) p
          v in
      let (b, c, d) = drive_done rest lease to _ _ l q in
      rw (after_done lease (advance (steady times clock holder) cp lease from to w) _ a)
        (b, c ∙ ap (all_tried rest) g, d)

run_steps-Linked : Linked preflight run_steps
unfolding position valid_cutover_transition
run_steps-Linked = (
  refl,
  refl,
  refl,
  (
    refl,
    refl,
    refl,
    (
      refl,
      refl,
      refl,
      (
        refl,
        refl,
        refl,
        (
          refl,
          refl,
          refl,
          (
            refl,
            refl,
            refl,
            (
              refl,
              refl,
              refl,
              (refl, refl, refl, (refl, refl, refl, (refl, refl, refl, (refl, refl, refl, tt)))),
            ),
          ),
        ),
      ),
    ),
  ),
)

-- The first lease and the checkpoint as a first run saves them.
abbrev first_lease : Times → (ℕ → ℕ) → String → FenceLease
first_lease times clock holder =
    fresh times
      (next_call (steady times clock holder)
        (tick (steady times clock holder) (tick (steady times clock holder) (untouched none))))
      holder (sub_name preflight) 4 1

abbrev first_checkpoint : Times → (ℕ → ℕ) → String → Checkpoint
first_checkpoint times clock holder =
    sign (first_lease times clock holder)
      (record { sub_state = some preflight; token = 0; holder = ""; steps = λ _. false })

abbrev first_world : Times → (ℕ → ℕ) → String → World
first_world times clock holder = record {
  stored = some (first_checkpoint times clock holder);
  table = some (first_lease times clock holder);
  log = [];
  calls = 10;
}

first_world-Ready :
    (times : Times) (clock : ℕ → ℕ) (holder : String)
    → ((k : ℕ) → clock k < clock 4 + times.ttl)
    → ((t : ℕ) → times.parse_time (times.format t) ≡ some t)
    → Ready times clock
        (first_lease times clock holder)
        preflight
        (first_checkpoint times clock holder)
        (first_world times clock holder)
unfolding untouched position
first_world-Ready times clock holder t p = record {
  at_state = refl;
  counted = λ s. ground arith;
  row = first_lease times clock holder;
  in_table = refl;
  same_id = refl;
  unreleased = refl;
  own_holder = refl;
  own_token = refl;
  live = λ k. rw (p (clock 4 + times.ttl)) (lt→ltb (clock k) (clock 4 + times.ttl) (t k));
  named = refl;
  saved = refl;
}

-- No call fails, every action succeeds, a time's text is read as that time, and every reading of the clock
-- lies before the end of the lease, that is, before the reading at its Acquire (call 4 of the run) plus
-- its lifetime. Then a first run of the cutover ends without an error, has tried the actions of all the
-- steps in their order, and leaves a checkpoint in Completed.
pub run-completed :
    (times : Times) (clock : ℕ → ℕ) (holder : String)
    → ((k : ℕ) → clock k < clock 4 + times.ttl)
    → ((t : ℕ) → times.parse_time (times.format t) ≡ some t)
    → let r : Option CutoverError × World =
        run (steady times clock holder) run_steps (untouched none) in
      (r.0 ≡ none)
      × (r.1.log ≡ all_tried run_steps [])
      × ((c : Checkpoint) × (r.1.stored ≡ some c) × (c.sub_state ≡ some completed))
unfolding run load acquire_or_recover acquire empty_checkpoint untouched save set_state
run-completed times clock holder t p =
    drive_done times clock holder run_steps (first_lease times clock holder) preflight
      (first_checkpoint times clock holder) (first_world times clock holder) run_steps-Linked
      (first_world-Ready times clock holder t p)
