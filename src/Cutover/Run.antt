-- ===== src/Cutover/Run.antt =====
-- A run of the cutover (internal/mod/migration/cutover_orchestrator.go: Run, advance,
-- acquireOrRecover) with the methods of the sub-state machine (cutover_substate.go: Load, Save,
-- MarkStep, StepDone), over the lease of Fencing.
use meshium.Prelude.{
  ℕ, suc, ◌+◌, Bool, true, false, not, ◌||◌, if◌then◌else◌, ◌==◌, Option, none, some, String, List,
  [], ◌∷◌,
}
use text.Mathlib.Text.{◌==◌ as str_eq}
use meshium.Fencing.{
  FenceLease, FenceError, Answer, granted, refused, Table, Times, Call, acquire, assert_holds,
  set_state, release,
}
use meshium.Cutover.{
  SubState, preflight, completed, sub_eq, sub_name, valid_cutover_transition, Checkpoint,
  empty_checkpoint,
}

pub data CutoverError : Type 0 where
  repo_error illegal_transition : CutoverError
  fence_error : FenceError → CutoverError
  step_failed : SubState → CutoverError

-- What the orchestrator does not decide: which call of the database fails, the clock, whether the
-- stage has its row, what the actions of the steps answer, and the holder's name.
pub record Env : Type 0 where
  pub times : Times
  pub fails : ℕ → Bool
  pub clock : ℕ → ℕ
  pub stage_exists : Bool
  pub act : SubState → ℕ → Bool
  pub holder : String

-- The stored checkpoint, the lease's row, the actions tried so far with their answers, the last one
-- first, and the number of calls made.
pub record World : Type 0 where
  pub stored : Option Checkpoint
  pub table : Table
  pub log : List (SubState × Bool)
  pub calls : ℕ

-- What became of one step: its result is recorded, it was recorded before, or it failed.
pub data Progress : Type 0 where
  advanced skipped : Progress
  stopped : CutoverError → Progress

-- The identity of the lease, mirrored onto the checkpoint.
abbrev pub sign : FenceLease → Checkpoint → Checkpoint
sign lease cp = record cp { token = lease.fence_token; holder = lease.holder }

-- `cp.Steps[from] = resultData; cp.SubState = to`
abbrev pub mark : SubState → SubState → Checkpoint → Checkpoint
mark from to cp = record cp {
  sub_state = some to;
  steps = λ s. if sub_eq s from then true else cp.steps s;
}

abbrev pub is_at : SubState → Option SubState → Bool
is_at s none = false
is_at s (some t) = sub_eq t s

abbrev pub state_name : Option SubState → String
state_name none = ""
state_name (some s) = sub_name s

module _ (env : Env) where
  abbrev pub next_call : World → Call
  next_call w = record {
    read_fails = env.fails w.calls;
    write_fails = env.fails (suc w.calls);
    now = env.clock w.calls;
    next_id = w.calls;
  }

  abbrev pub tick : World → World
  tick w = record w { calls = 2 + w.calls }

  -- Save: the checkpoint first, then the state of the lease; whether both were written.
  abbrev pub mirrored : World → Answer (Unit {0}) × Table → Bool × World
  mirrored w (granted _, t) = (true, record (tick w) { table = t })
  mirrored w (refused e, t) = (false, record (tick w) { table = t })

  abbrev pub save_lease : Checkpoint → FenceLease → World → Bool × World
  save_lease cp lease w =
      mirrored w (set_state env.times (next_call w) lease (state_name cp.sub_state) w.table)

  unfoldable pub save : Checkpoint → FenceLease → World → Bool × World
  save cp lease w =
      if env.fails w.calls || (not env.stage_exists || env.fails (suc w.calls))
      then (false, tick w)
      else save_lease cp lease (record (tick w) { stored = some (sign lease cp) })

  -- MarkStep: the checkpoint in memory changes also when its save fails.
  abbrev pub saved : Bool → Progress
  saved true = advanced
  saved false = stopped repo_error

  unfoldable pub mark_step :
      Checkpoint → FenceLease → SubState → SubState → World → Progress × Checkpoint × World
  unfolding save valid_cutover_transition
  mark_step cp lease from to w =
      if not (is_at from cp.sub_state) || not (valid_cutover_transition from to)
      then (stopped illegal_transition, cp, w)
      else if cp.steps from
      then (skipped, cp, w)
      else (let cp' = sign lease (mark from to cp) in
          let (done, w') = save cp' lease w in (saved done, cp', w'))

  -- The action of a step, and then MarkStep.
  unfoldable pub perform :
      Checkpoint → FenceLease → SubState → SubState → World → Progress × Checkpoint × World
  unfolding mark_step
  perform cp lease from to w =
      let done = env.act from w.calls in
      let w' = record (tick w) { log = (from, done) ∷ w.log } in
      if done then mark_step cp lease from to w' else (stopped (step_failed from), cp, w')

  abbrev pub fenced :
      Answer FenceLease
      → Checkpoint
      → FenceLease
      → SubState
      → SubState
      → World
      → Progress × Checkpoint × World
  fenced (granted _) cp lease from to w = perform cp lease from to (tick w)
  fenced (refused e) cp lease from to w = (stopped (fence_error e), cp, tick w)

  unfoldable pub advance :
      Checkpoint → FenceLease → SubState → SubState → World → Progress × Checkpoint × World
  unfolding perform
  advance cp lease from to w =
      if cp.steps from
      then (skipped, cp, w)
      else fenced
          (assert_holds env.times (next_call w) lease.holder lease.fence_token (sub_name from)
            w.table)
          cp lease from to w

  -- The loop over the steps; a failed step ends the run with one more save.
  abbrev pub after :
      FenceLease
      → Progress × Checkpoint × World
      → (Checkpoint → World → Option CutoverError × World)
      → Option CutoverError × World
  after lease (advanced, cp, w) rest = rest cp w
  after lease (skipped, cp, w) rest = rest cp w
  after lease (stopped e, cp, w) rest = (some e, (save cp lease w).1)

  unfoldable pub drive :
      List (SubState × SubState) → FenceLease → Checkpoint → World → Option CutoverError × World
  unfolding advance
  drive [] lease cp w =
      (none, record (tick w) { table = (release env.times (next_call w) lease w.table).1 })
  drive ((from, to) ∷ rest) lease cp w =
      after lease (advance cp lease from to w) λ cp' w'. drive rest lease cp' w'

  abbrev pub checked : Answer FenceLease → Checkpoint → Answer Checkpoint
  checked (granted _) cp = granted cp
  checked (refused e) cp = refused e

  -- Load: a checkpoint with a lease needs that lease to be held, unless the cutover is completed.
  abbrev pub load_from : World → Option Checkpoint → Answer Checkpoint
  load_from w none = granted empty_checkpoint
  load_from w (some cp) =
      if (str_eq cp.holder "" || (cp.token == 0)) || is_at completed cp.sub_state
      then granted cp
      else checked (assert_holds env.times (next_call (tick w)) cp.holder cp.token "" w.table) cp

  unfoldable pub load : World → Answer Checkpoint
  load w = if env.fails w.calls then refused FenceError.repo_failed else load_from w w.stored

  abbrev pub bootstrap : Checkpoint → Checkpoint
  bootstrap cp = elim cp.sub_state [ none ↦ record cp { sub_state = some preflight } | some s ↦ cp ]

  unfoldable pub acquire_or_recover : Checkpoint → World → Answer FenceLease × World
  acquire_or_recover cp w =
      if str_eq cp.holder "" || (cp.token == 0)
      then (let (a, t) =
            acquire env.times (next_call w) env.holder (state_name cp.sub_state) w.table in
          (a, record (tick w) { table = t }))
      else (
        assert_holds env.times (next_call w) cp.holder cp.token (state_name cp.sub_state) w.table,
        tick w,
      )

  -- Run, once the checkpoint is loaded and the lease is held.
  abbrev pub start :
      List (SubState × SubState)
      → Checkpoint
      → Answer FenceLease × World
      → Option CutoverError × World
  start steps cp (refused e, w) = (some (fence_error e), w)
  start steps cp (granted lease, w) =
      let (done, w') = save cp lease w in
      if done then drive steps lease (sign lease cp) w' else (some repo_error, w')

  abbrev pub run_loaded :
      List (SubState × SubState) → Answer Checkpoint → World → Option CutoverError × World
  run_loaded steps (refused e) w = (some (fence_error e), w)
  run_loaded steps (granted cp) w =
      let cp' = bootstrap cp in
      if is_at completed cp'.sub_state
      then (none, w)
      else start steps cp' (acquire_or_recover cp' w)

  unfoldable pub run : List (SubState × SubState) → World → Option CutoverError × World
  unfolding load acquire_or_recover drive save
  run steps w = run_loaded steps (load w) (tick (tick w))
