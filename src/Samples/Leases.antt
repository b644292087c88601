-- ===== src/Samples/Leases.antt =====
-- The fence and the cutover (internal/mod/migration/fencing_authority.go, cutover_orchestrator.go), at
-- concrete inputs.
use meshium.Prelude.{
  ℕ, ◌≡◌, ◌≢◌, ◌<◌, ◌↔◌, ◌⊎◌, refl, ap, Bool, ltb, if◌then◌else◌, ◌+◌, true, false, none, some,
  Option, List, [], ◌∷◌, arith, length, String,
}
use meshium.Fencing.{FenceLease, granted, acquire, set_state, assert_holds, is_released, is_live}
use meshium.Fencing.Tokens.{
  Request, acquiring, releasing, serve_all, current_token, acquire-granted, assert_holds_iff,
  superseded,
}
use meshium.Cutover.{SubState, sub_name, Checkpoint, empty_checkpoint, run_steps}
use meshium.Cutover.Run.{Env, World, CutoverError, run, advance}
use meshium.Cutover.Good.{InOrder}
use meshium.Cutover.Order.{runs, untouched, runs-InOrder, advance_fenced}
use meshium.Cutover.Completes.{steady, all_tried, run-completed}
use meshium.Samples.Values.{sample_times, sample_parse, live_lease, released_lease, call_at}

abbrev taken : FenceLease
taken = record {
  id = 7;
  holder = "b";
  fence_token = 4;
  state = "Preflight";
  acquired_at = sample_times.format 20;
  expires_at = sample_times.format 25;
  renewed_at = none;
  released_at = none;
}

acquire-granted_example :
    ((acquire sample_times (call_at 20) "b" "Preflight" (some released_lease)).1 ≡ some taken)
    × (taken.holder ≡ "b")
    × (((some released_lease ≡ some taken)
          × (is_released taken ≡ false)
          × (is_live sample_times 20 taken ≡ true))
        ⊎ ((current_token (some released_lease) < taken.fence_token)
            × (taken.state ≡ "Preflight")
            × (taken.released_at ≡ none)))
unfolding acquire
acquire-granted_example =
    acquire-granted sample_times (call_at 20) "b" "Preflight" (some released_lease) taken refl

abbrev wanted : String
wanted = "Seed"

assert_holds_iff_example :
    (assert_holds sample_times (call_at 5) "a" 3 wanted (some live_lease) ≡ granted live_lease) ↔ (
      ((call_at 5).read_fails ≡ false)
      × (some live_lease ≡ some live_lease)
      × (is_released live_lease ≡ false)
      × (live_lease.holder ≡ "a")
      × (live_lease.fence_token ≡ 3)
      × (is_live sample_times 5 live_lease ≡ true)
      × ((wanted ≡ "") ⊎ (live_lease.state ≡ wanted)))
assert_holds_iff_example =
    assert_holds_iff sample_times (call_at 5) "a" 3 wanted (some live_lease) live_lease

superseded_example :
    assert_holds sample_times
      (call_at 6)
      "a"
      2
      ""
      (serve_all sample_times (acquiring (call_at 5) "b" "Seed" ∷ []) (some live_lease))
    ≢ granted live_lease
superseded_example =
    superseded sample_times (acquiring (call_at 5) "b" "Seed" ∷ []) (some live_lease) (call_at 6)
      "a" 2 "" live_lease (omega arith)

abbrev others : List Request
others = acquiring (call_at 50) "b" "Seed" ∷ releasing (call_at 51) taken ∷ []

-- Every action succeeds but, in the first run, the switch of the traffic.
abbrev cutover_env : Bool → Env
cutover_env switches = record {
  times = sample_times;
  fails = λ _. false;
  clock = λ _. 3;
  stage_exists = true;
  act = λ s _. elim s [ SubState.switching ↦ switches | _ ↦ true ];
  holder = "a";
}

whole_run_test : length (run (cutover_env true) run_steps (untouched none)).1.log ≡ 11
unfolding run untouched empty_checkpoint acquire set_state assert_holds sub_name
whole_run_test = refl

broken_run_test : length (run (cutover_env false) run_steps (untouched none)).1.log ≡ 9
unfolding run untouched empty_checkpoint acquire set_state assert_holds sub_name
broken_run_test = refl

runs-InOrder_example :
    InOrder
      (runs
        ((cutover_env false, none) ∷ (cutover_env true, some live_lease) ∷ [])
        (untouched none)).log
runs-InOrder_example =
    runs-InOrder ((cutover_env false, none) ∷ (cutover_env true, some live_lease) ∷ []) none

abbrev seeding : Checkpoint
seeding = record { sub_state = some SubState.seed; token = 3; holder = "a"; steps = λ _. false }

seeding_acts :
    length
      (advance
        (cutover_env true)
        seeding
        live_lease
        SubState.seed
        SubState.replicating
        (untouched (some live_lease))).2.log
    ≡ 1
unfolding advance untouched acquire set_state assert_holds sub_name
seeding_acts = refl

advance_fenced_example :
    (row : FenceLease) × ((untouched (some live_lease)).table ≡ some row)
    × (is_released row ≡ false)
    × (row.holder ≡ live_lease.holder)
    × (row.fence_token ≡ live_lease.fence_token)
    × (is_live sample_times 3 row ≡ true)
    × (row.state ≡ sub_name SubState.seed)
unfolding untouched sub_name
advance_fenced_example =
    advance_fenced (cutover_env true) seeding live_lease SubState.seed SubState.replicating
      (untouched (some live_lease)) (λ e. cc (seeding_acts, ap length e))

-- A clock that goes on by one during the run, of a lease that lasts longer.
abbrev slow_clock : ℕ → ℕ
slow_clock k = if ltb k 20 then 3 else 4

in_time : (k : ℕ) → slow_clock k < slow_clock 4 + sample_times.ttl
in_time k = ground arith

run-completed_example :
    let r : Option CutoverError × World =
      run (steady sample_times slow_clock "a") run_steps (untouched none) in
    (r.0 ≡ none)
    × (r.1.log ≡ all_tried run_steps [])
    × ((c : Checkpoint) × (r.1.stored ≡ some c) × (c.sub_state ≡ some SubState.completed))
run-completed_example = run-completed sample_times slow_clock "a" in_time sample_parse
