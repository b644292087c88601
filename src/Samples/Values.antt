-- ===== src/Samples/Values.antt =====
-- The sample environments and databases of the other sample files.
use meshium.Prelude.{
  ℕ, zero, suc, ◌≡◌, refl, ap, ◌∙◌, true, false, if◌then◌else◌, Option, none, some, List, [],
  String, ◌==◌, inl,
}
use Prim.Native.Char.{Char}
use Prim.Native.String.{count, ◌∷◌ as char_cons}
use text.Mathlib.TextLemmas.{length-cons}
use text.Mathlib.Text.{◌==◌ as str_eq}
use meshium.State.{MigrationState, state_string}
use meshium.State.Names.{state_from_string-state_string}
use meshium.Fencing.{Times, FenceLease, Call}
use meshium.Pipeline.{World, Stage, StageState, StageCheckpoint}
use meshium.Pipeline.Repo.{
  Env, StageResult, UndoResult, done, breaks, undone, undo_error, state_or_created,
}
use meshium.Pipeline.Completes.{decode_stored}
use meshium.Pipeline.Moves.{Consistent}

abbrev stroke : Char
stroke = "i"

-- A time as so many strokes.
abbrev pub strokes : ℕ → String
strokes zero = ""
strokes (suc n) = char_cons stroke (strokes n)

pub count-strokes : (n : ℕ) → count (strokes n) ≡ n
count-strokes zero = refl
count-strokes (suc n) = length-cons stroke (strokes n) ∙ ap suc (count-strokes n)

abbrev pub sample_times : Times
sample_times = record { parse_time = λ s. some (count s); format = strokes; stamp = "now"; ttl = 5 }

abbrev pub sample_parse : (t : ℕ) → sample_times.parse_time (sample_times.format t) ≡ some t
sample_parse t = ap some (count-strokes t)

-- A lease of "a" with token 3 that is good until 9.
abbrev pub live_lease : FenceLease
live_lease = record {
  id = 7;
  holder = "a";
  fence_token = 3;
  state = "Seed";
  acquired_at = "iiii";
  expires_at = "iiiiiiiii";
  renewed_at = none;
  released_at = none;
}

abbrev pub released_lease : FenceLease
released_lease = record live_lease { released_at = some "now" }

abbrev pub call_at : ℕ → Call
call_at t = record { read_fails = false; write_fails = false; now = t; next_id = 1 }

abbrev breaks_b : String → ℕ → StageResult
breaks_b name n = elim (str_eq name "b") [ true ↦ breaks | false ↦ done ]

abbrev keeps_b : String → UndoResult
keeps_b name = elim (str_eq name "b") [ true ↦ undo_error | false ↦ undone ]

-- The fifth database call fails, and the stage "b" breaks and cannot be undone cleanly.
-- Finalization writes a status.
abbrev pub finalizes : String → ℕ → Option (String × String)
finalizes name n = if str_eq name "b" then some ("completed", "") else none

abbrev pub faulty : Env
faulty = record {
  fails = λ n. n == 4;
  cancelled = λ n. n == 30;
  run_stage = breaks_b;
  outcome = finalizes;
  undo_stage = keeps_b;
  connects = true;
  pauses = λ _. false;
  now = "now";
  max_retries = 1;
  switch_state = some "switched";
}

abbrev pub stage : String → StageState → Option StageCheckpoint → Stage
stage name state saved = record {
  stage_name = name;
  stage_index = 0;
  state = state;
  attempt_count = 0;
  checkpoint_data = saved;
  error = "";
}

-- A migration in the state, with the stages.
abbrev pub migration : MigrationState → List Stage → World
migration s stages = record {
  state = state_string s;
  status = state_string s;
  error = "";
  completed_at = "";
  stages = stages;
  audit = [];
  cutovers = [];
  ran = [];
  undone = [];
  calls = 0;
}

pub migration-Consistent : (s : MigrationState) (l : List Stage) → Consistent s (migration s l)
unfolding state_or_created
migration-Consistent s l = record {
  decoded = decode_stored s (migration s l) refl;
  fallback = inl (rw (state_from_string-state_string s) refl);
}
