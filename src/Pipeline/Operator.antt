-- ===== src/Pipeline/Operator.antt =====
-- The operator's verbs (internal/mod/migration/pipeline_lifecycle.go) in any order and with any
-- failures.
use meshium.Prelude.{List, [], ◌∷◌}
use meshium.State.{MigrationState, paused, cancelled}
use meshium.State.Paths.{Reach, here}
use meshium.Pipeline.{World, Result, M}
use meshium.Pipeline.Repo.{Env}
use meshium.Pipeline.Verbs.{pause, cutover, commit, cancel}
use meshium.Pipeline.Moves.{Consistent, Outcome, fine, broke, Reach-trans}
use meshium.Pipeline.Legal.{
  Ends, CutOver, Commits, Moves-pause, Moves-cutover, Moves-commit, Moves-cancel,
}

pub data Verb : Type 0 where
  pausing cutting_over committing cancelling : Verb

unfoldable pub perform : Env → Verb → M (Unit {0})
perform env pausing = pause env
perform env cutting_over = cutover env
perform env committing = commit env
perform env cancelling = cancel env

-- The calls of an operator, each with its own failures; errors go back to the operator.
unfoldable pub perform_all : List (Env × Verb) → World → World
unfolding perform
perform_all [] w = w
perform_all ((env, v) ∷ rest) w = perform_all rest (perform env v w).1

-- What a successful verb promises of the state it began in and the state it leaves.
abbrev pub Promise : Env → Verb → MigrationState → Unit {0} → MigrationState → Type 0
Promise env pausing s = Ends paused
Promise env cutting_over s = CutOver
Promise env committing s = Commits env s
Promise env cancelling s = Ends cancelled

-- The columns of a migration name a state, and its status column, read alone, gives that state or counts
-- as Created. Then whatever database calls fail inside it, a verb leaves the migration in a state that
-- legal transitions lead to from the one it began in, with such columns. If it succeeds, that state is Paused after Pause,
-- Observation or Committed after Cutover, Cancelled after Cancel; after Commit it is Committed, and
-- the migration was before in Committed, in Observation, or in AwaitingCutover with the traffic
-- switch confirmed.
pub perform-Outcome :
    (env : Env) (v : Verb) (s : MigrationState) (w : World)
    → Consistent s w
    → Outcome s (Promise env v s) (perform env v w)
unfolding perform
perform-Outcome env pausing s w c = Moves-pause env w c
perform-Outcome env cutting_over s w c = Moves-cutover env w c
perform-Outcome env committing s w c = Moves-commit env w c
perform-Outcome env cancelling s w c = Moves-cancel env w c

left_behind :
    {A : Type 0} {s : MigrationState} {Q : A → MigrationState → Type 0} {p : Result A × World}
    → Outcome s Q p
    → (t : MigrationState) × Reach s t × Consistent t p.1
left_behind (fine {a} {t} r c q) = (t, r, c)
left_behind (broke {e} {t} r c) = (t, r, c)

-- After any sequence of verbs, with any failures, the migration is in a state that legal transitions
-- lead to from the first one.
pub perform_all-Reach :
    (l : List (Env × Verb)) (s : MigrationState) (w : World)
    → Consistent s w
    → (t : MigrationState) × Reach s t × Consistent t (perform_all l w)
unfolding perform_all
perform_all-Reach [] s w c = (s, here, c)
perform_all-Reach ((env, v) ∷ rest) s w c =
    let (t, r, d) = left_behind (perform-Outcome env v s w c) in
    let (u, q, e) = perform_all-Reach rest t _ d in (u, Reach-trans r q, e)
