-- ===== src/Samples/Requests.antt =====
-- Concrete requests to the rate limiter (internal/shared/ratelimit.go), of two requests in a window of 10.
use meshium.Prelude.{◌≤◌, ◌*◌, ◌≡◌, refl, true, false, List, [], ◌∷◌, Option, some, arith}
use meshium.Limiter.{Visitor, new_rate_limiter, admit, allow, cleanup}
use meshium.Limiter.Cleanups.{Event, request, clean, answers, without_cleanups, cleanup_unseen}
use meshium.Limiter.Limits.{admitted, admitted_le}

abbrev visits : List Event
visits =
    request 1 "a"
    ∷ request 2 "b"
    ∷ request 3 "a"
    ∷ request 4 "a"
    ∷ clean 13
    ∷ request 13 "a"
    ∷ clean 30
    ∷ request 31 "a"
    ∷ []

cleanup_unseen_example :
    answers visits (new_rate_limiter 2 10)
    ≡ answers (without_cleanups visits) (new_rate_limiter 2 10)
cleanup_unseen_example = cleanup_unseen visits 1 (new_rate_limiter 2 10) (
  omega arith,
  (
    omega arith,
    (omega arith, (omega arith, (omega arith, (omega arith, (omega arith, (omega arith, tt)))))),
  ),
)

answers_test :
    answers visits (new_rate_limiter 2 10) ≡ true ∷ true ∷ true ∷ false ∷ false ∷ true ∷ []
unfolding new_rate_limiter allow admit cleanup
answers_test = refl

-- An entry that has one request, at 0.
abbrev seen_once : Option Visitor
seen_once = some (record { count = 1; window_start = 0; blocked_until = 0 })

admitted_le_example : admitted 2 10 (10 ∷ 11 ∷ 12 ∷ 13 ∷ []) seen_once ≤ 2 * 2
admitted_le_example = admitted_le 2 10 10 (10 ∷ 11 ∷ 12 ∷ 13 ∷ []) seen_once (
  (omega arith, omega arith),
  ((omega arith, omega arith), ((omega arith, omega arith), ((omega arith, omega arith), tt))),
)

admitted_test : admitted 2 10 (10 ∷ 11 ∷ 12 ∷ 13 ∷ []) seen_once ≡ 3
unfolding admit
admitted_test = refl
