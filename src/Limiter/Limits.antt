-- ===== src/Limiter/Limits.antt =====
-- How many requests of an address the rate limiter (internal/shared/ratelimit.go) lets through.
use meshium.Prelude.{
  ℕ, ◌+◌, ◌-◌, ◌*◌, ◌≤◌, if◌then◌else◌, ltb, Option, none, some, List, [], ◌∷◌, All, arith,
}
use meshium.Limiter.{Visitor, visitor_at, admit}

module _ (most window : ℕ) where
  -- The number of requests at these times that are let through.
  abbrev pub admitted : List ℕ → Option Visitor → ℕ
  admitted [] entry = 0
  admitted (now ∷ rest) entry =
      let (answer, v) = admit most window now entry in
      (if answer then 1 else 0) + admitted rest (some v)

  -- What is left for an entry until `end`: the rest of its window, and one more window if it can begin.
  abbrev room : ℕ → Visitor → ℕ
  room end v = (most - v.count) + (if ltb window (end - v.window_start) then most else 0)

  admit-room :
      (now end : ℕ) (v : Visitor)
      → now ≤ end
      → end ≤ now + window
      → (if (admit most window now (some v)).0 then 1 else 0)
          + room end (admit most window now (some v)).1
        ≤ room end v
  unfolding admit
  admit-room now end v le near = ground (arith, le, near)

  admitted-room :
      (start : ℕ) (times : List ℕ) (v : Visitor)
      → All (λ now. (start ≤ now) × (now ≤ start + window)) times
      → admitted times (some v) ≤ room (start + window) v
  admitted-room start [] v h = omega arith
  admitted-room start (now ∷ rest) v ((after, before), h) =
      let later = admitted-room start rest (admit most window now (some v)).1 h in
      let here = admit-room now (start + window) v before (omega (arith, after)) in
      omega (arith, later, here)

  -- Of the requests of an address in a span as long as the window, wherever it begins and whatever came
  -- before, at most twice the maximum is let through.
  pub admitted_le :
      (start : ℕ) (times : List ℕ) (entry : Option Visitor)
      → All (λ now. (start ≤ now) × (now ≤ start + window)) times
      → admitted times entry ≤ 2 * most
  unfolding admit
  admitted_le start [] entry h = omega arith
  admitted_le start (now ∷ rest) none h =
      let bound = admitted-room start (now ∷ rest) (visitor_at now none) h in ground (arith, bound)
  admitted_le start (now ∷ rest) (some v) h =
      let bound = admitted-room start (now ∷ rest) v h in ground (arith, bound)
