-- ===== src/Limiter.antt =====
-- The rate limiter of the HTTP endpoints (internal/shared/ratelimit.go). Times are counted from Go's zero
-- time, which is 0.
pub mod Cleanups
pub mod Limits
use meshium.Prelude.{
  ℕ, zero, suc, ◌+◌, ◌-◌, Bool, true, false, not, ◌&&◌, ◌||◌, if◌then◌else◌, ltb, Option, none,
  some, String, List, [], ◌∷◌,
}
use text.Mathlib.Text.{◌==◌ as str_eq}

pub record Visitor : Type 0 where
  pub count : ℕ
  pub window_start : ℕ
  pub blocked_until : ℕ

pub record RateLimiter : Type 0 where
  pub visitors : String → Option Visitor
  pub max_requests : ℕ
  pub window : ℕ

unfoldable pub new_rate_limiter : ℕ → ℕ → RateLimiter
new_rate_limiter max_requests window = record {
  visitors = λ ip. none;
  max_requests = max_requests;
  window = window;
}

abbrev pub visitor_at : ℕ → Option Visitor → Visitor
visitor_at now none = record { count = 0; window_start = now; blocked_until = 0 }
visitor_at now (some v) = v

-- Allow from the reset of the window on.
abbrev pub counted : ℕ → ℕ → ℕ → Visitor → Bool × Visitor
counted max_requests window now v =
    let more = suc v.count in
    if ltb max_requests more
    then (false, record v { count = more; blocked_until = now + window })
    else (true, record v { count = more })

abbrev pub reset : ℕ → ℕ → Visitor → Visitor
reset window now v =
    if ltb window (now - v.window_start) then record v { count = 0; window_start = now } else v

-- Allow on the entry of one address.
unfoldable pub admit : ℕ → ℕ → ℕ → Option Visitor → Bool × Visitor
admit max_requests window now entry =
    let v = visitor_at now entry in
    if ltb now v.blocked_until
    then (false, v)
    else counted max_requests window now (reset window now v)

unfoldable pub allow : ℕ → String → RateLimiter → Bool × RateLimiter
unfolding admit
allow now ip rl =
    let (answer, v) = admit rl.max_requests rl.window now (rl.visitors ip) in
    (
      answer,
      record rl { visitors = λ other. if str_eq ip other then some v else rl.visitors other },
    )

abbrev pub kept : ℕ → ℕ → Option Visitor → Option Visitor
kept window now none = none
kept window now (some v) =
    if ltb window (now - v.window_start) && ltb v.blocked_until now then none else some v

unfoldable pub cleanup : ℕ → RateLimiter → RateLimiter
cleanup now rl = record rl { visitors = λ ip. kept rl.window now (rl.visitors ip) }
