-- ===== src/Limiter/Cleanups.antt =====
-- Cleanups of the rate limiter (internal/shared/ratelimit.go), and its answers.
use meshium.Prelude.{
  ℕ, ◌-◌, ◌≤◌, ◌≡◌, refl, sym, ◌∙◌, ap, subst₂, inl, inr, Bool, if◌then◌else◌, ltb, Option, none,
  some, String, List, [], ◌∷◌, Bool-cases, arith,
}
use text.Mathlib.Text.{◌==◌ as str_eq}
use meshium.Limiter.{Visitor, RateLimiter, admit, allow, kept, cleanup}

-- What an entry still means at a time: nothing once its window and its block are over; and a block that
-- is over is forgotten.
abbrev pub meaning : ℕ → ℕ → Option Visitor → Option Visitor
meaning window now none = none
meaning window now (some v) =
    if ltb now v.blocked_until
    then some v
    else if ltb window (now - v.window_start)
    then none
    else some (record v { blocked_until = 0 })

kept-meaning :
    (window now : ℕ) (entry : Option Visitor)
    → meaning window now (kept window now entry) ≡ meaning window now entry
kept-meaning window now none = refl
kept-meaning window now (some v) = ground arith

meaning-later :
    (window now later : ℕ) (entry : Option Visitor)
    → now ≤ later
    → meaning window later (meaning window now entry) ≡ meaning window later entry
meaning-later window now later none le = refl
meaning-later window now later (some v) le = ground (arith, le)

admit-answer :
    (most window now : ℕ) (entry : Option Visitor)
    → (admit most window now entry).0 ≡ (admit most window now (meaning window now entry)).0
unfolding admit
admit-answer most window now none = refl
admit-answer most window now (some v) = ground arith

admit-entry :
    (most window now later : ℕ) (entry : Option Visitor)
    → now ≤ later
    → meaning window later (some (admit most window now entry).1)
      ≡ meaning window later (some (admit most window now (meaning window now entry)).1)
unfolding admit
admit-entry most window now later none le = refl
admit-entry most window now later (some v) le = ground (arith, le)

pub data Event : Type 0 where
  request : ℕ → String → Event
  clean : ℕ → Event

-- The answers to the requests.
abbrev pub answers : List Event → RateLimiter → List Bool
answers [] rl = []
answers (request now ip ∷ rest) rl =
    let (answer, after) = allow now ip rl in answer ∷ answers rest after
answers (clean now ∷ rest) rl = answers rest (cleanup now rl)

abbrev pub without_cleanups : List Event → List Event
without_cleanups [] = []
without_cleanups (request now ip ∷ rest) = request now ip ∷ without_cleanups rest
without_cleanups (clean now ∷ rest) = without_cleanups rest

-- The clock does not go back.
abbrev pub IsTimely : ℕ → List Event → Type 0
IsTimely t [] = Unit
IsTimely t (request now ip ∷ rest) = (t ≤ now) × IsTimely now rest
IsTimely t (clean now ∷ rest) = (t ≤ now) × IsTimely now rest

module _ (most window : ℕ) where
  abbrev limiter : (String → Option Visitor) → RateLimiter
  limiter f = record { visitors = f; max_requests = most; window = window }

  abbrev IsAlike : ℕ → (String → Option Visitor) → (String → Option Visitor) → Type 0
  IsAlike now f g = (ip : String) → meaning window now (f ip) ≡ meaning window now (g ip)

  IsAlike-later :
      (now later : ℕ) (f g : String → Option Visitor)
      → now ≤ later
      → IsAlike now f g
      → IsAlike later f g
  IsAlike-later now later f g le h ip =
      sym (meaning-later window now later (f ip) le)
      ∙ ap (meaning window later) (h ip)
      ∙ meaning-later window now later (g ip) le

  cleaned-IsAlike :
      (now : ℕ) (f g : String → Option Visitor)
      → IsAlike now f g
      → IsAlike now (λ ip. kept window now (f ip)) g
  cleaned-IsAlike now f g h ip = kept-meaning window now (f ip) ∙ h ip

  same_answer :
      (now : ℕ) (f g : String → Option Visitor) (ip : String)
      → IsAlike now f g
      → (admit most window now (f ip)).0 ≡ (admit most window now (g ip)).0
  same_answer now f g ip h =
      admit-answer most window now (f ip)
      ∙ ap (λ e. (admit most window now e).0) (h ip)
      ∙ sym (admit-answer most window now (g ip))

  admitted-IsAlike :
      (now : ℕ) (f g : String → Option Visitor) (ip : String)
      → IsAlike now f g
      → IsAlike now
          (λ other. if str_eq ip other then some (admit most window now (f ip)).1 else f other)
          (λ other. if str_eq ip other then some (admit most window now (g ip)).1 else g other)
  admitted-IsAlike now f g ip h other = elim (Bool-cases (str_eq ip other)) [
    | inl e ↦ rw e (
        admit-entry most window now now (f ip) (omega arith)
        ∙ ap (λ x. meaning window now (some (admit most window now x).1)) (h ip)
        ∙ sym (admit-entry most window now now (g ip) (omega arith)))
    | inr e ↦ rw e (h other)
  ]

  answers-alike :
      (events : List Event) (t : ℕ) (f g : String → Option Visitor)
      → IsTimely t events
      → IsAlike t f g
      → answers events (limiter f) ≡ answers (without_cleanups events) (limiter g)
  unfolding allow cleanup
  answers-alike [] t f g timely h = refl
  answers-alike (request now ip ∷ rest) t f g (le, timely) h =
      let alike = IsAlike-later t now f g le h in
      let later =
        answers-alike rest now
          (λ other. if str_eq ip other then some (admit most window now (f ip)).1 else f other)
          (λ other. if str_eq ip other then some (admit most window now (g ip)).1 else g other)
          timely (admitted-IsAlike now f g ip alike) in
      subst₂ (λ a l. a ∷ l ≡ answers (without_cleanups (request now ip ∷ rest)) (limiter g))
        (sym (same_answer now f g ip alike)) (sym later) refl
  answers-alike (clean now ∷ rest) t f g (le, timely) h =
      answers-alike rest now (λ ip. kept window now (f ip)) g timely
        (cleaned-IsAlike now f g (IsAlike-later t now f g le h))

-- When the clock does not go back, any requests of any addresses get the answers that they would get
-- if the limiter were never cleaned up, however often it is.
pub cleanup_unseen :
    (events : List Event) (t : ℕ) (rl : RateLimiter)
    → IsTimely t events
    → answers events rl ≡ answers (without_cleanups events) rl
cleanup_unseen events t rl timely =
    answers-alike rl.max_requests rl.window events t rl.visitors rl.visitors timely (λ ip. refl)
