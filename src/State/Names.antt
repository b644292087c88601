-- ===== src/State/Names.antt =====
-- The names of the states in the database (state.go) stand for one state each.
use meshium.Prelude.{◌≡◌, refl, ◌↔◌, List, [], ◌∷◌, String, some, arith, sym, ap, ◌∙◌}
use text.Mathlib.TextEquality.{eq_iff}
use meshium.State.{MigrationState, all_states, state_string, created}
use meshium.State.Machine.{find_state, state_from_string}

-- Reading back the name of a state gives the state.
pub state_from_string-state_string :
    (s : MigrationState) → state_from_string (state_string s) ≡ some s
unfolding state_from_string state_string
state_from_string-state_string created = refl
state_from_string-state_string _ = refl

find_state_sound :
    (text : String) (l : List MigrationState) (s : MigrationState)
    → find_state text l ≡ some s
    → state_string s ≡ text
unfolding find_state
find_state_sound text [] s h = cc
find_state_sound text (x ∷ rest) s h =
    ground (arith, eq_iff (state_string x) text, find_state_sound text rest s)

-- A text reads back as a state exactly when it is that state's name in the database.
pub state_from_string_iff :
    (text : String) (s : MigrationState)
    → (state_from_string text ≡ some s) ↔ (state_string s ≡ text)
state_from_string_iff text s = (
  unfold state_from_string in find_state_sound text all_states s,
  λ h. ap state_from_string (sym h) ∙ state_from_string-state_string s,
)

-- No two states share a name.
pub state_string_injective : (s t : MigrationState) → state_string s ≡ state_string t → s ≡ t
state_string_injective s t h =
    cc (state_from_string-state_string s, state_from_string-state_string t)
