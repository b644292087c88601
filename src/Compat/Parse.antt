-- ===== src/Compat/Parse.antt =====
-- Versions as texts (internal/mod/discovery/compat.go, parseVersionParts and compareVersions). A text is
-- the list of its runes; strings.TrimSpace, strings.Split and strconv.Atoi are parameters.
use meshium.Prelude.{ℕ, Bool, ◌&&◌, if◌then◌else◌, leb, List, [], ◌∷◌}
use meshium.Compat.{Comparison, compare_versions}

-- What the reading of a version calls: strings.TrimSpace, strings.Split at the dot, and the number of
-- strconv.Atoi, whose error is dropped.
pub record VersionLib : Type 0 where
  pub trim_space : List ℕ → List ℕ
  pub split_dot : List ℕ → List (List ℕ)
  pub atoi : List ℕ → ℕ

-- `c >= '0' && c <= '9'`
abbrev pub is_digit : ℕ → Bool
is_digit c = leb 48 c && leb c 57

-- The text from its first digit on; `whole`, the text, where it has none.
unfoldable pub from_digit : List ℕ → List ℕ → List ℕ
from_digit whole [] = whole
from_digit whole (c ∷ rest) =
    let later = from_digit whole rest in if is_digit c then c ∷ rest else later

unfoldable pub leading_digits : List ℕ → List ℕ
leading_digits [] = []
leading_digits (c ∷ rest) = let more = leading_digits rest in if is_digit c then c ∷ more else []

module _ (lib : VersionLib) where
  -- One part by its leading digits: without any, the loop breaks.
  abbrev pub add_part : List ℕ → List ℕ → List ℕ
  add_part [] later = []
  add_part (c ∷ digits) later = lib.atoi (c ∷ digits) ∷ later

  unfoldable pub parse_parts : List (List ℕ) → List ℕ
  unfolding leading_digits
  parse_parts [] = []
  parse_parts (part ∷ rest) = add_part (leading_digits (lib.trim_space part)) (parse_parts rest)

  unfoldable pub parse_version_parts : List ℕ → List ℕ
  unfolding parse_parts from_digit
  parse_version_parts version =
      let trimmed = lib.trim_space version in
      parse_parts (lib.split_dot (from_digit trimmed trimmed))

  -- compareVersions
  unfoldable pub compare_version_texts : List ℕ → List ℕ → Comparison
  unfolding parse_version_parts compare_versions
  compare_version_texts a b = compare_versions (parse_version_parts a) (parse_version_parts b)
