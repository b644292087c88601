-- ===== src/Compat/Versions.antt =====
-- The order of versions (internal/mod/discovery/compat.go, compareVersions).
use meshium.Prelude.{
  ℕ, zero, suc, ◌<◌, ◌≡◌, ◌↔◌, inl, inr, refl, ltb, List, [], ◌∷◌, Bool-cases, arith,
}
use meshium.Compat.Parse.{VersionLib, parse_version_parts, compare_version_texts}
use meshium.Compat.{Comparison, below, same, above, compare_versions}

abbrev pub flip : Comparison → Comparison
flip below = above
flip same = same
flip above = below

-- The number at a place of a version, 0 past its end.
abbrev pub number_at : List ℕ → ℕ → ℕ
number_at [] i = 0
number_at (a ∷ xs) zero = a
number_at (a ∷ xs) (suc i) = number_at xs i

compare_versions-flip : (a b : List ℕ) → compare_versions a b ≡ flip (compare_versions b a)
unfolding compare_versions
compare_versions-flip [] [] = refl
compare_versions-flip [] (b ∷ ys) = ground (arith, compare_versions-flip [] ys)
compare_versions-flip (a ∷ xs) [] = ground (arith, compare_versions-flip xs [])
compare_versions-flip (a ∷ xs) (b ∷ ys) = ground (arith, compare_versions-flip xs ys)

compare_versions_same :
    (a b : List ℕ) (i : ℕ) → compare_versions a b ≡ same → number_at a i ≡ number_at b i
unfolding compare_versions
compare_versions_same [] [] i h = refl
compare_versions_same [] (b ∷ ys) zero h = ground (arith, h)
compare_versions_same [] (b ∷ ys) (suc i) h = ground (arith, h, compare_versions_same [] ys i)
compare_versions_same (a ∷ xs) [] zero h = ground (arith, h)
compare_versions_same (a ∷ xs) [] (suc i) h = ground (arith, h, compare_versions_same xs [] i)
compare_versions_same (a ∷ xs) (b ∷ ys) zero h = ground (arith, h)
compare_versions_same (a ∷ xs) (b ∷ ys) (suc i) h = ground (arith, h, compare_versions_same xs ys i)

agree_suc :
    (f g : ℕ → ℕ) (i : ℕ)
    → f 0 ≡ g 0
    → ((j : ℕ) → j < i → f (suc j) ≡ g (suc j))
    → (j : ℕ) → j < suc i
    → f j ≡ g j
agree_suc f g i here later zero less = here
agree_suc f g i here later (suc j) less = later j (omega (arith, less))

all_same : (a b : List ℕ) → ((i : ℕ) → number_at a i ≡ number_at b i) → compare_versions a b ≡ same
unfolding compare_versions
all_same [] [] h = refl
all_same [] (b ∷ ys) h = ground (arith, h 0, all_same [] ys (λ i. h (suc i)))
all_same (a ∷ xs) [] h = ground (arith, h 0, all_same xs [] (λ i. h (suc i)))
all_same (a ∷ xs) (b ∷ ys) h = ground (arith, h 0, all_same xs ys (λ i. h (suc i)))

first_less :
    (a b : List ℕ) (i : ℕ)
    → number_at a i < number_at b i
    → ((j : ℕ) → j < i → number_at a j ≡ number_at b j)
    → compare_versions a b ≡ below
unfolding compare_versions
first_less [] [] i less equal = absurd (omega (arith, less))
first_less [] (b ∷ ys) zero less equal = ground (arith, less)
first_less [] (b ∷ ys) (suc i) less equal =
    let rest = first_less [] ys i less (λ j below_i. equal (suc j) (omega (arith, below_i))) in
    ground (arith, equal 0 (omega arith), rest)
first_less (a ∷ xs) [] zero less equal = absurd (omega (arith, less))
first_less (a ∷ xs) [] (suc i) less equal =
    let rest = first_less xs [] i less (λ j below_i. equal (suc j) (omega (arith, below_i))) in
    ground (arith, equal 0 (omega arith), rest)
first_less (a ∷ xs) (b ∷ ys) zero less equal = ground (arith, less)
first_less (a ∷ xs) (b ∷ ys) (suc i) less equal =
    let rest = first_less xs ys i less (λ j below_i. equal (suc j) (omega (arith, below_i))) in
    ground (arith, equal 0 (omega arith), rest)

compare_versions_below :
    (a b : List ℕ)
    → compare_versions a b ≡ below
    → (i : ℕ) × (number_at a i < number_at b i) × ((j : ℕ) → j < i → number_at a j ≡ number_at b j)
unfolding compare_versions
compare_versions_below [] [] h = absurd (ground (arith, h))
compare_versions_below [] (b ∷ ys) h = elim (Bool-cases (ltb 0 b)) [
  | inl e ↦ (0, ground (arith, e), λ j less. absurd (omega (arith, less)))
  | inr e ↦
      let (i, less, equal) = compare_versions_below [] ys (ground (arith, h, e)) in
      (suc i, less, agree_suc (number_at []) (number_at (b ∷ ys)) i (ground (arith, e)) equal)
]
compare_versions_below (a ∷ xs) [] h = elim (Bool-cases (ltb 0 a)) [
  | inl e ↦ absurd (ground (arith, h, e))
  | inr e ↦
      let (i, less, equal) = compare_versions_below xs [] (ground (arith, h, e)) in
      (suc i, less, agree_suc (number_at (a ∷ xs)) (number_at []) i (ground (arith, e)) equal)
]
compare_versions_below (a ∷ xs) (b ∷ ys) h = elim (Bool-cases (ltb a b)) [
  | inl e ↦ (0, ground (arith, e), λ j less. absurd (omega (arith, less)))
  | inr e ↦
      let equal_here : a ≡ b = ground (arith, e, h) in
      let (i, less, equal) = compare_versions_below xs ys (ground (arith, h, e, equal_here)) in
      (suc i, less, agree_suc (number_at (a ∷ xs)) (number_at (b ∷ ys)) i equal_here equal)
]

-- Where the numbers of two versions first differ, the first one's is smaller.
abbrev pub IsLess : List ℕ → List ℕ → Type 0
IsLess a b =
    (i : ℕ) × (number_at a i < number_at b i) × ((j : ℕ) → j < i → number_at a j ≡ number_at b j)

parts_lem :
    (a b : List ℕ)
    → ((compare_versions a b ≡ below) ↔ IsLess a b)
      × ((compare_versions a b ≡ same) ↔ ((i : ℕ) → number_at a i ≡ number_at b i))
      × (compare_versions a b ≡ flip (compare_versions b a))
parts_lem a b = (
  (compare_versions_below a b, λ (i, less, equal). first_less a b i less equal),
  (λ h i. compare_versions_same a b i h, all_same a b),
  compare_versions-flip a b,
)

module _ (lib : VersionLib) where
  -- Two version texts compare as the lists of numbers do that are read from them, padded with zeros: -1 is
  -- given exactly when at the first place where they differ the first has the smaller number, 0 exactly
  -- when they differ nowhere, and exchanging them exchanges -1 and 1. So texts from which no number is
  -- read compare as equal, whatever they are: there is no comparison of the texts themselves.
  pub compare_versions_lem :
      (a b : List ℕ)
      → let x : List ℕ = parse_version_parts lib a in
        let y : List ℕ = parse_version_parts lib b in
        ((compare_version_texts lib a b ≡ below) ↔ IsLess x y)
        × ((compare_version_texts lib a b ≡ same) ↔ ((i : ℕ) → number_at x i ≡ number_at y i))
        × (compare_version_texts lib a b ≡ flip (compare_version_texts lib b a))
        × (x ≡ [] → y ≡ [] → compare_version_texts lib a b ≡ same)
  unfolding compare_version_texts
  compare_versions_lem a b =
      let (less, equal, flipped) =
        parts_lem (parse_version_parts lib a) (parse_version_parts lib b) in
      (less, equal, flipped, λ p q. rw (p, q) (unfold compare_versions in refl))
