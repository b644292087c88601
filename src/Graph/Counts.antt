-- ===== src/Graph/Counts.antt =====
-- Lists of ids by how often an id is in them.
use meshium.Prelude.{
  ℕ, suc, ◌+◌, ◌-◌, ◌≤◌, ◌≡◌, ◌≢◌, refl, subst, inl, inr, false, if◌then◌else◌, String, List, [],
  ◌∷◌, ◌++◌, length, Bool-cases, arith, str_eq_self,
}
use text.Mathlib.Text.{◌==◌ as str_eq}
use text.Mathlib.TextEquality.{eq_iff}

abbrev pub occ : String → List String → ℕ
occ k [] = 0
occ k (x ∷ rest) = if str_eq x k then suc (occ k rest) else occ k rest

pub occ-append : (k : String) (xs ys : List String) → occ k (xs ++ ys) ≡ occ k xs + occ k ys
occ-append k [] ys = omega arith
occ-append k (x ∷ xs) ys = ground (arith, occ-append k xs ys)

-- One occurrence of `k` less.
abbrev remove : String → List String → List String
remove k [] = []
remove k (x ∷ rest) = if str_eq x k then rest else x ∷ remove k rest

length-remove : (k : String) (l : List String) → occ k l ≢ 0 → suc (length (remove k l)) ≡ length l
length-remove k [] h = absurd (h refl)
length-remove k (x ∷ rest) h = ground (arith, length-remove k rest, h)

occ-remove :
    (k j : String) (l : List String)
    → occ j (remove k l) ≡ (if str_eq k j then occ j l - 1 else occ j l)
occ-remove k j [] = ground arith
occ-remove k j (x ∷ rest) = elim (Bool-cases (str_eq x k)) [
  | inl e ↦ let p = (eq_iff x k).0 e in ground (arith, e, p)
  | inr e ↦ elim (Bool-cases (str_eq k j)) [
    | inl f ↦
        let x≢j : str_eq x j ≡ false = subst (λ s. str_eq x s ≡ false) ((eq_iff k j).0 f) e in
        ground (arith, e, f, x≢j, occ-remove k j rest)
    | inr f ↦ ground (arith, e, f, occ-remove k j rest)
  ]
]

-- A list that has each id at most as often as another is at most as long.
pub length-le : (xs ys : List String) → ((k : String) → occ k xs ≤ occ k ys) → length xs ≤ length ys
length-le [] ys h = omega arith
length-le (x ∷ xs) ys h =
    let here = h x in
    let shorter = length-le xs (remove x ys) (λ k. ground (arith, h k, occ-remove x k ys)) in
    ground (arith, here, str_eq_self x, length-remove x ys, shorter)
