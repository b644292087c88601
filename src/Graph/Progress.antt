-- ===== src/Graph/Progress.antt =====
-- The invariant of the topological sort's loop (internal/mod/discovery/graph.go), before it,
-- through a round, and at its end.
use meshium.Prelude.{
  str_eq_self, ℕ, zero, suc, ◌+◌, ◌≤◌, ◌≡◌, ◌≢◌, refl, sym, ◌∙◌, ap, inl, inr, if◌then◌else◌, ◌==◌,
  String, List, [], ◌∷◌, ◌++◌, length, length-append, Bool-cases, arith,
}
use text.Mathlib.Text.{◌==◌ as str_eq}
use text.Mathlib.TextEquality.{eq_iff}
use meshium.Graph.{DependencyEdge, dependents, in_degree, relax, drain, zero_degrees}
use meshium.Graph.Counts.{occ, occ-append, length-le}
use meshium.Graph.Loop.{undone, relax-degree, relax-queue, undone-take}

-- The froms of the edges are keys, and no key is twice in the list.
abbrev pub IsKeyList : List DependencyEdge → List String → Type 0
IsKeyList edges keys = (k : String) → (occ k keys ≤ 1) × (in_degree edges k ≢ 0 → occ k keys ≡ 1)

-- A degree counts the edges whose end is not taken yet, and a key is taken or queued, once, as soon
-- as its degree is 0.
abbrev pub IsProgress :
    List DependencyEdge → List String → (String → ℕ) → List String → List String → Type 0
IsProgress edges keys degree queue taken =
    (k : String)
    → (degree k ≡ undone k taken edges)
      × (occ k taken + occ k queue ≡ (if degree k == 0 then occ k keys else 0))

dependents_le :
    (n k : String) (edges : List DependencyEdge) → occ k (dependents n edges) ≤ in_degree edges k
unfolding dependents in_degree
dependents_le n k [] = omega arith
dependents_le n k (e ∷ rest) = ground (arith, dependents_le n k rest)

in_degree_undone :
    (k : String) (edges : List DependencyEdge) → in_degree edges k ≡ undone k [] edges
unfolding in_degree
in_degree_undone k [] = omega arith
in_degree_undone k (e ∷ rest) = ground (arith, in_degree_undone k rest)

occ-zero_degrees :
    (degree : String → ℕ) (keys : List String) (k : String)
    → occ k (zero_degrees degree keys) ≡ (if degree k == 0 then occ k keys else 0)
occ-zero_degrees degree [] k = ground arith
occ-zero_degrees degree (j ∷ keys) k =
    let ih = occ-zero_degrees degree keys k in
    elim (Bool-cases (str_eq j k)) [
      | inl e ↦ let same = ap degree ((eq_iff j k).0 e) in ground (arith, ih, e, same)
      | inr e ↦ ground (arith, ih, e)
    ]

pub start-IsProgress :
    (edges : List DependencyEdge) (keys : List String)
    → IsProgress edges keys (in_degree edges) (zero_degrees (in_degree edges) keys) []
start-IsProgress edges keys k =
    (in_degree_undone k edges, omega (arith, occ-zero_degrees (in_degree edges) keys k))

pub fresh :
    (edges : List DependencyEdge) (keys : List String) (degree : String → ℕ) (n : String)
    (queue taken : List String)
    → IsKeyList edges keys
    → IsProgress edges keys degree (n ∷ queue) taken
    → (occ n taken ≡ 0) × (degree n ≡ 0)
fresh edges keys degree n queue taken known progress =
    let (here, sum) = progress n in
    let (once, _) = known n in ground (arith, sum, once, str_eq_self n)

round-IsProgress :
    (edges : List DependencyEdge) (keys : List String) (degree : String → ℕ) (n : String)
    (queue taken : List String)
    → IsKeyList edges keys
    → IsProgress edges keys degree (n ∷ queue) taken
    → IsProgress edges keys
        (relax (dependents n edges) degree queue).0
        (relax (dependents n edges) degree queue).1
        (taken ++ n ∷ [])
round-IsProgress edges keys degree n queue taken known progress k =
    let l = dependents n edges in
    let (here, sum) = progress k in
    let (once, must) = known k in
    let (new, _) = fresh edges keys degree n queue taken known progress in
    let counted = undone-take n k taken edges new in
    let below : occ k l ≤ degree k = omega (arith, here, counted) in
    let taken' = occ-append k taken (n ∷ []) in
    let queue' = relax-queue l degree queue k below in
    let degree' = relax-degree l degree queue k in
    let known' = dependents_le n k edges in
    (
      omega (arith, degree', here, counted),
      ground (arith, sum, taken', queue', degree', known', must, below),
    )

-- Each id in the list has its dependencies in `done` or before it in the list.
abbrev pub IsOrdered : List DependencyEdge → List String → List String → Type 0
IsOrdered edges done [] = Unit
IsOrdered edges done (n ∷ rest) = (undone n done edges ≡ 0) × IsOrdered edges (done ++ n ∷ []) rest

undone-cong :
    (k : String) (xs ys : List String) (edges : List DependencyEdge)
    → ((j : String) → occ j xs ≡ occ j ys)
    → undone k xs edges ≡ undone k ys edges
undone-cong k xs ys [] same = refl
undone-cong k xs ys (e ∷ rest) same = ground (arith, same e.to, undone-cong k xs ys rest same)

snoc-IsOrdered :
    (edges : List DependencyEdge) (done l : List String) (n : String)
    → IsOrdered edges done l
    → undone n (done ++ l) edges ≡ 0
    → IsOrdered edges done (l ++ n ∷ [])
snoc-IsOrdered edges done [] n h u =
    let same = undone-cong n (done ++ []) done edges (λ j. omega (arith, occ-append j done [])) in
    (sym same ∙ u, tt)
snoc-IsOrdered edges done (m ∷ l) n (first, rest) u =
    let same = undone-cong n ((done ++ m ∷ []) ++ l) (done ++ m ∷ l) edges (λ j. ground (
      arith,
      occ-append j (done ++ m ∷ []) l,
      occ-append j done (m ∷ []),
      occ-append j done (m ∷ l),
    )) in
    (first, snoc-IsOrdered edges (done ++ m ∷ []) l n rest (same ∙ u))

-- What the loop ends with.
abbrev pub IsDrained : List DependencyEdge → List String → List String × List String → Type 0
IsDrained edges keys (taken, queue) =
    (queue ≡ [])
    × IsOrdered edges [] taken
    × ((k : String) → occ k taken ≡ (if undone k taken edges == 0 then occ k keys else 0))

pub drain-IsDrained :
    (edges : List DependencyEdge) (keys : List String) (fuel : ℕ) (degree : String → ℕ)
    (queue taken : List String)
    → IsKeyList edges keys
    → IsProgress edges keys degree queue taken
    → IsOrdered edges [] taken
    → length keys ≤ fuel + length taken
    → IsDrained edges keys (drain fuel edges degree queue taken)
unfolding drain
drain-IsDrained edges keys zero degree [] taken known progress ordered enough =
    (refl, ordered, λ k. ground (arith, progress k))
drain-IsDrained edges keys zero degree (n ∷ queue) taken known progress ordered enough =
    let bound =
      length-le (taken ++ n ∷ queue) keys
        (λ k. ground (arith, progress k, occ-append k taken (n ∷ queue))) in
    absurd (omega (arith, bound, enough, length-append taken (n ∷ queue)))
drain-IsDrained edges keys (suc fuel) degree [] taken known progress ordered enough =
    (refl, ordered, λ k. ground (arith, progress k))
drain-IsDrained edges keys (suc fuel) degree (n ∷ queue) taken known progress ordered enough =
    let (_, idle) = fresh edges keys degree n queue taken known progress in
    let (here, _) = progress n in
    drain-IsDrained edges keys fuel (relax (dependents n edges) degree queue).0
      (relax (dependents n edges) degree queue).1 (taken ++ n ∷ []) known
      (round-IsProgress edges keys degree n queue taken known progress)
      (snoc-IsOrdered edges [] taken n ordered (sym here ∙ idle))
      (omega (arith, enough, length-append taken (n ∷ [])))
