-- ===== src/Graph/Loop.antt =====
-- The loop of the topological sort (internal/mod/discovery/graph.go): what a round does to the
-- degrees and to the queue, and its invariant.
use meshium.Prelude.{
  str_eq_sym, ℕ, suc, ◌+◌, ◌-◌, ◌≤◌, ◌≡◌, ap, subst, inl, inr, ◌&&◌, if◌then◌else◌, ltb, ◌==◌,
  String, List, [], ◌∷◌, ◌++◌, Bool-cases, arith,
}
use text.Mathlib.Text.{◌==◌ as str_eq}
use text.Mathlib.TextEquality.{eq_iff}
use meshium.Graph.{DependencyEdge, dependents, relax}
use meshium.Graph.Counts.{occ, occ-append}

-- How many edges of `k` lead to an id that is not in `done`.
abbrev pub undone : String → List String → List DependencyEdge → ℕ
undone k done [] = 0
undone k done (e ∷ rest) =
    if str_eq e.from k && occ e.to done == 0 then suc (undone k done rest) else undone k done rest

pub relax-degree :
    (l : List String) (degree : String → ℕ) (queue : List String) (k : String)
    → (relax l degree queue).0 k ≡ degree k - occ k l
unfolding relax
relax-degree [] degree queue k = omega arith
relax-degree (d ∷ rest) degree queue k =
    let degree' : String → ℕ = λ j. if str_eq d j then degree d - 1 else degree j in
    let ih = relax-degree rest degree' (if degree d == 1 then queue ++ d ∷ [] else queue) k in
    elim (Bool-cases (str_eq d k)) [
      | inl h ↦ let same = ap degree ((eq_iff d k).0 h) in ground (arith, ih, h, same)
      | inr h ↦ ground (arith, ih, h)
    ]

pub relax-queue :
    (l : List String) (degree : String → ℕ) (queue : List String) (k : String)
    → occ k l ≤ degree k
    → occ k (relax l degree queue).1
      ≡ occ k queue + (if ltb 0 (occ k l) && degree k == occ k l then 1 else 0)
unfolding relax
relax-queue [] degree queue k h = ground arith
relax-queue (d ∷ rest) degree queue k h =
    let degree' : String → ℕ = λ j. if str_eq d j then degree d - 1 else degree j in
    let queue' : List String = if degree d == 1 then queue ++ d ∷ [] else queue in
    let ih = relax-queue rest degree' queue' k in
    let pushed = occ-append k queue (d ∷ []) in
    elim (Bool-cases (str_eq d k)) [
      | inl e ↦ let same = ap degree ((eq_iff d k).0 e) in ground (arith, ih, e, same, pushed, h)
      | inr e ↦ ground (arith, ih, e, pushed, h)
    ]

pub undone-take :
    (n k : String) (done : List String) (edges : List DependencyEdge)
    → occ n done ≡ 0
    → undone k (done ++ n ∷ []) edges + occ k (dependents n edges) ≡ undone k done edges
unfolding dependents
undone-take n k done [] h = omega arith
undone-take n k done (e ∷ rest) h =
    let ih = undone-take n k done rest h in
    let grown = occ-append e.to done (n ∷ []) in
    elim (Bool-cases (str_eq n e.to)) [
      | inl p ↦
          let same = (eq_iff n e.to).0 p in
          let fresh : occ e.to done ≡ 0 = subst (λ t. occ t done ≡ 0) same h in
          ground (arith, ih, p, str_eq_sym n e.to, fresh, grown)
      | inr p ↦ ground (arith, ih, p, grown, str_eq_sym n e.to)
    ]
