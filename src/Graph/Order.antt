-- ===== src/Graph/Order.antt =====
-- What the topological sort (internal/mod/discovery/graph.go) returns: the
-- end of its loop, and the order of its result.
use meshium.Prelude.{
  str_eq_self, ℕ, zero, suc, ◌+◌, ◌≤◌, ◌≡◌, ◌≢◌, refl, sym, ◌∙◌, ap, subst, subst₂, ◌⊎◌, inl, inr,
  true, ◌||◌, if◌then◌else◌, ltb, String, List, [], ◌∷◌, ◌++◌, map, length, Bool-cases, arith, some,
}
use text.Mathlib.Text.{◌==◌ as str_eq}
use text.Mathlib.TextEquality.{eq_iff}
use meshium.Graph.{
  DependencyNode, DependencyEdge, DependencyGraph, dependents, in_degree, relax, drain,
  zero_degrees, sorted_ids, node_exists, has_edge, node_of, no_node, topological_sort,
}
use meshium.Graph.Counts.{occ, occ-append, length-le}
use meshium.Graph.Loop.{undone}
use meshium.Graph.Progress.{IsKeyList, start-IsProgress, IsOrdered, IsDrained, drain-IsDrained}

abbrev pub ids : List DependencyNode → List String
ids nodes = map (λ n. n.id) nodes

-- The keys of the map of degrees, each once, in any order.
abbrev pub IsKeyOrder : DependencyGraph → List String → Type 0
IsKeyOrder g keys =
    (k : String)
    → occ k keys ≡ (if node_exists g.nodes k || ltb 0 (in_degree g.edges k) then 1 else 0)

-- No id is twice among the nodes, and edges leave nodes only.
abbrev pub IsWellFormed : DependencyGraph → Type 0
IsWellFormed g =
    (k : String)
    → (occ k (ids g.nodes) ≤ 1) × (in_degree g.edges k ≢ 0 → node_exists g.nodes k ≡ true)

IsKeyOrder-IsKeyList :
    (g : DependencyGraph) (keys : List String) → IsKeyOrder g keys → IsKeyList g.edges keys
IsKeyOrder-IsKeyList g keys h k = (ground (arith, h k), λ n. ground (arith, h k, n))

pub drain_rest-IsDrained :
    (g : DependencyGraph) (keys : List String) (fuel : ℕ)
    → IsKeyOrder g keys
    → length keys ≤ fuel
    → IsDrained g.edges keys
        (drain fuel g.edges (in_degree g.edges) (zero_degrees (in_degree g.edges) keys) [])
drain_rest-IsDrained g keys fuel h enough =
    drain-IsDrained g.edges keys fuel (in_degree g.edges) (zero_degrees (in_degree g.edges) keys) []
      (IsKeyOrder-IsKeyList g keys h) (start-IsProgress g.edges keys) tt (omega (arith, enough))

drain_done :
    (fuel : ℕ) (edges : List DependencyEdge) (degree : String → ℕ) (taken : List String)
    → drain fuel edges degree [] taken ≡ (taken, [])
unfolding drain
drain_done zero edges degree taken = refl
drain_done (suc fuel) edges degree taken = refl

-- A loop that emptied the queue takes no more rounds with more fuel.
drain_more :
    (fuel more : ℕ) (edges : List DependencyEdge) (degree : String → ℕ) (queue taken : List String)
    → fuel ≤ more
    → (drain fuel edges degree queue taken).1 ≡ []
    → drain more edges degree queue taken ≡ drain fuel edges degree queue taken
unfolding drain
drain_more zero more edges degree queue taken le h =
    subst (λ q. drain more edges degree q taken ≡ (taken, q)) (sym h)
      (drain_done more edges degree taken)
drain_more (suc fuel) more edges degree [] taken le h = drain_done more edges degree taken
drain_more (suc fuel) zero edges degree (n ∷ queue) taken le h = absurd (omega (arith, le))
drain_more (suc fuel) (suc more) edges degree (n ∷ queue) taken le h =
    drain_more fuel more edges (relax (dependents n edges) degree queue).0
      (relax (dependents n edges) degree queue).1 (taken ++ n ∷ []) (omega (arith, le)) h

node_exists-occ :
    (nodes : List DependencyNode) (k : String) → occ k (ids nodes) ≢ 0 → node_exists nodes k ≡ true
unfolding node_exists
node_exists-occ [] k h = absurd (h refl)
node_exists-occ (n ∷ nodes) k h = ground (arith, node_exists-occ nodes k, h)

occ-node_exists :
    (nodes : List DependencyNode) (k : String) → node_exists nodes k ≡ true → occ k (ids nodes) ≢ 0
unfolding node_exists
occ-node_exists [] k h = λ z. cc
occ-node_exists (n ∷ nodes) k h = ground (arith, occ-node_exists nodes k, h)

-- The keys of a well-formed graph are the ids of its nodes.
pub well_formed_keys :
    (g : DependencyGraph) (keys : List String)
    → IsKeyOrder g keys
    → IsWellFormed g
    → (k : String) → occ k keys ≡ occ k (ids g.nodes)
well_formed_keys g keys order formed k =
    let (once, known) = formed k in
    ground (arith, order k, once, known, node_exists-occ g.nodes k, occ-node_exists g.nodes k)

-- A list that is as long as one that has each id at least as often has each id as often.
occ-full :
    (xs ys : List String)
    → ((k : String) → occ k xs ≤ occ k ys)
    → length xs ≡ length ys
    → (k : String) → occ k xs ≡ occ k ys
occ-full xs ys h same k = elim (Bool-cases (ltb (occ k xs) (occ k ys))) [
  | inl less ↦
      let bound = length-le (k ∷ xs) ys (λ j. elim (Bool-cases (str_eq k j)) [
        | inl e ↦
            let k≡j = (eq_iff k j).0 e in
            let at = subst (λ i. ltb (occ i xs) (occ i ys) ≡ true) k≡j less in ground (arith, e, at)
        | inr e ↦ ground (arith, e, h j)
      ]) in
      absurd (omega (arith, bound, same))
  | inr e ↦ ground (arith, h k, e)
]

id-node_of :
    (nodes : List DependencyNode) (k : String) (found : DependencyNode)
    → (occ k (ids nodes) ≢ 0) ⊎ (found.id ≡ k)
    → (node_of nodes k found).id ≡ k
id-node_of [] k found h = ground (arith, h)
id-node_of (n ∷ nodes) k found h = elim (Bool-cases (str_eq n.id k)) [
  | inl e ↦
      let step = id-node_of nodes k n (inr ((eq_iff n.id k).0 e)) in
      subst (λ b. (node_of nodes k (if b then n else found)).id ≡ k) (sym e) step
  | inr e ↦
      let step =
        id-node_of nodes k found
          (elim h [ inl p ↦ inl (λ z. p (ground (arith, e, z))) | inr q ↦ inr q ]) in
      subst (λ b. (node_of nodes k (if b then n else found)).id ≡ k) (sym e) step
]

ids-map-node_of :
    (nodes : List DependencyNode) (l : List String)
    → ((k : String) → occ k l ≤ occ k (ids nodes))
    → ids (map (λ id. node_of nodes id no_node) l) ≡ l
ids-map-node_of nodes [] h = refl
ids-map-node_of nodes (k ∷ l) h =
    let rest = ids-map-node_of nodes l (λ j. ground (arith, h j)) in
    let first = id-node_of nodes k no_node (inl (ground (arith, h k, str_eq_self k))) in
    subst₂ (λ i is. i ∷ is ≡ k ∷ l) (sym first) (sym rest) refl

undone_edge :
    (k to : String) (done : List String) (edges : List DependencyEdge)
    → undone k done edges ≡ 0
    → has_edge edges k to ≡ true
    → occ to done ≢ 0
unfolding has_edge
undone_edge k to done [] h e = ground (arith, e)
undone_edge k to done (d ∷ rest) h e = elim (Bool-cases (str_eq d.to to)) [
  | inl p ↦
      let same = ap (λ t. occ t done) ((eq_iff d.to to).0 p) in
      ground (arith, undone_edge k to done rest, h, e, p, same)
  | inr p ↦ ground (arith, undone_edge k to done rest, h, e, p)
]

pub undone_zero :
    (k : String) (done : List String) (edges : List DependencyEdge)
    → ((to : String) → has_edge edges k to ≡ true → occ to done ≢ 0)
    → undone k done edges ≡ 0
unfolding has_edge
undone_zero k done [] h = refl
undone_zero k done (e ∷ rest) h =
    let ih = undone_zero k done rest (λ to p. h to (ground (arith, p))) in
    ground (arith, ih, h e.to, str_eq_self e.to)

IsOrdered-before :
    (edges : List DependencyEdge) (done xs : List String) (n : String) (ys : List String)
    (m : String)
    → IsOrdered edges done (xs ++ n ∷ ys)
    → has_edge edges n m ≡ true
    → occ m done + occ m xs ≢ 0
IsOrdered-before edges done [] n ys m (first, _) e =
    ground (arith, undone_edge n m done edges first e)
IsOrdered-before edges done (x ∷ xs) n ys m (_, rest) e =
    let later = IsOrdered-before edges (done ++ x ∷ []) xs n ys m rest e in
    ground (arith, later, occ-append m done (x ∷ []))

-- Whatever the order in which the keys come, the loop of the sort ends: with as many rounds as there
-- are keys the queue is empty, so that any larger number of rounds gives the same ids.
pub drain-terminates :
    (g : DependencyGraph) (keys : List String) (fuel : ℕ)
    → IsKeyOrder g keys
    → length keys ≤ fuel
    → drain fuel g.edges (in_degree g.edges) (zero_degrees (in_degree g.edges) keys) []
      ≡ (sorted_ids g keys, [])
unfolding sorted_ids
drain-terminates g keys fuel h enough =
    let (empty, _, _) = drain_rest-IsDrained g keys (length keys) h (omega arith) in
    drain_more (length keys) fuel g.edges (in_degree g.edges)
      (zero_degrees (in_degree g.edges) keys) [] enough empty
    ∙ ap (λ q. (sorted_ids g keys, q)) empty

pub sorted_le :
    (g : DependencyGraph) (keys : List String)
    → IsKeyOrder g keys
    → IsWellFormed g
    → (k : String) → occ k (sorted_ids g keys) ≤ occ k (ids g.nodes)
unfolding sorted_ids
sorted_le g keys h formed k =
    let (_, _, counts) = drain_rest-IsDrained g keys (length keys) h (omega arith) in
    ground (arith, counts k, well_formed_keys g keys h formed k)

pub sorted_ids-IsOrdered :
    (g : DependencyGraph) (keys : List String)
    → IsKeyOrder g keys
    → IsOrdered g.edges [] (sorted_ids g keys)
unfolding sorted_ids
sorted_ids-IsOrdered g keys h =
    let (_, ordered, _) = drain_rest-IsDrained g keys (length keys) h (omega arith) in ordered

pub length-ids : (nodes : List DependencyNode) → length (ids nodes) ≡ length nodes
length-ids [] = refl
length-ids (n ∷ nodes) = ap suc (length-ids nodes)

-- When a graph has no id twice, its edges leave nodes only, and the sort succeeds, then the result
-- has the ids of the nodes, each as often as the graph, and a node comes after all the nodes on
-- which it depends.
pub topological_sort-IsOrdered :
    (g : DependencyGraph) (keys : List String) (result : List DependencyNode)
    → IsKeyOrder g keys
    → IsWellFormed g
    → topological_sort g keys ≡ some result
    → ((k : String) → occ k (ids result) ≡ occ k (ids g.nodes))
      × ((before : List String) (n : String) (after : List String) (m : String)
          → ids result ≡ before ++ n ∷ after
          → has_edge g.edges n m ≡ true
          → occ m before ≢ 0)
unfolding topological_sort
topological_sort-IsOrdered g keys result h formed success =
    let sorted = sorted_ids g keys in
    let full : length sorted ≡ length g.nodes = ground (arith, success) in
    let is : map (λ id. node_of g.nodes id no_node) sorted ≡ result = ground (arith, success) in
    let names = ap ids (sym is) ∙ ids-map-node_of g.nodes sorted (sorted_le g keys h formed) in
    let counts =
      occ-full sorted (ids g.nodes) (sorted_le g keys h formed) (full ∙ sym (length-ids g.nodes)) in
    (
      λ k. ap (occ k) names ∙ counts k,
      λ before n after m split edge none_before.
          let ordered =
            subst (IsOrdered g.edges []) (sym names ∙ split) (sorted_ids-IsOrdered g keys h) in
          IsOrdered-before g.edges [] before n after m ordered edge (omega (arith, none_before)),
    )
