-- ===== src/Graph/Complete.antt =====
-- When the topological sort (internal/mod/discovery/graph.go) reports a cycle.
use meshium.Prelude.{
  ℕ, zero, suc, ◌<◌, ◌≡◌, ◌∙◌, true, if◌then◌else◌, ◌==◌, String, List, map, length, arith, some,
}
use meshium.Graph.{
  DependencyGraph, sorted_ids, node_exists, has_edge, node_of, no_node, topological_sort,
}
use meshium.Graph.Counts.{occ, length-le}
use meshium.Graph.Loop.{undone}
use meshium.Graph.Order.{
  IsKeyOrder, IsWellFormed, ids, drain_rest-IsDrained, well_formed_keys, length-ids, undone_zero,
}

-- Every edge leads to a node, and down in a numbering of the ids: there is no cycle.
abbrev pub IsAcyclic : DependencyGraph → (String → ℕ) → Type 0
IsAcyclic g rank =
    (from to : String)
    → has_edge g.edges from to ≡ true
    → (node_exists g.nodes to ≡ true) × (rank to < rank from)

sorted_counts :
    (g : DependencyGraph) (keys : List String)
    → IsKeyOrder g keys
    → (k : String)
    → occ k (sorted_ids g keys)
      ≡ (if undone k (sorted_ids g keys) g.edges == 0 then occ k keys else 0)
unfolding sorted_ids
sorted_counts g keys h =
    let (_, _, counts) = drain_rest-IsDrained g keys (length keys) h (omega arith) in counts

all_sorted :
    (g : DependencyGraph) (keys : List String) (rank : String → ℕ) (bound : ℕ) (k : String)
    → IsKeyOrder g keys
    → IsAcyclic g rank
    → rank k < bound
    → occ k (sorted_ids g keys) ≡ occ k keys
all_sorted g keys rank zero k h acyclic less = absurd (omega (arith, less))
all_sorted g keys rank (suc bound) k h acyclic less =
    let ready = undone_zero k (sorted_ids g keys) g.edges (λ to edge missing.
      let (is_node, down) = acyclic k to edge in
      let taken = all_sorted g keys rank bound to h acyclic (omega (arith, less, down)) in
      ground (arith, h to, is_node, taken, missing)) in
    ground (arith, sorted_counts g keys h k, ready)

-- When no id is twice in a graph, its edges join nodes, and every edge leads down in some numbering
-- of the ids, the sort succeeds, whatever the order in which the keys come.
pub topological_sort_complete :
    (g : DependencyGraph) (keys : List String) (rank : String → ℕ)
    → IsKeyOrder g keys
    → IsWellFormed g
    → IsAcyclic g rank
    → topological_sort g keys ≡ some (map (λ id. node_of g.nodes id no_node) (sorted_ids g keys))
unfolding topological_sort
topological_sort_complete g keys rank h formed acyclic =
    let all : (k : String) → occ k (sorted_ids g keys) ≡ occ k keys =
      λ k. all_sorted g keys rank (suc (rank k)) k h acyclic (omega arith) in
    let same : (k : String) → occ k (sorted_ids g keys) ≡ occ k (ids g.nodes) =
      λ k. all k ∙ well_formed_keys g keys h formed k in
    let le = length-le (sorted_ids g keys) (ids g.nodes) (λ k. omega (arith, same k)) in
    let ge = length-le (ids g.nodes) (sorted_ids g keys) (λ k. omega (arith, same k)) in
    ground (arith, le, ge, length-ids g.nodes)
