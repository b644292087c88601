-- ===== src/Samples/Graphs.antt =====
-- Concrete inputs for the topological sort (internal/mod/discovery/graph.go): an application that
-- depends on a database.
use meshium.Prelude.{
  ℕ, ◌≤◌, ◌≡◌, ◌≢◌, refl, subst, inl, inr, true, false, ◌||◌, if◌then◌else◌, ltb, String, List, [],
  ◌∷◌, ◌++◌, map, some, none, Bool-cases, arith,
}
use text.Mathlib.Text.{◌==◌ as str_eq}
use text.Mathlib.TextEquality.{eq_iff}
use meshium.Graph.{
  DependencyNode, DependencyGraph, node_exists, has_edge, dependents, in_degree, relax, drain,
  zero_degrees, sorted_ids, node_of, no_node, topological_sort,
}
use meshium.Graph.Counts.{occ}
use meshium.Graph.Order.{
  IsKeyOrder, IsWellFormed, ids, drain-terminates, topological_sort-IsOrdered,
}
use meshium.Graph.Complete.{IsAcyclic, topological_sort_complete}

abbrev node_named : String → DependencyNode
node_named id = record {
  id = id;
  name = id;
  kind = "service";
  workload_type = "container";
  port = 5432;
  metadata = [];
}

abbrev shop : DependencyGraph
shop = record {
  nodes = node_named "app" ∷ node_named "db" ∷ [];
  edges = record { from = "app"; to = "db"; reason = "connection" } ∷ [];
}

abbrev shop_keys : List String
shop_keys = "db" ∷ "app" ∷ []

abbrev shop_order : List DependencyNode
shop_order = node_named "db" ∷ node_named "app" ∷ []

abbrev shop_rank : String → ℕ
shop_rank id = if str_eq "app" id then 1 else 0

-- A claim about texts holds when it holds of the two ids and of all others.
by_ids :
    (P : String → Type 0)
    → P "app"
    → P "db"
    → ((k : String) → str_eq "app" k ≡ false → str_eq "db" k ≡ false → P k)
    → (k : String) → P k
by_ids P app db other k = elim (Bool-cases (str_eq "app" k)) [
  | inl e ↦ subst P ((eq_iff "app" k).0 e) app
  | inr e ↦ elim (Bool-cases (str_eq "db" k)) [
    | inl f ↦ subst P ((eq_iff "db" k).0 f) db
    | inr f ↦ other k e f
  ]
]

shop_keys-IsKeyOrder : IsKeyOrder shop shop_keys
unfolding node_exists in_degree
shop_keys-IsKeyOrder =
    by_ids
      (λ k.
        occ k shop_keys
        ≡ (if node_exists shop.nodes k || ltb 0 (in_degree shop.edges k) then 1 else 0))
      refl refl (λ k e f. ground (arith, e, f))

shop-IsWellFormed : IsWellFormed shop
unfolding node_exists in_degree
shop-IsWellFormed =
    by_ids
      (λ k.
        (occ k (ids shop.nodes) ≤ 1)
        × (in_degree shop.edges k ≢ 0 → node_exists shop.nodes k ≡ true))
      (omega arith, λ n. refl) (omega arith, λ n. refl)
      (λ k e f. (ground (arith, e, f), λ n. ground (arith, e, f, n)))

shop-IsAcyclic : IsAcyclic shop shop_rank
unfolding has_edge node_exists
shop-IsAcyclic from to edge =
    let is_app : str_eq "app" from ≡ true = ground (arith, edge) in
    let is_db : str_eq "db" to ≡ true = ground (arith, edge) in
    let away : str_eq "app" to ≡ false =
      subst (λ t. str_eq "app" t ≡ false) ((eq_iff "db" to).0 is_db) refl in
    (ground (arith, is_db), ground (arith, is_app, away))

topological_sort_test : topological_sort shop shop_keys ≡ some shop_order
unfolding topological_sort sorted_ids drain dependents relax in_degree
topological_sort_test = refl

topological_sort-IsOrdered_example :
    ((k : String) → occ k (ids shop_order) ≡ occ k (ids shop.nodes))
    × ((before : List String) (n : String) (after : List String) (m : String)
        → ids shop_order ≡ before ++ n ∷ after
        → has_edge shop.edges n m ≡ true
        → occ m before ≢ 0)
topological_sort-IsOrdered_example =
    topological_sort-IsOrdered shop shop_keys shop_order shop_keys-IsKeyOrder shop-IsWellFormed
      topological_sort_test

topological_sort_complete_example :
    topological_sort shop shop_keys
    ≡ some (map (λ id. node_of shop.nodes id no_node) (sorted_ids shop shop_keys))
topological_sort_complete_example =
    topological_sort_complete shop shop_keys shop_rank shop_keys-IsKeyOrder shop-IsWellFormed
      shop-IsAcyclic

drain-terminates_example :
    drain 7 shop.edges (in_degree shop.edges) (zero_degrees (in_degree shop.edges) shop_keys) []
    ≡ (sorted_ids shop shop_keys, [])
drain-terminates_example = drain-terminates shop shop_keys 7 shop_keys-IsKeyOrder (omega arith)

abbrev loop : DependencyGraph
loop = record {
  nodes = node_named "app" ∷ node_named "db" ∷ [];
  edges =
      record { from = "app"; to = "db"; reason = "" }
      ∷ record { from = "db"; to = "app"; reason = "" }
      ∷ [];
}

loop_test : topological_sort loop shop_keys ≡ none
unfolding topological_sort sorted_ids drain dependents relax in_degree
loop_test = refl

-- An edge from an id that is no node lets a graph with a cycle pass.
abbrev stray : DependencyGraph
stray = record {
  nodes = node_named "app" ∷ node_named "db" ∷ [];
  edges =
      record { from = "db"; to = "db"; reason = "" }
      ∷ record { from = "x"; to = "app"; reason = "" }
      ∷ [];
}

stray_test :
    topological_sort stray ("app" ∷ "db" ∷ "x" ∷ []) ≡ some (node_named "app" ∷ no_node ∷ [])
unfolding topological_sort sorted_ids drain dependents relax in_degree
stray_test = refl
