-- ===== src/Graph.antt =====
-- The dependency graph of discovered workloads (internal/mod/discovery/graph.go): its topological
-- sort, by which migrations are ordered, and the checks on its edges.
pub mod Counts
pub mod Loop
pub mod Order
pub mod Complete
pub mod Progress
use meshium.Prelude.{
  ℕ, zero, suc, ◌-◌, Bool, true, false, ◌||◌, ◌&&◌, not, if◌then◌else◌, ◌==◌, Option, none, some,
  String, List, [], ◌∷◌, ◌++◌, map, length,
}
use text.Mathlib.Text.{◌==◌ as str_eq}

pub record DependencyNode : Type 0 where
  pub id : String
  pub name : String
  pub kind : String
  pub workload_type : String
  pub port : ℕ
  pub metadata : List (String × String)

-- An edge says that `from` depends on `to`.
pub record DependencyEdge : Type 0 where
  pub from : String
  pub to : String
  pub reason : String

pub record DependencyGraph : Type 0 where
  pub nodes : List DependencyNode
  pub edges : List DependencyEdge

unfoldable pub node_exists : List DependencyNode → String → Bool
node_exists [] id = false
node_exists (n ∷ rest) id = str_eq n.id id || node_exists rest id

unfoldable pub has_edge : List DependencyEdge → String → String → Bool
has_edge [] from to = false
has_edge (e ∷ rest) from to = (str_eq e.from from && str_eq e.to to) || has_edge rest from to

-- `adj[node]`: the dependents of a node, in the order of the edges.
unfoldable pub dependents : String → List DependencyEdge → List String
dependents node [] = []
dependents node (e ∷ rest) =
    if str_eq e.to node then e.from ∷ dependents node rest else dependents node rest

-- `inDegree` before the loop: how many edges leave a node.
unfoldable pub in_degree : List DependencyEdge → String → ℕ
in_degree [] id = 0
in_degree (e ∷ rest) id = if str_eq e.from id then suc (in_degree rest id) else in_degree rest id

-- The loop over the dependents of a node that is taken: their degrees and the queue after it. A
-- degree that goes down to 0 is one that was 1.
unfoldable pub relax : List String → (String → ℕ) → List String → (String → ℕ) × List String
relax [] degree queue = (degree, queue)
relax (d ∷ rest) degree queue =
    let degree' : String → ℕ = λ k. if str_eq d k then degree d - 1 else degree k in
    relax rest degree' (if degree d == 1 then queue ++ d ∷ [] else queue)

-- The loop on the queue, on fuel; the nodes that are taken, in order, and the queue that is left.
unfoldable pub drain :
    ℕ → List DependencyEdge → (String → ℕ) → List String → List String → List String × List String
unfolding dependents relax
drain zero edges degree queue taken = (taken, queue)
drain (suc fuel) edges degree [] taken = (taken, [])
drain (suc fuel) edges degree (n ∷ queue) taken =
    let (degree', queue') = relax (dependents n edges) degree queue in
    drain fuel edges degree' queue' (taken ++ n ∷ [])

abbrev pub zero_degrees : (String → ℕ) → List String → List String
zero_degrees degree [] = []
zero_degrees degree (k ∷ rest) =
    if degree k == 0 then k ∷ zero_degrees degree rest else zero_degrees degree rest

-- The ids in the order in which the loop takes them; `keys` is the order in which Go iterates over
-- the map of degrees, and their number is fuel for the loop.
unfoldable pub sorted_ids : DependencyGraph → List String → List String
unfolding drain in_degree
sorted_ids g keys =
    (drain (length keys) g.edges (in_degree g.edges) (zero_degrees (in_degree g.edges) keys) []).0

abbrev pub no_node : DependencyNode
no_node = record { id = ""; name = ""; kind = ""; workload_type = ""; port = 0; metadata = [] }

-- `nodeMap[id]`: the last node with the id.
abbrev pub node_of : List DependencyNode → String → DependencyNode → DependencyNode
node_of [] id found = found
node_of (n ∷ rest) id found = node_of rest id (if str_eq n.id id then n else found)

-- None is the error "dependency cycle detected".
unfoldable pub topological_sort : DependencyGraph → List String → Option (List DependencyNode)
unfolding sorted_ids
topological_sort g keys =
    let sorted = sorted_ids g keys in
    if length sorted == length g.nodes
    then some (map (λ id. node_of g.nodes id no_node) sorted)
    else none

unfoldable pub migration_order : DependencyGraph → List String → Option (List DependencyNode)
unfolding topological_sort
migration_order g keys = topological_sort g keys
