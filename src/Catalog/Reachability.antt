-- ===== src/Catalog/Reachability.antt =====
-- src/catalog/validate.ts: the search for the nodes that can be reached from the start node. A set is
-- the list of its members, and each round of the loop takes one unit of fuel.
pub mod Rounds
pub mod Exact
use dsh_workflow_plugin.Prelude.{
  ℕ, zero, suc, ◌+◌, String, Bool, true, false, Option, none, some, List, [], ◌∷◌, ◌++◌, lookup,
  includes, length,
}
use dsh_workflow_plugin.Types.Graph.{NodeDef, Target, to_node, to_return, WorkflowDef}
use dsh_workflow_plugin.Catalog.Targets.{node_targets, next_node}

unfoldable pub next_nodes : List Target → WorkflowDef → List String
unfolding next_node
next_nodes [] def = []
next_nodes (t ∷ ts) def =
    let rest = next_nodes ts def in elim (next_node t def) [ none ↦ rest | some n ↦ n ∷ rest ]

-- What is pushed for a node that is taken from the queue.
unfoldable pub successors : WorkflowDef → String → List String
unfolding next_nodes
successors def current = elim (lookup current def.nodes) [
  | none ↦ []
  | some node ↦ next_nodes (node_targets node) def
]

-- The loop, with the nodes seen; `none` where the fuel runs out.
unfoldable pub reach_from : WorkflowDef → ℕ → List String → List String → Option (List String)
unfolding successors
reach_from def fuel seen [] = some seen
reach_from def zero seen (current ∷ queue) = none
reach_from def (suc fuel) seen (current ∷ queue) = elim (includes current seen) [
  | true ↦ reach_from def fuel seen queue
  | false ↦ reach_from def fuel (current ∷ seen) (queue ++ successors def current)
]

-- The pushes of a list of nodes.
unfoldable pub edge_count : WorkflowDef → List (String × NodeDef) → ℕ
unfolding next_nodes
edge_count def [] = 0
edge_count def ((id, node) ∷ nodes) =
    length (next_nodes (node_targets node) def) + edge_count def nodes

-- A round for the start node, and one for each push.
unfoldable pub reachable : WorkflowDef → Option (List String)
unfolding reach_from edge_count
reachable def = reach_from def (suc (edge_count def def.nodes)) [] (def.start_node ∷ [])
