-- ===== src/Catalog/Targets.antt =====
-- src/catalog/validate.ts: how a target is read, and the static targets of a node.
use dsh_workflow_plugin.Prelude.{
  String, Bool, Option, none, some, or_else, is_some, List, [], map, lookup, values, includes,
}
use dsh_workflow_plugin.Types.Graph.{
  NodeDef, Target, to_node, to_return, ResultDef, WorkflowDef, node_results, node_on_return,
}

-- `targetName`.
target_name : Target → String
target_name (to_node n) = n
target_name (to_return r) = r

unfoldable pub valid_target : Target → WorkflowDef → Bool
valid_target (to_node n) def = is_some (lookup n def.nodes)
valid_target (to_return r) def = includes r def.returns

-- The step inside the workflow; a return has none.
unfoldable pub next_node : Target → WorkflowDef → Option String
next_node (to_node n) def = elim (lookup n def.nodes) [ none ↦ none | some d ↦ some n ]
next_node (to_return r) def = none

abbrev pub target_of : ResultDef → Target
target_of d = d.target

unfoldable pub node_targets : NodeDef → List Target
node_targets node = elim (node_results node) [
  | some results ↦ map target_of (values results)
  | none ↦ values (or_else (node_on_return node) [])
]
