-- ===== src/Catalog/Cycles.antt =====
-- src/catalog/validate.ts: the search for a cycle among the references of child workflows. Each call is
-- one unit of fuel deeper. `visiting` is the path to the call: a call leaves it as it found it.
pub mod Depth
pub mod Calls
pub mod Found
use dsh_workflow_plugin.Prelude.{
  ℕ, zero, suc, String, Bool, true, false, Option, none, some, or_else, opt_bind, List, [], ◌∷◌,
  ◌++◌, Assoc, lookup, keys, values, includes, length,
}
use dsh_workflow_plugin.Types.Graph.{
  NodeDef, actor_task, builtin_program, child_workflow, WorkflowDef, WorkflowConfig,
}

-- The ids of the workflows that the nodes of a workflow call.
unfoldable pub callees : List NodeDef → List String
callees [] = []
callees (child_workflow n ∷ nodes) = n.workflow_id ∷ callees nodes
callees (actor_task n ∷ nodes) = callees nodes
callees (builtin_program n ∷ nodes) = callees nodes

unfoldable pub child_graph : Assoc WorkflowDef → Assoc (List String)
unfolding callees
child_graph [] = []
child_graph ((id, def) ∷ defs) = (id, callees (values def.nodes)) ∷ child_graph defs

pub record Search : Type 0 where
  pub visited : List String
  pub problems : List String

abbrev pub cycle_problem : String
cycle_problem = "child workflow reference cycle detected"

abbrev pub reported : Search → Search
reported s = record s { problems = s.problems ++ cycle_problem ∷ [] }

abbrev pub finished : String → Search → Search
finished id s = record s { visited = id ∷ s.visited }

module _ (graph : Assoc (List String)) where
  pub children : String → List String
  children id = or_else (lookup id graph) []

  pub visit_each : (String → Search → Option Search) → List String → Search → Option Search
  visit_each visit [] s = some s
  visit_each visit (id ∷ ids) s = opt_bind (visit id s) (visit_each visit ids)

  pub visit : ℕ → List String → String → Search → Option Search
  unfolding children visit_each
  visit zero visiting id s = none
  visit (suc fuel) visiting id s = elim (includes id visiting) [
    | true ↦ some (reported s)
    | false ↦ elim (includes id s.visited) [
      | true ↦ some s
      | false ↦
          opt_bind (visit_each (visit fuel (id ∷ visiting)) (children id) s)
            (λ s'. some (finished id s'))
    ]
  ]

  -- A path has at most all the keys, and then one id more.
  unfoldable pub find_cycles : Option Search
  unfolding visit_each visit
  find_cycles =
      visit_each (visit (suc (length graph)) []) (keys graph)
        (record { visited = []; problems = [] })
