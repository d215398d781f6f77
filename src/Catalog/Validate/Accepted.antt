-- ===== src/Catalog/Validate/Accepted.antt =====
-- What an accepted catalog says of its workflows and of their nodes.
use dsh_workflow_plugin.Prelude.{
  String, Bool, true, false, ◌&&◌, not, ◌==◌, Option, some, or_else, opt_map, is_id, List, [], ◌∷◌,
  map, Assoc, lookup, keys, values, includes, ok, ◌≡◌, refl, subst, ◌∙◌, arith, append-eq-nil,
  Option-cases, inl, inr,
}
use dsh_workflow_plugin.Types.Graph.{
  NodeDef, actor_task, builtin_program, child_workflow, ResultDef, Target, to_node, to_return,
  WorkflowDef, WorkflowConfig, node_results, node_on_return,
}
use dsh_workflow_plugin.State.Tests.{when}
use dsh_workflow_plugin.Engine.Base.{result_def_of}
use dsh_workflow_plugin.Engine.Returns.{mapped_return}
use dsh_workflow_plugin.Engine.Advance.Leaving.{IsValidTarget}
use dsh_workflow_plugin.Catalog.Targets.{valid_target, target_of, node_targets}
use dsh_workflow_plugin.Catalog.Normalize.{
  normalized_result, normalized_node, normalized_workflow, normalized_catalog,
}
use dsh_workflow_plugin.Catalog.Problems.{
  each_entry, each_item, node_problems, actor_problems, program_problems, child_problems,
  results_problems, target_problems, workflow_problems, cycle_problems, reached, reached_returns,
}
use dsh_workflow_plugin.Catalog.Validate.{
  Validated, all_workflows, root_name_of, all_problems, verdict, validate_and_normalize,
}
use dsh_workflow_plugin.Catalog.Validate.Entries.{
  each_entry-nil, each_item-includes, lookup-map_values, target_problems-values,
  target_problems-mapped,
}

pub verdict_ok : (ps : List String) (v v' : Validated) → verdict ps v ≡ ok v' → (ps ≡ []) × (v ≡ v')
verdict_ok [] v v' h = (refl, ground (arith, h))
verdict_ok (p ∷ ps) v v' h = cc

pub validated_parts :
    (config : WorkflowConfig) (id : Option String) (v : Validated)
    → validate_and_normalize config id ≡ ok v
    → (all_problems config id ≡ []) × (v.config ≡ normalized_catalog (root_name_of id) config)
unfolding validate_and_normalize
validated_parts config id v h =
    let (none_left, same) = verdict_ok (all_problems config id) _ v h in
    (none_left, subst (λ x. x.config ≡ normalized_catalog (root_name_of id) config) same refl)

pub workflows_accepted :
    (config : WorkflowConfig) (id : Option String) (name : String) (d : WorkflowDef)
    → all_problems config id ≡ []
    → lookup name (all_workflows config (root_name_of id)) ≡ some d
    → workflow_problems config (root_name_of id) name d ≡ []
unfolding all_problems
workflows_accepted config id name d h there =
    let a = append-eq-nil _ (cycle_problems (or_else config.child_workflows [])) h in
    let b =
      append-eq-nil _
        (each_entry (workflow_problems config (root_name_of id))
          (all_workflows config (root_name_of id)))
        a.0 in
    each_entry-nil (workflow_problems config (root_name_of id))
      (all_workflows config (root_name_of id)) name d b.1 there

-- A workflow without problems: each node has none, and each return is an id.
pub workflow_parts :
    (config : WorkflowConfig) (root name : String) (d : WorkflowDef)
    → workflow_problems config root name d ≡ []
    → (each_item (λ r. when (not (is_id r)) "return is not a valid lowercase id") d.returns ≡ [])
      × (each_entry (node_problems config root d) d.nodes ≡ [])
      × (each_item
            (λ id. when (not (includes id (reached d))) "node is not reachable from startNode")
            (keys d.nodes)
          ≡ [])
      × (each_item
            (λ r.
              when
                (not (includes r (reached_returns d (reached d))))
                "return has no structurally reachable return path")
            d.returns
          ≡ [])
unfolding workflow_problems
workflow_parts config root name d h =
    let a =
      append-eq-nil _
        (each_item
          (λ r.
            when (not (includes r (reached_returns d (reached d))))
              "return has no structurally reachable return path")
          d.returns)
        h in
    let b =
      append-eq-nil _
        (each_item
          (λ id. when (not (includes id (reached d))) "node is not reachable from startNode")
          (keys d.nodes))
        a.0 in
    let c = append-eq-nil _ (each_entry (node_problems config root d) d.nodes) b.0 in
    let e =
      append-eq-nil _
        (when (name == root && _) "root workflow startNode must be an actor-task with role manager")
        c.0 in
    let f =
      append-eq-nil _
        (each_item (λ id. when (not (is_id id)) "node id is not a valid lowercase id")
          (keys d.nodes))
        e.0 in
    let g =
      append-eq-nil _
        (each_item (λ r. when (not (is_id r)) "return is not a valid lowercase id") d.returns)
        f.0 in
    (g.1, c.1, b.1, a.1)

results_valid :
    (program_keys : Bool) (rs : Assoc ResultDef) (d : WorkflowDef) (name : String) (r : ResultDef)
    → results_problems program_keys rs d ≡ []
    → lookup name rs ≡ some r
    → valid_target r.target d ≡ true
unfolding results_problems lookup
results_valid program_keys [] d name r h there = cc
results_valid program_keys (x ∷ rs) d name r h there =
    target_problems-values (x ∷ rs) d name r
      (append-eq-nil _ (target_problems (map target_of (values (x ∷ rs))) d) h).1 there

-- A result of a node that has no problems.
pub node_result_valid :
    (config : WorkflowConfig) (root : String) (d : WorkflowDef) (id : String) (node : NodeDef)
    (name : String) (r : ResultDef)
    → node_problems config root d id node ≡ []
    → result_def_of (some node) name ≡ some r
    → valid_target r.target d ≡ true
unfolding node_problems actor_problems program_problems result_def_of node_results
node_result_valid config root d id (actor_task n) name r h there =
    results_valid false n.results d name r
      (append-eq-nil _ (results_problems false n.results d) h).1 there
node_result_valid config root d id (builtin_program n) name r h there =
    let a = append-eq-nil _ (when _ "declares unknown Program results") h in
    let b = append-eq-nil _ (when _ "must declare results") a.0 in
    results_valid true n.results d name r
      (append-eq-nil _ (results_problems true n.results d) b.0).1 there
node_result_valid config root d id (child_workflow n) name r h there = cc

pub node_return_valid :
    (config : WorkflowConfig) (root : String) (d : WorkflowDef) (id : String) (node : NodeDef)
    (name : String) (t : Target)
    → node_problems config root d id node ≡ []
    → mapped_return (some node) name ≡ some t
    → valid_target t d ≡ true
unfolding node_problems child_problems node_targets node_results node_on_return
node_return_valid config root d id (actor_task n) name t h there = cc
node_return_valid config root d id (builtin_program n) name t h there = cc
node_return_valid config root d id (child_workflow n) name t h there =
    target_problems-mapped n.on_return d name t
      (append-eq-nil _ (target_problems (values n.on_return) d) h).1 there

-- Normalization changes no target.
pub result_def_of-normalized :
    (node : NodeDef) (name : String)
    → result_def_of (some (normalized_node node)) name
      ≡ opt_map normalized_result (result_def_of (some node) name)
unfolding result_def_of node_results normalized_node
result_def_of-normalized (actor_task n) name = lookup-map_values normalized_result name n.results
result_def_of-normalized (builtin_program n) name =
    lookup-map_values normalized_result name n.results
result_def_of-normalized (child_workflow n) name = refl

pub mapped_return-normalized :
    (node : NodeDef) (name : String)
    → mapped_return (some (normalized_node node)) name ≡ mapped_return (some node) name
unfolding normalized_node
mapped_return-normalized (actor_task n) name = refl
mapped_return-normalized (builtin_program n) name = refl
mapped_return-normalized (child_workflow n) name = refl

pub normalized_result-target : (r : ResultDef) → (normalized_result r).target ≡ r.target
unfolding normalized_result
normalized_result-target r = ground arith

pub valid-IsValidTarget :
    (d : WorkflowDef) (t : Target)
    → each_item (λ r. when (not (is_id r)) "return is not a valid lowercase id") d.returns ≡ []
    → valid_target t d ≡ true
    → IsValidTarget (some (normalized_workflow d)) t
unfolding valid_target normalized_workflow
valid-IsValidTarget d (to_node n) ids h = elim (Option-cases (lookup n d.nodes)) [
  | inl absent ↦ ground (arith, absent, h)
  | inr (node, there) ↦
      (normalized_node node, lookup-map_values normalized_node n d.nodes ∙ rw (there) refl)
]
valid-IsValidTarget d (to_return r) ids h =
    (each_item-includes is_id "return is not a valid lowercase id" d.returns r ids h, h)
