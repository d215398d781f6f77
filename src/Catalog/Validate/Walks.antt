-- ===== src/Catalog/Validate/Walks.antt =====
-- In a run of an accepted catalog every node is on a walk from the start of its workflow, and every
-- sequence of calls of child workflows ends.
use dsh_workflow_plugin.Prelude.{
  String, true, Option, some, or_else, List, [], ◌∷◌, map, Assoc, lookup, keys, values, includes,
  ok, ◌≡◌, refl, sym, ap, subst, ◌∙◌, arith, append-eq-nil, ◌==◌, Bool-cases, Option-cases, inl,
  inr,
}
use dsh_workflow_plugin.Types.Graph.{
  NodeDef, actor_task, builtin_program, child_workflow, ResultDef, Target, to_node, to_return,
  WorkflowDef, WorkflowConfig, node_results, node_on_return,
}
use dsh_workflow_plugin.Types.Run.{RunState}
use dsh_workflow_plugin.State.Tests.{workflow_def}
use dsh_workflow_plugin.Catalog.Targets.{target_of, node_targets, next_node}
use dsh_workflow_plugin.Catalog.Reachability.{next_nodes, successors}
use dsh_workflow_plugin.Catalog.Reachability.Exact.{Reaches, first, next, reachable-Reaches}
use dsh_workflow_plugin.Catalog.Cycles.{callees, child_graph}
use dsh_workflow_plugin.Catalog.Cycles.Calls.{IsGrounded}
use dsh_workflow_plugin.Catalog.Cycles.Found.{find_cycles-IsGrounded}
use dsh_workflow_plugin.Catalog.Normalize.{
  map_values, normalized_result, normalized_node, normalized_workflow, normalized_children,
  normalized_catalog,
}
use dsh_workflow_plugin.Catalog.Problems.{reached, cycle_problems}
use dsh_workflow_plugin.Catalog.Validate.{Validated, all_problems, validate_and_normalize}
use dsh_workflow_plugin.Catalog.Validate.Entries.{each_item-includes, lookup-map_values}
use dsh_workflow_plugin.Catalog.Validate.Accepted.{
  validated_parts, workflow_parts, normalized_result-target,
}
use dsh_workflow_plugin.Catalog.Validate.Routed.{workflow_accepted}

pub targets-normalized :
    (rs : Assoc ResultDef)
    → map target_of (values (map_values normalized_result rs)) ≡ map target_of (values rs)
unfolding values map_values
targets-normalized [] = refl
targets-normalized ((k, r) ∷ rs) = rw (normalized_result-target r, targets-normalized rs) refl

pub node_targets-normalized :
    (node : NodeDef) → node_targets (normalized_node node) ≡ node_targets node
unfolding node_targets node_results node_on_return normalized_node
node_targets-normalized (actor_task n) = targets-normalized n.results
node_targets-normalized (builtin_program n) = targets-normalized n.results
node_targets-normalized (child_workflow n) = refl

next_node-normalized :
    (t : Target) (d : WorkflowDef) → next_node t (normalized_workflow d) ≡ next_node t d
unfolding next_node normalized_workflow
next_node-normalized (to_node n) d = elim (Option-cases (lookup n d.nodes)) [
  | inl absent ↦ ground (arith, lookup-map_values normalized_node n d.nodes, absent)
  | inr (node, there) ↦ ground (arith, lookup-map_values normalized_node n d.nodes, there)
]
next_node-normalized (to_return r) d = refl

pub next_nodes-normalized :
    (ts : List Target) (d : WorkflowDef) → next_nodes ts (normalized_workflow d) ≡ next_nodes ts d
unfolding next_nodes
next_nodes-normalized [] d = refl
next_nodes-normalized (t ∷ ts) d =
    ground (arith, next_node-normalized t d, next_nodes-normalized ts d)

pub successors-normalized :
    (d : WorkflowDef) (u : String) → successors (normalized_workflow d) u ≡ successors d u
unfolding successors normalized_workflow
successors-normalized d u = elim (Option-cases (lookup u d.nodes)) [
  | inl absent ↦ rw (successors, lookup-map_values normalized_node u d.nodes, absent) refl
  | inr (node, there) ↦
      rw (successors, lookup-map_values normalized_node u d.nodes, there)
        (ap (λ ts. next_nodes ts (normalized_workflow d)) (node_targets-normalized node)
          ∙ next_nodes-normalized (node_targets node) d)
]

Reaches-normalized :
    (d : WorkflowDef) {v : String} → Reaches d v → Reaches (normalized_workflow d) v
unfolding normalized_workflow
Reaches-normalized d (first e) = first e
Reaches-normalized d (next {u} {v} p h) =
    next (Reaches-normalized d p) (ap (includes v) (successors-normalized d u) ∙ h)

reached-Reaches : (d : WorkflowDef) (v : String) → includes v (reached d) ≡ true → Reaches d v
unfolding reached
reached-Reaches d v h =
    let (r, ends, exact) = reachable-Reaches d in
    (exact v).0 (subst (λ o. includes v (or_else o []) ≡ true) ends h)

keys-normalized : (m : Assoc NodeDef) → keys (map_values normalized_node m) ≡ keys m
unfolding keys map_values
keys-normalized [] = refl
keys-normalized ((k, v) ∷ m) = rw (keys-normalized m) refl

callees-normalized :
    (m : Assoc NodeDef) → callees (values (map_values normalized_node m)) ≡ callees (values m)
unfolding callees values map_values normalized_node
callees-normalized [] = refl
callees-normalized ((k, actor_task n) ∷ m) = callees-normalized m
callees-normalized ((k, builtin_program n) ∷ m) = callees-normalized m
callees-normalized ((k, child_workflow n) ∷ m) = rw (callees-normalized m) refl

pub child_graph-normalized :
    (root : String) (m : Assoc WorkflowDef)
    → child_graph (normalized_children root m) ≡ child_graph m
unfolding child_graph normalized_children normalized_workflow
child_graph-normalized root [] = refl
child_graph-normalized root ((id, def) ∷ m) = elim (Bool-cases (id == root)) [
  | inl is_root ↦ rw (is_root, child_graph-normalized root m) refl
  | inr is_child ↦ rw (is_child, callees-normalized def.nodes, child_graph-normalized root m) refl
]

same_graph :
    (config : WorkflowConfig) (id : String) (snapshot : WorkflowConfig)
    → snapshot ≡ normalized_catalog id config
    → child_graph (or_else snapshot.child_workflows [])
      ≡ child_graph (or_else config.child_workflows [])
unfolding normalized_catalog
same_graph config id snapshot h =
    ap (λ c. child_graph (or_else c.child_workflows [])) h
    ∙ elim (Option-cases config.child_workflows) [
      | inl none_there ↦ ground (arith, none_there)
      | inr (m, there) ↦ ground (arith, there, child_graph-normalized id m)
    ]

cycles_accepted :
    (config : WorkflowConfig) (id : Option String)
    → all_problems config id ≡ []
    → cycle_problems (or_else config.child_workflows []) ≡ []
unfolding all_problems
cycles_accepted config id h =
    (append-eq-nil _ (cycle_problems (or_else config.child_workflows [])) h).1

IsGrounded-children :
    (m : Assoc WorkflowDef) (c : String)
    → cycle_problems m ≡ []
    → includes c (keys (child_graph m)) ≡ true
    → IsGrounded (child_graph m) c
unfolding cycle_problems
IsGrounded-children m c h there =
    let (r, ends, exact) = find_cycles-IsGrounded (child_graph m) in
    exact.0 (ground (arith, ends, h)) c there

module _ (config : WorkflowConfig) (id : String) (v : Validated) (run : RunState)
    (accepted : validate_and_normalize config (some id) ≡ ok v)
    (frozen : run.definition_snapshot ≡ v.config) (root : run.catalog_workflow_id ≡ id) where
  -- In a run of an accepted catalog, with its id and its returned config, a walk along the targets
  -- leads from the start node of each workflow of the run to every node of it.
  pub accepted-Reaches :
      (w n : String) (def : WorkflowDef)
      → workflow_def run w ≡ some def
      → includes n (keys def.nodes) ≡ true
      → Reaches def n
  unfolding normalized_workflow
  accepted-Reaches w n def is_def there =
      let (d, same, none_left) =
        workflow_accepted config id v run accepted frozen root w def is_def in
      let there_d =
        ap (includes n) (sym (keys-normalized d.nodes))
        ∙ subst (λ x. includes n (keys x.nodes) ≡ true) same there in
      let found =
        each_item-includes (λ x. includes x (reached d)) "node is not reachable from startNode"
          (keys d.nodes) n (workflow_parts config id w d none_left).2 there_d in
      subst (λ x. Reaches x n) (sym same) (Reaches-normalized d (reached-Reaches d n found))

  -- In a run of an accepted catalog, with its id and its returned config, every chain of calls
  -- from a child workflow of the frozen definition ends: no child workflow calls itself, at once
  -- or by others.
  pub accepted-IsGrounded :
      (c : String)
      → includes c (keys (child_graph (or_else run.definition_snapshot.child_workflows []))) ≡ true
      → IsGrounded (child_graph (or_else run.definition_snapshot.child_workflows [])) c
  accepted-IsGrounded c there =
      let parts = validated_parts config (some id) v accepted in
      let same = same_graph config id run.definition_snapshot (frozen ∙ parts.1) in
      subst (λ g. IsGrounded g c) (sym same)
        (IsGrounded-children (or_else config.child_workflows []) c
          (cycles_accepted config (some id) parts.0)
          (subst (λ g. includes c (keys g) ≡ true) same there))
