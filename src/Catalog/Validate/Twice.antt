-- ===== src/Catalog/Validate/Twice.antt =====
-- Validating an accepted config again accepts it, and changes nothing.
use dsh_workflow_plugin.Prelude.{
  ℕ, zero, suc, String, not, Option, none, some, opt_map, is_none, List, [], ◌∷◌, ◌++◌, Assoc,
  lookup, keys, includes, ◌≡◌, refl, append-eq-nil, Bool-cases, Option-cases, inl, inr,
}
use dsh_workflow_plugin.Types.Graph.{
  NodeDef, actor_task, builtin_program, child_workflow, WorkflowDef, WorkflowConfig,
}
use dsh_workflow_plugin.State.Tests.{when}
use dsh_workflow_plugin.Catalog.Targets.{node_targets}
use dsh_workflow_plugin.Catalog.Reachability.{successors, reach_from, edge_count, reachable}
use dsh_workflow_plugin.Catalog.Normalize.{map_values, normalized_node, normalized_workflow}
use dsh_workflow_plugin.Catalog.Problems.{
  each_entry, each_item, node_problems, reached, reached_returns, workflow_problems,
  starts_with_manager,
}
use dsh_workflow_plugin.Catalog.Validate.Entries.{lookup-map_values}
use dsh_workflow_plugin.Catalog.Validate.Walks.{
  node_targets-normalized, next_nodes-normalized, successors-normalized,
}
use dsh_workflow_plugin.Catalog.Validate.Again.{
  append-nil-nil, each_entry-again, keys-map_values, node_problems-again,
}

-- The search finds the same nodes.
edge_count-normalized :
    (d : WorkflowDef) (m : Assoc NodeDef)
    → edge_count (normalized_workflow d) (map_values normalized_node m) ≡ edge_count d m
unfolding edge_count map_values
edge_count-normalized d [] = refl
edge_count-normalized d ((k, n) ∷ m) =
    rw
      (
        node_targets-normalized n,
        next_nodes-normalized (node_targets n) d,
        edge_count-normalized d m,
      )
      refl

reach_from-normalized :
    (d : WorkflowDef) (fuel : ℕ) (seen queue : List String)
    → reach_from (normalized_workflow d) fuel seen queue ≡ reach_from d fuel seen queue
unfolding reach_from
reach_from-normalized d fuel seen [] = refl
reach_from-normalized d zero seen (x ∷ queue) = refl
reach_from-normalized d (suc fuel) seen (x ∷ queue) = elim (Bool-cases (includes x seen)) [
  | inl old ↦ rw (reach_from, old) (reach_from-normalized d fuel seen queue)
  | inr new ↦
      rw (reach_from, new, successors-normalized d x)
        (reach_from-normalized d fuel (x ∷ seen) (queue ++ successors d x))
]

reached-normalized : (d : WorkflowDef) → reached (normalized_workflow d) ≡ reached d
unfolding reached reachable normalized_workflow
reached-normalized d =
    rw
      (
        edge_count-normalized d d.nodes,
        reach_from-normalized d (suc (edge_count d d.nodes)) [] (d.start_node ∷ []),
      )
      refl

reached_returns-normalized :
    (d : WorkflowDef) (ids : List String)
    → reached_returns (normalized_workflow d) ids ≡ reached_returns d ids
unfolding reached_returns each_item normalized_workflow
reached_returns-normalized d [] = refl
reached_returns-normalized d (id ∷ ids) = elim (Option-cases (lookup id d.nodes)) [
  | inl absent ↦
      rw (lookup-map_values normalized_node id d.nodes, absent) (reached_returns-normalized d ids)
  | inr (n, there) ↦
      rw
        (
          lookup-map_values normalized_node id d.nodes,
          there,
          node_targets-normalized n,
          reached_returns-normalized d ids,
        )
        refl
]

starts-normalized :
    (o : Option NodeDef) → starts_with_manager (opt_map normalized_node o) ≡ starts_with_manager o
unfolding normalized_node
starts-normalized none = refl
starts-normalized (some (actor_task n)) = refl
starts-normalized (some (builtin_program n)) = refl
starts-normalized (some (child_workflow n)) = refl

pub is_none-map {ℓ κ} :
    {A : Type ℓ} {B : Type κ} (f : A → B) (o : Option A) → is_none (opt_map f o) ≡ is_none o
is_none-map f none = refl
is_none-map f (some x) = refl

pub workflow_problems-again :
    (c : WorkflowConfig) (root name : String) (d : WorkflowDef)
    → workflow_problems c root name d ≡ []
    → workflow_problems c root name (normalized_workflow d) ≡ []
unfolding workflow_problems normalized_workflow
workflow_problems-again c root name d h =
    let k =
      append-eq-nil _
        (each_item
          (λ r.
            when (not (includes r (reached_returns d (reached d))))
              "return has no structurally reachable return path")
          d.returns)
        h in
    let j =
      append-eq-nil _
        (each_item
          (λ id. when (not (includes id (reached d))) "node is not reachable from startNode")
          (keys d.nodes))
        k.0 in
    let i = append-eq-nil _ (each_entry (node_problems c root d) d.nodes) j.0 in
    append-nil-nil
      (append-nil-nil
        (append-nil-nil
          (rw
            (
              lookup-map_values normalized_node d.start_node d.nodes,
              is_none-map normalized_node (lookup d.start_node d.nodes),
              starts-normalized (lookup d.start_node d.nodes),
              keys-map_values normalized_node d.nodes,
            )
            i.0)
          (each_entry-again (node_problems c root d) (node_problems c root (normalized_workflow d))
            normalized_node d.nodes (λ id n. node_problems-again c root d id n) i.1))
        (rw (reached-normalized d, keys-map_values normalized_node d.nodes) j.1))
      (rw (reached-normalized d, reached_returns-normalized d (reached d)) k.1)
