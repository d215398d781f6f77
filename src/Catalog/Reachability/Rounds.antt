-- ===== src/Catalog/Reachability/Rounds.antt =====
-- The loop ends: a round takes a node from the queue, and only the first visit of a node pushes others.
use dsh_workflow_plugin.Prelude.{
  ℕ, zero, suc, ◌+◌, ◌≤◌, String, false, none, some, List, [], ◌∷◌, ◌++◌, lookup, includes, length,
  length-append, if◌then◌else◌, ◌≡◌, refl, eq_iff, arith, Bool-cases, inl, inr,
}
use dsh_workflow_plugin.Types.Graph.{NodeDef, WorkflowDef}
use dsh_workflow_plugin.Catalog.Targets.{node_targets}
use dsh_workflow_plugin.Catalog.Reachability.{
  next_nodes, successors, reach_from, edge_count, reachable,
}

module _ (def : WorkflowDef) where
  -- The pushes that the nodes not yet seen can still make.
  unseen_edges : List String → List (String × NodeDef) → ℕ
  unseen_edges seen [] = 0
  unseen_edges seen ((id, node) ∷ nodes) =
      (if includes id seen then 0 else length (next_nodes (node_targets node) def))
      + unseen_edges seen nodes

  unseen_edges-nil :
      (nodes : List (String × NodeDef)) → unseen_edges [] nodes ≡ edge_count def nodes
  unfolding unseen_edges edge_count includes
  unseen_edges-nil [] = refl
  unseen_edges-nil ((id, node) ∷ nodes) = omega (arith, unseen_edges-nil nodes)

  pushes : List (String × NodeDef) → String → List String
  pushes nodes current = elim (lookup current nodes) [
    | none ↦ []
    | some node ↦ next_nodes (node_targets node) def
  ]

  unseen_edges-le :
      (seen : List String) (current : String) (nodes : List (String × NodeDef))
      → unseen_edges (current ∷ seen) nodes ≤ unseen_edges seen nodes
  unfolding unseen_edges includes
  unseen_edges-le seen current [] = omega arith
  unseen_edges-le seen current ((id, node) ∷ nodes) =
      ground (arith, unseen_edges-le seen current nodes)

  unseen_edges-visit :
      (seen : List String) (current : String) (nodes : List (String × NodeDef))
      → includes current seen ≡ false
      → unseen_edges (current ∷ seen) nodes + length (pushes nodes current)
        ≤ unseen_edges seen nodes
  unfolding unseen_edges pushes includes lookup
  unseen_edges-visit seen current [] new = omega arith
  unseen_edges-visit seen current ((id, node) ∷ nodes) new = ground (
    arith,
    new,
    eq_iff id current,
    eq_iff current id,
    unseen_edges-visit seen current nodes new,
    unseen_edges-le seen current nodes,
  )

  reach_from-ends :
      (fuel : ℕ) (seen queue : List String)
      → length queue + unseen_edges seen def.nodes ≤ fuel
      → (r : List String) × (reach_from def fuel seen queue ≡ some r)
  unfolding reach_from successors pushes
  reach_from-ends fuel seen [] h = (seen, refl)
  reach_from-ends zero seen (current ∷ queue) h = absurd (omega arith)
  reach_from-ends (suc fuel) seen (current ∷ queue) h = elim (Bool-cases (includes current seen)) [
    | inl old ↦ rw (old, reach_from) (reach_from-ends fuel seen queue (omega arith))
    | inr new ↦
        rw (new, reach_from)
          (reach_from-ends fuel (current ∷ seen) (queue ++ successors def current) (
            omega (
              arith,
              length-append queue (successors def current),
              unseen_edges-visit seen current def.nodes new,
            )))
  ]

pub reachable-ends : (def : WorkflowDef) → (r : List String) × (reachable def ≡ some r)
unfolding reachable
reachable-ends def =
    reach_from-ends def (suc (edge_count def def.nodes)) [] (def.start_node ∷ [])
      (omega (arith, unseen_edges-nil def def.nodes))
