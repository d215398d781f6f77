-- ===== src/Catalog/Reachability/Exact.antt =====
-- The loop finds the nodes on the walks from the start node, and no others.
use dsh_workflow_plugin.Prelude.{
  ℕ, zero, suc, String, true, ◌||◌, some, List, [], ◌∷◌, ◌++◌, includes, includes-append, ◌≡◌,
  subst, sym, ◌==◌, eq_iff, eq_refl, arith, Bool-cases, inl, inr, ◌↔◌,
}
use dsh_workflow_plugin.Types.Graph.{WorkflowDef}
use dsh_workflow_plugin.Catalog.Reachability.{successors, reach_from, edge_count, reachable}
use dsh_workflow_plugin.Catalog.Reachability.Rounds.{reachable-ends}

-- A walk along the targets inside the workflow.
pub data Reaches (def : WorkflowDef) : String → Type 0 where
  first : {v : String} → v ≡ def.start_node → Reaches def v
  next : {u v : String} → Reaches def u → includes v (successors def u) ≡ true → Reaches def v

module _ (def : WorkflowDef) where
  record IsSearch (seen queue : List String) : Type 0 where
    source : (includes def.start_node seen || includes def.start_node queue) ≡ true
    seen_sound : (v : String) → includes v seen ≡ true → Reaches def v
    queue_sound : (v : String) → includes v queue ≡ true → Reaches def v
    closed :
        (u v : String)
        → includes u seen ≡ true
        → includes v (successors def u) ≡ true
        → (includes v seen || includes v queue) ≡ true

  same_of : (a b : String) → (a == b) ≡ true → a ≡ b
  same_of a b h = ground (arith, h, eq_iff a b)

  -- A node that has been seen is dropped.
  IsSearch-drop :
      (current : String) (seen queue : List String)
      → includes current seen ≡ true
      → IsSearch seen (current ∷ queue)
      → IsSearch seen queue
  unfolding includes
  IsSearch-drop current seen queue old s = record {
    source = ground (arith, old, s.source, eq_iff current def.start_node);
    seen_sound = s.seen_sound;
    queue_sound = λ v h. s.queue_sound v (ground (arith, h));
    closed = λ u v hu hv. ground (arith, old, s.closed u v hu hv, eq_iff current v);
  }

  IsSearch-visit :
      (current : String) (seen queue : List String)
      → IsSearch seen (current ∷ queue)
      → IsSearch (current ∷ seen) (queue ++ successors def current)
  unfolding includes
  IsSearch-visit current seen queue s =
      let here = s.queue_sound current (ground (arith, eq_refl current)) in
      record {
        source =
            ground (arith, s.source, includes-append def.start_node queue (successors def current));
        seen_sound = λ v h. elim (Bool-cases (current == v)) [
          | inl same ↦ subst (Reaches def) (same_of current v same) here
          | inr other ↦ s.seen_sound v (ground (arith, h, other))
        ];
        queue_sound = λ v h. elim (Bool-cases (includes v (successors def current))) [
          | inl pushed ↦ next here pushed
          | inr old ↦
              s.queue_sound v
                (ground (arith, h, old, includes-append v queue (successors def current)))
        ];
        closed = λ u v hu hv. elim (Bool-cases (current == u)) [
          | inl same ↦
              let pushed =
                subst (λ x. includes v (successors def x) ≡ true) (sym (same_of current u same))
                  hv in
              ground (arith, pushed, includes-append v queue (successors def current))
          | inr other ↦
              let h = s.closed u v (ground (arith, hu, other)) hv in
              ground (arith, h, includes-append v queue (successors def current))
        ];
      }

  reach_from-IsSearch :
      (fuel : ℕ) (seen queue r : List String)
      → IsSearch seen queue
      → reach_from def fuel seen queue ≡ some r
      → IsSearch r []
  unfolding reach_from
  reach_from-IsSearch fuel seen [] r s h = subst (λ x. IsSearch x []) (ground (arith, h)) s
  reach_from-IsSearch zero seen (current ∷ queue) r s h = cc
  reach_from-IsSearch (suc fuel) seen (current ∷ queue) r s h =
      elim (Bool-cases (includes current seen)) [
        | inl old ↦
            reach_from-IsSearch fuel seen queue r (IsSearch-drop current seen queue old s)
              (rw (old, reach_from) at h)
        | inr new ↦
            reach_from-IsSearch fuel (current ∷ seen) (queue ++ successors def current) r
              (IsSearch-visit current seen queue s) (rw (new, reach_from) at h)
      ]

  IsSearch-start : IsSearch [] (def.start_node ∷ [])
  unfolding includes
  IsSearch-start = record {
    source = ground (arith, eq_refl def.start_node);
    seen_sound = λ v h. cc;
    queue_sound = λ v h. first (ground (arith, h, eq_iff def.start_node v));
    closed = λ u v hu hv. cc;
  }

  IsSearch-complete :
      (r : List String) → IsSearch r [] → {v : String} → Reaches def v → includes v r ≡ true
  unfolding includes
  IsSearch-complete r s (first e) = rw (e) (ground (arith, s.source))
  IsSearch-complete r s (next {u} {v} p step) =
      ground (arith, s.closed u v (IsSearch-complete r s p) step)

-- For every workflow, whatever cycles its nodes have, the search from the start node ends within
-- its rounds, and it has seen a node exactly where a walk along the targets leads from the start
-- node to it.
pub reachable-Reaches :
    (def : WorkflowDef)
    → (r : List String) × (reachable def ≡ some r)
      × ((v : String) → (includes v r ≡ true) ↔ Reaches def v)
unfolding reachable
reachable-Reaches def =
    let (r, ends) = reachable-ends def in
    let s =
      reach_from-IsSearch def (suc (edge_count def def.nodes)) [] (def.start_node ∷ []) r
        (IsSearch-start def) ends in
    (r, ends, λ v. (s.seen_sound v, IsSearch-complete def r s))
