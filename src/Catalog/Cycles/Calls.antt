-- ===== src/Catalog/Cycles/Calls.antt =====
-- Calls of workflows among each other: chains that end, and cycles.
use dsh_workflow_plugin.Prelude.{
  String, true, List, Assoc, lookup, keys, includes, includes-keys, ◌≡◌, refl, sym, subst, arith,
  Option-cases, ◌⊎◌, inl, inr,
}
use dsh_workflow_plugin.Catalog.Cycles.{children}

module _ (graph : Assoc (List String)) where
  -- Every sequence of calls from the workflow comes to an end.
  pub data IsGrounded : String → Type 0 where
    grounded :
        {id : String}
        → ((child : String) → includes child (children graph id) ≡ true → IsGrounded child)
        → IsGrounded id

  -- Calls, one at least.
  pub data Calls : String → String → Type 0 where
    once : {a b : String} → includes b (children graph a) ≡ true → Calls a b
    further : {a b c : String} → Calls a b → includes c (children graph b) ≡ true → Calls a c

  Calls-first : {a b c : String} → includes b (children graph a) ≡ true → Calls b c → Calls a c
  Calls-first h (once k) = further (once h) k
  Calls-first h (further p k) = further (Calls-first h p) k

  -- A cycle through a workflow goes through one that it calls.
  Calls-shift :
      {a c : String}
      → Calls a c
      → (b : String) × (includes b (children graph a) ≡ true) × ((b ≡ c) ⊎ Calls b c)
  Calls-shift (once {a} {b} h) = (b, h, inl refl)
  Calls-shift (further {a} {b} {c} p k) =
      let (x, h, rest) = Calls-shift p in
      (
        x,
        h,
        elim rest [
          | inl same ↦ inr (once (subst (λ y. includes c (children graph y) ≡ true) (sym same) k))
          | inr path ↦ inr (further path k)
        ],
      )

  pub no_cycle : {a : String} → IsGrounded a → Calls a a → ⊥
  no_cycle {a} (grounded h) p =
      let (b, called, rest) = Calls-shift p in
      elim rest [
        | inl same ↦ no_cycle (h b called) (subst (λ x. Calls x x) (sym same) p)
        | inr back ↦ no_cycle (h b called) (further back called)
      ]

  -- A workflow on a cycle is a key.
  pub Calls-key : {a c : String} → Calls a c → includes a (keys graph) ≡ true
  unfolding children includes
  Calls-key {a} (once {b = b} h) = elim (Option-cases (lookup a graph)) [
    | inl absent ↦ ground (arith, absent, h)
    | inr (cs, known) ↦ ground (arith, known, includes-keys a graph)
  ]
  Calls-key (further p k) = Calls-key p
