-- ===== src/Catalog/Validate/Stable.antt =====
-- An accepted config is a fixed point: normalized again it is the same, and it has no new problems.
use dsh_workflow_plugin.Prelude.{
  String, Text, trim, trim-trim, is_empty, ◌==◌, Option, none, some, or_else, opt_map, [], ◌∷◌,
  Assoc, lookup, includes, ◌≡◌, refl, ap, arith, Bool-cases, Option-cases, inl, inr,
}
use dsh_workflow_plugin.Types.Routes.{RoleModel}
use dsh_workflow_plugin.Types.Graph.{
  RoleDefinition, JudgeRoleDefinition, role_reuse_mode, compact_before_reuse, Value, text, number,
  other, CheckerRef, NodeDef, actor_task, builtin_program, child_workflow, ResultDef, WorkflowDef,
  WorkflowConfig,
}
use dsh_workflow_plugin.Catalog.Normalize.{
  map_values, trim_given, trim_effort, normalized_role, normalized_judge, criteria_fit,
  normalized_config, normalized_checker, normalized_result, normalized_node, normalized_workflow,
  normalized_children, normalized_catalog, builtin_checker_ids,
}

map_values-fixed {ℓ} :
    {A : Type ℓ} (f : A → A) (m : Assoc A)
    → ((a : A) → f (f a) ≡ f a)
    → map_values f (map_values f m) ≡ map_values f m
unfolding map_values
map_values-fixed f [] fixed = refl
map_values-fixed f ((k, v) ∷ m) fixed = rw (fixed v, map_values-fixed f m fixed) refl

pub trim_given-fixed : (o : Option Text) → trim_given (trim_given o) ≡ trim_given o
unfolding trim_given
trim_given-fixed none = refl
trim_given-fixed (some t) = elim (Bool-cases (is_empty (trim t))) [
  | inl blank ↦ ground (arith, blank)
  | inr solid ↦ ground (arith, solid, trim-trim t)
]

models-fixed :
    (o : Option RoleModel) → opt_map trim_effort (opt_map trim_effort o) ≡ opt_map trim_effort o
models-fixed none = refl
models-fixed (some m) =
    ap (λ e. some (record m { reasoning_effort = e })) (trim_given-fixed m.reasoning_effort)

normalized_role-fixed :
    (r : RoleDefinition) → normalized_role (normalized_role r) ≡ normalized_role r
unfolding normalized_role role_reuse_mode compact_before_reuse
normalized_role-fixed r =
    ground (arith, trim-trim r.persona, models-fixed r.model, models-fixed r.fallback_model)

normalized_judge-fixed :
    (r : JudgeRoleDefinition) → normalized_judge (normalized_judge r) ≡ normalized_judge r
unfolding normalized_judge
normalized_judge-fixed r =
    ground (arith, trim-trim r.persona, models-fixed r.model, models-fixed r.fallback_model)

normalized_config-fixed :
    (c : Assoc Value) → normalized_config (normalized_config c) ≡ normalized_config c
unfolding normalized_config lookup
normalized_config-fixed c = elim (Option-cases (lookup "criteria" c)) [
  | inl absent ↦ ground (arith, absent)
  | inr (text t, there) ↦ elim (Bool-cases (criteria_fit (trim t))) [
    | inl fit ↦ ground (arith, there, fit, trim-trim t)
    | inr unfit ↦ ground (arith, there, unfit)
  ]
  | inr (number n, there) ↦ ground (arith, there)
  | inr (other, there) ↦ ground (arith, there)
]

normalized_checker-fixed :
    (c : CheckerRef) → normalized_checker (normalized_checker c) ≡ normalized_checker c
unfolding normalized_checker
normalized_checker-fixed c = elim (Bool-cases (includes c.checker_id builtin_checker_ids)) [
  | inl known ↦ ground (arith, known, normalized_config-fixed (or_else c.config []))
  | inr unknown ↦ ground (arith, unknown)
]

normalized_result-fixed :
    (r : ResultDef) → normalized_result (normalized_result r) ≡ normalized_result r
unfolding normalized_result
normalized_result-fixed r = elim (Bool-cases (criteria_fit (trim r.criteria))) [
  | inl fit ↦ ground (arith, fit, trim-trim r.criteria)
  | inr unfit ↦ ground (arith, unfit)
]

instructions-fixed : (o : Option Text) → opt_map trim (opt_map trim o) ≡ opt_map trim o
instructions-fixed none = refl
instructions-fixed (some t) = ap some (trim-trim t)

normalized_node-fixed : (n : NodeDef) → normalized_node (normalized_node n) ≡ normalized_node n
unfolding normalized_node
normalized_node-fixed (actor_task n) =
    rw
      (
        trim-trim n.instruction,
        normalized_checker-fixed n.checker,
        map_values-fixed normalized_result n.results normalized_result-fixed,
      )
      refl
normalized_node-fixed (builtin_program n) =
    rw
      (
        instructions-fixed n.instruction,
        map_values-fixed normalized_result n.results normalized_result-fixed,
      )
      refl
normalized_node-fixed (child_workflow n) = refl

normalized_workflow-fixed :
    (d : WorkflowDef) → normalized_workflow (normalized_workflow d) ≡ normalized_workflow d
unfolding normalized_workflow
normalized_workflow-fixed d =
    ap (λ m. record d { nodes = m })
      (map_values-fixed normalized_node d.nodes normalized_node-fixed)

normalized_children-fixed :
    (root : String) (m : Assoc WorkflowDef)
    → normalized_children root (normalized_children root m) ≡ normalized_children root m
unfolding normalized_children
normalized_children-fixed root [] = refl
normalized_children-fixed root ((id, d) ∷ m) = elim (Bool-cases (id == root)) [
  | inl is_root ↦ rw (is_root, normalized_children-fixed root m) refl
  | inr is_child ↦ rw (is_child, normalized_workflow-fixed d, normalized_children-fixed root m) refl
]

children-fixed :
    (root : String) (o : Option (Assoc WorkflowDef))
    → opt_map (normalized_children root) (opt_map (normalized_children root) o)
      ≡ opt_map (normalized_children root) o
children-fixed root none = refl
children-fixed root (some m) = ap some (normalized_children-fixed root m)

pub normalized_catalog-fixed :
    (root : String) (c : WorkflowConfig)
    → normalized_catalog root (normalized_catalog root c) ≡ normalized_catalog root c
unfolding normalized_catalog
normalized_catalog-fixed root c =
    rw
      (
        trim_given-fixed c.actor_common_persona,
        map_values-fixed normalized_role c.roles normalized_role-fixed,
        normalized_judge-fixed c.judge_role,
        normalized_workflow-fixed c.workflow,
        children-fixed root c.child_workflows,
      )
      refl
