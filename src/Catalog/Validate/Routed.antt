-- ===== src/Catalog/Validate/Routed.antt =====
-- In a run of an accepted catalog every target leads to a node, or to a return, of its workflow.
use dsh_workflow_plugin.Prelude.{
  String, true, false, ◌==◌, eq_iff, Option, none, some, or_else, opt_map, opt_bind, [], lookup, ok,
  ◌≡◌, refl, sym, ap, subst, ◌∙◌, arith, some_inj, opt_bind-eq-some, lookup-put, Bool-cases,
  Option-cases, inl, inr,
}
use dsh_workflow_plugin.Types.Graph.{NodeDef, ResultDef, Target, WorkflowDef, WorkflowConfig}
use dsh_workflow_plugin.Types.Run.{RunState}
use dsh_workflow_plugin.State.Tests.{workflow_def, node_in}
use dsh_workflow_plugin.Engine.Base.{result_def_of}
use dsh_workflow_plugin.Engine.Returns.{mapped_return}
use dsh_workflow_plugin.Engine.Advance.Leaving.{IsValidTarget}
use dsh_workflow_plugin.Engine.Advance.Climbing.{IsRoutedRun}
use dsh_workflow_plugin.Catalog.Targets.{valid_target}
use dsh_workflow_plugin.Catalog.Normalize.{
  normalized_result, normalized_node, normalized_workflow, normalized_catalog,
}
use dsh_workflow_plugin.Catalog.Problems.{node_problems, workflow_problems}
use dsh_workflow_plugin.Catalog.Validate.{Validated, all_workflows, validate_and_normalize}
use dsh_workflow_plugin.Catalog.Validate.Entries.{
  each_entry-nil, lookup-map_values, lookup-normalized_children,
}
use dsh_workflow_plugin.Catalog.Validate.Accepted.{
  validated_parts, workflows_accepted, workflow_parts, node_result_valid, node_return_valid,
  result_def_of-normalized, mapped_return-normalized, normalized_result-target, valid-IsValidTarget,
}

-- The workflow that a name stands for under a root.
def_in : WorkflowConfig → String → String → Option WorkflowDef
def_in config root w = elim (w == root) [
  | true ↦ some config.workflow
  | false ↦ opt_bind config.child_workflows (λ m. lookup w m)
]

def_in-normalized :
    (config : WorkflowConfig) (root w : String)
    → def_in (normalized_catalog root config) root w
      ≡ opt_map normalized_workflow (def_in config root w)
unfolding def_in normalized_catalog
def_in-normalized config root w = elim (Bool-cases (w == root)) [
  | inl is_root ↦ rw (is_root, def_in) refl
  | inr is_child ↦ elim (Option-cases config.child_workflows) [
    | inl no_children ↦ rw (is_child, no_children, def_in) refl
    | inr (m, children) ↦
        rw (is_child, children, def_in) (lookup-normalized_children root w m is_child)
  ]
]

lookup-all_workflows :
    (config : WorkflowConfig) (root w : String)
    → lookup w (all_workflows config root) ≡ def_in config root w
unfolding def_in all_workflows lookup
lookup-all_workflows config root w =
    lookup-put root w config.workflow (or_else config.child_workflows [])
    ∙ elim (Option-cases config.child_workflows) [
      | inl none_there ↦ ground (arith, none_there, eq_iff root w, eq_iff w root)
      | inr (m, there) ↦ ground (arith, there, eq_iff root w, eq_iff w root)
    ]

opt_map-eq-some {ℓ κ} :
    {A : Type ℓ} {B : Type κ} (f : A → B) (o : Option A) (y : B)
    → opt_map f o ≡ some y
    → (x : A) × (o ≡ some x) × (y ≡ f x)
opt_map-eq-some f none y h = cc
opt_map-eq-some f (some x) y h = (x, refl, sym (some_inj h))

no_result : (name : String) (rd : ResultDef) → result_def_of none name ≡ some rd → ⊥
unfolding result_def_of
no_result name rd h = cc

no_return : (name : String) (t : Target) → mapped_return none name ≡ some t → ⊥
no_return name t h = cc

module _ (config : WorkflowConfig) (id : String) (v : Validated) (run : RunState)
    (accepted : validate_and_normalize config (some id) ≡ ok v)
    (frozen : run.definition_snapshot ≡ v.config) (root : run.catalog_workflow_id ≡ id) where
  workflow_def-normalized :
      (w : String) → workflow_def run w ≡ opt_map normalized_workflow (def_in config id w)
  unfolding workflow_def def_in
  workflow_def-normalized w =
      subst
        (λ r. def_in run.definition_snapshot r w ≡ opt_map normalized_workflow (def_in config id w))
        (sym root)
        (subst (λ c. def_in c id w ≡ opt_map normalized_workflow (def_in config id w))
          (sym (frozen ∙ (validated_parts config (some id) v accepted).1))
          (def_in-normalized config id w))

  -- A workflow of the run is an accepted one, normalized.
  pub workflow_accepted :
      (w : String) (def : WorkflowDef)
      → workflow_def run w ≡ some def
      → (d : WorkflowDef) × (def ≡ normalized_workflow d) × (workflow_problems config id w d ≡ [])
  workflow_accepted w def h =
      let (d, there, same) =
        opt_map-eq-some normalized_workflow (def_in config id w) def
          (sym (workflow_def-normalized w) ∙ h) in
      (
        d,
        same,
        workflows_accepted config (some id) w d (validated_parts config (some id) v accepted).0
            (lookup-all_workflows config id w ∙ there),
      )

  -- A node of the run is an accepted one, normalized.
  node_accepted :
      (w n : String) (node : NodeDef)
      → node_in run w n ≡ some node
      → (d : WorkflowDef) × (m : NodeDef) × (workflow_def run w ≡ some (normalized_workflow d))
        × (node ≡ normalized_node m)
        × (workflow_problems config id w d ≡ [])
        × (node_problems config id d n m ≡ [])
  unfolding node_in normalized_workflow
  node_accepted w n node h =
      let (def, is_def, there) = opt_bind-eq-some (workflow_def run w) (λ x. lookup n x.nodes) h in
      let (d, same, none_left) = workflow_accepted w def is_def in
      let (m, is_m, same_node) = opt_map-eq-some normalized_node (lookup n d.nodes) node (
        sym (lookup-map_values normalized_node n d.nodes)
        ∙ subst (λ x. lookup n x.nodes ≡ some node) same there) in
      (
        d,
        m,
        is_def ∙ ap some same,
        same_node,
        none_left,
        each_entry-nil (node_problems config id d) d.nodes n m
            (workflow_parts config id w d none_left).1 is_m,
      )

  valid_in_run :
      (w : String) (d : WorkflowDef) (t : Target)
      → workflow_def run w ≡ some (normalized_workflow d)
      → workflow_problems config id w d ≡ []
      → valid_target t d ≡ true
      → IsValidTarget (workflow_def run w) t
  valid_in_run w d t is_def none_left h =
      subst (λ o. IsValidTarget o t) (sym is_def)
        (valid-IsValidTarget d t (workflow_parts config id w d none_left).0 h)

  result_routed :
      (w n name : String) (rd : ResultDef)
      → result_def_of (node_in run w n) name ≡ some rd
      → IsValidTarget (workflow_def run w) rd.target
  result_routed w n name rd found = elim (Option-cases (node_in run w n)) [
    | inl absent ↦
        absurd (no_result name rd (subst (λ o. result_def_of o name ≡ some rd) absent found))
    | inr (node, there) ↦
        let (d, m, is_def, is_node, none_left, node_ok) = node_accepted w n node there in
        let found_m = subst (λ o. result_def_of o name ≡ some rd) (there ∙ ap some is_node) found in
        let (r, is_r, same) =
          opt_map-eq-some normalized_result (result_def_of (some m) name) rd
            (sym (result_def_of-normalized m name) ∙ found_m) in
        valid_in_run w d rd.target is_def none_left (
          subst (λ t. valid_target t d ≡ true)
            (sym (ap ResultDef.target same ∙ normalized_result-target r))
            (node_result_valid config id d n m name r node_ok is_r))
  ]

  return_routed :
      (w n name : String) (t : Target)
      → mapped_return (node_in run w n) name ≡ some t
      → IsValidTarget (workflow_def run w) t
  return_routed w n name t found = elim (Option-cases (node_in run w n)) [
    | inl absent ↦
        absurd (no_return name t (subst (λ o. mapped_return o name ≡ some t) absent found))
    | inr (node, there) ↦
        let (d, m, is_def, is_node, none_left, node_ok) = node_accepted w n node there in
        let found_m = subst (λ o. mapped_return o name ≡ some t) (there ∙ ap some is_node) found in
        valid_in_run w d t is_def none_left (
          node_return_valid config id d n m name t node_ok
            (sym (mapped_return-normalized m name) ∙ found_m))
  ]

  -- Take a catalog that `validate_and_normalize` accepts under an id, and a run of this id whose
  -- frozen definition is the config that it returned. Then the target of every result, and of
  -- every mapped return, of every node of the run is a node of its workflow, or a return that the
  -- workflow declares: the hypothesis on edges under which the handlers that route are proved
  -- holds in the runs of accepted catalogs.
  pub accepted-IsRoutedRun : IsRoutedRun run
  accepted-IsRoutedRun = record {
    results = λ w n name rd found. result_routed w n name rd found;
    returns = λ w n name t found. return_routed w n name t found;
  }
