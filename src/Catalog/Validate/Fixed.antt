-- ===== src/Catalog/Validate/Fixed.antt =====
-- Validating an accepted config again accepts it, and changes nothing.
use dsh_workflow_plugin.Prelude.{
  String, Text, trim, trim-trim, Bool, true, false, ◌==◌, eq_iff, Option, none, some, or_else,
  opt_map, opt_bind, is_none, List, [], ◌∷◌, ◌++◌, Assoc, lookup, keys, Result, ok, err, ◌≡◌, refl,
  sym, ap, subst, ◌∙◌, arith, append-eq-nil, Bool-cases, Option-cases, inl, inr,
}
use dsh_workflow_plugin.Prelude
use dsh_workflow_plugin.Types.Graph.{
  RoleDefinition, NodeDef, actor_task, builtin_program, child_workflow, WorkflowDef, WorkflowConfig,
}
use dsh_workflow_plugin.Catalog.Normalize.{
  normalized_role, normalized_judge, normalized_workflow, normalized_children, normalized_catalog,
}
use dsh_workflow_plugin.Catalog.Problems.{
  each_entry, role_problems, actor_problems, callee_problems, child_problems, node_problems,
  workflow_problems, cycle_problems,
}
use dsh_workflow_plugin.Catalog.Validate.Entries.{lookup-map_values}
use dsh_workflow_plugin.Catalog.Validate.Walks.{child_graph-normalized}
use dsh_workflow_plugin.Catalog.Validate.{
  Validated, all_workflows, root_name_of, all_problems, role_warnings, all_warnings, verdict,
  validate_and_normalize,
}
use dsh_workflow_plugin.Catalog.Validate.Accepted.{verdict_ok}
use dsh_workflow_plugin.Catalog.Validate.Stable.{trim_given-fixed, normalized_catalog-fixed}
use dsh_workflow_plugin.Catalog.Validate.Again.{
  append-nil-nil, is_blank_given-trim, model_problems-trim, role_problems-normalized,
  each_entry-map_values,
}
use dsh_workflow_plugin.Catalog.Validate.Twice.{is_none-map, workflow_problems-again}

callee_problems-looked_up :
    (root k : String) (m : Assoc WorkflowDef) (declared : List String)
    → callee_problems (lookup k (normalized_children root m)) declared
      ≡ callee_problems (lookup k m) declared
unfolding callee_problems lookup normalized_children normalized_workflow
callee_problems-looked_up root k [] declared = refl
callee_problems-looked_up root k ((j, d) ∷ m) declared = elim (Bool-cases (j == k)) [
  | inr other ↦ rw (other) (callee_problems-looked_up root k m declared)
  | inl same ↦ elim (Bool-cases (j == root)) [
    | inl is_root ↦ rw (same, is_root) refl
    | inr is_child ↦ rw (same, is_child) refl
  ]
]

callee_problems-normalized :
    (root k : String) (o : Option (Assoc WorkflowDef)) (declared : List String)
    → callee_problems (opt_bind (opt_map (normalized_children root) o) (λ m. lookup k m)) declared
      ≡ callee_problems (opt_bind o (λ m. lookup k m)) declared
callee_problems-normalized root k none declared = refl
callee_problems-normalized root k (some m) declared = callee_problems-looked_up root k m declared

-- What a node is tested against in the config is not changed by its normalization.
node_problems-config :
    (c : WorkflowConfig) (root : String) (d : WorkflowDef) (id : String) (n : NodeDef)
    → node_problems (normalized_catalog root c) root d id n ≡ node_problems c root d id n
unfolding node_problems actor_problems child_problems normalized_catalog
node_problems-config c root d id (actor_task n) =
    rw
      (
        lookup-map_values normalized_role n.role c.roles,
        is_none-map normalized_role (lookup n.role c.roles),
      )
      refl
node_problems-config c root d id (builtin_program n) = refl
node_problems-config c root d id (child_workflow n) =
    rw (callee_problems-normalized root n.workflow_id c.child_workflows (keys n.on_return)) refl

each_entry-same {ℓ κ} :
    {V : Type ℓ} {P : Type κ} (f g : String → V → List P) (m : Assoc V)
    → ((k : String) (v : V) → f k v ≡ g k v)
    → each_entry f m ≡ each_entry g m
unfolding each_entry
each_entry-same f g [] same = refl
each_entry-same f g ((k, v) ∷ m) same = rw (same k v, each_entry-same f g m same) refl

workflow_problems-config :
    (c : WorkflowConfig) (root name : String) (d : WorkflowDef)
    → workflow_problems (normalized_catalog root c) root name d ≡ workflow_problems c root name d
unfolding workflow_problems
workflow_problems-config c root name d =
    rw
      (each_entry-same (node_problems (normalized_catalog root c) root d) (node_problems c root d)
        d.nodes (λ id n. node_problems-config c root d id n))
      refl

workflows-again :
    (f f' : String → WorkflowDef → List String) (root : String) (m : Assoc WorkflowDef)
    → ((k : String) (d : WorkflowDef) → f' k d ≡ f k d)
    → ((k : String) (d : WorkflowDef) → f k d ≡ [] → f' k (normalized_workflow d) ≡ [])
    → each_entry f m ≡ []
    → each_entry f' (normalized_children root m) ≡ []
unfolding each_entry normalized_children
workflows-again f f' root [] same again h = refl
workflows-again f f' root ((k, d) ∷ m) same again h =
    let (here, rest) = append-eq-nil (f k d) (each_entry f m) h in
    append-nil-nil
      (elim (Bool-cases (k == root)) [
        | inl is_root ↦ rw (is_root) (same k d ∙ here)
        | inr is_child ↦ rw (is_child) (again k d here)
      ])
      (workflows-again f f' root m same again rest)

all_again :
    (f f' : String → WorkflowDef → List String) (root : String) (w : WorkflowDef)
    (m : Assoc WorkflowDef)
    → ((k : String) (d : WorkflowDef) → f' k d ≡ f k d)
    → ((k : String) (d : WorkflowDef) → f k d ≡ [] → f' k (normalized_workflow d) ≡ [])
    → each_entry f (Prelude.put root w m) ≡ []
    → each_entry f' (Prelude.put root (normalized_workflow w) (normalized_children root m)) ≡ []
unfolding each_entry normalized_children Prelude.put
all_again f f' root w [] same again h =
    append-nil-nil (again root w (append-eq-nil (f root w) [] h).0) refl
all_again f f' root w ((k, d) ∷ m) same again h = elim (Bool-cases (k == root)) [
  | inl is_root ↦
      let (here, rest) = append-eq-nil (f k w) (each_entry f m) (rw (is_root) at h) in
      rw (is_root) (append-nil-nil (again k w here) (workflows-again f f' root m same again rest))
  | inr is_child ↦
      let (here, rest) =
        append-eq-nil (f k d) (each_entry f (Prelude.put root w m)) (rw (is_child) at h) in
      rw (is_child) (append-nil-nil (again k d here) (all_again f f' root w m same again rest))
]

all_workflows-again :
    (f f' : String → WorkflowDef → List String) (root : String) (w : WorkflowDef)
    (o : Option (Assoc WorkflowDef))
    → ((k : String) (d : WorkflowDef) → f' k d ≡ f k d)
    → ((k : String) (d : WorkflowDef) → f k d ≡ [] → f' k (normalized_workflow d) ≡ [])
    → each_entry f (Prelude.put root w (or_else o [])) ≡ []
    → each_entry f' (
        Prelude.put root
          (normalized_workflow w)
          (or_else (opt_map (normalized_children root) o) []))
      ≡ []
unfolding normalized_children
all_workflows-again f f' root w none same again h = all_again f f' root w [] same again h
all_workflows-again f f' root w (some m) same again h = all_again f f' root w m same again h

cycles-again :
    (root : String) (o : Option (Assoc WorkflowDef))
    → cycle_problems (or_else (opt_map (normalized_children root) o) [])
      ≡ cycle_problems (or_else o [])
unfolding cycle_problems
cycles-again root none = refl
cycles-again root (some m) = rw (cycle_problems, child_graph-normalized root m) refl

-- A config without problems has none once it is normalized.
all_problems-again :
    (c : WorkflowConfig) (id : Option String)
    → all_problems c id ≡ []
    → all_problems (normalized_catalog (root_name_of id) c) id ≡ []
unfolding all_problems all_workflows normalized_catalog normalized_judge
all_problems-again c id h =
    let root = root_name_of id in
    let a = append-eq-nil _ (cycle_problems (or_else c.child_workflows [])) h in
    let b = append-eq-nil _ (each_entry (workflow_problems c root) (all_workflows c root)) a.0 in
    append-nil-nil
      (append-nil-nil
        (rw
          (
            is_blank_given-trim c.actor_common_persona,
            each_entry-map_values role_problems normalized_role c.roles role_problems-normalized,
            model_problems-trim c.judge_role.model c.judge_role.fallback_model,
          )
          b.0)
        (all_workflows-again (workflow_problems c root)
          (workflow_problems (normalized_catalog root c) root) root c.workflow c.child_workflows
          (λ k d. workflow_problems-config c root k d)
          (λ k d none_left.
            workflow_problems-config c root k (normalized_workflow d)
            ∙ workflow_problems-again c root k d none_left)
          b.1))
      (cycles-again root c.child_workflows ∙ a.1)

role_warnings-normalized :
    (k : String) (r : RoleDefinition) → role_warnings k (normalized_role r) ≡ role_warnings k r
unfolding role_warnings normalized_role
role_warnings-normalized k r = rw (trim-trim r.persona) refl

all_warnings-again :
    (root : String) (c : WorkflowConfig) → all_warnings (normalized_catalog root c) ≡ all_warnings c
unfolding all_warnings normalized_catalog normalized_judge
all_warnings-again root c =
    rw
      (
        trim_given-fixed c.actor_common_persona,
        each_entry-map_values role_warnings normalized_role c.roles role_warnings-normalized,
        trim-trim c.judge_role.persona,
      )
      refl

validated_again :
    (c : WorkflowConfig) (id : Option String)
    → all_problems c id ≡ []
    → validate_and_normalize (normalized_catalog (root_name_of id) c) id
      ≡ ok (record { config = normalized_catalog (root_name_of id) c; warnings = all_warnings c })
unfolding validate_and_normalize
validated_again c id h =
    let root = root_name_of id in
    ap
      (λ ps. verdict ps (record {
        config = normalized_catalog root (normalized_catalog root c);
        warnings = all_warnings (normalized_catalog root c);
      }))
      (all_problems-again c id h)
    ∙ ap (λ x. ok (record { config = x; warnings = all_warnings (normalized_catalog root c) }))
        (normalized_catalog-fixed root c)
    ∙ ap (λ x. ok (record { config = normalized_catalog root c; warnings = x }))
        (all_warnings-again root c)

-- Where `validate_and_normalize` accepts a config, it accepts the config that it returned too, and
-- gives the same config and the same warnings again: a snapshot that is saved and loaded is
-- accepted unchanged.
pub validate_and_normalize-again :
    (config : WorkflowConfig) (id : Option String) (v : Validated)
    → validate_and_normalize config id ≡ ok v
    → validate_and_normalize v.config id ≡ ok v
unfolding validate_and_normalize
validate_and_normalize-again config id v h =
    let (none_left, same) = verdict_ok (all_problems config id) _ v h in
    subst (λ x. validate_and_normalize x.config id ≡ ok x) same
      (validated_again config id none_left)
