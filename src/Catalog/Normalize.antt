-- ===== src/Catalog/Normalize.antt =====
-- src/catalog/validate.ts: what the validation writes into the config. A part that it reports is left as
-- it is.
use dsh_workflow_plugin.Prelude.{
  String, Text, trim, is_empty, ltb, length, Bool, ◌||◌, not, ◌==◌, Option, none, some, or_else,
  opt_map, List, [], ◌∷◌, Assoc, lookup, includes, if◌then◌else◌,
}
use dsh_workflow_plugin.Types.Limits
use dsh_workflow_plugin.Types.Routes.{RoleModel}
use dsh_workflow_plugin.Types.Graph.{
  RoleDefinition, JudgeRoleDefinition, role_reuse_mode, compact_before_reuse, Value, text, number,
  other, CheckerRef, ResultDef, NodeDef, actor_task, builtin_program, child_workflow, WorkflowDef,
  WorkflowConfig,
}

abbrev pub builtin_checker_ids : List String
builtin_checker_ids = "judge.claim-correct" ∷ []

-- The values of a record, each rewritten.
unfoldable pub map_values {ℓ κ} : {A : Type ℓ} {B : Type κ} → (A → B) → Assoc A → Assoc B
map_values f [] = []
map_values f ((k, v) ∷ m) = (k, f v) ∷ map_values f m

-- A text that must not be blank where it is given.
unfoldable pub trim_given : Option Text → Option Text
trim_given none = none
trim_given (some t) = if is_empty (trim t) then some t else some (trim t)

abbrev pub trim_effort : RoleModel → RoleModel
trim_effort m = record m { reasoning_effort = trim_given m.reasoning_effort }

unfoldable pub normalized_role : RoleDefinition → RoleDefinition
unfolding trim_given role_reuse_mode compact_before_reuse
normalized_role role = record {
  persona = trim role.persona;
  model = opt_map trim_effort role.model;
  fallback_model = opt_map trim_effort role.fallback_model;
  tools_deny = role.tools_deny;
  reuse = some (role_reuse_mode (some role));
  compact_before_reuse = some (compact_before_reuse (some role));
}

unfoldable pub normalized_judge : JudgeRoleDefinition → JudgeRoleDefinition
unfolding trim_given
normalized_judge role = record role {
  persona = trim role.persona;
  model = opt_map trim_effort role.model;
  fallback_model = opt_map trim_effort role.fallback_model;
}

-- `LIMITS.criteriaMin..criteriaMax` after trim.
abbrev pub criteria_fit : Text → Bool
criteria_fit t = not (ltb (length t) Limits.criteria_min || ltb Limits.criteria_max (length t))

unfoldable pub normalized_config : Assoc Value → Assoc Value
normalized_config config = elim (lookup "criteria" config) [
  | none ↦ []
  | some (text t) ↦ if criteria_fit (trim t) then ("criteria", text (trim t)) ∷ [] else config
  | some (number n) ↦ config
  | some other ↦ config
]

unfoldable pub normalized_checker : CheckerRef → CheckerRef
unfolding normalized_config
normalized_checker c =
    if includes c.checker_id builtin_checker_ids
    then record c { config = some (normalized_config (or_else c.config [])) }
    else c

unfoldable pub normalized_result : ResultDef → ResultDef
normalized_result r =
    if criteria_fit (trim r.criteria) then record r { criteria = trim r.criteria } else r

unfoldable pub normalized_node : NodeDef → NodeDef
unfolding normalized_checker normalized_result
normalized_node (actor_task n) = actor_task (record n {
  instruction = trim n.instruction;
  checker = normalized_checker n.checker;
  results = map_values normalized_result n.results;
})
normalized_node (builtin_program n) = builtin_program (record n {
  instruction = opt_map trim n.instruction;
  results = map_values normalized_result n.results;
})
normalized_node (child_workflow n) = child_workflow n

unfoldable pub normalized_workflow : WorkflowDef → WorkflowDef
unfolding normalized_node
normalized_workflow def = record def { nodes = map_values normalized_node def.nodes }

-- A child under the name of the root is not looked at.
unfoldable pub normalized_children : String → Assoc WorkflowDef → Assoc WorkflowDef
unfolding normalized_workflow
normalized_children root_name [] = []
normalized_children root_name ((id, def) ∷ defs) =
    (id, if id == root_name then def else normalized_workflow def)
    ∷ normalized_children root_name defs

unfoldable pub normalized_catalog : String → WorkflowConfig → WorkflowConfig
unfolding normalized_role normalized_judge normalized_children
normalized_catalog root_name config = record {
  actor_common_persona = trim_given config.actor_common_persona;
  roles = map_values normalized_role config.roles;
  judge_role = normalized_judge config.judge_role;
  workflow = normalized_workflow config.workflow;
  child_workflows = opt_map (normalized_children root_name) config.child_workflows;
}
