-- ===== src/Catalog/Problems.antt =====
-- src/catalog/validate.ts: the problems that the validation lists, each named by its fixed text. The
-- tests of a workflow read it after it was normalized: no test depends on a text that is trimmed late.
use dsh_workflow_plugin.Prelude.{
  String, Text, codes, trim, contains_text, is_empty, is_id, Bool, true, false, ◌&&◌, not, ◌==◌,
  Option, none, some, is_none, or_else, opt_bind, List, [], ◌∷◌, ◌++◌, map, any_of, Assoc, lookup,
  keys, values, includes, if◌then◌else◌,
}
use dsh_workflow_plugin.Types.Routes.{RoleModel, as_route, same_model_route}
use dsh_workflow_plugin.Types.Programs.{builtin_program_ids}
use dsh_workflow_plugin.Types.Graph.{
  RoleDefinition, Value, text, number, other, CheckerRef, ResultDef, Target, to_node, to_return,
  program_result_names, ActorTaskNode, BuiltinProgramNode, ChildWorkflowNode, NodeDef, actor_task,
  builtin_program, child_workflow, WorkflowDef, WorkflowConfig,
}
use dsh_workflow_plugin.State.Tests.{when}
use dsh_workflow_plugin.State.Invariants.{has_duplicate}
use dsh_workflow_plugin.Catalog.Targets.{valid_target, node_targets, target_of}
use dsh_workflow_plugin.Catalog.Reachability.{reachable}
use dsh_workflow_plugin.Catalog.Cycles.{child_graph, find_cycles}
use dsh_workflow_plugin.Catalog.Normalize.{builtin_checker_ids, criteria_fit}

-- A loop over the entries of a record, and one over a list.
unfoldable pub each_entry {ℓ κ} :
    {V : Type ℓ} {P : Type κ} → (String → V → List P) → Assoc V → List P
each_entry f [] = []
each_entry f ((k, v) ∷ m) = f k v ++ each_entry f m

unfoldable pub each_item {ℓ κ} : {V : Type ℓ} {P : Type κ} → (V → List P) → List V → List P
each_item f [] = []
each_item f (x ∷ xs) = f x ++ each_item f xs

abbrev persona_protocol_keywords : List String
persona_protocol_keywords = "node_claim" ∷ "judge_claim" ∷ "send_message" ∷ []

-- `checkPersonaProtocol`: a warning, never a problem.
unfoldable pub persona_warnings : Text → List String
persona_warnings persona =
    when (any_of (λ k. contains_text persona (codes k)) persona_protocol_keywords)
      "persona must not hand-write submission protocol"

unfoldable pub is_blank_given : Option Text → Bool
is_blank_given none = false
is_blank_given (some t) = is_empty (trim t)

unfoldable pub has_blank_effort : Option RoleModel → Bool
unfolding is_blank_given
has_blank_effort none = false
has_blank_effort (some m) = is_blank_given m.reasoning_effort

unfoldable pub is_same_model : Option RoleModel → Option RoleModel → Bool
is_same_model none b = false
is_same_model (some a) none = false
is_same_model (some a) (some b) = same_model_route (as_route a) (as_route b)

unfoldable pub model_problems : Option RoleModel → Option RoleModel → List String
unfolding has_blank_effort is_same_model
model_problems model fallback_model =
    when (has_blank_effort model) "reasoningEffort must be a non-empty string when provided"
    ++ when (has_blank_effort fallback_model)
        "fallbackModel reasoningEffort must be a non-empty string when provided"
    ++ when (is_same_model model fallback_model)
        "fallbackModel must differ from model by provider/modelId"

abbrev reserved_role_keys : List String
reserved_role_keys = "manager" ∷ "judge" ∷ []

unfoldable pub role_problems : String → RoleDefinition → List String
unfolding model_problems
role_problems role_key role =
    when (not (is_id role_key)) "role key is not a valid lowercase id"
    ++ when (includes role_key reserved_role_keys) "role key is reserved and cannot be configured"
    ++ model_problems role.model role.fallback_model

abbrev checker_config_keys : List String
checker_config_keys = "criteria" ∷ []

unfoldable pub criteria_problems : Option Value → List String
criteria_problems none = []
criteria_problems (some (text t)) =
    when (not (criteria_fit (trim t))) "checker config.criteria is too short or too long"
criteria_problems (some (number n)) =
    "checker config.criteria must be a non-empty string when provided" ∷ []
criteria_problems (some other) =
    "checker config.criteria must be a non-empty string when provided" ∷ []

unfoldable pub config_problems : Assoc Value → List String
unfolding each_item criteria_problems
config_problems config =
    each_item
      (λ key. when (not (includes key checker_config_keys)) "checker config has an unknown key")
      (keys config)
    ++ criteria_problems (lookup "criteria" config)

-- `validateChecker`.
unfoldable pub checker_problems : CheckerRef → List String
unfolding config_problems
checker_problems c =
    if includes c.checker_id builtin_checker_ids
    then config_problems (or_else c.config [])
    else "unknown checker" ∷ []

pub target_problem : Target → String
target_problem (to_node n) = "target node does not exist"
target_problem (to_return r) = "target return is not declared by this workflow"

-- `validateTargets`.
unfoldable pub target_problems : List Target → WorkflowDef → List String
unfolding each_item target_problem
target_problems targets def =
    each_item (λ t. when (not (valid_target t def)) (target_problem t)) targets

unfoldable pub result_problems : Bool → String → ResultDef → List String
result_problems program_keys name r =
    when (not program_keys && not (is_id name)) "result name is not a valid lowercase id"
    ++ when (not (criteria_fit (trim r.criteria))) "result criteria is too short or too long"

-- `validateResults`.
unfoldable pub results_problems : Bool → Assoc ResultDef → WorkflowDef → List String
unfolding each_entry result_problems
results_problems program_keys [] def = "must declare at least one result" ∷ []
results_problems program_keys (r ∷ rs) def =
    each_entry (result_problems program_keys) (r ∷ rs)
    ++ target_problems (map target_of (values (r ∷ rs))) def

-- Whether a name of the first list is not one of the second.
abbrev lacks : List String → List String → Bool
lacks names declared = any_of (λ name. not (includes name declared)) names

unfoldable pub actor_problems : WorkflowConfig → WorkflowDef → ActorTaskNode → List String
actor_problems config def n =
    when (is_none (lookup n.role config.roles) && not (n.role == "manager"))
      "references unknown role"
    ++ when (n.role == "judge") "cannot use reserved role judge as a worker"
    ++ checker_problems n.checker
    ++ results_problems false n.results def

unfoldable pub program_problems : WorkflowDef → BuiltinProgramNode → List String
program_problems def n =
    when (not (includes n.program_id builtin_program_ids)) "references unknown builtin program"
    ++ results_problems true n.results def
    ++ when (lacks program_result_names (keys n.results)) "must declare results"
    ++ when (lacks (keys n.results) program_result_names) "declares unknown Program results"

unfoldable pub callee_problems : Option WorkflowDef → List String → List String
callee_problems none declared = "references unknown child workflow" ∷ []
callee_problems (some child) declared =
    when (lacks child.returns declared) "onReturn is missing mappings for returns"
    ++ when (lacks declared child.returns) "onReturn maps unknown returns"

unfoldable pub child_problems :
    WorkflowConfig → String → WorkflowDef → ChildWorkflowNode → List String
unfolding callee_problems
child_problems config root_name def n =
    callee_problems (opt_bind config.child_workflows (λ m. lookup n.workflow_id m))
      (keys n.on_return)
    ++ when (n.workflow_id == root_name) "cannot reference the root workflow as a child"
    ++ target_problems (node_targets (child_workflow n)) def

unfoldable pub node_problems :
    WorkflowConfig → String → WorkflowDef → String → NodeDef → List String
unfolding actor_problems program_problems child_problems
node_problems config root_name def node_id (actor_task n) = actor_problems config def n
node_problems config root_name def node_id (builtin_program n) = program_problems def n
node_problems config root_name def node_id (child_workflow n) =
    child_problems config root_name def n

abbrev pub starts_with_manager : Option NodeDef → Bool
starts_with_manager (some (actor_task n)) = n.role == "manager"
starts_with_manager _ = false

-- The search always ends: Catalog/Reachability/Rounds.
unfoldable pub reached : WorkflowDef → List String
reached def = or_else (reachable def) []

returned_name : Target → List String
returned_name (to_node n) = []
returned_name (to_return r) = r ∷ []

-- The returns that a node reached can take.
unfoldable pub reached_returns : WorkflowDef → List String → List String
unfolding each_item returned_name
reached_returns def node_ids =
    each_item
      (λ id. elim (lookup id def.nodes) [
        | none ↦ []
        | some node ↦ each_item returned_name (node_targets node)
      ])
      node_ids

unfoldable pub workflow_problems : WorkflowConfig → String → String → WorkflowDef → List String
unfolding each_entry each_item node_problems reached reached_returns
workflow_problems config root_name name def =
    when (not (is_id name)) "workflow id is not a valid lowercase id"
    ++ when (is_none (lookup def.start_node def.nodes)) "startNode does not exist"
    ++ when (elim def.returns [ [] ↦ true | r ∷ rs ↦ false ]) "must declare at least one return"
    ++ when (has_duplicate def.returns) "declares duplicate returns"
    ++ each_item (λ r. when (not (is_id r)) "return is not a valid lowercase id") def.returns
    ++ each_item (λ id. when (not (is_id id)) "node id is not a valid lowercase id")
        (keys def.nodes)
    ++ when (name == root_name && not (starts_with_manager (lookup def.start_node def.nodes)))
        "root workflow startNode must be an actor-task with role manager"
    ++ each_entry (node_problems config root_name def) def.nodes
    ++ each_item
        (λ id. when (not (includes id (reached def))) "node is not reachable from startNode")
        (keys def.nodes)
    ++ each_item
        (λ r.
          when (not (includes r (reached_returns def (reached def))))
            "return has no structurally reachable return path")
        def.returns

unfoldable pub cycle_problems : Assoc WorkflowDef → List String
cycle_problems children = elim (find_cycles (child_graph children)) [
  | none ↦ []
  | some s ↦ s.problems
]
