-- ===== src/Types/Graph.antt =====
-- src/types.ts: roles, nodes and workflows, as the definition snapshot holds them.
use dsh_workflow_plugin.Prelude.{
  String, Text, Assoc, keys, lookup, Bool, true, false, Option, none, some, List, [], ◌∷◌, ◌++◌,
  or_else, opt_bind, ◌==◌,
}
use dsh_workflow_plugin.Types.Routes.{RoleModel}

-- `ROLE_REUSE_MODES`.
pub data RoleReuseMode : Type 0 where
  node continuable : RoleReuseMode

pub record RoleDefinition : Type 0 where
  pub persona : Text
  pub model : Option RoleModel
  pub fallback_model : Option RoleModel
  pub tools_deny : Option (List String)
  pub reuse : Option RoleReuseMode
  pub compact_before_reuse : Option Bool

pub record JudgeRoleDefinition : Type 0 where
  pub persona : Text
  pub model : Option RoleModel
  pub fallback_model : Option RoleModel
  pub tools_deny : Option (List String)

unfoldable pub role_reuse_mode : Option RoleDefinition → RoleReuseMode
role_reuse_mode none = RoleReuseMode.node
role_reuse_mode (some role) = or_else role.reuse RoleReuseMode.node

unfoldable pub compact_before_reuse : Option RoleDefinition → Bool
compact_before_reuse none = true
compact_before_reuse (some role) = or_else role.compact_before_reuse true

-- A value that the schema leaves open (`Record<string, unknown>`); a number is its decimal text.
pub data Value : Type 0 where
  text : Text → Value
  number : Text → Value
  other : Value

pub record CheckerRef : Type 0 where
  pub checker_id : String
  pub config : Option (Assoc Value)

pub data Target : Type 0 where
  to_node : String → Target
  to_return : String → Target

pub record ResultDef : Type 0 where
  pub criteria : Text
  pub target : Target

abbrev pub program_result_names : List String
program_result_names = "PASS" ∷ "FAIL" ∷ []

pub record ActorTaskNode : Type 0 where
  pub role : String
  pub instruction : Text
  pub checker : CheckerRef
  pub results : Assoc ResultDef

pub record BuiltinProgramNode : Type 0 where
  pub program_id : String
  pub instruction : Option Text
  pub config : Option (Assoc Value)
  pub results : Assoc ResultDef

pub record ChildWorkflowNode : Type 0 where
  pub workflow_id : String
  pub on_return : Assoc Target

-- `NodeDef`, told apart by `execution.type`.
pub data NodeDef : Type 0 where
  actor_task : ActorTaskNode → NodeDef
  builtin_program : BuiltinProgramNode → NodeDef
  child_workflow : ChildWorkflowNode → NodeDef

unfoldable pub node_results : NodeDef → Option (Assoc ResultDef)
node_results (actor_task n) = some n.results
node_results (builtin_program n) = some n.results
node_results (child_workflow n) = none

unfoldable pub node_checker : NodeDef → Option CheckerRef
node_checker (actor_task n) = some n.checker
node_checker (builtin_program n) = none
node_checker (child_workflow n) = none

unfoldable pub node_on_return : NodeDef → Option (Assoc Target)
node_on_return (actor_task n) = none
node_on_return (builtin_program n) = none
node_on_return (child_workflow n) = some n.on_return

unfoldable pub declared_results : Option NodeDef → List String
unfolding node_results node_on_return
declared_results none = []
declared_results (some n) = elim (node_results n) [
  | some results ↦ keys results
  | none ↦ keys (or_else (node_on_return n) [])
]

pub record WorkflowDef : Type 0 where
  pub start_node : String
  pub returns : List String
  pub nodes : Assoc NodeDef

pub record WorkflowConfig : Type 0 where
  pub actor_common_persona : Option Text
  pub roles : Assoc RoleDefinition
  pub judge_role : JudgeRoleDefinition
  pub workflow : WorkflowDef
  pub child_workflows : Option (Assoc WorkflowDef)

-- The catalog's route of a role; `judge` is read from `judgeRole`.
unfoldable pub read_role_def_model : WorkflowConfig → String → Option RoleModel
read_role_def_model config role_key = elim (role_key == "judge") [
  | true ↦ config.judge_role.model
  | false ↦ opt_bind (lookup role_key config.roles) (λ r. r.model)
]

unfoldable pub read_role_fallback_model : WorkflowConfig → String → Option RoleModel
read_role_fallback_model config role_key = elim (role_key == "judge") [
  | true ↦ config.judge_role.fallback_model
  | false ↦ opt_bind (lookup role_key config.roles) (λ r. r.fallback_model)
]

unfoldable pub role_keys_with_judge : WorkflowConfig → List String
role_keys_with_judge config = keys config.roles ++ "judge" ∷ []
