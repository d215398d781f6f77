-- ===== src/Scenarios.antt =====
-- A work order of a small workflow, on which the theorems are tried: the role `dev` builds, the Judge
-- checks, and the result `pass` returns `done`.
mod Rows
mod Engine
mod Sessions
mod Stores
mod Dispatches
mod Catalogs
mod Recoveries
mod Programs
use dsh_workflow_plugin.Prelude.{
  ℕ, zero, suc, String, Text, codes, Bool, true, false, Option, none, some, List, [], ◌∷◌, Assoc,
  Result, ok, err,
}
use dsh_workflow_plugin.Types.Routes.{RoleModel, Route, primary, fallback, manual}
use dsh_workflow_plugin.Types.Graph.{
  RoleDefinition, JudgeRoleDefinition, WorkflowConfig, WorkflowDef, NodeDef, actor_task, ResultDef,
  to_return, to_node,
}
use dsh_workflow_plugin.Types.Execution.{
  NodeExecution, CallFrame, ExecutionDispatch, ExecutionClaim, ExecutionJudge, Phase, working,
  checking,
}
use dsh_workflow_plugin.Types.Run.{RunState, running}
use dsh_workflow_plugin.Types.Claims.{ClaimCaller}
use dsh_workflow_plugin.State.Valid.{IsConsistent}
use dsh_workflow_plugin.Engine.Base.{RuntimeRow}

abbrev model_a : RoleModel
model_a = record { provider = codes "p"; model_id = codes "a"; reasoning_effort = none }

abbrev pub model_b : RoleModel
model_b = record { provider = codes "p"; model_id = codes "b"; reasoning_effort = none }

abbrev dev : RoleDefinition
dev = record {
  persona = codes "developer";
  model = some model_a;
  fallback_model = some model_b;
  tools_deny = none;
  reuse = none;
  compact_before_reuse = none;
}

abbrev judge_role : JudgeRoleDefinition
judge_role = record {
  persona = codes "judge";
  model = some model_a;
  fallback_model = some model_b;
  tools_deny = none;
}

abbrev pub pass_def : ResultDef
pass_def = record { criteria = codes "it works"; target = to_return "done" }

abbrev build : NodeDef
build = actor_task (record {
  role = "dev";
  instruction = codes "build it";
  checker = record { checker_id = "judge"; config = none };
  results = ("pass", pass_def) ∷ [];
})

abbrev pub main_def : WorkflowDef
main_def = record { start_node = "build"; returns = "done" ∷ []; nodes = ("build", build) ∷ [] }

abbrev pub config : WorkflowConfig
config = record {
  actor_common_persona = none;
  roles = ("dev", dev) ∷ [];
  judge_role = judge_role;
  workflow = main_def;
  child_workflows = none;
}

abbrev top : CallFrame
top = record { workflow_id = "main"; node_id = "build"; node_token = "t1"; execution_id = "e1" }

abbrev pub run : RunState
run = record {
  run_id = "r1";
  manager_session_id = "boss";
  catalog_workflow_id = "main";
  definition_hash = "h";
  definition_snapshot = config;
  status = running;
  call_stack = top ∷ [];
  role_actors = ("dev", "s1") ∷ [];
  model_overrides = [];
  role_routes = [];
  block_reason = none;
  current_execution_id = "e1";
  trace_log_path = none;
  delegation_route = none;
  business_return = none;
}

abbrev dispatch : Bool → ExecutionDispatch
dispatch settled = record {
  id = "d1";
  session_id = some "s1";
  message_id = some "m1";
  settled = settled;
  model = none;
  source = none;
}

abbrev pub working_execution : NodeExecution
working_execution = record {
  execution_id = "e1";
  run_id = "r1";
  workflow_id = "main";
  node_id = "build";
  node_token = "t1";
  visit = 1;
  revision = 2;
  input = codes "start";
  phase = working;
  role_boundary_prepared = true;
  restart_pending = false;
  predecessor_id = none;
  successor_id = none;
  boundary = none;
  dispatch = some (dispatch false);
  previous_dispatch = none;
  claim = none;
  previous_claim = none;
  judge = none;
  judge_auto_retried = false;
  previous_judge = none;
  judgment = none;
  resolution = none;
  program = none;
  child = none;
  returned = none;
  input_version = 1;
  block_reason = none;
  entered_at = "now";
  exited_at = none;
}

abbrev pub claim : ExecutionClaim
claim = record { id = "c1"; dispatch_id = "d1"; result = "pass"; handoff = codes "built" }

abbrev judge : ExecutionJudge
judge = record {
  id = "j1";
  session_id = "s2";
  message_id = some "m2";
  settled = false;
  model = none;
  source = none;
  claim_id = "c1";
  input_version = 1;
}

abbrev pub checked_execution : NodeExecution
checked_execution = record working_execution {
  phase = checking;
  dispatch = some (dispatch true);
  claim = some claim;
  judge = some judge;
}

abbrev pub working_row : RuntimeRow
working_row = record { run = run; execution = working_execution; version = 3 }

abbrev pub checked_row : RuntimeRow
checked_row = record { run = run; execution = checked_execution; version = 5 }

abbrev pub actor : ClaimCaller
actor = record {
  session_id = "s1";
  turn_user_message_ids = "m1" ∷ [];
  session_user_message_ids = none;
}

abbrev pub checker : ClaimCaller
checker = record {
  session_id = "s2";
  turn_user_message_ids = "m2" ∷ [];
  session_user_message_ids = none;
}

abbrev pub fresh : ℕ → String
fresh zero = "n0"
fresh (suc n) = "n1"

abbrev pub stored : String → Option NodeExecution
stored id = none
