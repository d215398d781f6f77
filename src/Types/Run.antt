-- ===== src/Types/Run.antt =====
-- src/types.ts: `RunState`.
use dsh_workflow_plugin.Prelude.{String, Text, Assoc, Bool, true, false, Option, List}
use dsh_workflow_plugin.Types.Routes.{Route, RoleModel, RoleRouteState}
use dsh_workflow_plugin.Types.Graph.{WorkflowConfig}
use dsh_workflow_plugin.Types.Execution.{CallFrame}

pub record RunReturn : Type 0 where
  pub name : String
  pub source : String

pub data RunStatus : Type 0 where
  running blocked completed terminated : RunStatus

abbrev pub is_running : RunStatus → Bool
is_running RunStatus.running = true
is_running _ = false

abbrev pub is_blocked : RunStatus → Bool
is_blocked RunStatus.blocked = true
is_blocked _ = false

abbrev pub is_completed : RunStatus → Bool
is_completed RunStatus.completed = true
is_completed _ = false

abbrev pub is_terminated : RunStatus → Bool
is_terminated RunStatus.terminated = true
is_terminated _ = false

-- The head of `call_stack` is the array's last element, the frame that runs.
pub record RunState : Type 0 where
  pub run_id : String
  pub manager_session_id : String
  pub catalog_workflow_id : String
  pub definition_hash : String
  pub definition_snapshot : WorkflowConfig
  pub status : RunStatus
  pub call_stack : List CallFrame
  pub role_actors : Assoc String
  pub model_overrides : Assoc RoleModel
  pub role_routes : Assoc RoleRouteState
  pub block_reason : Option Text
  pub current_execution_id : String
  pub trace_log_path : Option String
  pub delegation_route : Option Route
  pub business_return : Option RunReturn
