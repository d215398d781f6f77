-- ===== src/State/Invariants.antt =====
-- src/state/invariants.ts: `checkExecutionInvariants` and `checkStateInvariants`. What the checks
-- ask of the frozen definition alone, its schema and its hash, is a parameter: a run never changes
-- its definition.
use dsh_workflow_plugin.Prelude.{
  String, Text, trim, is_empty, leb, length, Bool, true, false, ◌&&◌, ◌||◌, not, ◌==◌, Option, none,
  some, is_some, is_none, is_id, List, [], ◌∷◌, ◌++◌, map, keys, includes, Assoc,
}
use dsh_workflow_plugin.Types.Limits
use dsh_workflow_plugin.Types.Routes.{RoleModel, RoleRouteState}
use dsh_workflow_plugin.Types.Graph.{WorkflowConfig, role_keys_with_judge}
use dsh_workflow_plugin.Types.Execution.{NodeExecution, CallFrame}
use dsh_workflow_plugin.Types.Run.{
  RunState, RunReturn, is_running, is_blocked, is_completed, is_terminated,
}
use dsh_workflow_plugin.State.Schema.{
  Formats, execution_schema, filled, filled_text, optional, route_schema,
}
use dsh_workflow_plugin.State.Tests.{when, is_id_of, is_exited, workflow_def, node_in, child_target}
use dsh_workflow_plugin.State.Checks.{
  position_problems, kind_problems, exit_problems, binding_problems, judgment_problems,
  resolution_problems, phase_problems,
}

-- `workflowConfigSchema` and `computeDefinitionHash`.
pub record Definitions : Type 0 where
  pub formats : Formats
  pub config_schema : WorkflowConfig → Bool
  pub definition_hash : WorkflowConfig → String

unfoldable pub cross_problems : RunState → NodeExecution → List String
cross_problems run e =
    let def = workflow_def run e.workflow_id in
    let node = node_in run e.workflow_id e.node_id in
    position_problems node run.run_id e.workflow_id e
    ++ kind_problems node e
    ++ exit_problems def node e
    ++ binding_problems e
    ++ judgment_problems e
    ++ resolution_problems e
    ++ phase_problems e

unfoldable pub check_execution_invariants : Formats → RunState → NodeExecution → List String
unfolding cross_problems
check_execution_invariants fmt run e = elim (execution_schema fmt e) [
  | false ↦ "execution schema" ∷ []
  | true ↦ cross_problems run e
]

-- Every frame of the schema's `callStack` has a UUID for its token.
frames_schema : Formats → List CallFrame → Bool
frames_schema fmt [] = true
frames_schema fmt (f ∷ fs) =
    filled f.workflow_id
    && filled f.node_id
    && fmt.is_uuid f.node_token
    && filled f.execution_id
    && frames_schema fmt fs

actors_schema : Assoc String → Bool
actors_schema [] = true
actors_schema ((k, v) ∷ m) = filled v && actors_schema m

overrides_schema : Assoc RoleModel → Bool
overrides_schema [] = true
overrides_schema ((k, v) ∷ m) =
    filled_text v.provider
    && filled_text v.model_id
    && optional filled_text v.reasoning_effort
    && overrides_schema m

stages_schema : Assoc RoleRouteState → Bool
stages_schema [] = true
stages_schema ((k, v) ∷ m) =
    optional (λ t. leb (length t) Limits.block_reason_max) v.reason && stages_schema m

return_schema : RunReturn → Bool
return_schema r = is_id r.name && filled r.source

-- `runSchema`.
run_schema : Definitions → RunState → Bool
unfolding frames_schema actors_schema overrides_schema stages_schema return_schema
run_schema defs run =
    filled run.run_id
    && filled run.manager_session_id
    && filled run.catalog_workflow_id
    && filled run.definition_hash
    && defs.config_schema run.definition_snapshot
    && frames_schema defs.formats run.call_stack
    && actors_schema run.role_actors
    && overrides_schema run.model_overrides
    && stages_schema run.role_routes
    && optional filled_text run.block_reason
    && filled run.current_execution_id
    && optional filled run.trace_log_path
    && optional route_schema run.delegation_route
    && optional return_schema run.business_return

abbrev is_blank : Option Text → Bool
is_blank none = true
is_blank (some t) = is_empty (trim t)

abbrev is_nil {ℓ} : {A : Type ℓ} → List A → Bool
is_nil [] = true
is_nil (x ∷ xs) = false

unfoldable pub has_duplicate : List String → Bool
has_duplicate [] = false
has_duplicate (x ∷ xs) = includes x xs || has_duplicate xs

return_problems : RunState → List String
return_problems run = elim run.business_return [
  | none ↦ []
  | some r ↦ elim (is_completed run.status) [
    | false ↦ "only a completed run carries a business return" ∷ []
    | true ↦
        when (not (includes r.name run.definition_snapshot.workflow.returns))
          "business return name is not declared by the root workflow"
        ++ when (not (r.source == run.current_execution_id))
            "business return source must be the terminal execution"
  ]
]

status_problems : RunState → List String
status_problems run =
    when
      ((is_completed run.status && not (is_nil run.call_stack))
        || (not (is_completed run.status) && is_nil run.call_stack))
      "status/callStack mismatch"
    ++ return_problems run
    ++ when ((is_running run.status || is_completed run.status) && is_some run.block_reason)
        "status/blockReason mismatch"
    ++ when (is_terminated run.status && is_blank run.block_reason)
        "terminated run requires a reason"
    ++ when (has_duplicate (map (λ f. f.node_token) run.call_stack))
        "nodeToken duplicates in callStack"
    ++ when (has_duplicate (map (λ f. f.execution_id) run.call_stack))
        "executionId duplicates in callStack"

-- The frames, the innermost first; below the last stands the root workflow.
frame_problems : RunState → List CallFrame → List String
frame_problems run [] = []
frame_problems run (f ∷ []) =
    when (is_none (node_in run f.workflow_id f.node_id))
      "frame position is absent from definitionSnapshot"
    ++ when (not (f.workflow_id == run.catalog_workflow_id)) "first frame must be root"
frame_problems run (f ∷ parent ∷ fs) =
    frame_problems run (parent ∷ fs)
    ++ when (is_none (node_in run f.workflow_id f.node_id))
        "frame position is absent from definitionSnapshot"
    ++ when
        (not
          (is_id_of f.workflow_id (child_target (node_in run parent.workflow_id parent.node_id))))
        "child frame does not match parent call"

key_problems : String → List String → List String → List String
key_problems problem known [] = []
key_problems problem known (k ∷ ks) =
    when (not (includes k known)) problem ++ key_problems problem known ks

run_problems : Definitions → RunState → List String
unfolding status_problems return_problems frame_problems key_problems
run_problems defs run =
    when (not (defs.definition_hash run.definition_snapshot == run.definition_hash))
      "definitionSnapshot hash mismatch"
    ++ status_problems run
    ++ frame_problems run run.call_stack
    ++ key_problems "unknown roleActors key" (keys run.definition_snapshot.roles)
        (keys run.role_actors)
    ++ key_problems "unknown modelOverrides key" (role_keys_with_judge run.definition_snapshot)
        (keys run.model_overrides)
    ++ key_problems "unknown roleRoutes key" (role_keys_with_judge run.definition_snapshot)
        (keys run.role_routes)

abbrev is_top : List CallFrame → NodeExecution → Bool
is_top [] e = false
is_top (top ∷ fs) e =
    top.execution_id == e.execution_id
    && top.workflow_id == e.workflow_id
    && top.node_id == e.node_id
    && top.node_token == e.node_token

-- The current execution against the run.
current_execution_problems : RunState → NodeExecution → List String
current_execution_problems run e =
    when (is_blocked run.status && is_blank run.block_reason && is_blank e.block_reason)
      "blocked run requires a control or execution reason"
    ++ when (not (run.current_execution_id == e.execution_id)) "currentExecutionId mismatch"
    ++ elim (is_completed run.status) [
      | true ↦
          when (not (is_exited e.phase) || is_some e.successor_id)
            "completed must point to terminal execution"
          ++ when (is_none e.returned)
              "completed run requires a terminal decision on its work order"
      | false ↦
          when (not (is_top run.call_stack e)) "current execution/callStack mismatch"
          ++ when (not (is_terminated run.status) && is_exited e.phase)
              "active run points to exited execution"
          ++ when (is_terminated run.status && is_blank e.block_reason)
              "terminated execution requires a reason"
    ]

-- `checkStateInvariants(run)`.
unfoldable pub check_run_invariants : Definitions → RunState → List String
unfolding run_schema run_problems
check_run_invariants defs run = elim (run_schema defs run) [
  | false ↦ "run schema" ∷ []
  | true ↦ run_problems defs run
]

-- `checkStateInvariants(run, execution)`.
unfoldable pub check_state_invariants : Definitions → RunState → NodeExecution → List String
unfolding run_schema run_problems current_execution_problems
check_state_invariants defs run e = elim (run_schema defs run) [
  | false ↦ "run schema" ∷ []
  | true ↦
      run_problems defs run
      ++ check_execution_invariants defs.formats run e
      ++ current_execution_problems run e
]
