-- ===== src/Engine/Manager/Blocking.antt =====
-- src/engine/engine.ts: `handleBlock`. An Actor, or the Manager, stops the work order.
use dsh_workflow_plugin.Prelude.{
  String, Text, trim, is_empty, ltb, length, Bool, true, false, ◌&&◌, ◌||◌, not, ◌==◌, Option, none,
  some, is_some, [],
}
use dsh_workflow_plugin.Types.Limits
use dsh_workflow_plugin.Types.Graph.{NodeDef, actor_task}
use dsh_workflow_plugin.Types.Execution.{NodeExecution}
use dsh_workflow_plugin.Types.Run.{is_running, blocked}
use dsh_workflow_plugin.Types.Claims.{ClaimCaller}
use dsh_workflow_plugin.State.Tests.{is_working}
use dsh_workflow_plugin.Engine.Base.{
  RuntimeRow, EngineOutcome, Reply, reject, current_node, matches,
}
use dsh_workflow_plugin.Engine.Block.{block_row}

-- The Manager controls a node that is not an actor task of its own.
abbrev is_manager_task : Option NodeDef → Bool
is_manager_task (some (actor_task n)) = n.role == "manager"
is_manager_task _ = false

is_control : RuntimeRow → ClaimCaller → Bool
is_control row caller =
    row.run.manager_session_id == caller.session_id && not (is_manager_task (current_node row.run))

abbrev unsettled : NodeExecution → Bool
unsettled e = elim e.dispatch [ none ↦ true | some d ↦ not d.settled ]

-- Without a token only the Actor that works may block, before it has claimed.
abbrev block_admitted : RuntimeRow → Option String → ClaimCaller → Bool
block_admitted row none caller =
    is_working row.execution.phase
    && not (is_some row.execution.claim)
    && unsettled row.execution
    && matches row.execution.dispatch caller
block_admitted row (some token) caller = row.execution.node_token == token

abbrev refusal : Option String → String
refusal none = "tokenless node_block requires the current unsettled dispatch"
refusal (some token) = "no current running Node/token"

block_bound : RuntimeRow → Text → ClaimCaller → Reply
block_bound row reason caller =
    elim (is_control row caller
      || (is_working row.execution.phase && matches row.execution.dispatch caller)) [
        | false ↦ reject "unbound dispatch"
        | true ↦ record {
          outcome = EngineOutcome.accepted (some (record row.run { status = blocked })) "blocked";
          acts = block_row row reason [];
        }
      ]

block_running : RuntimeRow → Option String → Text → ClaimCaller → Reply
unfolding block_bound
block_running row token reason caller = elim (block_admitted row token caller) [
  | false ↦ reject (refusal token)
  | true ↦ elim (is_empty reason || ltb Limits.block_reason_max (length reason)) [
    | true ↦ reject "invalid block reason"
    | false ↦ block_bound row reason caller
  ]
]

unfoldable pub handle_block : Option RuntimeRow → Option String → Text → ClaimCaller → Reply
unfolding block_running is_control
handle_block none token reason caller = reject "no current running Node/token"
handle_block (some row) token reason caller = elim (is_running row.run.status) [
  | false ↦ reject "no current running Node/token"
  | true ↦ block_running row token (trim reason) caller
]
