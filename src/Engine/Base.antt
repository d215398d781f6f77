-- ===== src/Engine/Base.antt =====
-- src/engine/engine.ts: what the handlers share. A handler is a function from the row that it
-- read, and the answers of the host that it awaits, to its outcome and to the acts that it makes,
-- in order. A write is the act `put`: it carries the version that the handler read, and the store
-- refuses it where another handler came first.
use dsh_workflow_plugin.Prelude.{
  ℕ, String, Text, take, Bool, true, false, ◌&&◌, ◌||◌, ◌==◌, Option, none, some, is_none, or_else,
  or_some, opt_bind, opt_map, List, [], ◌∷◌, lookup, includes,
}
use dsh_workflow_plugin.Types.Limits
use dsh_workflow_plugin.Types.Graph.{
  NodeDef, actor_task, ResultDef, Target, to_node, to_return, RoleReuseMode, role_reuse_mode,
  node_results,
}
use dsh_workflow_plugin.Types.Execution.{
  NodeExecution, CallFrame, ExecutionDispatch, ExecutionJudge, ProgramOutcome, ready, Returned,
  ReturnedKind, EventType, ExecutionChange,
}
use dsh_workflow_plugin.Types.Run.{RunState}
use dsh_workflow_plugin.Types.Claims.{ClaimCaller}
use dsh_workflow_plugin.State.Tests.{node_in}

-- `RuntimeRow`.
pub record RuntimeRow : Type 0 where
  pub run : RunState
  pub execution : NodeExecution
  pub version : ℕ

-- `EngineOutcome`; a message is named by its fixed text.
pub data EngineOutcome : Type 0 where
  accepted : Option RunState → String → EngineOutcome
  rejected : String → EngineOutcome

-- What a handler does to the world. Traces, which are derived, are left out.
pub data Act : Type 0 where
  put : RunState → ℕ → List ExecutionChange → Act
  notify_terminal : RunState → NodeExecution → (handoff : Text) → Act
  notify_node_event : RunState → NodeExecution → Act
  notify_block : NodeExecution → Text → Act
  retire_judge : String → Act
  drain_judge : String → Act
  drain_role_actor : String → Act
  forget_dispatch : Option String → Option String → Act
  run_closed : RunState → Act
  drive : Act

pub record Reply : Type 0 where
  pub outcome : EngineOutcome
  pub acts : List Act

abbrev pub reject : String → Reply
reject reason = record { outcome = rejected reason; acts = [] }

unfoldable pub change : NodeExecution → List EventType → ExecutionChange
change e events = record { execution = e; expected_revision = some e.revision; events = events }

abbrev pub frame_node : RunState → CallFrame → Option NodeDef
frame_node run frame = node_in run frame.workflow_id frame.node_id

-- `topFrame(run)`, which throws on an empty stack.
abbrev top_of : List CallFrame → Option CallFrame
top_of [] = none
top_of (frame ∷ frames) = some frame

-- `nodeAt(run, topFrame(run))`.
unfoldable pub current_node : RunState → Option NodeDef
current_node run = opt_bind (top_of run.call_stack) (frame_node run)

-- `topFrame(run).nodeToken = token`.
abbrev pub retoken_top : String → List CallFrame → List CallFrame
retoken_top token [] = []
retoken_top token (frame ∷ frames) = record frame { node_token = token } ∷ frames

-- The caller holds the message of the dispatch, in this turn or in the history of its session.
holds_message : ClaimCaller → String → Bool
holds_message caller message =
    includes message caller.turn_user_message_ids
    || includes message (or_else caller.session_user_message_ids [])

-- `matches` over the session and the message of a dispatch.
matches_ids : Option String → Option String → ClaimCaller → Bool
unfolding holds_message
matches_ids none message caller = false
matches_ids (some session) none caller = false
matches_ids (some session) (some message) caller =
    session == caller.session_id && holds_message caller message

unfoldable pub matches : Option ExecutionDispatch → ClaimCaller → Bool
unfolding matches_ids
matches none caller = false
matches (some d) caller = matches_ids d.session_id d.message_id caller

pub matches_judge : Option ExecutionJudge → ClaimCaller → Bool
unfolding matches_ids
matches_judge none caller = false
matches_judge (some j) caller = matches_ids (some j.session_id) j.message_id caller

program_handoff : Option ProgramOutcome → Option Text
program_handoff (some (ProgramOutcome.done kind handoff reason)) = some handoff
program_handoff _ = none

execution_handoff : NodeExecution → Option Text
unfolding program_handoff
execution_handoff e = or_some (opt_map (λ c. c.handoff) e.claim) (
    or_some (program_handoff (opt_bind e.program (λ p. p.result)))
      (opt_bind e.child (λ c. opt_map (λ r. r.handoff) c.result)))

-- A target that returns decides the return of the workflow, any other the result of the node.
unfoldable pub decision_of : Target → String → String → Returned
decision_of (to_return r) name source = record {
  kind = ReturnedKind.return;
  name = r;
  source = source;
}
decision_of (to_node n) name source = record {
  kind = ReturnedKind.result;
  name = name;
  source = source;
}

unfoldable pub result_def_of : Option NodeDef → String → Option ResultDef
result_def_of none result = none
result_def_of (some node) result = opt_bind (node_results node) (lookup result)

abbrev pub is_node_reuse : RoleReuseMode → Bool
is_node_reuse RoleReuseMode.node = true
is_node_reuse RoleReuseMode.continuable = false

role_boundary_prepared : RunState → Option NodeDef → Bool
role_boundary_prepared run (some (actor_task n)) =
    n.role == "manager"
    || is_node_reuse (role_reuse_mode (lookup n.role run.definition_snapshot.roles))
    || is_none (lookup n.role run.role_actors)
role_boundary_prepared run _ = true

-- The frame is the top frame of the run.
unfoldable pub new_execution :
    RunState → CallFrame → Text → ℕ → Option String → (now : String) → NodeExecution
unfolding role_boundary_prepared
new_execution run frame input visit predecessor now = record {
  execution_id = frame.execution_id;
  run_id = run.run_id;
  workflow_id = frame.workflow_id;
  node_id = frame.node_id;
  node_token = frame.node_token;
  visit = visit;
  revision = 0;
  input = input;
  phase = ready;
  role_boundary_prepared = role_boundary_prepared run (frame_node run frame);
  restart_pending = false;
  predecessor_id = predecessor;
  successor_id = none;
  boundary = none;
  dispatch = none;
  previous_dispatch = none;
  claim = none;
  previous_claim = none;
  judge = none;
  judge_auto_retried = false;
  previous_judge = none;
  judgment = none;
  resolution = none;
  program = none;
  child = none;
  returned = none;
  input_version = 1;
  block_reason = none;
  entered_at = now;
  exited_at = none;
}

-- `this.blockReason(reason)`.
pub block_reason : Text → Text
block_reason reason = take Limits.block_reason_max reason
