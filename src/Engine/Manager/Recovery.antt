-- ===== src/Engine/Manager/Recovery.antt =====
-- src/engine/engine.ts: what the Manager's recoveries of a work order share.
pub mod Rechecked
use dsh_workflow_plugin.Prelude.{
  ℕ, suc, String, Text, codes, is_empty, Bool, true, false, ◌&&◌, ◌||◌, ◌==◌, nat_eq, Option, none,
  some, is_some, or_some, List, [], ◌∷◌, ◌++◌, Result, ok, err, if◌then◌else◌,
}
use dsh_workflow_plugin.Types.Execution.{
  NodeExecution, ExecutionClaim, ExecutionJudge, ExecutionJudgment, ExecutionResolution,
}
use dsh_workflow_plugin.Types.Run.{RunState, running, is_running}
use dsh_workflow_plugin.State.Tests.{is_accept, is_need_context}
use dsh_workflow_plugin.Engine.Base.{RuntimeRow, Act, drain_judge, Reply}
use dsh_workflow_plugin.Engine.Block.{block_row}

-- The judgment names this Judge: its dispatch and its session.
abbrev pub named_by : ExecutionJudgment → ExecutionJudge → Bool
named_by j k = j.judge_dispatch_id == k.id && j.judge_session_id == k.session_id

-- The Judge of this claim has asked for context, at this input.
unfoldable pub current_feedback : NodeExecution → ExecutionClaim → Bool
current_feedback e claim = elim e.judge [
  | none ↦ false
  | some k ↦ elim e.judgment [
    | none ↦ false
    | some j ↦
        is_need_context j.result
        && j.claim_id == claim.id
        && nat_eq j.input_version e.input_version
        && named_by j k
  ]
]

abbrev pub is_accepted : Option ExecutionJudgment → Bool
is_accepted none = false
is_accepted (some j) = is_accept j.result

abbrev pub is_settled : NodeExecution → Bool
is_settled e = elim e.dispatch [ none ↦ false | some d ↦ d.settled ]

-- The Judge whose session a recovery closes: the current one, or the earlier one of this claim.
pub judge_of_claim : NodeExecution → Option String → Option ExecutionJudge
judge_of_claim e claim = or_some e.judge (elim e.previous_judge [
  | none ↦ none
  | some k ↦ elim claim [ none ↦ none | some id ↦ if k.claim_id == id then some k else none ]
])

-- The feedback of the Judge becomes history with the input that it was about.
abbrev pub feedback_judge : NodeExecution → ExecutionClaim → Option ExecutionJudge
feedback_judge e claim = if current_feedback e claim then e.judge else e.previous_judge

abbrev pub resumed_run : RunState → RunState
resumed_run run = record run { status = running; block_reason = none }

abbrev pub after_acts : List Act → Reply → Reply
after_acts acts reply = record reply { acts = acts ++ reply.acts }

abbrev pub drains : Option ExecutionJudge → List Act
drains none = []
drains (some k) = drain_judge k.session_id ∷ []

-- `dispatchFault`: the row that is read then is blocked, where it is the one that was written last.
unfoldable pub dispatch_fault : NodeExecution → ℕ → Text → Option RuntimeRow → List Act
dispatch_fault e version message none = []
dispatch_fault e version message (some row) =
    if is_running row.run.status
      && row.run.run_id == e.run_id
      && row.execution.execution_id == e.execution_id
      && nat_eq row.version version
    then block_row row (codes "dispatch fault: " ++ message) []
    else []
