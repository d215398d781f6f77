-- ===== src/Engine/Judging.antt =====
-- src/engine/engine.ts: `handleJudgeClaim`. The Judge confirms a claim, and never picks a result.
pub mod Keeps
pub mod Handler
use dsh_workflow_plugin.Prelude.{
  ℕ, suc, ◌+◌, String, Text, codes, trim, is_empty, ltb, length, Bool, true, false, ◌&&◌, ◌||◌, not,
  ◌==◌, nat_eq, Option, none, some, is_some, is_none, opt_map, List, [], ◌∷◌, ◌++◌, Result, ok, err,
  ◌>>=◌,
}
use dsh_workflow_plugin.Types.Limits
use dsh_workflow_plugin.Types.Execution.{
  NodeExecution, ExecutionClaim, ExecutionJudge, ExecutionJudgment, ExecutionResolution,
  JudgeVerdict, accept, reject, need_context, Phase, ready, EventType, ResolutionTarget,
}
use dsh_workflow_plugin.Types.Run.{RunState, RunStatus, is_running, blocked}
use dsh_workflow_plugin.Types.Claims.{ClaimCaller}
use dsh_workflow_plugin.State.Tests.{is_checking, has_current}
use dsh_workflow_plugin.Engine.Base.{
  RuntimeRow, EngineOutcome, Act, put, notify_node_event, notify_block, retire_judge, drive, Reply,
  change, matches_judge, block_reason,
}
use dsh_workflow_plugin.Engine.Base
use dsh_workflow_plugin.Engine.Advance.{Decided, advance_known_result}

judgment_by : JudgeVerdict → Text → ExecutionClaim → ExecutionJudge → ExecutionJudgment
judgment_by verdict reason claim judge = record {
  result = verdict;
  reason = reason;
  claim_id = claim.id;
  judge_dispatch_id = judge.id;
  judge_session_id = judge.session_id;
  input_version = judge.input_version;
}

-- `delete e.resolution.judgeMode` and its session, where the resolution targets the Judge.
drop_mode : ExecutionResolution → ExecutionResolution
drop_mode r = elim r.target [
  | ResolutionTarget.judge ↦ record r { judge_mode = none; judge_session_id = none }
  | _ ↦ r
]

pub settle_mode : NodeExecution → NodeExecution
unfolding drop_mode
settle_mode e = record e { resolution = opt_map drop_mode e.resolution }

-- What the Manager supplied stays for the Actor's next attempt.
abbrev kept_context : Option ExecutionResolution → ℕ → Option ExecutionResolution
kept_context none version = none
kept_context (some r) version = elim r.context [
  | none ↦ none
  | some context ↦ elim (is_empty context) [
    | true ↦ none
    | false ↦ some (record {
      target = ResolutionTarget.actor;
      context = some context;
      skip_compact = false;
      decision = none;
      failover = none;
      judge_mode = none;
      judge_session_id = none;
      input_version = version;
    })
  ]
]

-- REJECT: the Actor starts anew; the claim and its Judge become history.
pub rejected_execution : NodeExecution → ExecutionClaim → ExecutionJudge → Text → NodeExecution
unfolding judgment_by
rejected_execution e claim judge reason = record e {
  previous_claim = some claim;
  previous_judge = some judge;
  judgment = some (judgment_by reject reason claim judge);
  claim = none;
  judge = none;
  judge_auto_retried = false;
  phase = ready;
  input_version = suc e.input_version;
  resolution = kept_context e.resolution (suc e.input_version);
}

-- NEED_CONTEXT and ACCEPT are judgments of the current claim.
pub judged_execution :
    NodeExecution → JudgeVerdict → ExecutionClaim → ExecutionJudge → Text → NodeExecution
unfolding judgment_by
judged_execution e verdict claim judge reason = record e {
  previous_judge = none;
  previous_claim = none;
  judgment = some (judgment_by verdict reason claim judge);
}

pub waiting_execution : NodeExecution → ExecutionClaim → ExecutionJudge → Text → NodeExecution
unfolding judged_execution
waiting_execution e claim judge reason =
    record (judged_execution e need_context claim judge reason) {
      block_reason = some (block_reason (codes "Judge NEED_CONTEXT: " ++ reason));
    }

pub reject_claim : RuntimeRow → NodeExecution → ExecutionClaim → ExecutionJudge → Text → Reply
unfolding rejected_execution
reject_claim row e claim judge reason =
    let left = rejected_execution e claim judge reason in
    record {
      outcome = EngineOutcome.accepted (some row.run) "REJECT committed";
      acts =
          put row.run row.version (change left (EventType.judgment ∷ []) ∷ [])
          ∷ retire_judge judge.session_id
          ∷ notify_node_event row.run left
          ∷ drive
          ∷ [];
    }

pub ask_context : RuntimeRow → NodeExecution → ExecutionClaim → ExecutionJudge → Text → Reply
unfolding waiting_execution
ask_context row e claim judge reason =
    let left = waiting_execution e claim judge reason in
    let run = record row.run { status = blocked } in
    record {
      outcome = EngineOutcome.accepted (some run) "NEED_CONTEXT committed";
      acts =
          put run row.version (change left (EventType.judgment ∷ EventType.blocked ∷ []) ∷ [])
          ∷ retire_judge judge.session_id
          ∷ notify_block left (block_reason (codes "Judge NEED_CONTEXT: " ++ reason))
          ∷ [];
    }

pub accept_claim :
    RuntimeRow
    → NodeExecution
    → ExecutionClaim
    → ExecutionJudge
    → Text
    → (String → Option NodeExecution)
    → (ℕ → String)
    → (now : String) → Result Reply
accept_claim row e claim judge reason stored fresh now = do
  let judged = judged_execution e accept claim judge reason
  advanced ←
      advance_known_result (record row { execution = judged }) stored fresh now Decided.result
        claim.result claim.handoff (EventType.judgment ∷ [])
  ok (record advanced { acts = advanced.acts ++ retire_judge judge.session_id ∷ [] })

pub judge_claim :
    RuntimeRow
    → NodeExecution
    → JudgeVerdict
    → ExecutionClaim
    → ExecutionJudge
    → Text
    → (String → Option NodeExecution)
    → (ℕ → String)
    → (now : String) → Result Reply
unfolding reject_claim ask_context accept_claim
judge_claim row e reject claim judge reason stored fresh now =
    ok (reject_claim row e claim judge reason)
judge_claim row e need_context claim judge reason stored fresh now =
    ok (ask_context row e claim judge reason)
judge_claim row e accept claim judge reason stored fresh now =
    accept_claim row e claim judge reason stored fresh now

-- The submission is that of the Judge of this claim, at this input, and the first one.
pub binds_judge : NodeExecution → String → ExecutionClaim → ExecutionJudge → ClaimCaller → Bool
binds_judge e token claim judge caller =
    e.node_token == token
    && is_checking e.phase
    && not (has_current e)
    && judge.claim_id == claim.id
    && nat_eq judge.input_version e.input_version
    && matches_judge (some judge) caller

pub judge_bound :
    RuntimeRow
    → String
    → JudgeVerdict
    → Text
    → ClaimCaller
    → (String → Option NodeExecution)
    → (ℕ → String)
    → (now : String) → Result Reply
unfolding judge_claim
judge_bound row token verdict reason caller stored fresh now = elim row.execution.claim [
  | none ↦ ok (Base.reject "stale or unbound Judge submission")
  | some claim ↦ elim row.execution.judge [
    | none ↦ ok (Base.reject "stale or unbound Judge submission")
    | some judge ↦ elim (binds_judge row.execution token claim judge caller) [
      | false ↦ ok (Base.reject "stale or unbound Judge submission")
      | true ↦
          judge_claim row (settle_mode row.execution) verdict claim judge reason stored fresh now
    ]
  ]
]

unfoldable pub handle_judge_claim :
    Option RuntimeRow
    → String
    → JudgeVerdict
    → Text
    → ClaimCaller
    → (String → Option NodeExecution)
    → (ℕ → String)
    → (now : String) → Result Reply
unfolding judge_bound
handle_judge_claim row token verdict text caller stored fresh now =
    let reason = trim text in
    elim (is_empty reason || ltb Limits.reason_max (length reason)) [
      | true ↦ ok (Base.reject "invalid Judge result/reason")
      | false ↦ elim row [
        | none ↦ ok (Base.reject "no running work order")
        | some r ↦ elim (is_running r.run.status) [
          | false ↦ ok (Base.reject "no running work order")
          | true ↦ judge_bound r token verdict reason caller stored fresh now
        ]
      ]
    ]
