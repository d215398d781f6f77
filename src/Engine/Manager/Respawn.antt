-- ===== src/Engine/Manager/Respawn.antt =====
-- src/engine/engine.ts: `handleRespawnJudge`. The Manager has the claim checked by another Judge.
pub mod Keeps
use dsh_workflow_plugin.Prelude.{
  ℕ, suc, String, Text, codes, trim, is_empty, ltb, length, Bool, true, false, ◌&&◌, ◌||◌, not,
  ◌==◌, Option, none, some, is_some, opt_bind, opt_map, List, [], ◌∷◌, ◌++◌, Result, ok, err,
  if◌then◌else◌,
}
use dsh_workflow_plugin.Types.Limits
use dsh_workflow_plugin.Types.Graph.{NodeDef, actor_task}
use dsh_workflow_plugin.Types.Execution.{
  NodeExecution, ExecutionClaim, ExecutionJudge, ExecutionResolution, ResolutionTarget, fresh,
  EventType,
}
use dsh_workflow_plugin.Types.Run.{RunState, is_running, is_blocked}
use dsh_workflow_plugin.State.Tests.{is_checking, is_id_of}
use dsh_workflow_plugin.Engine.Base.{
  RuntimeRow, EngineOutcome, Act, put, drive, Reply, reject, change, current_node,
}
use dsh_workflow_plugin.Engine.Judges.{new_judge}
use dsh_workflow_plugin.Engine.Manager.Recovery.{
  current_feedback, is_accepted, is_settled, judge_of_claim, feedback_judge, resumed_run,
  after_acts, drains, dispatch_fault,
}

-- What is read and answered while a Judge is replaced.
pub record RespawnAnswers : Type 0 where
  pub cwd : Result String
  -- Whether the row is the same after the drain; the drain itself may fail.
  pub drained : Result Bool
  pub fresh_token : ℕ → String
  -- Whether the store admits the write.
  pub written : Result (Unit {0})
  pub at_fault : Option RuntimeRow
  -- The row read after the driver.
  pub driven : Option RuntimeRow

abbrev is_actor_task : Option NodeDef → Bool
is_actor_task (some (actor_task n)) = true
is_actor_task _ = false

-- A context that was supplied stays.
abbrev given_context : Option ExecutionResolution → Option Text
given_context none = none
given_context (some r) = elim r.context [
  | none ↦ none
  | some t ↦ if is_empty t then none else some t
]

abbrev pub respawn_decision : Text → Text
respawn_decision reason =
    if is_empty reason then codes "Manager requested Judge respawn" else reason

pub respawned_execution :
    NodeExecution → RunState → ExecutionClaim → Text → (ℕ → String) → NodeExecution
respawned_execution e run claim reason token = record e {
  input_version = suc e.input_version;
  previous_judge = feedback_judge e claim;
  resolution = some (record {
    target = ResolutionTarget.judge;
    context = given_context e.resolution;
    skip_compact = false;
    decision = some (respawn_decision reason);
    failover = none;
    judge_mode = some fresh;
    judge_session_id = none;
    input_version = suc e.input_version;
  });
  restart_pending = false;
  judge = some (new_judge run claim (suc e.input_version) (token 0) (token 1));
  judge_auto_retried = false;
  block_reason = none;
}

pub respawn_failed : NodeExecution → ℕ → String → Option RuntimeRow → Reply
unfolding dispatch_fault
respawn_failed e version message at_fault = record {
  outcome = EngineOutcome.rejected "Judge respawn failed";
  acts = dispatch_fault e version (codes message) at_fault;
}

-- What the driver has made of the Judge that was arranged.
published_outcome : String → String → String → Option RuntimeRow → EngineOutcome
published_outcome run_id execution_id arranged none =
    EngineOutcome.rejected "stale respawn request after dispatch"
published_outcome run_id execution_id arranged (some after) =
    if not (after.run.run_id == run_id && after.execution.execution_id == execution_id)
    then EngineOutcome.rejected "stale respawn request after dispatch"
    else elim after.execution.judge [
      | none ↦ EngineOutcome.rejected "stale respawn request after dispatch"
      | some k ↦
          if not (k.id == arranged)
          then EngineOutcome.rejected "stale respawn request after dispatch"
          else if not (is_running after.run.status)
          then EngineOutcome.rejected "Judge respawn failed"
          else if is_some k.message_id
          then EngineOutcome.accepted (some after.run) "Judge respawn committed"
          else EngineOutcome.rejected "stale respawn result"
    ]

pub arrange_respawn : RuntimeRow → ExecutionClaim → Text → RespawnAnswers → Reply
unfolding respawned_execution respawn_failed published_outcome
arrange_respawn row claim reason answers =
    let e = respawned_execution row.execution row.run claim reason answers.fresh_token in
    let write =
      put (resumed_run row.run) row.version
        (change e (EventType.judge_respawned ∷ EventType.judge_arranged ∷ []) ∷ []) in
    elim answers.written [
      | err message ↦
          after_acts (write ∷ [])
            (respawn_failed row.execution row.version message answers.at_fault)
      | ok _ ↦ record {
        outcome =
            published_outcome row.run.run_id row.execution.execution_id (answers.fresh_token 0)
              answers.driven;
        acts = write ∷ drive ∷ [];
      }
    ]

pub drain_respawn : RuntimeRow → ExecutionClaim → Text → RespawnAnswers → Reply
unfolding arrange_respawn
drain_respawn row claim reason answers = elim answers.drained [
  | err message ↦ respawn_failed row.execution row.version message answers.at_fault
  | ok false ↦ reject "stale respawn request after Judge drain"
  | ok true ↦ arrange_respawn row claim reason answers
]

pub respawn_claim : RuntimeRow → ExecutionClaim → Text → RespawnAnswers → Reply
unfolding drain_respawn
respawn_claim row claim reason answers = elim answers.cwd [
  | err message ↦ respawn_failed row.execution row.version message answers.at_fault
  | ok _ ↦
      after_acts (drains (judge_of_claim row.execution (some claim.id)))
        (drain_respawn row claim reason answers)
]

-- An effective claim whose Actor has closed its turn, without a conclusion.
pub may_respawn : RuntimeRow → Bool
may_respawn row =
    is_actor_task (current_node row.run)
    && is_checking row.execution.phase
    && is_settled row.execution
    && not (is_accepted row.execution.judgment)

pub respawn_owned : RuntimeRow → Text → RespawnAnswers → Reply
unfolding respawn_claim may_respawn
respawn_owned row reason answers = elim row.execution.claim [
  | none ↦ reject "judge_respawn requires an effective settled claim without a business conclusion"
  | some claim ↦
      if may_respawn row
      then respawn_claim row claim reason answers
      else reject "judge_respawn requires an effective settled claim without a business conclusion"
]

unfoldable pub respawn_row : RuntimeRow → String → Text → String → RespawnAnswers → Reply
unfolding respawn_owned
respawn_row row token reason caller answers =
    if not (
      (is_running row.run.status || is_blocked row.run.status) && row.execution.node_token == token)
    then reject "judge_respawn requires the current Node/token"
    else if not (caller == row.run.manager_session_id)
    then reject "judge_respawn is Manager-only"
    else respawn_owned row reason answers

unfoldable pub handle_respawn_judge :
    Option RuntimeRow → String → Text → String → RespawnAnswers → Reply
unfolding respawn_row
handle_respawn_judge row token text caller answers =
    if ltb Limits.reason_max (length (trim text)) then reject "reason is too long" else elim row [
      | none ↦ reject "judge_respawn requires the current Node/token"
      | some r ↦ respawn_row r token (trim text) caller answers
    ]
