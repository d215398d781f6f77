-- ===== src/Engine/Manager/Returning.antt =====
-- src/engine/engine.ts, `handleResume`: how a recovery goes back to the Actor, who submits anew.
pub mod Keeps
use dsh_workflow_plugin.Prelude.{
  ℕ, suc, String, Text, ltb, Bool, true, false, ◌&&◌, ◌||◌, not, ◌==◌, nat_eq, Option, none, some,
  is_some, is_none, or_some, opt_map, List, [], ◌∷◌, ◌++◌, lookup, remove, Result, ok, err,
  if◌then◌else◌,
}
use dsh_workflow_plugin.Types.Execution.{
  NodeExecution, ExecutionClaim, ExecutionJudge, ExecutionJudgment, ExecutionResolution,
  ResolutionTarget, ready, EventType, ExecutionChange,
}
use dsh_workflow_plugin.Types.Run.{RunState}
use dsh_workflow_plugin.State.Tests.{is_ready, is_working, is_checking}
use dsh_workflow_plugin.Engine.Base.{
  RuntimeRow, EngineOutcome, Act, put, drive, Reply, reject, change,
}
use dsh_workflow_plugin.Engine.Manager.Ending.{retires}
use dsh_workflow_plugin.Engine.Manager.Recovery.{
  named_by, current_feedback, is_accepted, judge_of_claim, after_acts, drains,
}
use dsh_workflow_plugin.Engine.Manager.Rejudging.{ResumeAnswers, drained_then, retokened_run}

-- The execution can still go back to its Actor.
pub may_return : NodeExecution → Bool
may_return e =
    is_ready e.phase
    || (is_working e.phase && is_none e.claim)
    || (is_checking e.phase && is_some e.claim && not (is_accepted e.judgment))

-- The judgment of this claim is of an earlier input, and the earlier Judge gave it.
pub earlier_feedback : NodeExecution → ExecutionClaim → Bool
earlier_feedback e claim = elim e.judgment [
  | none ↦ false
  | some j ↦ elim e.previous_judge [
    | none ↦ false
    | some k ↦ j.claim_id == claim.id && ltb j.input_version e.input_version && named_by j k
  ]
]

-- The claim becomes the earlier one; a judgment that is no feedback on it is dropped.
pub returned_judgment : NodeExecution → ExecutionClaim → Option ExecutionJudgment
unfolding earlier_feedback
returned_judgment e claim =
    if current_feedback e claim || earlier_feedback e claim then e.judgment else none

pub returned_judge : NodeExecution → ExecutionClaim → Option ExecutionJudge
unfolding earlier_feedback
returned_judge e claim =
    if current_feedback e claim
    then e.judge
    else if earlier_feedback e claim
    then e.previous_judge
    else none

pub returned_material : NodeExecution → NodeExecution
unfolding returned_judgment returned_judge
returned_material e = record e {
  previous_claim = or_some e.claim e.previous_claim;
  judgment = elim e.claim [ none ↦ e.judgment | some claim ↦ returned_judgment e claim ];
  previous_judge = elim e.claim [ none ↦ e.previous_judge | some claim ↦ returned_judge e claim ];
}

abbrev skipped : NodeExecution → Bool → Bool
skipped e skip = skip && not e.role_boundary_prepared

pub reworked_execution : NodeExecution → Text → (skip replace : Bool) → (ℕ → String) → NodeExecution
unfolding returned_material
reworked_execution e context skip replace token = record (returned_material e) {
  claim = none;
  judge = none;
  judge_auto_retried = false;
  phase = ready;
  role_boundary_prepared = e.role_boundary_prepared || skip || replace;
  input_version = suc e.input_version;
  resolution = some (record {
    target = ResolutionTarget.actor;
    context = some context;
    skip_compact = skipped e skip;
    decision = none;
    failover = none;
    judge_mode = none;
    judge_session_id = none;
    input_version = suc e.input_version;
  });
  restart_pending = false;
  block_reason = none;
  node_token = token 2;
}

-- A session that is gone is replaced.
pub replaced_run : RunState → String → Bool → RunState
replaced_run run role replace = record run {
  role_actors = if replace then remove role run.role_actors else run.role_actors;
}

pub commit_reworked :
    RuntimeRow
    → String
    → Text
    → (skip replace : Bool) → List ExecutionChange
    → ResumeAnswers
    → Reply
unfolding reworked_execution replaced_run
commit_reworked row role context skip replace owners answers =
    let run = retokened_run (replaced_run row.run role replace) (answers.fresh_token 2) in
    let e = reworked_execution row.execution context skip replace answers.fresh_token in
    record {
      outcome = EngineOutcome.accepted (some run) "resume actor committed; driver invoked";
      acts =
          put run row.version
              (change e (EventType.manager_context ∷ EventType.resumed ∷ []) ∷ owners)
            ∷ retires row.execution
          ++ drive ∷ [];
    }

pub rework_drained :
    RuntimeRow
    → String
    → Text
    → (skip replace : Bool) → List ExecutionChange
    → Result (Unit {0})
    → ResumeAnswers
    → Reply
unfolding commit_reworked
rework_drained row role context skip replace owners (err message) answers = reject message
rework_drained row role context skip replace owners (ok _) answers =
    commit_reworked row role context skip replace owners answers

-- The claim of which the Judge is drained: the current one, or the earlier one.
abbrev pub related_claim : NodeExecution → Option String
related_claim e = or_some (opt_map (λ c. c.id) e.claim) (opt_map (λ c. c.id) e.previous_claim)

unfoldable pub resume_actor :
    RuntimeRow
    → String
    → Text
    → (skip replace : Bool) → List ExecutionChange
    → ResumeAnswers
    → Reply
unfolding rework_drained
resume_actor row role context skip replace owners answers =
    if not (may_return row.execution)
    then reject "actor resume would overwrite a transferable conclusion"
    else let old = judge_of_claim row.execution (related_claim row.execution) in
      after_acts (drains old) (
        rework_drained row role context skip replace owners
          (drained_then old "stale actor resume request after Judge drain" answers) answers)
