-- ===== src/Engine/Manager/Rejudging.antt =====
-- src/engine/engine.ts, `handleResume`: how a recovery goes back to the Judge. It continues the session of a
-- Judge where that is safe, and closes it and starts a fresh one otherwise.
pub mod Keeps
pub mod Sessions
use dsh_workflow_plugin.Prelude.{
  ℕ, suc, String, Text, text_eq, Bool, true, false, ◌&&◌, ◌||◌, not, ◌==◌, Option, none, some,
  is_some, is_none, or_some, opt_eq, List, [], ◌∷◌, ◌++◌, lookup, Result, ok, err, if◌then◌else◌,
}
use dsh_workflow_plugin.Types.Routes.{Route}
use dsh_workflow_plugin.Types.Execution.{
  NodeExecution, ExecutionClaim, ExecutionDispatch, ExecutionJudge, ExecutionJudgment,
  ExecutionResolution, ResolutionTarget, JudgeMode, fresh, followup, EventType,
}
use dsh_workflow_plugin.Types.Run.{RunState}
use dsh_workflow_plugin.State.Tests.{is_checking, is_need_context, has_current}
use dsh_workflow_plugin.Roles.{resolve_role_model}
use dsh_workflow_plugin.Engine.Base.{
  RuntimeRow, EngineOutcome, Act, put, drive, forget_dispatch, Reply, reject, change, retoken_top,
}
use dsh_workflow_plugin.Types.Execution.{ExecutionChange}
use dsh_workflow_plugin.Engine.Judges.{new_judge}
use dsh_workflow_plugin.Engine.TurnEnd.{settled_actor}
use dsh_workflow_plugin.Engine.Manager.Models.{
  SessionIdleVerdict, cold_safe, safety_stale, activity_stale, IdleProbe, probe_session_idle,
}
use dsh_workflow_plugin.Engine.Manager.Ending.{retires}
use dsh_workflow_plugin.Engine.Manager.Recovery.{
  named_by, current_feedback, is_accepted, is_settled, judge_of_claim, feedback_judge, resumed_run,
  after_acts, drains,
}

-- What is read and answered during a recovery.
pub record ResumeAnswers : Type 0 where
  -- The store's executions, and a bound on how many there are.
  pub stored : String → Option NodeExecution
  pub rounds : ℕ
  pub same_after_predecessor : Bool
  pub role_probe : IdleProbe
  pub role_missing : Bool
  pub same_after_role : Bool
  -- Whether the row is the same after the drain; the drain itself may fail.
  pub drained : Result Bool
  pub judge_missing : Bool
  pub same_after_judge : Bool
  pub judge_probe : IdleProbe
  pub fresh_token : ℕ → String

-- Whose session the Judge at the next input has.
pub data JudgeRecovery : Type 0 where
  continues : (session : String) → JudgeRecovery
  starts_fresh : JudgeRecovery

-- The earlier Judge of this claim has asked for context.
pub historical_feedback : NodeExecution → ExecutionClaim → Bool
historical_feedback e claim = elim e.previous_judge [
  | none ↦ false
  | some k ↦ elim e.judgment [
    | none ↦ false
    | some j ↦ is_need_context j.result && k.claim_id == claim.id && named_by j k
  ]
]

unfoldable pub judge_to_continue : NodeExecution → ExecutionClaim → Option ExecutionJudge
unfolding historical_feedback
judge_to_continue e claim =
    if current_feedback e claim
    then e.judge
    else if historical_feedback e claim && is_none e.judge
    then e.previous_judge
    else if e.restart_pending && is_some e.judge && not (has_current e)
    then e.judge
    else none

unfoldable pub continued_judge : NodeExecution → ExecutionClaim → Option ExecutionJudge
unfolding judge_to_continue
continued_judge e claim =
    if e.restart_pending || current_feedback e claim then judge_to_continue e claim else none

-- The Judge is bound to another route than the run resolves now.
unfoldable pub route_changed : RunState → ExecutionJudge → Bool
route_changed run k = elim k.model [
  | none ↦ is_some (lookup "judge" run.model_overrides)
  | some bound ↦
      let current = resolve_role_model run "judge" run.delegation_route in
      not (opt_eq text_eq bound.provider current.provider)
      || not (opt_eq text_eq bound.model_id current.model_id)
      || not (opt_eq text_eq bound.reasoning_effort current.reasoning_effort)
]

-- `drainJudgeAndRevalidate`, where there is a Judge to drain.
pub drained_then : Option ExecutionJudge → String → ResumeAnswers → Result (Unit {0})
drained_then none stale answers = ok tt
drained_then (some k) stale answers = elim answers.drained [
  | err _ ↦ err "Judge drain failed"
  | ok false ↦ err stale
  | ok true ↦ ok tt
]

pub then_fresh : Result (Unit {0}) → Result JudgeRecovery
then_fresh (err message) = err message
then_fresh (ok _) = ok starts_fresh

unfoldable pub continue_probed :
    NodeExecution → ExecutionJudge → SessionIdleVerdict → Result JudgeRecovery
continue_probed e k safety_stale = err "stale judge resume request after Judge safety inspection"
continue_probed e k activity_stale =
    err "stale judge resume request after Judge activity inspection"
continue_probed e k SessionIdleVerdict.active = err "previous Judge turn is not safely closed"
continue_probed e k cold_safe =
    if e.restart_pending
    then ok (continues k.session_id)
    else err "previous Judge turn is not safely closed"
continue_probed e k SessionIdleVerdict.safe = ok (continues k.session_id)

pub replace_judge : NodeExecution → ExecutionJudge → ResumeAnswers → List Act × Result JudgeRecovery
unfolding then_fresh
replace_judge e k answers =
    let old = or_some e.judge (some k) in
    (
      drains old,
      then_fresh (drained_then old "stale judge resume request after missing Judge drain" answers),
    )

unfoldable pub continue_judge :
    RunState → NodeExecution → ExecutionJudge → ResumeAnswers → List Act × Result JudgeRecovery
unfolding continue_probed replace_judge
continue_judge run e k answers =
    if route_changed run k
    then replace_judge e k answers
    else if not answers.same_after_judge
    then ([], err "stale judge resume request after Judge Session inspection")
    else if answers.judge_missing
    then replace_judge e k answers
    else ([], continue_probed e k (probe_session_idle answers.judge_probe))

unfoldable pub recover_judge :
    RunState → NodeExecution → ExecutionClaim → ResumeAnswers → List Act × Result JudgeRecovery
unfolding continued_judge continue_judge then_fresh
recover_judge run e claim answers = elim (continued_judge e claim) [
  | some k ↦ continue_judge run e k answers
  | none ↦
      let old = judge_of_claim e (some claim.id) in
      (
        drains old,
        then_fresh (drained_then old "stale judge resume request after Judge drain" answers),
      )
]

abbrev mode_of : JudgeRecovery → JudgeMode
mode_of (continues session) = followup
mode_of starts_fresh = fresh

abbrev session_of_recovery : JudgeRecovery → Option String
session_of_recovery (continues session) = some session
session_of_recovery starts_fresh = none

abbrev session_or : JudgeRecovery → String → String
session_or (continues session) other = session
session_or starts_fresh other = other

abbrev pub judge_resolution : Text → ℕ → JudgeRecovery → ExecutionResolution
judge_resolution context version recovery = record {
  target = ResolutionTarget.judge;
  context = some context;
  skip_compact = false;
  decision = none;
  failover = none;
  judge_mode = some (mode_of recovery);
  judge_session_id = session_of_recovery recovery;
  input_version = version;
}

pub rejudged_execution :
    RunState → NodeExecution → ExecutionClaim → Text → JudgeRecovery → (ℕ → String) → NodeExecution
rejudged_execution run e claim context recovery token = record (settled_actor e) {
  input_version = suc e.input_version;
  previous_judge = feedback_judge e claim;
  judge =
      some (new_judge run claim (suc e.input_version) (token 0) (session_or recovery (token 1)));
  judge_auto_retried = false;
  resolution = some (judge_resolution context (suc e.input_version) recovery);
  restart_pending = false;
  block_reason = none;
  node_token = token 2;
}

abbrev pub retokened_run : RunState → String → RunState
retokened_run run token = record (resumed_run run) { call_stack = retoken_top token run.call_stack }

pub commit_rejudged :
    RuntimeRow
    → ExecutionClaim
    → Text
    → List ExecutionChange
    → JudgeRecovery
    → ResumeAnswers
    → Reply
unfolding rejudged_execution
commit_rejudged row claim context owners recovery answers =
    let run = retokened_run row.run (answers.fresh_token 2) in
    let e = rejudged_execution row.run row.execution claim context recovery answers.fresh_token in
    record {
      outcome = EngineOutcome.accepted (some run) "resume judge committed; driver invoked";
      acts =
          put run row.version (
              change e
                (EventType.manager_context ∷ EventType.resumed ∷ EventType.judge_arranged ∷ [])
              ∷ owners)
            ∷ retires row.execution
          ++ drive ∷ [];
    }

pub rejudge_recovered :
    RuntimeRow
    → ExecutionClaim
    → Text
    → List ExecutionChange
    → List Act × Result JudgeRecovery
    → ResumeAnswers
    → Reply
unfolding commit_rejudged
rejudge_recovered row claim context owners (acts, err message) answers = record (reject message) {
  acts = acts;
}
rejudge_recovered row claim context owners (acts, ok recovery) answers =
    after_acts acts (commit_rejudged row claim context owners recovery answers)

-- An open dispatch is closed on the word of the Manager.
abbrev pub forgets : ExecutionDispatch → List Act
forgets d = if d.settled then [] else forget_dispatch d.session_id (some d.id) ∷ []

unfoldable pub resume_judge : RuntimeRow → Text → List ExecutionChange → ResumeAnswers → Reply
unfolding recover_judge rejudge_recovered
resume_judge row context owners answers = elim row.execution.claim [
  | none ↦ reject "judge resume requires an effective claim without a business conclusion"
  | some claim ↦ elim row.execution.dispatch [
    | none ↦ reject "judge resume requires an effective claim without a business conclusion"
    | some d ↦
        if not (is_checking row.execution.phase) || is_accepted row.execution.judgment
        then reject "judge resume requires an effective claim without a business conclusion"
        else after_acts (forgets d) (
            rejudge_recovered row claim context owners
              (recover_judge row.run row.execution claim answers) answers)
  ]
]
