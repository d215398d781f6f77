-- ===== src/Engine/Manager/Resuming.antt =====
-- src/engine/engine.ts: `handleResume`. The Manager has a run go on that is blocked.
pub mod Keeps
use dsh_workflow_plugin.Prelude.{
  ℕ, suc, String, Text, trim, is_empty, ltb, length, Bool, true, false, ◌&&◌, ◌||◌, not, ◌==◌,
  Option, none, some, is_some, is_none, opt_bind, opt_map, opt_eq, List, [], ◌∷◌, ◌++◌, lookup,
  Result, ok, err, if◌then◌else◌,
}
use dsh_workflow_plugin.Types.Limits
use dsh_workflow_plugin.Types.Graph.{
  NodeDef, actor_task, builtin_program, child_workflow, ActorTaskNode,
}
use dsh_workflow_plugin.Types.Execution.{
  NodeExecution, ExecutionJudge, ExecutionResolution, ResolutionTarget, ResumeTarget, auto,
  EventType, ExecutionChange,
}
use dsh_workflow_plugin.Types.Run.{RunState, is_blocked}
use dsh_workflow_plugin.State.Tests.{is_ready, is_checking, is_exited, is_id_of}
use dsh_workflow_plugin.Engine.Base.{
  RuntimeRow, EngineOutcome, Act, put, drive, forget_dispatch, Reply, reject, change, current_node,
}
use dsh_workflow_plugin.Engine.Judges.{transfer_judge}
use dsh_workflow_plugin.Engine.TurnEnd.{settled_owner, forget_judge}
use dsh_workflow_plugin.Engine.Manager.Models.{
  SessionIdleVerdict, cold_safe, safety_stale, activity_stale, probe_session_idle,
}
use dsh_workflow_plugin.Engine.Manager.Recovery.{is_accepted, is_settled, after_acts}
use dsh_workflow_plugin.Engine.Manager.Rejudging.{ResumeAnswers, retokened_run, resume_judge}
use dsh_workflow_plugin.Engine.Manager.Returning.{resume_actor}

-- The owner of the Judge has left with an ACCEPT of its claim, and this execution came after it.
pub is_terminal_accepted : NodeExecution → ExecutionJudge → NodeExecution → Bool
is_terminal_accepted owner judge e =
    is_exited owner.phase && is_id_of e.execution_id owner.successor_id && (elim owner.judgment [
      | none ↦ false
      | some j ↦
          is_accepted (some j)
          && is_id_of j.claim_id (opt_map (λ c. c.id) owner.claim)
          && j.judge_dispatch_id == judge.id
    ])

-- The execution whose Judge is settled with this recovery, where its turn was cut off by a restart.
pub inspect_owner :
    NodeExecution → Bool → Option (NodeExecution × ExecutionJudge) → Result (Option NodeExecution)
inspect_owner e false transfer = err "stale resume request after predecessor inspection"
inspect_owner e true none = ok none
inspect_owner e true (some (owner, judge)) =
    if judge.settled
    then ok none
    else if e.restart_pending && is_terminal_accepted owner judge e
    then ok (some owner)
    else err "predecessor Judge is not safely settled; keep BLOCK until its activity is resolved"

pub recover_owner : NodeExecution → ResumeAnswers → Result (Option NodeExecution)
unfolding inspect_owner
recover_owner e answers = elim e.predecessor_id [
  | none ↦ ok none
  | some id ↦
      if is_ready e.phase
      then inspect_owner e answers.same_after_predecessor
          (transfer_judge answers.rounds answers.stored [] (answers.stored id))
      else ok none
]

abbrev pub owner_changes : Option NodeExecution → List ExecutionChange
owner_changes none = []
owner_changes (some owner) = change (settled_owner owner) [] ∷ []

abbrev pub owner_acts : Option NodeExecution → List Act
owner_acts none = []
owner_acts (some owner) = forget_judge owner ∷ []

abbrev pub is_auto : ResumeTarget → Bool
is_auto auto = true
is_auto _ = false

-- The caller of a child workflow that was not entered yet.
pub recalled_execution : NodeExecution → Text → String → NodeExecution
recalled_execution e context token = record e {
  input_version = suc e.input_version;
  resolution = some (record {
    target = ResolutionTarget.child;
    context = some context;
    skip_compact = false;
    decision = none;
    failover = none;
    judge_mode = none;
    judge_session_id = none;
    input_version = suc e.input_version;
  });
  restart_pending = false;
  block_reason = none;
  node_token = token;
}

pub resume_child : RuntimeRow → Text → ResumeTarget → List ExecutionChange → ResumeAnswers → Reply
unfolding recalled_execution
resume_child row context target owners answers =
    let run = retokened_run row.run (answers.fresh_token 0) in
    let e = recalled_execution row.execution context (answers.fresh_token 0) in
    if not (is_auto target) || not (is_ready row.execution.phase) || is_some row.execution.child
    then reject "Child resume requires an unentered ready caller and target=auto"
    else record {
      outcome = EngineOutcome.accepted (some run) "Child caller resume committed; driver invoked";
      acts =
          put run row.version
            (change e (EventType.manager_context ∷ EventType.resumed ∷ []) ∷ owners)
          ∷ drive
          ∷ [];
    }

-- `auto` takes the Judge where a claim waits for one, and the Actor otherwise.
pub targets_judge : NodeExecution → ResumeTarget → Bool
targets_judge e ResumeTarget.judge = true
targets_judge e ResumeTarget.actor = false
targets_judge e auto =
    is_checking e.phase && is_some e.claim && is_settled e && not (is_accepted e.judgment)

-- The session of the role must be closed; the result says whether it is replaced.
probed_role : Bool → ResumeAnswers → SessionIdleVerdict → Result Bool
probed_role to_actor answers safety_stale = err "stale resume request after Role safety inspection"
probed_role to_actor answers activity_stale =
    err "stale resume request after Role activity inspection"
probed_role to_actor answers SessionIdleVerdict.active =
    err "previous Role execution is not safely closed"
probed_role to_actor answers SessionIdleVerdict.safe = ok false
probed_role to_actor answers cold_safe =
    if to_actor
    then if answers.same_after_role
      then ok answers.role_missing
      else err "stale resume request after Role Session inspection"
    else ok false

pub close_role : RuntimeRow → String → Bool → ResumeAnswers → Result Bool
unfolding probed_role
close_role row role to_actor answers =
    if not (role == "manager")
      && is_some (lookup role row.run.role_actors)
      && (to_actor || not (is_settled row.execution))
    then probed_role to_actor answers (probe_session_idle answers.role_probe)
    else ok false

pub resume_task :
    RuntimeRow
    → ActorTaskNode
    → Text
    → Bool
    → Bool
    → List ExecutionChange
    → Result Bool
    → ResumeAnswers
    → Reply
unfolding resume_judge resume_actor
resume_task row node context skip to_judge owners (err message) answers = reject message
resume_task row node context skip true owners (ok replace) answers =
    resume_judge row context owners answers
resume_task row node context skip false owners (ok replace) answers =
    resume_actor row node.role context skip replace owners answers

pub resume_node :
    RuntimeRow → NodeDef → Text → ResumeTarget → Bool → List ExecutionChange → ResumeAnswers → Reply
unfolding resume_child resume_task close_role
resume_node row (child_workflow n) context target skip owners answers =
    resume_child row context target owners answers
resume_node row (builtin_program n) context target skip owners answers =
    reject "Program recovery requires node_run_program or node_resolve_program"
resume_node row (actor_task n) context target skip owners answers =
    let to_judge = targets_judge row.execution target in
    resume_task row n context skip to_judge owners (close_role row n.role (not to_judge) answers)
      answers

pub resume_recovered :
    RuntimeRow
    → NodeDef
    → Text
    → ResumeTarget
    → Bool
    → Result (Option NodeExecution)
    → ResumeAnswers
    → Reply
unfolding resume_node
resume_recovered row node context target skip (err message) answers = reject message
resume_recovered row node context target skip (ok owner) answers =
    after_acts (owner_acts owner)
      (resume_node row node context target skip (owner_changes owner) answers)

pub resume_owned : RuntimeRow → Text → ResumeTarget → Bool → ResumeAnswers → Reply
unfolding resume_recovered recover_owner
resume_owned row context target skip answers = elim (current_node row.run) [
  | none ↦ reject "resume target is not applicable to this execution"
  | some node ↦
      if is_exited row.execution.phase
      then reject "resume target is not applicable to this execution"
      else resume_recovered row node context target skip (recover_owner row.execution answers)
          answers
]

unfoldable pub resume_row :
    RuntimeRow → String → Text → String → ResumeTarget → Bool → ResumeAnswers → Reply
unfolding resume_owned
resume_row row token context caller target skip answers =
    if not (is_blocked row.run.status && row.execution.node_token == token)
    then reject "node_resume requires the current BLOCK/token"
    else if not (caller == row.run.manager_session_id)
    then reject "node_resume is Manager-only"
    else resume_owned row context target skip answers

unfoldable pub handle_resume :
    Option RuntimeRow → String → Text → String → ResumeTarget → Bool → ResumeAnswers → Reply
unfolding resume_row
handle_resume row token text caller target skip answers =
    if is_empty (trim text) || ltb Limits.resolution_max (length (trim text))
    then reject "invalid resolution context/target"
    else elim row [
      | none ↦ reject "node_resume requires the current BLOCK/token"
      | some r ↦ resume_row r token (trim text) caller target skip answers
    ]
