-- ===== src/Engine/Failover.antt =====
-- src/engine/engine.ts: `tryFailover` and `tryJudgeFailover`. A role that fails in a way that
-- another model may mend goes on along its routes, manual C, primary A, fallback B, and no further.
pub mod Rounds
pub mod Budget
pub mod Keeps
use dsh_workflow_plugin.Prelude.{
  ℕ, suc, ◌+◌, String, Text, codes, Bool, true, false, ◌&&◌, ◌||◌, not, ◌==◌, Option, none, some,
  is_some, is_none, or_else, opt_bind, opt_map, List, [], ◌∷◌, ◌++◌, lookup, put, remove, Assoc,
}
use dsh_workflow_plugin.Types.Routes.{
  Route, RoleRouteStage, primary, fallback, manual, RoleRouteState, same_model_route,
}
use dsh_workflow_plugin.Types.Graph.{NodeDef, actor_task}
use dsh_workflow_plugin.Types.Execution.{
  NodeExecution, ExecutionClaim, ExecutionDispatch, ExecutionJudge, ExecutionResolution,
  ResolutionTarget, Phase, ready, EventType,
}
use dsh_workflow_plugin.Types.Run.{RunState}
use dsh_workflow_plugin.State.Tests.{is_checking}
use dsh_workflow_plugin.Roles.{
  effective_role_route_stage, role_fallback_route, role_primary_route, resolve_role_model,
}
use dsh_workflow_plugin.Roles.Failures.{ActorFailureFacts, classify_actor_failure}
use dsh_workflow_plugin.Engine.Base.{
  RuntimeRow, Act, notify_node_event, retire_judge, forget_dispatch, drive, change, current_node,
}
use dsh_workflow_plugin.Engine.Base
use dsh_workflow_plugin.Engine.Judges.{arranged_judge, JudgeAnswers, dispatch_judge}

-- `FailoverVerdict`, with what a switch does.
pub data FailoverVerdict : Type 0 where
  switched : List Act → FailoverVerdict
  exhausted ineligible : FailoverVerdict

-- The next stage; from the fallback there is none.
unfoldable pub next_stage : RoleRouteStage → Option RoleRouteStage
next_stage manual = some primary
next_stage primary = some fallback
next_stage fallback = none

abbrev pub is_manual : RoleRouteStage → Bool
is_manual manual = true
is_manual _ = false

-- The switches that this round has used.
unfoldable pub auto_switches : RunState → String → ℕ
auto_switches run role = or_else (opt_bind (lookup role run.role_routes) (λ s. s.auto_switches)) 0

-- A failure may be mended by another route: a fallback is there, it is another model, and the
-- failure is of a kind that another model may mend.
unfoldable pub may_switch : RunState → String → Option ActorFailureFacts → Bool
may_switch run role facts = elim (role_fallback_route run role) [
  | none ↦ false
  | some route ↦ is_some facts && (classify_actor_failure facts).eligible
]

unfoldable pub is_same_model : RunState → String → Bool
is_same_model run role = elim (role_fallback_route run role) [
  | none ↦ false
  | some route ↦ same_model_route (role_primary_route run role run.delegation_route) route
]

-- The stage and the budget of the round; leaving the manual route revokes the override.
unfoldable pub switched_routes :
    RunState → String → RoleRouteStage → RoleRouteStage → Text → RunState
unfolding auto_switches
switched_routes run role from to reason = record run {
  model_overrides = elim (is_manual from) [
    | true ↦ remove role run.model_overrides
    | false ↦ run.model_overrides
  ];
  role_routes =
      put role
        (record {
          stage = to;
          reason = some reason;
          auto_switches = some (suc (auto_switches run role));
        })
        run.role_routes;
}

abbrev pub settle_dispatch : Option ExecutionDispatch → Option ExecutionDispatch
settle_dispatch none = none
settle_dispatch (some d) = some (record d { settled = true })

-- The Actor starts anew on the next route, with the note on the switch.
pub switched_execution : NodeExecution → (decision note : Text) → NodeExecution
switched_execution e decision note = record e {
  dispatch = settle_dispatch e.dispatch;
  phase = ready;
  role_boundary_prepared = true;
  input_version = suc e.input_version;
  resolution = some (record {
    target = ResolutionTarget.actor;
    context = none;
    skip_compact = false;
    decision = some decision;
    failover = some note;
    judge_mode = none;
    judge_session_id = none;
    input_version = suc e.input_version;
  });
}

-- The texts that a switch writes down.
pub record SwitchTexts : Type 0 where
  pub reason : Text
  pub decision : Text
  pub note : Text

unfoldable pub switched_run : RunState → String → RoleRouteStage → RoleRouteStage → Text → RunState
unfolding switched_routes
switched_run run role from to reason =
    let moved = switched_routes run role from to reason in
    record moved { role_actors = remove role moved.role_actors }

unfoldable pub switch_actor :
    RuntimeRow → String → RoleRouteStage → RoleRouteStage → SwitchTexts → FailoverVerdict
unfolding switched_run switched_execution
switch_actor row role from to texts =
    let run = switched_run row.run role from to texts.reason in
    let e = switched_execution row.execution texts.decision texts.note in
    switched (
      Base.put run row.version (change e (EventType.model_changed ∷ []) ∷ [])
      ∷ forget_dispatch (opt_bind row.execution.dispatch (λ d. d.session_id))
          (opt_map (λ d. d.id) row.execution.dispatch)
      ∷ notify_node_event run e
      ∷ drive
      ∷ [])

-- After the tests on the execution: exhausted at the fallback, else the next stage.
unfoldable pub switch_from :
    RunState
    → String
    → Option ActorFailureFacts
    → (RoleRouteStage → RoleRouteStage → FailoverVerdict)
    → FailoverVerdict
switch_from run role facts go = elim (may_switch run role facts) [
  | false ↦ ineligible
  | true ↦ elim (next_stage (effective_role_route_stage run role)) [
    | none ↦ exhausted
    | some next ↦ elim (is_same_model run role) [
      | true ↦ ineligible
      | false ↦ go (effective_role_route_stage run role) next
    ]
  ]
]

unfoldable pub try_role :
    RuntimeRow → String → Option ActorFailureFacts → SwitchTexts → FailoverVerdict
unfolding switch_from switch_actor
try_role row role facts texts = elim (role == "manager" || is_some row.execution.claim) [
  | true ↦ ineligible
  | false ↦ switch_from row.run role facts (λ from to. switch_actor row role from to texts)
]

unfoldable pub try_failover : RuntimeRow → Option ActorFailureFacts → SwitchTexts → FailoverVerdict
unfolding try_role
try_failover row facts texts = elim (current_node row.run) [
  | some (actor_task n) ↦ try_role row n.role facts texts
  | _ ↦ ineligible
]

-- The route of a stage: the primary, or the fallback.
unfoldable pub target_route : RunState → String → RoleRouteStage → Route
target_route run role fallback =
    or_else (role_fallback_route run role) (role_primary_route run role run.delegation_route)
target_route run role _ = role_primary_route run role run.delegation_route

-- A new Judge on the next route judges the same claim at the same input.
unfoldable pub switched_judge :
    NodeExecution → RunState → ExecutionClaim → RoleRouteStage → (ℕ → String) → NodeExecution
unfolding target_route
switched_judge e run claim to fresh = record e {
  judge =
      some
        (arranged_judge (target_route run "judge" to) to claim e.input_version (fresh 0) (fresh 1));
}

unfoldable pub switch_judge :
    RuntimeRow
    → ExecutionClaim
    → ExecutionJudge
    → (ℕ → String)
    → JudgeAnswers
    → SwitchTexts
    → RoleRouteStage
    → RoleRouteStage
    → FailoverVerdict
unfolding switched_routes switched_judge
switch_judge row claim judge fresh answers texts from to =
    let run = switched_routes row.run "judge" from to texts.reason in
    let e = switched_judge row.execution row.run claim to fresh in
    let arranged =
      arranged_judge (target_route row.run "judge" to) to claim e.input_version (fresh 0)
        (fresh 1) in
    switched (
      Base.put run row.version
        (change e (EventType.model_changed ∷ EventType.judge_arranged ∷ []) ∷ [])
      ∷ forget_dispatch (some judge.session_id) (some judge.id)
      ∷ retire_judge judge.session_id
      ∷ notify_node_event run e
      ∷ dispatch_judge e arranged (suc row.version) (codes "judge failover dispatch failed")
          answers)

unfoldable pub try_judge_failover :
    RuntimeRow
    → Option ActorFailureFacts
    → (ℕ → String)
    → JudgeAnswers
    → SwitchTexts
    → FailoverVerdict
unfolding switch_from switch_judge
try_judge_failover row facts fresh answers texts = elim (is_checking row.execution.phase) [
  | false ↦ ineligible
  | true ↦ elim row.execution.claim [
    | none ↦ ineligible
    | some claim ↦ elim row.execution.judge [
      | none ↦ ineligible
      | some judge ↦
          switch_from row.run "judge" facts (switch_judge row claim judge fresh answers texts)
    ]
  ]
]
