-- ===== src/Engine/TurnEnd/Keeps.antt =====
-- The executions that the end of a turn writes, and the failovers that it starts.
use dsh_workflow_plugin.Prelude.{
  ℕ, String, is_empty, true, false, ◌||◌, ◌==◌, Option, none, some, is_some, [], ◌≡◌, refl, arith,
  sym, ◌∙◌, Bool-cases, Option-cases, inl, inr,
}
use dsh_workflow_plugin.Types.Routes.{RoleRouteStage}
use dsh_workflow_plugin.Types.Graph.{
  NodeDef, ActorTaskNode, actor_task, builtin_program, child_workflow,
}
use dsh_workflow_plugin.Types.Execution.{NodeExecution, ExecutionClaim, ExecutionJudge, working}
use dsh_workflow_plugin.Types.Run.{RunState}
use dsh_workflow_plugin.State.Tests.{node_in, has_current, has_actor_materials, is_checking}
use dsh_workflow_plugin.State.Checks.{
  position_problems, kind_problems, exit_problems, binding_problems, judgment_problems,
  resolution_problems, phase_problems,
}
use dsh_workflow_plugin.State.Valid.{IsConsistent}
use dsh_workflow_plugin.Roles.{effective_role_route_stage}
use dsh_workflow_plugin.Roles.Failures.{ActorFailureFacts}
use dsh_workflow_plugin.Engine.Base.{RuntimeRow, change, current_node}
use dsh_workflow_plugin.Engine.Writes.{EachWrite, IsConsistentRow, IsConsistent-same_run}
use dsh_workflow_plugin.Engine.Judges.{JudgeAnswers, arranged_judge}
use dsh_workflow_plugin.Engine.Judges.Keeps.{dispatch_judge-IsConsistent}
use dsh_workflow_plugin.Engine.Failover.{
  FailoverVerdict, switched, exhausted, ineligible, SwitchTexts, switch_actor, switch_from,
  try_role, try_failover, may_switch, next_stage, is_same_model, switched_run, switched_routes,
  switched_judge, switch_judge, try_judge_failover, target_route,
}
use dsh_workflow_plugin.Engine.Failover.Keeps.{
  switched-IsConsistent, rejudged-IsConsistent, continues_none,
}
use dsh_workflow_plugin.Engine.TurnEnd.{settled_actor}

module _ (run : RunState) (e : NodeExecution) (v : IsConsistent run e) where
  settled_actor-binding : binding_problems (settled_actor e) ≡ []
  unfolding binding_problems settled_actor
  settled_actor-binding = ground (arith, v.binding)

  settled_actor_kind :
      (n : Option NodeDef) → kind_problems n e ≡ [] → kind_problems n (settled_actor e) ≡ []
  unfolding kind_problems has_actor_materials settled_actor
  settled_actor_kind none h = refl
  settled_actor_kind (some (actor_task n)) h = refl
  settled_actor_kind (some (builtin_program n)) h = ground (arith, h)
  settled_actor_kind (some (child_workflow n)) h = ground (arith, h)

  pub settled_actor-IsConsistent : IsConsistent run (settled_actor e)
  unfolding settled_actor position_problems exit_problems judgment_problems resolution_problems
      phase_problems has_current
  settled_actor-IsConsistent = record {
    position = v.position;
    kind = settled_actor_kind (node_in run e.workflow_id e.node_id) v.kind;
    exit = v.exit;
    binding = settled_actor-binding;
    judgment = v.judgment;
    resolution = v.resolution;
    phase = v.phase;
  }

-- What a failover writes is consistent; the other verdicts write nothing.
abbrev pub EachSwitch : FailoverVerdict → Type 0
EachSwitch (switched acts) = EachWrite IsConsistent acts
EachSwitch exhausted = Unit {0}
EachSwitch ineligible = Unit {0}

switch_from-EachSwitch :
    (run : RunState) (role : String) (facts : Option ActorFailureFacts)
    (go : RoleRouteStage → RoleRouteStage → FailoverVerdict)
    → ((from to : RoleRouteStage) → EachSwitch (go from to))
    → EachSwitch (switch_from run role facts go)
unfolding switch_from
switch_from-EachSwitch run role facts go h = elim (Bool-cases (may_switch run role facts)) [
  | inr refused ↦ rw (refused, switch_from) tt
  | inl may ↦ elim (Option-cases (next_stage (effective_role_route_stage run role))) [
    | inl last ↦ rw (may, last, switch_from) tt
    | inr (next, step) ↦ elim (Bool-cases (is_same_model run role)) [
      | inl same ↦ rw (may, step, same, switch_from) tt
      | inr other ↦
          rw (may, step, other, switch_from) (h (effective_role_route_stage run role) next)
    ]
  ]
]

module _ (row : RuntimeRow) (v : IsConsistentRow row) (facts : Option ActorFailureFacts)
    (texts : SwitchTexts) (said : is_empty texts.decision ≡ false)
    (here : current_node row.run
      ≡ node_in row.run row.execution.workflow_id row.execution.node_id) where
  switch_actor-EachSwitch :
      (n : ActorTaskNode) (role : String) (from to : RoleRouteStage)
      → current_node row.run ≡ some (actor_task n)
      → row.execution.phase ≡ working
      → row.execution.claim ≡ none
      → EachSwitch (switch_actor row role from to texts)
  unfolding switch_actor switched_run switched_routes change
  switch_actor-EachSwitch n role from to at w nc = (
    (
      IsConsistent-same_run row.run (switched_run row.run role from to texts.reason) refl refl refl
          _
          (switched-IsConsistent row.run row.execution texts.decision texts.note v w nc said n
            (sym here ∙ at)),
      tt,
    ),
    tt,
  )

  try_role-EachSwitch :
      (n : ActorTaskNode) (role : String)
      → current_node row.run ≡ some (actor_task n)
      → row.execution.phase ≡ working
      → EachSwitch (try_role row role facts texts)
  unfolding try_role
  try_role-EachSwitch n role at w = elim (Option-cases row.execution.claim) [
    | inl nc ↦ elim (Bool-cases (role == "manager" || is_some row.execution.claim)) [
      | inl refused ↦ rw (refused, try_role) tt
      | inr free ↦
          rw (free, try_role)
            (switch_from-EachSwitch row.run role facts
              (λ from to. switch_actor row role from to texts)
              (λ from to. switch_actor-EachSwitch n role from to at w nc))
    ]
    | inr (c, claimed) ↦ elim (Bool-cases (role == "manager" || is_some row.execution.claim)) [
      | inl refused ↦ rw (refused, try_role) tt
      | inr free ↦ absurd (contradicts role c claimed free)
    ]
  ]
    where
      contradicts :
          (role : String) (c : ExecutionClaim)
          → row.execution.claim ≡ some c
          → (role == "manager" || is_some row.execution.claim) ≡ false
          → ⊥
      contradicts role c claimed free = ground arith

  pub try_failover-EachSwitch :
      row.execution.phase ≡ working → EachSwitch (try_failover row facts texts)
  unfolding try_failover
  try_failover-EachSwitch w = go (current_node row.run) refl
    where
      go :
          (n : Option NodeDef)
          → current_node row.run ≡ n
          → EachSwitch (try_failover row facts texts)
      go none e = rw (e, try_failover) tt
      go (some (actor_task n)) e = rw (e, try_failover) (try_role-EachSwitch n n.role e w)
      go (some (builtin_program n)) e = rw (e, try_failover) tt
      go (some (child_workflow n)) e = rw (e, try_failover) tt

module _ (row : RuntimeRow) (v : IsConsistentRow row) (facts : Option ActorFailureFacts)
    (fresh : ℕ → String) (answers : JudgeAnswers) (texts : SwitchTexts)
    (first : has_current row.execution ≡ false)
    (free : continues_none row.execution.resolution ≡ true)
    (after : (r : RuntimeRow) → answers.after ≡ some r → IsConsistentRow r)
    (at_fault : (r : RuntimeRow) → answers.at_fault ≡ some r → IsConsistentRow r) where
  switch_judge-EachSwitch :
      (c : ExecutionClaim) (j : ExecutionJudge)
      → row.execution.claim ≡ some c
      → (from to : RoleRouteStage) → EachSwitch (switch_judge row c j fresh answers texts from to)
  unfolding switch_judge switched_judge switched_routes change arranged_judge target_route
  switch_judge-EachSwitch c j hc from to =
      let next =
        arranged_judge (target_route row.run "judge" to) to c row.execution.input_version (fresh 0)
          (fresh 1) in
      (
        (
          IsConsistent-same_run row.run (switched_routes row.run "judge" from to texts.reason) refl
              refl refl _
              (rejudged-IsConsistent row.run row.execution c next row.execution.judge_auto_retried v
                hc refl refl first free),
          tt,
        ),
        dispatch_judge-IsConsistent _ _ _ _ answers after at_fault,
      )

  pub try_judge_failover-EachSwitch : EachSwitch (try_judge_failover row facts fresh answers texts)
  unfolding try_judge_failover
  try_judge_failover-EachSwitch = elim (Bool-cases (is_checking row.execution.phase)) [
    | inr other ↦ rw (other, try_judge_failover) tt
    | inl checks ↦ elim (Option-cases row.execution.claim) [
      | inl unclaimed ↦ rw (checks, unclaimed, try_judge_failover) tt
      | inr (c, hc) ↦ elim (Option-cases row.execution.judge) [
        | inl no_judge ↦ rw (checks, hc, no_judge, try_judge_failover) tt
        | inr (j, hj) ↦
            rw (checks, hc, hj, try_judge_failover)
              (switch_from-EachSwitch row.run "judge" facts
                (switch_judge row c j fresh answers texts) (switch_judge-EachSwitch c j hc))
      ]
    ]
  ]
