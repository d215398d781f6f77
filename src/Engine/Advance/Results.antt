-- ===== src/Engine/Advance/Results.antt =====
-- The confirmed result of a claim is followed, or the run stops for the Manager; either way what is
-- written is consistent.
use dsh_workflow_plugin.Prelude.{
  ℕ, String, Text, codes, Option, none, some, List, [], ◌∷◌, ◌≡◌, refl, arith, subst, EachOk,
  Option-cases, inl, inr,
}
use dsh_workflow_plugin.Types.Graph.{
  NodeDef, actor_task, builtin_program, child_workflow, ResultDef, Target,
}
use dsh_workflow_plugin.Types.Execution.{
  NodeExecution, ExecutionClaim, CallFrame, checking, settling, EventType,
}
use dsh_workflow_plugin.Types.Run.{RunState, blocked}
use dsh_workflow_plugin.State.Tests.{node_in, workflow_def, has_current, has_actor_materials}
use dsh_workflow_plugin.State.Checks.{
  position_problems, kind_problems, exit_problems, binding_problems, judgment_problems,
  resolution_problems, phase_problems,
}
use dsh_workflow_plugin.State.Valid.{IsConsistent}
use dsh_workflow_plugin.Engine.Base.{RuntimeRow, change, current_node, result_def_of, block_reason}
use dsh_workflow_plugin.Engine.Writes.{EachWrite, IsConsistentRow, IsConsistent-same_run}
use dsh_workflow_plugin.Engine.Advance.{advance_known_result, unroutable, Decided, decided_target}
use dsh_workflow_plugin.Engine.Returns.{exit_execution}
use dsh_workflow_plugin.Engine.Advance.Leaving.{IsRoute, exited-IsConsistent, result_def-declared}
use dsh_workflow_plugin.Engine.Advance.Climbing.{IsRoutedRun}
use dsh_workflow_plugin.Engine.Advance.Keeps.{IsPlaced, advance_along-IsConsistent}

-- The execution that stops where its result has no target.
abbrev stuck : NodeExecution → Option Text → NodeExecution
stuck e reason = record e { phase = settling; block_reason = reason }

module _ (e : NodeExecution) (c : ExecutionClaim) (hc : e.claim ≡ some c) where
  -- A claim stands at an actor task only.
  left_kind :
      (now : String) (t : Target) (name : String) (n : Option NodeDef)
      → kind_problems n e ≡ []
      → kind_problems n (exit_execution e now t name) ≡ []
  unfolding kind_problems has_actor_materials
  left_kind now t name none h = refl
  left_kind now t name (some (actor_task m)) h = refl
  left_kind now t name (some (builtin_program m)) h = ground (arith, h)
  left_kind now t name (some (child_workflow m)) h = ground (arith, h)

  stuck_kind :
      (reason : Option Text) (n : Option NodeDef)
      → kind_problems n e ≡ []
      → kind_problems n (stuck e reason) ≡ []
  unfolding kind_problems has_actor_materials
  stuck_kind reason none h = refl
  stuck_kind reason (some (actor_task m)) h = refl
  stuck_kind reason (some (builtin_program m)) h = ground (arith, h)
  stuck_kind reason (some (child_workflow m)) h = ground (arith, h)

  module _ (run : RunState) (v : IsConsistent run e) (ph : e.phase ≡ checking) where
    stuck-exit :
        (reason : Option Text)
        → exit_problems
            (workflow_def run e.workflow_id)
            (node_in run e.workflow_id e.node_id)
            (stuck e reason)
          ≡ []
    unfolding exit_problems
    stuck-exit reason = ground (arith, v.exit)

    stuck-IsConsistent : (reason : Option Text) → IsConsistent run (stuck e reason)
    unfolding position_problems binding_problems judgment_problems resolution_problems
        phase_problems has_current
    stuck-IsConsistent reason = record {
      position = v.position;
      kind = stuck_kind reason (node_in run e.workflow_id e.node_id) v.kind;
      exit = stuck-exit reason;
      binding = v.binding;
      judgment = v.judgment;
      resolution = v.resolution;
      phase = refl;
    }

-- The node of the top frame is that of the execution.
pub placed_node :
    (run : RunState) (stored : String → Option NodeExecution) (e : NodeExecution)
    (frames : List CallFrame) (n : NodeDef)
    → run.call_stack ≡ frames
    → IsPlaced run stored e frames
    → current_node run ≡ some n
    → current_node run ≡ node_in run e.workflow_id e.node_id
unfolding current_node
placed_node run stored e [] n top placed h = ground arith
placed_node run stored e (f ∷ fs) n top placed h = rw (top, placed.0, placed.1) refl

-- A result has a node.
result_node :
    (node : Option NodeDef) (name : String) (d : ResultDef)
    → result_def_of node name ≡ some d
    → (n : NodeDef) × (node ≡ some n)
unfolding result_def_of
result_node none name d h = cc
result_node (some n) name d h = (n, refl)

-- A result of an execution that can leave by each of its routes, and can stop.
module _ (row : RuntimeRow) (stored : String → Option NodeExecution) (fresh : ℕ → String)
    (now : String) (placed : IsPlaced row.run stored row.execution row.run.call_stack)
    (routed : IsRoutedRun row.run)
    (leaves : (t : Target) (name : String)
      → IsRoute
          (workflow_def row.run row.execution.workflow_id)
          (node_in row.run row.execution.workflow_id row.execution.node_id)
          t
          name
      → IsConsistent row.run (exit_execution row.execution now t name))
    (stops : (reason : Option Text) → IsConsistent row.run (stuck row.execution reason)) where
  result_def-IsRoute :
      (name : String) (d : ResultDef)
      → result_def_of (current_node row.run) name ≡ some d
      → IsRoute
          (workflow_def row.run row.execution.workflow_id)
          (node_in row.run row.execution.workflow_id row.execution.node_id)
          d.target
          name
  result_def-IsRoute name d found =
      let at = result_node (current_node row.run) name d found in
      let here =
        placed_node row.run stored row.execution row.run.call_stack at.0 refl placed at.1 in
      let found_here = subst (λ x. result_def_of x name ≡ some d) here found in
      record {
        declared =
            result_def-declared (node_in row.run row.execution.workflow_id row.execution.node_id)
              name d found_here;
        target_valid =
            routed.results row.execution.workflow_id row.execution.node_id name d found_here;
      }

  unroutable-IsConsistent :
      (events : List EventType) → EachWrite IsConsistent (unroutable row events).acts
  unfolding unroutable change
  unroutable-IsConsistent events = (
    (
      IsConsistent-same_run row.run (record row.run { status = blocked }) refl refl refl _
          (stops (some (block_reason (codes "result has no configured Target")))),
      tt,
    ),
    tt,
  )

  pub result-IsConsistent :
      (name : String) (handoff : Text) (events : List EventType)
      → EachOk
          (λ r. EachWrite IsConsistent r.acts)
          (advance_known_result row stored fresh now Decided.result name handoff events)
  unfolding advance_known_result decided_target
  result-IsConsistent name handoff events =
      elim (Option-cases (result_def_of (current_node row.run) name)) [
        | inl unknown ↦
            rw (unknown, advance_known_result, decided_target) (unroutable-IsConsistent events)
        | inr (d, found) ↦
            let r = result_def-IsRoute name d found in
            rw (found, advance_known_result, decided_target)
              (advance_along-IsConsistent row stored fresh now d.target name handoff events placed
                routed (leaves d.target name r) r.target_valid)
      ]

module _ (row : RuntimeRow) (stored : String → Option NodeExecution) (c : ExecutionClaim)
    (placed : IsPlaced row.run stored row.execution row.run.call_stack)
    (routed : IsRoutedRun row.run) (v : IsConsistentRow row) (hc : row.execution.claim ≡ some c)
    (ph : row.execution.phase ≡ checking) where
  -- Take a row whose execution is consistent, checks a claim, stands at the top frame and has
  -- consistent callers, under a frozen definition whose edges all lead to nodes or returns of
  -- their workflows. Where `advance_known_result` returns for a result, every execution that it
  -- writes is consistent with the run that it writes, also where the result has no target and the
  -- run stops.
  pub advance_known_result-IsConsistent :
      (fresh : ℕ → String) (now name : String) (handoff : Text) (events : List EventType)
      → EachOk
          (λ r. EachWrite IsConsistent r.acts)
          (advance_known_result row stored fresh now Decided.result name handoff events)
  advance_known_result-IsConsistent fresh now name handoff events =
      result-IsConsistent row stored fresh now placed routed
        (λ t n r. exited-IsConsistent row.run row.execution now v t n r (
          left_kind row.execution c hc now t n
            (node_in row.run row.execution.workflow_id row.execution.node_id) v.kind))
        (λ reason. stuck-IsConsistent row.execution c hc row.run v ph reason) name handoff events
