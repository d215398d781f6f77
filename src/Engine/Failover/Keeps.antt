-- ===== src/Engine/Failover/Keeps.antt =====
-- The executions that a switch, and a retry of the Judge, write.
use dsh_workflow_plugin.Prelude.{
  Text, is_empty, Bool, true, false, not, Option, none, some, [], ◌≡◌, refl, arith, eq_refl,
}
use dsh_workflow_plugin.Types.Graph.{
  NodeDef, ActorTaskNode, actor_task, builtin_program, child_workflow,
}
use dsh_workflow_plugin.Types.Execution.{
  NodeExecution, ExecutionClaim, ExecutionJudge, ExecutionResolution, working,
}
use dsh_workflow_plugin.Types.Run.{RunState}
use dsh_workflow_plugin.State.Tests.{node_in, workflow_def, has_current, has_actor_materials}
use dsh_workflow_plugin.State.Checks.{
  position_problems, kind_problems, exit_problems, binding_problems, judgment_problems,
  resolution_problems, phase_problems, is_followup,
}
use dsh_workflow_plugin.State.Valid.{IsConsistent}
use dsh_workflow_plugin.Engine.Failover.{switched_execution}

module _ (run : RunState) (e : NodeExecution) (decision note : Text) (v : IsConsistent run e)
    (w : e.phase ≡ working) (nc : e.claim ≡ none) (said : is_empty decision ≡ false) where
  switched-exit :
      exit_problems
        (workflow_def run e.workflow_id)
        (node_in run e.workflow_id e.node_id)
        (switched_execution e decision note)
      ≡ []
  unfolding exit_problems switched_execution
  switched-exit = ground (arith, v.exit)

  switched-position :
      position_problems
        (node_in run e.workflow_id e.node_id)
        run.run_id
        e.workflow_id
        (switched_execution e decision note)
      ≡ []
  unfolding position_problems switched_execution
  switched-position = ground (arith, v.position)

  switched-binding : binding_problems (switched_execution e decision note) ≡ []
  unfolding binding_problems switched_execution
  switched-binding = ground (arith, v.binding)

  switched-judgment : judgment_problems (switched_execution e decision note) ≡ []
  unfolding judgment_problems binding_problems switched_execution has_current
  switched-judgment = ground (arith, v.judgment)

  switched-resolution : resolution_problems (switched_execution e decision note) ≡ []
  unfolding resolution_problems switched_execution has_current
  switched-resolution = ground arith

  switched-phase : phase_problems (switched_execution e decision note) ≡ []
  unfolding phase_problems switched_execution
  switched-phase = refl

  switched_kind :
      (n : ActorTaskNode)
      → kind_problems (some (actor_task n)) (switched_execution e decision note) ≡ []
  unfolding kind_problems
  switched_kind n = refl

  pub switched-IsConsistent :
      (n : ActorTaskNode)
      → node_in run e.workflow_id e.node_id ≡ some (actor_task n)
      → IsConsistent run (switched_execution e decision note)
  unfolding switched_execution
  switched-IsConsistent n at = record {
    position = switched-position;
    kind = rw at (switched_kind n);
    exit = switched-exit;
    binding = switched-binding;
    judgment = switched-judgment;
    resolution = switched-resolution;
    phase = switched-phase;
  }

-- Another Judge for the claim.
abbrev pub rejudged : NodeExecution → ExecutionJudge → Bool → NodeExecution
rejudged e j retried = record e { judge = some j; judge_auto_retried = retried }

-- The recovery at hand does not continue the session of a Judge.
abbrev pub continues_none : Option ExecutionResolution → Bool
continues_none none = true
continues_none (some r) = not (is_followup r.judge_mode)

module _ (run : RunState) (e : NodeExecution) (c : ExecutionClaim) (j : ExecutionJudge)
    (retried : Bool) (v : IsConsistent run e) (hc : e.claim ≡ some c) (id : j.claim_id ≡ c.id)
    (version : j.input_version ≡ e.input_version) (first : has_current e ≡ false)
    (free : continues_none e.resolution ≡ true) where
  rejudged-binding : binding_problems (rejudged e j retried) ≡ []
  unfolding binding_problems
  rejudged-binding = ground (arith, v.binding, eq_refl c.id)

  rejudged-judgment : judgment_problems (rejudged e j retried) ≡ []
  unfolding judgment_problems has_current
  rejudged-judgment = ground (arith, v.judgment)

  rejudged-resolution : resolution_problems (rejudged e j retried) ≡ []
  unfolding resolution_problems has_current
  rejudged-resolution = ground (arith, v.resolution)

  rejudged_kind :
      (n : Option NodeDef) → kind_problems n e ≡ [] → kind_problems n (rejudged e j retried) ≡ []
  unfolding kind_problems has_actor_materials
  rejudged_kind none h = refl
  rejudged_kind (some (actor_task n)) h = refl
  rejudged_kind (some (builtin_program n)) h = ground (arith, h)
  rejudged_kind (some (child_workflow n)) h = ground (arith, h)

  pub rejudged-IsConsistent : IsConsistent run (rejudged e j retried)
  unfolding position_problems exit_problems phase_problems
  rejudged-IsConsistent = record {
    position = v.position;
    kind = rejudged_kind (node_in run e.workflow_id e.node_id) v.kind;
    exit = v.exit;
    binding = rejudged-binding;
    judgment = rejudged-judgment;
    resolution = rejudged-resolution;
    phase = v.phase;
  }
