-- ===== src/Engine/Program/Invoked.antt =====
-- The execution of a program node, with an invocation.
use dsh_workflow_plugin.Prelude.{
  String, Text, Bool, true, false, Option, some, [], ◌≡◌, refl, subst, arith,
}
use dsh_workflow_plugin.Types.Graph.{builtin_program, BuiltinProgramNode, Target}
use dsh_workflow_plugin.Types.Execution.{
  NodeExecution, ExecutionProgram, ProgramKind, ProgramOutcome, Phase, working, settling,
}
use dsh_workflow_plugin.Types.Run.{RunState}
use dsh_workflow_plugin.State.Tests.{
  node_in, workflow_def, has_current, has_actor_materials, has_result, is_exited,
}
use dsh_workflow_plugin.State.Checks.{
  position_problems, kind_problems, exit_problems, binding_problems, judgment_problems,
  resolution_problems, phase_problems,
}
use dsh_workflow_plugin.State.Valid.{IsConsistent}
use dsh_workflow_plugin.Engine.Advance.Leaving.{IsRoute, exited-exit}
use dsh_workflow_plugin.Engine.Returns.{exit_execution}

abbrev invoked :
    NodeExecution → ExecutionProgram → Phase → String → Bool → Option Text → NodeExecution
invoked e p phase token restart reason = record e {
  program = some p;
  phase = phase;
  node_token = token;
  restart_pending = restart;
  block_reason = reason;
}

-- It stands at a program and has not left.
module _ (run : RunState) (e : NodeExecution) (n : BuiltinProgramNode) (p : ExecutionProgram)
    (token : String) (restart : Bool) (reason : Option Text) (v : IsConsistent run e)
    (at : node_in run e.workflow_id e.node_id ≡ some (builtin_program n))
    (stays : is_exited e.phase ≡ false) where
  own : kind_problems (some (builtin_program n)) e ≡ []
  own = subst (λ o. kind_problems o e ≡ []) at v.kind

  invoked-position :
      (phase : Phase)
      → position_problems
          (node_in run e.workflow_id e.node_id)
          run.run_id
          e.workflow_id
          (invoked e p phase token restart reason)
        ≡ []
  unfolding position_problems
  invoked-position phase = ground (arith, v.position, at)

  invoked-exit :
      (phase : Phase)
      → is_exited phase ≡ false
      → exit_problems
          (workflow_def run e.workflow_id)
          (node_in run e.workflow_id e.node_id)
          (invoked e p phase token restart reason)
        ≡ []
  unfolding exit_problems
  invoked-exit phase later = ground (arith, v.exit, stays, later)

  pub working-IsConsistent :
      has_result (some p) ≡ false → IsConsistent run (invoked e p working token restart reason)
  unfolding kind_problems binding_problems judgment_problems resolution_problems phase_problems
      has_current has_actor_materials
  working-IsConsistent pending = record {
    position = invoked-position working;
    kind = rw at (ground (arith, own, pending));
    exit = invoked-exit working refl;
    binding = v.binding;
    judgment = v.judgment;
    resolution = v.resolution;
    phase = refl;
  }

  pub settling-IsConsistent :
      has_result (some p) ≡ true → IsConsistent run (invoked e p settling token restart reason)
  unfolding kind_problems binding_problems judgment_problems resolution_problems phase_problems
      has_current has_actor_materials
  settling-IsConsistent known = record {
    position = invoked-position settling;
    kind = rw at (ground (arith, own, known));
    exit = invoked-exit settling refl;
    binding = v.binding;
    judgment = v.judgment;
    resolution = v.resolution;
    phase = refl;
  }

  -- With its result it leaves by a route.
  pub left-IsConsistent :
      (phase : Phase) (kind : ProgramKind) (handoff : Text) (why : Option Text) (now : String)
      (t : Target) (name : String)
      → p.result ≡ some (ProgramOutcome.done kind handoff why)
      → IsRoute (workflow_def run e.workflow_id) (node_in run e.workflow_id e.node_id) t name
      → IsConsistent run (exit_execution (invoked e p phase token restart reason) now t name)
  unfolding kind_problems binding_problems judgment_problems resolution_problems phase_problems
      has_current has_actor_materials exit_execution position_problems
  left-IsConsistent phase kind handoff why now t name known r = record {
    position = invoked-position phase;
    kind = rw at (ground (arith, own, known));
    exit = exited-exit run (invoked e p phase token restart reason) now t name r;
    binding = v.binding;
    judgment = v.judgment;
    resolution = v.resolution;
    phase = refl;
  }
