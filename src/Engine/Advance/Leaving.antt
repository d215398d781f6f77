-- ===== src/Engine/Advance/Leaving.antt =====
-- An execution that leaves by a target that its workflow declares stays consistent.
use dsh_workflow_plugin.Prelude.{
  String, true, Option, none, some, is_id, [], ◌≡◌, refl, arith, eq_refl, includes, lookup,
  includes-keys, opt_bind,
}
use dsh_workflow_plugin.Types.Graph.{
  NodeDef, actor_task, builtin_program, child_workflow, ResultDef, Target, to_node, to_return,
  declared_results, node_results, node_on_return, WorkflowDef,
}
use dsh_workflow_plugin.Types.Execution.{NodeExecution}
use dsh_workflow_plugin.Types.Run.{RunState}
use dsh_workflow_plugin.State.Tests.{node_in, workflow_def, has_current}
use dsh_workflow_plugin.State.Checks.{
  position_problems, kind_problems, exit_problems, binding_problems, judgment_problems,
  resolution_problems, phase_problems, declares_return,
}
use dsh_workflow_plugin.State.Valid.{IsConsistent}
use dsh_workflow_plugin.Engine.Base.{result_def_of, decision_of}
use dsh_workflow_plugin.Engine.Returns.{exit_execution}

-- A target of the workflow that the catalog accepts.
abbrev pub IsValidTarget : Option WorkflowDef → Target → Type 0
IsValidTarget def (to_node n) = (d : NodeDef) × (opt_bind def (λ w. lookup n w.nodes) ≡ some d)
IsValidTarget def (to_return r) = (is_id r ≡ true) × (declares_return def r ≡ true)

-- A node declares the name, and its target is one of the workflow.
pub record IsRoute (def : Option WorkflowDef) (node : Option NodeDef) (target : Target)
    (name : String) : Type 0 where
  pub declared : includes name (declared_results node) ≡ true
  pub target_valid : IsValidTarget def target

module _ (run : RunState) (e : NodeExecution) (now : String) where
  pub exited-exit :
      (target : Target) (name : String)
      → IsRoute (workflow_def run e.workflow_id) (node_in run e.workflow_id e.node_id) target name
      → exit_problems
          (workflow_def run e.workflow_id)
          (node_in run e.workflow_id e.node_id)
          (exit_execution e now target name)
        ≡ []
  unfolding exit_problems exit_execution decision_of
  exited-exit (to_node n) name r = ground (arith, eq_refl e.execution_id, r.declared)
  exited-exit (to_return m) name r =
      ground (arith, eq_refl e.execution_id, r.target_valid.0, r.target_valid.1)

  pub exited-IsConsistent :
      (v : IsConsistent run e) (target : Target) (name : String)
      → IsRoute (workflow_def run e.workflow_id) (node_in run e.workflow_id e.node_id) target name
      → kind_problems (node_in run e.workflow_id e.node_id) (exit_execution e now target name) ≡ []
      → IsConsistent run (exit_execution e now target name)
  unfolding exit_execution position_problems binding_problems judgment_problems resolution_problems
      phase_problems has_current
  exited-IsConsistent v target name r k = record {
    position = v.position;
    kind = k;
    exit = exited-exit target name r;
    binding = v.binding;
    judgment = v.judgment;
    resolution = v.resolution;
    phase = refl;
  }

-- A result that the node declares is found.
pub result_def-declared :
    (node : Option NodeDef) (name : String) (d : ResultDef)
    → result_def_of node name ≡ some d
    → includes name (declared_results node) ≡ true
unfolding result_def_of declared_results node_results node_on_return
result_def-declared none name d h = cc
result_def-declared (some (actor_task n)) name d h = rw (includes-keys name n.results, h) refl
result_def-declared (some (builtin_program n)) name d h = rw (includes-keys name n.results, h) refl
result_def-declared (some (child_workflow n)) name d h = cc
