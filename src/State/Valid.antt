-- ===== src/State/Valid.antt =====
-- What an empty list of problems says, group by group.
use dsh_workflow_plugin.Prelude.{true, ◌↔◌, [], ◌≡◌, append-eq-nil}
use dsh_workflow_plugin.Types.Execution.{NodeExecution}
use dsh_workflow_plugin.Types.Run.{RunState}
use dsh_workflow_plugin.State.Tests.{workflow_def, node_in}
use dsh_workflow_plugin.State.Checks.{
  position_problems, kind_problems, exit_problems, binding_problems, judgment_problems,
  resolution_problems, phase_problems,
}
use dsh_workflow_plugin.State.Schema.{Formats, execution_schema}
use dsh_workflow_plugin.State.Invariants.{cross_problems, check_execution_invariants}

-- No group of `checkExecutionInvariants` finds a problem.
pub record IsConsistent (run : RunState) (e : NodeExecution) : Type 0 where
  pub position :
      position_problems (node_in run e.workflow_id e.node_id) run.run_id e.workflow_id e ≡ []
  pub kind : kind_problems (node_in run e.workflow_id e.node_id) e ≡ []
  pub exit :
      exit_problems (workflow_def run e.workflow_id) (node_in run e.workflow_id e.node_id) e ≡ []
  pub binding : binding_problems e ≡ []
  pub judgment : judgment_problems e ≡ []
  pub resolution : resolution_problems e ≡ []
  pub phase : phase_problems e ≡ []

cross-IsConsistent :
    (run : RunState) (e : NodeExecution) → cross_problems run e ≡ [] → IsConsistent run e
unfolding cross_problems
cross-IsConsistent run e h =
    let g = append-eq-nil _ (phase_problems e) h in
    let f = append-eq-nil _ (resolution_problems e) g.0 in
    let d = append-eq-nil _ (judgment_problems e) f.0 in
    let c = append-eq-nil _ (binding_problems e) d.0 in
    let b =
      append-eq-nil _
        (exit_problems (workflow_def run e.workflow_id) (node_in run e.workflow_id e.node_id) e)
        c.0 in
    let a = append-eq-nil _ (kind_problems (node_in run e.workflow_id e.node_id) e) b.0 in
    record {
      position = a.0;
      kind = a.1;
      exit = b.1;
      binding = c.1;
      judgment = d.1;
      resolution = f.1;
      phase = g.1;
    }

IsConsistent-cross :
    (run : RunState) (e : NodeExecution) → IsConsistent run e → cross_problems run e ≡ []
unfolding cross_problems
IsConsistent-cross run e v =
    rw (v.position, v.kind, v.exit, v.binding, v.judgment, v.resolution) v.phase

-- An execution of the persisted shape is consistent where `checkExecutionInvariants` finds no problem.
check_execution_invariants-IsConsistent :
    (fmt : Formats) (run : RunState) (e : NodeExecution)
    → execution_schema fmt e ≡ true
    → (check_execution_invariants fmt run e ≡ []) ↔ IsConsistent run e
unfolding check_execution_invariants
check_execution_invariants-IsConsistent fmt run e shaped =
    rw (shaped, check_execution_invariants) (cross-IsConsistent run e, IsConsistent-cross run e)
