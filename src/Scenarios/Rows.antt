-- ===== src/Scenarios/Rows.antt =====
-- The rows of the scenario satisfy what the theorems ask of a row.
use dsh_workflow_plugin.Prelude.{String, some, lookup, ◌≡◌, refl, arith, is_id, includes}
use dsh_workflow_plugin.Types.Graph.{ResultDef, Target, node_results}
use dsh_workflow_plugin.State.Tests.{node_in, workflow_def, has_current, has_actor_materials}
use dsh_workflow_plugin.State.Checks.{
  position_problems, kind_problems, exit_problems, binding_problems, judgment_problems,
  resolution_problems, phase_problems,
}
use dsh_workflow_plugin.State.Valid.{IsConsistent}
use dsh_workflow_plugin.Engine.Base.{result_def_of}
use dsh_workflow_plugin.Engine.Advance.Climbing.{IsRoutedRun}
use dsh_workflow_plugin.Engine.Returns.{mapped_return}
use dsh_workflow_plugin.Scenarios.{run, working_execution, checked_execution, main_def, pass_def}

pub working_execution-IsConsistent : IsConsistent run working_execution
unfolding position_problems kind_problems exit_problems binding_problems judgment_problems
    resolution_problems phase_problems node_in workflow_def has_current has_actor_materials lookup
working_execution-IsConsistent = record {
  position = refl;
  kind = refl;
  exit = refl;
  binding = refl;
  judgment = refl;
  resolution = refl;
  phase = refl;
}

pub checked_execution-IsConsistent : IsConsistent run checked_execution
unfolding position_problems kind_problems exit_problems binding_problems judgment_problems
    resolution_problems phase_problems node_in workflow_def has_current has_actor_materials lookup
checked_execution-IsConsistent = record {
  position = refl;
  kind = refl;
  exit = refl;
  binding = refl;
  judgment = refl;
  resolution = refl;
  phase = refl;
}

-- The only route is the one of `pass`.
routed_workflow :
    (w n name : String) (d : ResultDef)
    → result_def_of (node_in run w n) name ≡ some d
    → workflow_def run w ≡ some main_def
unfolding node_in workflow_def result_def_of
routed_workflow w n name d found = ground arith

routed_result :
    (w n name : String) (d : ResultDef)
    → result_def_of (node_in run w n) name ≡ some d
    → d ≡ pass_def
unfolding node_in workflow_def result_def_of node_results lookup
routed_result w n name d found = ground arith

returns_none : (w n name : String) (t : Target) → mapped_return (node_in run w n) name ≡ some t → ⊥
unfolding node_in workflow_def lookup
returns_none w n name t found = ground arith

pub run-IsRoutedRun : IsRoutedRun run
unfolding is_id includes
run-IsRoutedRun = record {
  results = λ w n name d found.
      rw (routed_workflow w n name d found, routed_result w n name d found) (refl, refl);
  returns = λ w n name t found. absurd (returns_none w n name t found);
}
