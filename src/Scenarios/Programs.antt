-- ===== src/Scenarios/Programs.antt =====
-- The theorems on the programs of a workflow: a node whose program runs, and one whose result the Manager
-- states.
use dsh_workflow_plugin.Prelude.{
  some_inj, subst, String, codes, true, false, none, some, [], ◌∷◌, ◌≡◌, refl, ok, lookup, is_id,
  includes, arith, Assoc, EachOk,
}
use dsh_workflow_plugin.Types.Graph.{
  NodeDef, builtin_program, ResultDef, Target, to_return, WorkflowDef, Value, node_results,
}
use dsh_workflow_plugin.Types.Execution.{
  NodeExecution, ExecutionProgram, ProgramKind, ProgramOutcome, ProgramResult, ready, working,
  settling,
}
use dsh_workflow_plugin.Types.Run.{RunState, blocked}
use dsh_workflow_plugin.State.Tests.{
  node_in, workflow_def, has_current, has_actor_materials, has_result,
}
use dsh_workflow_plugin.State.Checks.{
  position_problems, kind_problems, exit_problems, binding_problems, judgment_problems,
  resolution_problems, phase_problems,
}
use dsh_workflow_plugin.State.Valid.{IsConsistent}
use dsh_workflow_plugin.Engine.Base.{RuntimeRow, result_def_of}
use dsh_workflow_plugin.Engine.Writes.{EachWrite}
use dsh_workflow_plugin.Engine.Returns.{mapped_return}
use dsh_workflow_plugin.Engine.Advance.Climbing.{IsRoutedRun}
use dsh_workflow_plugin.Engine.Advance.Keeps.{IsPlaced}
use dsh_workflow_plugin.Engine.Program.Running.{ProgramAnswers, handle_run_program}
use dsh_workflow_plugin.Engine.Program.Resolving.{handle_resolve_program}
use dsh_workflow_plugin.Engine.Program.Ran.{IsSoundRun}
use dsh_workflow_plugin.Engine.Program.Handler.{handle_run_program-IsConsistent}
use dsh_workflow_plugin.Engine.Program.Resolved.{handle_resolve_program-IsConsistent}
use dsh_workflow_plugin.Scenarios.{run, config, working_execution, fresh, stored}

abbrev passed : ResultDef
passed = record { criteria = codes "all issues are closed"; target = to_return "done" }

abbrev milestone : NodeDef
milestone = builtin_program (record {
  program_id = "github.all-milestone-issues-complete";
  instruction = none;
  config = none;
  results = ("PASS", passed) ∷ ("FAIL", passed) ∷ [];
})

abbrev milestone_def : WorkflowDef
milestone_def = record {
  start_node = "build";
  returns = "done" ∷ [];
  nodes = ("build", milestone) ∷ [];
}

abbrev milestone_run : RunState
milestone_run = record run { definition_snapshot = record config { workflow = milestone_def } }

abbrev waiting : NodeExecution
waiting = record working_execution { phase = ready; dispatch = none }

abbrev waiting_row : RuntimeRow
waiting_row = record { run = milestone_run; execution = waiting; version = 3 }

abbrev invocation : ExecutionProgram
invocation = record { id = "n0"; parameters = []; result = none }

abbrev running : NodeExecution
running = record waiting { phase = working; program = some invocation }

abbrev running_row : RuntimeRow
running_row = record { run = milestone_run; execution = running; version = 4 }

abbrev failed : NodeExecution
failed = record waiting {
  phase = settling;
  program = some (record invocation { result = some (ProgramOutcome.error (codes "no remote")) });
}

abbrev failed_row : RuntimeRow
failed_row = record {
  run = record milestone_run { status = blocked };
  execution = failed;
  version = 5;
}

waiting-IsConsistent : IsConsistent milestone_run waiting
unfolding position_problems kind_problems exit_problems binding_problems judgment_problems
    resolution_problems phase_problems node_in workflow_def has_current has_actor_materials lookup
waiting-IsConsistent = record {
  position = refl;
  kind = refl;
  exit = refl;
  binding = refl;
  judgment = refl;
  resolution = refl;
  phase = refl;
}

running-IsConsistent : IsConsistent milestone_run running
unfolding position_problems kind_problems exit_problems binding_problems judgment_problems
    resolution_problems phase_problems node_in workflow_def has_current has_actor_materials lookup
running-IsConsistent = record {
  position = refl;
  kind = refl;
  exit = refl;
  binding = refl;
  judgment = refl;
  resolution = refl;
  phase = refl;
}

failed-IsConsistent : IsConsistent failed_row.run failed
unfolding position_problems kind_problems exit_problems binding_problems judgment_problems
    resolution_problems phase_problems node_in workflow_def has_current has_actor_materials lookup
failed-IsConsistent = record {
  position = refl;
  kind = refl;
  exit = refl;
  binding = refl;
  judgment = refl;
  resolution = refl;
  phase = refl;
}

-- Both results lead to the same return.
program_workflow :
    (w n name : String) (d : ResultDef)
    → result_def_of (node_in milestone_run w n) name ≡ some d
    → workflow_def milestone_run w ≡ some milestone_def
unfolding node_in workflow_def result_def_of
program_workflow w n name d found = ground arith

program_result :
    (w n name : String) (d : ResultDef)
    → result_def_of (node_in milestone_run w n) name ≡ some d
    → d ≡ passed
unfolding node_in workflow_def result_def_of node_results lookup
program_result w n name d found = ground arith

returns_none :
    (w n name : String) (t : Target) → mapped_return (node_in milestone_run w n) name ≡ some t → ⊥
unfolding node_in workflow_def lookup
returns_none w n name t found = ground arith

milestone_run-IsRoutedRun : IsRoutedRun milestone_run
unfolding is_id includes
milestone_run-IsRoutedRun = record {
  results = λ w n name d found.
      rw (program_workflow w n name d found, program_result w n name d found) (refl, refl);
  returns = λ w n name t found. absurd (returns_none w n name t found);
}

failed_run-IsRoutedRun : IsRoutedRun failed_row.run
unfolding workflow_def node_in
failed_run-IsRoutedRun = record {
  results = λ w n name d found. milestone_run-IsRoutedRun.results w n name d found;
  returns = λ w n name t found. milestone_run-IsRoutedRun.returns w n name t found;
}

handle_resolve_program_example :
    EachOk
      (λ r. EachWrite IsConsistent r.acts)
      (handle_resolve_program
        (some failed_row)
        "t1"
        ProgramKind.pass
        (codes "checked by hand")
        "boss"
        stored
        fresh
        "now")
handle_resolve_program_example =
    handle_resolve_program-IsConsistent failed_row stored fresh "now" (refl, refl, tt)
      failed_run-IsRoutedRun failed-IsConsistent "t1" ProgramKind.pass (codes "checked by hand")
      "boss"

abbrev supplied : Assoc Value
supplied = ("milestoneNumber", Value.number (codes "3")) ∷ []

abbrev answers : ProgramAnswers
answers = record {
  encoded_length = λ parameters. 2;
  fresh = fresh;
  now = "now";
  stored = stored;
  cwd = ok (some running_row);
  ran = ok (ProgramResult.pass none);
  after = some running_row;
  commits = true;
  after_commit = some running_row;
}

answers-IsSoundRun : IsSoundRun answers
answers-IsSoundRun = record {
  consistent =
      λ r found. subst (λ x. IsConsistent x.run x.execution) (some_inj found) running-IsConsistent;
  pending = λ r found. subst (λ x. has_result x.execution.program ≡ false) (some_inj found) refl;
  placed = λ r found.
      subst (λ x. IsPlaced x.run stored x.execution x.run.call_stack) (some_inj found)
        (refl, refl, tt);
  routed = λ r found. subst (λ x. IsRoutedRun x.run) (some_inj found) milestone_run-IsRoutedRun;
  uncommitted =
      λ r found. subst (λ x. IsConsistent x.run x.execution) (some_inj found) running-IsConsistent;
  still_pending =
      λ r found. subst (λ x. has_result x.execution.program ≡ false) (some_inj found) refl;
}

handle_run_program_example :
    EachWrite IsConsistent (handle_run_program (some waiting_row) "t1" supplied "boss" answers).acts
handle_run_program_example =
    handle_run_program-IsConsistent waiting_row answers waiting-IsConsistent answers-IsSoundRun
      (refl, refl, tt) "t1" supplied "boss"
