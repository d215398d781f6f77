-- ===== src/Engine/Program/Handler.antt =====
-- The executions that `handleRunProgram` writes, from the arrangement of the program to its result.
use dsh_workflow_plugin.Prelude.{
  suc, String, true, false, ◌&&◌, ◌||◌, not, ◌==◌, none, some, is_some, Assoc, ◌≡◌, refl, arith,
  Bool-cases, Option-cases, inl, inr, Result-cases,
}
use dsh_workflow_plugin.Types.Graph.{
  BuiltinProgramNode, builtin_program, actor_task, child_workflow, Value,
}
use dsh_workflow_plugin.Types.Execution.{Phase}
use dsh_workflow_plugin.Types.Run.{is_blocked, is_running}
use dsh_workflow_plugin.State.Tests.{node_in, is_exited, has_result}
use dsh_workflow_plugin.State.Valid.{IsConsistent}
use dsh_workflow_plugin.Engine.Base.{RuntimeRow, change, current_node}
use dsh_workflow_plugin.Engine.Writes.{EachWrite, IsConsistentRow, IsConsistent-same_run}
use dsh_workflow_plugin.Engine.Advance.Keeps.{IsPlaced}
use dsh_workflow_plugin.Engine.Advance.Results.{placed_node}
use dsh_workflow_plugin.Engine.Program.Parameters.{program_parameters}
use dsh_workflow_plugin.Engine.Program.Running.{
  ProgramAnswers, arranged_program, arranged_run, arrange_program, program_node, runnable,
  program_owned, handle_run_program,
}
use dsh_workflow_plugin.Engine.Program.Invoked.{working-IsConsistent}
use dsh_workflow_plugin.Engine.Program.Ran.{IsSoundRun, run_arranged-IsConsistent}

runnable_stays : (phase : Phase) → runnable phase ≡ true → is_exited phase ≡ false
runnable_stays phase h = ground (arith, h)

module _ (row : RuntimeRow) (answers : ProgramAnswers) (v : IsConsistentRow row)
    (sound : IsSoundRun answers)
    (placed : IsPlaced row.run answers.stored row.execution row.run.call_stack) where
  arrange-IsConsistent :
      (n : BuiltinProgramNode) (parameters : Assoc Value)
      → current_node row.run ≡ some (builtin_program n)
      → is_exited row.execution.phase ≡ false
      → EachWrite IsConsistent (arrange_program row parameters answers).acts
  unfolding arrange_program arranged_program arranged_run change
  arrange-IsConsistent n parameters here stays =
      let x = row.execution in
      let at : node_in row.run x.workflow_id x.node_id ≡ some (builtin_program n) =
        rw
          (← placed_node row.run answers.stored x row.run.call_stack (builtin_program n) refl placed
            here)
          here in
      (
        (
          IsConsistent-same_run row.run
              (arranged_run row.run (is_blocked row.run.status) answers.fresh) refl refl refl _
              (working-IsConsistent row.run x n
                (record { id = answers.fresh 0; parameters = parameters; result = none }) _ false
                none v at stays refl),
          tt,
        ),
        run_arranged-IsConsistent answers sound
            (arranged_program x (is_blocked row.run.status) parameters answers.fresh)
            (suc row.version) (answers.fresh 0),
      )

  node-IsConsistent :
      (n : BuiltinProgramNode) (supplied : Assoc Value)
      → current_node row.run ≡ some (builtin_program n)
      → is_exited row.execution.phase ≡ false
      → EachWrite IsConsistent (program_node row n supplied answers).acts
  unfolding program_node
  node-IsConsistent n supplied here stays =
      elim (Bool-cases (
        is_running row.run.status
        && is_some row.execution.program
        && not (has_result row.execution.program))) [
          | inl busy ↦ rw (busy, program_node) tt
          | inr idle ↦ elim (Result-cases (program_parameters answers.encoded_length n supplied)) [
            | inr (message, invalid) ↦ rw (idle, invalid, program_node) tt
            | inl (parameters, valid) ↦
                rw (idle, valid, program_node) (arrange-IsConsistent n parameters here stays)
          ]
        ]

  owned-IsConsistent :
      (supplied : Assoc Value) → EachWrite IsConsistent (program_owned row supplied answers).acts
  unfolding program_owned
  owned-IsConsistent supplied = elim (Option-cases (current_node row.run)) [
    | inl absent ↦ rw (absent, program_owned) tt
    | inr (actor_task n, here) ↦ rw (here, program_owned) tt
    | inr (child_workflow n, here) ↦ rw (here, program_owned) tt
    | inr (builtin_program n, here) ↦ elim (Bool-cases (runnable row.execution.phase)) [
      | inr refused ↦ rw (here, refused, program_owned) tt
      | inl admitted ↦
          rw (here, admitted, program_owned)
            (node-IsConsistent n supplied here (runnable_stays row.execution.phase admitted))
    ]
  ]

  -- Take a row whose execution is consistent, stands at the top frame and has consistent callers;
  -- let the rows that are read while the program runs be consistent too, with an invocation that
  -- has no result yet, and the row that gets the result stand at the top frame under a frozen
  -- definition whose edges all lead to nodes or returns of their workflows. Then
  -- `handle_run_program` writes only executions that are consistent with the run that it writes:
  -- the arrangement, an ERROR, a result that is followed or has no target, and every block where
  -- the program or a write fails.
  pub handle_run_program-IsConsistent :
      (token : String) (supplied : Assoc Value) (caller : String)
      → EachWrite IsConsistent (handle_run_program (some row) token supplied caller answers).acts
  unfolding handle_run_program
  handle_run_program-IsConsistent token supplied caller =
      elim (Bool-cases (
        (is_running row.run.status || is_blocked row.run.status)
        && row.execution.node_token == token)) [
          | inr stale ↦ rw (stale, handle_run_program) tt
          | inl current ↦ elim (Bool-cases (caller == row.run.manager_session_id)) [
            | inr other ↦ rw (current, other, handle_run_program) tt
            | inl manager ↦ rw (current, manager, handle_run_program) (owned-IsConsistent supplied)
          ]
        ]
