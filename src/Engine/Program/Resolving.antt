-- ===== src/Engine/Program/Resolving.antt =====
-- src/engine/engine.ts: `handleResolveProgram`. The Manager states the result of a program.
use dsh_workflow_plugin.Prelude.{
  ℕ, String, Text, trim, is_empty, ltb, length, true, false, ◌&&◌, ◌||◌, ◌==◌, Option, none, some,
  [], ◌∷◌, Result, ok, ◌>>=◌,
}
use dsh_workflow_plugin.Types.Limits
use dsh_workflow_plugin.Types.Graph.{builtin_program}
use dsh_workflow_plugin.Types.Execution.{
  NodeExecution, ExecutionProgram, ProgramKind, ProgramOutcome, EventType,
}
use dsh_workflow_plugin.Types.Run.{RunState, running, is_blocked}
use dsh_workflow_plugin.State.Tests.{is_working, is_settling}
use dsh_workflow_plugin.Engine.Base.{RuntimeRow, Reply, reject, current_node}
use dsh_workflow_plugin.Engine.Advance.{Decided, advance_known_result}
use dsh_workflow_plugin.Engine.Program.Parameters.{kind_name}
use dsh_workflow_plugin.Engine.Program.Running.{then_drive}

abbrev pub prior_handoff : Option ProgramOutcome → Text → Text
prior_handoff (some (ProgramOutcome.done kind handoff reason)) input = handoff
prior_handoff _ input = input

-- The Manager states the result of a program that could not.
unfoldable pub resolved_program :
    NodeExecution → ExecutionProgram → ProgramKind → Text → NodeExecution
resolved_program e p kind reason = record e {
  program = some (record p {
    result = some (ProgramOutcome.done kind (prior_handoff p.result e.input) (some reason));
  });
  block_reason = none;
  restart_pending = false;
}

unfoldable pub resumed_run : RunState → RunState
resumed_run run = record run { status = running; block_reason = none }

unfoldable pub resolve_known :
    RuntimeRow
    → ExecutionProgram
    → ProgramKind
    → Text
    → (String → Option NodeExecution)
    → (ℕ → String)
    → (now : String) → Result Reply
unfolding resolved_program resumed_run then_drive
resolve_known row p kind reason stored fresh now = do
  reply ←
      advance_known_result
        (record row {
          execution = resolved_program row.execution p kind reason;
          run = resumed_run row.run;
        })
        stored fresh now Decided.result (kind_name kind)
        (prior_handoff p.result row.execution.input) (EventType.program_resolved ∷ [])
  ok (then_drive reply)

unfoldable pub resolve_owned :
    RuntimeRow
    → ProgramKind
    → Text
    → (String → Option NodeExecution)
    → (ℕ → String)
    → (now : String) → Result Reply
unfolding resolve_known
resolve_owned row kind reason stored fresh now = elim (current_node row.run) [
  | some (builtin_program n) ↦ elim row.execution.program [
    | none ↦ ok (reject "current execution has no Program result to resolve")
    | some p ↦ elim (is_working row.execution.phase || is_settling row.execution.phase) [
      | false ↦ ok (reject "current execution has no Program result to resolve")
      | true ↦ resolve_known row p kind reason stored fresh now
    ]
  ]
  | _ ↦ ok (reject "current execution has no Program result to resolve")
]

unfoldable pub resolve_row :
    RuntimeRow
    → String
    → ProgramKind
    → Text
    → (caller : String) → (String → Option NodeExecution)
    → (ℕ → String)
    → (now : String) → Result Reply
unfolding resolve_owned
resolve_row row token kind reason caller stored fresh now =
    elim (is_blocked row.run.status && row.execution.node_token == token) [
      | false ↦ ok (reject "node_resolve_program requires the current BLOCK/token")
      | true ↦ elim (caller == row.run.manager_session_id) [
        | false ↦ ok (reject "node_resolve_program is Manager-only")
        | true ↦ resolve_owned row kind reason stored fresh now
      ]
    ]

unfoldable pub handle_resolve_program :
    Option RuntimeRow
    → String
    → ProgramKind
    → Text
    → (caller : String) → (String → Option NodeExecution)
    → (ℕ → String)
    → (now : String) → Result Reply
unfolding resolve_row
handle_resolve_program row token kind text caller stored fresh now =
    elim (is_empty (trim text) || ltb Limits.block_reason_max (length (trim text))) [
      | true ↦ ok (reject "invalid Program resolution")
      | false ↦ elim row [
        | none ↦ ok (reject "node_resolve_program requires the current BLOCK/token")
        | some r ↦ resolve_row r token kind (trim text) caller stored fresh now
      ]
    ]
