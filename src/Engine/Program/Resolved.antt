-- ===== src/Engine/Program/Resolved.antt =====
-- The executions that the Manager's result of a program writes.
use dsh_workflow_plugin.Prelude.{
  ℕ, String, Text, trim, is_empty, ltb, length, true, false, ◌&&◌, ◌||◌, ◌==◌, Option, none, some,
  [], ◌∷◌, ◌≡◌, refl, arith, Bool-cases, Option-cases, inl, inr, ok, EachOk, EachOk->>=,
}
use dsh_workflow_plugin.Types.Limits
use dsh_workflow_plugin.Types.Graph.{
  BuiltinProgramNode, builtin_program, actor_task, child_workflow,
}
use dsh_workflow_plugin.Types.Execution.{
  NodeExecution, ExecutionProgram, ProgramKind, ProgramOutcome, Phase, EventType,
}
use dsh_workflow_plugin.Types.Run.{is_blocked, is_running}
use dsh_workflow_plugin.State.Tests.{node_in, is_working, is_settling, is_exited}
use dsh_workflow_plugin.State.Valid.{IsConsistent}
use dsh_workflow_plugin.Engine.Base.{
  RuntimeRow, EngineOutcome, Reply, accepted, rejected, current_node,
}
use dsh_workflow_plugin.Engine.Writes.{
  EachWrite, EachWrite-append, IsConsistentRow, IsConsistent-same_run, same_node_in,
}
use dsh_workflow_plugin.Engine.Advance.{Decided, advance_known_result}
use dsh_workflow_plugin.Engine.Advance.Climbing.{IsRoutedRun}
use dsh_workflow_plugin.Engine.Advance.Keeps.{
  IsPlaced, IsPlaced-same, same-IsPlaced, same-IsRoutedRun,
}
use dsh_workflow_plugin.Engine.Advance.Results.{placed_node, result-IsConsistent}
use dsh_workflow_plugin.Engine.Program.Parameters.{kind_name}
use dsh_workflow_plugin.Engine.Program.Running.{drives, then_drive}
use dsh_workflow_plugin.Engine.Program.Resolving.{
  prior_handoff, resolved_program, resumed_run, resolve_known, resolve_owned, resolve_row,
  handle_resolve_program,
}
use dsh_workflow_plugin.Engine.Program.Invoked.{settling-IsConsistent, left-IsConsistent}

drives-EachWrite : (o : EngineOutcome) → EachWrite IsConsistent (drives o)
drives-EachWrite (accepted none message) = tt
drives-EachWrite (accepted (some run) message) = elim (Bool-cases (is_running run.status)) [
  | inl going ↦ rw (going, drives) tt
  | inr over ↦ rw (over, drives) tt
]
drives-EachWrite (rejected message) = tt

pub then_drive-IsConsistent :
    (r : Reply) → EachWrite IsConsistent r.acts → EachWrite IsConsistent (then_drive r).acts
unfolding then_drive
then_drive-IsConsistent r h =
    EachWrite-append IsConsistent r.acts (drives r.outcome) h (drives-EachWrite r.outcome)

not_exited :
    (phase : Phase) → (is_working phase || is_settling phase) ≡ true → is_exited phase ≡ false
not_exited phase h = ground (arith, h)

module _ (row : RuntimeRow) (stored : String → Option NodeExecution) (fresh : ℕ → String)
    (now : String) (placed : IsPlaced row.run stored row.execution row.run.call_stack)
    (routed : IsRoutedRun row.run) (v : IsConsistentRow row) where
  known-IsConsistent :
      (n : BuiltinProgramNode) (p : ExecutionProgram) (kind : ProgramKind) (reason : Text)
      → current_node row.run ≡ some (builtin_program n)
      → is_exited row.execution.phase ≡ false
      → EachOk
          (λ r. EachWrite IsConsistent r.acts)
          (resolve_known row p kind reason stored fresh now)
  unfolding resolve_known resolved_program resumed_run
  known-IsConsistent n p kind reason here stays =
      let run = resumed_run row.run in
      let e = row.execution in
      let q : ExecutionProgram = record p {
        result = some (ProgramOutcome.done kind (prior_handoff p.result e.input) (some reason));
      } in
      let w = IsConsistent-same_run row.run run refl refl refl e v in
      let at : node_in run e.workflow_id e.node_id ≡ some (builtin_program n) =
        rw
          (
            same_node_in row.run run refl refl refl e.workflow_id e.node_id,
            ← placed_node row.run stored e row.run.call_stack (builtin_program n) refl placed here,
          )
          here in
      EachOk->>= (λ (r : Reply). EachWrite IsConsistent r.acts)
        (λ (r : Reply). EachWrite IsConsistent r.acts)
        (advance_known_result
          (record row { execution = resolved_program e p kind reason; run = run }) stored fresh now
          Decided.result (kind_name kind) (prior_handoff p.result e.input)
          (EventType.program_resolved ∷ []))
        (λ r. ok (then_drive r))
        (result-IsConsistent
          (record row { execution = resolved_program e p kind reason; run = run }) stored fresh now
          (IsPlaced-same run stored e (resolved_program e p kind reason) row.run.call_stack refl
            refl (same-IsPlaced row.run run refl refl refl stored e row.run.call_stack placed))
          (same-IsRoutedRun row.run run refl refl refl routed)
          (λ t name r.
            left-IsConsistent run e n q e.node_token false none w at stays e.phase kind
              (prior_handoff p.result e.input) (some reason) now t name refl r)
          (λ why. settling-IsConsistent run e n q e.node_token false why w at stays refl)
          (kind_name kind) (prior_handoff p.result e.input) (EventType.program_resolved ∷ []))
        (λ r h. then_drive-IsConsistent r h)

  owned-IsConsistent :
      (kind : ProgramKind) (reason : Text)
      → EachOk (λ r. EachWrite IsConsistent r.acts) (resolve_owned row kind reason stored fresh now)
  unfolding resolve_owned
  owned-IsConsistent kind reason = elim (Option-cases (current_node row.run)) [
    | inl absent ↦ rw (absent, resolve_owned) tt
    | inr (actor_task n, here) ↦ rw (here, resolve_owned) tt
    | inr (child_workflow n, here) ↦ rw (here, resolve_owned) tt
    | inr (builtin_program n, here) ↦ elim (Option-cases row.execution.program) [
      | inl idle ↦ rw (here, idle, resolve_owned) tt
      | inr (p, invoked) ↦
          elim (Bool-cases (is_working row.execution.phase || is_settling row.execution.phase)) [
            | inr refused ↦ rw (here, invoked, refused, resolve_owned) tt
            | inl admitted ↦
                rw (here, invoked, admitted, resolve_owned)
                  (known-IsConsistent n p kind reason here
                    (not_exited row.execution.phase admitted))
          ]
    ]
  ]

  -- Take a row whose execution is consistent, stands at the top frame and has consistent callers,
  -- under a frozen definition whose edges all lead to nodes or returns of their workflows. Where
  -- `handle_resolve_program` returns, it writes only executions that are consistent with the run
  -- that it writes.
  pub handle_resolve_program-IsConsistent :
      (token : String) (kind : ProgramKind) (text : Text) (caller : String)
      → EachOk
          (λ r. EachWrite IsConsistent r.acts)
          (handle_resolve_program (some row) token kind text caller stored fresh now)
  unfolding handle_resolve_program resolve_row
  handle_resolve_program-IsConsistent token kind text caller =
      elim (Bool-cases (is_empty (trim text) || ltb Limits.block_reason_max (length (trim text)))) [
        | inl malformed ↦ rw (malformed, handle_resolve_program) tt
        | inr fits ↦
            elim (Bool-cases (is_blocked row.run.status && row.execution.node_token == token)) [
              | inr stale ↦ rw (fits, stale, handle_resolve_program, resolve_row) tt
              | inl current ↦ elim (Bool-cases (caller == row.run.manager_session_id)) [
                | inr other ↦ rw (fits, current, other, handle_resolve_program, resolve_row) tt
                | inl manager ↦
                    rw (fits, current, manager, handle_resolve_program, resolve_row)
                      (owned-IsConsistent kind (trim text))
              ]
            ]
      ]
