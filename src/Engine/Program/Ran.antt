-- ===== src/Engine/Program/Ran.antt =====
-- The executions that the run of a program writes.
use dsh_workflow_plugin.Prelude.{
  ℕ, suc, String, Text, codes, true, false, Option, none, some, [], ◌∷◌, ◌++◌, ◌≡◌, refl, sym, ap,
  ◌∙◌, subst, arith, Bool-cases, Option-cases, inl, inr, Result-cases, EachOk,
}
use dsh_workflow_plugin.Types.Graph.{
  NodeDef, BuiltinProgramNode, builtin_program, actor_task, child_workflow,
}
use dsh_workflow_plugin.Types.Execution.{
  settling, NodeExecution, ExecutionProgram, ProgramKind, ProgramOutcome, ProgramResult, EventType,
}
use dsh_workflow_plugin.Types.Run.{RunState}
use dsh_workflow_plugin.State.Tests.{node_in, is_exited, has_result}
use dsh_workflow_plugin.State.Checks.{position_problems, kind_problems}
use dsh_workflow_plugin.State.Valid.{IsConsistent}
use dsh_workflow_plugin.Engine.Base.{RuntimeRow, Reply}
use dsh_workflow_plugin.Engine.Block.{block_row}
use dsh_workflow_plugin.Engine.Writes.{EachWrite, IsConsistentRow, block_row-IsConsistent}
use dsh_workflow_plugin.Engine.Advance.{Decided, advance_known_result}
use dsh_workflow_plugin.Engine.Advance.Climbing.{IsRoutedRun}
use dsh_workflow_plugin.Engine.Advance.Keeps.{IsPlaced, IsPlaced-same}
use dsh_workflow_plugin.Engine.Advance.Results.{result-IsConsistent}
use dsh_workflow_plugin.Engine.Program.Parameters.{effective_program_result, kind_name}
use dsh_workflow_plugin.Engine.Program.Running.{
  ProgramAnswers, without_outcome, is_invocation, with_outcome, block_if_current, commit_failed,
  result_committed, result_known, program_ran, run_arranged,
}
use dsh_workflow_plugin.Engine.Program.Invoked.{settling-IsConsistent, left-IsConsistent}
use dsh_workflow_plugin.Engine.Program.Resolved.{then_drive-IsConsistent}

-- The rows that are read while the program runs: the invocation has no result, and can leave.
pub record IsSoundRun (answers : ProgramAnswers) : Type 0 where
  pub consistent : (r : RuntimeRow) → answers.after ≡ some r → IsConsistentRow r
  pub pending : (r : RuntimeRow) → answers.after ≡ some r → has_result r.execution.program ≡ false
  pub placed :
      (r : RuntimeRow)
      → answers.after ≡ some r
      → IsPlaced r.run answers.stored r.execution r.run.call_stack
  pub routed : (r : RuntimeRow) → answers.after ≡ some r → IsRoutedRun r.run
  pub uncommitted : (r : RuntimeRow) → answers.after_commit ≡ some r → IsConsistentRow r
  pub still_pending :
      (r : RuntimeRow) → answers.after_commit ≡ some r → has_result r.execution.program ≡ false

-- An invocation without a result stands at a program, and has not left.
program_at :
    (run : RunState) (e : NodeExecution) (p : ExecutionProgram) (node : Option NodeDef)
    → position_problems node run.run_id e.workflow_id e ≡ []
    → e.program ≡ some p
    → (n : BuiltinProgramNode) × (node ≡ some (builtin_program n))
unfolding position_problems
program_at run e p none h invoked = absurd (ground (arith, h))
program_at run e p (some (actor_task n)) h invoked = absurd (ground (arith, h, invoked))
program_at run e p (some (child_workflow n)) h invoked = absurd (ground (arith, h, invoked))
program_at run e p (some (builtin_program n)) h invoked = (n, refl)

pending_stays :
    (e : NodeExecution) (n : BuiltinProgramNode) (p : ExecutionProgram)
    → kind_problems (some (builtin_program n)) e ≡ []
    → e.program ≡ some p
    → has_result (some p) ≡ false
    → is_exited e.phase ≡ false
unfolding kind_problems
pending_stays e n p h invoked pending = ground (arith, h, invoked, pending)

invocation_program :
    (row : RuntimeRow) (e : NodeExecution) (version : ℕ) (invocation : String)
    → is_invocation (some row) e version invocation ≡ true
    → (p : ExecutionProgram) × (row.execution.program ≡ some p)
unfolding is_invocation
invocation_program row e version invocation h = elim (Option-cases row.execution.program) [
  | inl idle ↦ absurd (ground (arith, idle, h))
  | inr (p, invoked) ↦ (p, invoked)
]

-- Without a result there is none to take away.
pending_same :
    (e : NodeExecution) (p : ExecutionProgram)
    → e.program ≡ some p
    → has_result (some p) ≡ false
    → without_outcome e ≡ e
pending_same e p invoked pending =
    let none_yet : p.result ≡ none = ground (arith, pending) in
    ap
      (λ (o : Option ExecutionProgram). elim o [
        | none ↦ e
        | some q ↦ record e { program = some (record q { result = none }) }
      ])
      invoked
    ∙ ap (λ x. record e { program = some (record p { result = x }) }) (sym none_yet)
    ∙ ap (λ o. record e { program = o }) (sym invoked)

abbrev with_result : NodeExecution → ExecutionProgram → ProgramOutcome → NodeExecution
with_result e p o = record e { program = some (record p { result = some o }) }

with_outcome-is :
    (e : NodeExecution) (p : ExecutionProgram) (o : ProgramOutcome)
    → e.program ≡ some p
    → with_outcome e o ≡ with_result e p o
unfolding with_outcome
with_outcome-is e p o invoked =
    ap (λ (x : Option ExecutionProgram). elim x [ none ↦ e | some q ↦ with_result e q o ]) invoked

module _ (answers : ProgramAnswers) (sound : IsSoundRun answers) (e : NodeExecution) (version : ℕ)
    (invocation : String) where
  commit_failed-IsConsistent :
      EachWrite IsConsistent (commit_failed answers e version invocation).acts
  unfolding commit_failed
  commit_failed-IsConsistent = elim (Option-cases answers.after_commit) [
    | inl gone ↦ rw (gone, commit_failed) tt
    | inr (r, found) ↦ elim (Bool-cases (is_invocation (some r) e version invocation)) [
      | inr other ↦ rw (found, other, commit_failed) tt
      | inl same ↦
          let (p, invoked) = invocation_program r e version invocation same in
          rw (found, same, commit_failed)
            (block_row-IsConsistent (record r { execution = without_outcome r.execution })
              (codes "Program result commit unknown") []
              (subst (λ x. IsConsistent r.run x)
                (sym (
                  pending_same r.execution p invoked
                    (subst (λ o. has_result o ≡ false) invoked (sound.still_pending r found))))
                (sound.uncommitted r found)))
    ]
  ]

  if_current-IsConsistent :
      (reason : Text) (message : String)
      → EachWrite IsConsistent
          (block_if_current answers.after e version invocation reason message).acts
  unfolding block_if_current
  if_current-IsConsistent reason message = elim (Option-cases answers.after) [
    | inl gone ↦ rw (gone, block_if_current) tt
    | inr (r, found) ↦ elim (Bool-cases (is_invocation (some r) e version invocation)) [
      | inr other ↦ rw (found, other, block_if_current) tt
      | inl same ↦
          rw (found, same, block_if_current)
            (block_row-IsConsistent r reason [] (sound.consistent r found))
    ]
  ]

  -- A row that is read after the run of the program.
  module _ (r : RuntimeRow) (found : answers.after ≡ some r) (p : ExecutionProgram)
      (n : BuiltinProgramNode)
      (at : node_in r.run r.execution.workflow_id r.execution.node_id ≡ some (builtin_program n))
      (stays : is_exited r.execution.phase ≡ false) where
    committed-IsConsistent :
        (kind : ProgramKind) (handoff : Text) (why : Option Text)
        → EachWrite IsConsistent
            (result_committed
              (record r {
                execution = with_result r.execution p (ProgramOutcome.done kind handoff why);
              })
              answers
              kind
              handoff
              e
              version
              invocation).acts
    unfolding result_committed
    committed-IsConsistent kind handoff why =
        let x = r.execution in
        let q : ExecutionProgram = record p {
          result = some (ProgramOutcome.done kind handoff why);
        } in
        let y = with_result x p (ProgramOutcome.done kind handoff why) in
        let fresh : ℕ → String = λ k. answers.fresh (suc (suc k)) in
        let step =
          advance_known_result (record r { execution = y }) answers.stored fresh answers.now
            Decided.result (kind_name kind) handoff (EventType.program_result ∷ []) in
        let all : EachOk (λ (reply : Reply). EachWrite IsConsistent reply.acts) step =
          result-IsConsistent (record r { execution = y }) answers.stored fresh answers.now
            (IsPlaced-same r.run answers.stored x y r.run.call_stack refl refl
              (sound.placed r found))
            (sound.routed r found)
            (λ t name route.
              left-IsConsistent r.run x n q x.node_token x.restart_pending x.block_reason
                (sound.consistent r found) at stays x.phase kind handoff why answers.now t name refl
                route)
            (λ reason.
              settling-IsConsistent r.run x n q x.node_token x.restart_pending reason
                (sound.consistent r found) at stays refl)
            (kind_name kind) handoff (EventType.program_result ∷ []) in
        elim (Result-cases step) [
          | inr (message, fails) ↦ rw (fails, result_committed) commit_failed-IsConsistent
          | inl (reply, done) ↦ elim (Bool-cases answers.commits) [
            | inr refused ↦ rw (done, refused, result_committed) commit_failed-IsConsistent
            | inl admitted ↦
                rw (done, admitted, result_committed)
                  (then_drive-IsConsistent reply
                    (subst (EachOk (λ (s : Reply). EachWrite IsConsistent s.acts)) done all))
          ]
        ]

    failed-IsConsistent :
        (reason : Text)
        → EachWrite IsConsistent (
            block_row
              (record r {
                execution = record (with_result r.execution p (ProgramOutcome.error reason)) {
                  phase = settling;
                };
              })
              (codes "Program ERROR: " ++ reason)
              (EventType.program_result ∷ []))
    failed-IsConsistent reason =
        let x = r.execution in
        block_row-IsConsistent _ (codes "Program ERROR: " ++ reason) (EventType.program_result ∷ [])
          (settling-IsConsistent r.run x n
            (record p { result = some (ProgramOutcome.error reason) }) x.node_token
            x.restart_pending x.block_reason (sound.consistent r found) at stays refl)

    outcome-IsConsistent :
        (outcome : ProgramOutcome)
        → r.execution.program ≡ some p
        → EachWrite IsConsistent (result_known r answers outcome e version invocation).acts
    unfolding result_known
    outcome-IsConsistent (ProgramOutcome.error reason) invoked =
        subst
          (λ x. EachWrite IsConsistent (
            block_row (record r { execution = record x { phase = settling } })
              (codes "Program ERROR: " ++ reason) (EventType.program_result ∷ [])))
          (sym (with_outcome-is r.execution p (ProgramOutcome.error reason) invoked))
          (failed-IsConsistent reason)
    outcome-IsConsistent (ProgramOutcome.done kind handoff why) invoked =
        subst
          (λ x.
            EachWrite IsConsistent
              (result_committed (record r { execution = x }) answers kind handoff e version
                invocation).acts)
          (sym (with_outcome-is r.execution p (ProgramOutcome.done kind handoff why) invoked))
          (committed-IsConsistent kind handoff why)

  program_ran-IsConsistent :
      (result : ProgramResult)
      → EachWrite IsConsistent (program_ran answers result e version invocation).acts
  unfolding program_ran
  program_ran-IsConsistent result = elim (Option-cases answers.after) [
    | inl gone ↦ rw (gone, program_ran) tt
    | inr (r, found) ↦ elim (Bool-cases (is_invocation (some r) e version invocation)) [
      | inr other ↦ rw (found, other, program_ran) tt
      | inl same ↦ elim (Result-cases (effective_program_result result r.execution.input)) [
        | inr (message, invalid) ↦
            rw (found, same, invalid, program_ran)
              (block_row-IsConsistent r (codes "Program result unknown") []
                (sound.consistent r found))
        | inl (outcome, valid) ↦
            let (p, invoked) = invocation_program r e version invocation same in
            let v = sound.consistent r found in
            let (n, at) =
              program_at r.run r.execution p
                (node_in r.run r.execution.workflow_id r.execution.node_id) v.position invoked in
            let pending = subst (λ o. has_result o ≡ false) invoked (sound.pending r found) in
            rw (found, same, valid, program_ran)
              (outcome-IsConsistent r found p n at
                (pending_stays r.execution n p
                  (subst (λ o. kind_problems o r.execution ≡ []) at v.kind) invoked pending)
                outcome invoked)
      ]
    ]
  ]

  pub run_arranged-IsConsistent :
      EachWrite IsConsistent (run_arranged answers e version invocation).acts
  unfolding run_arranged
  run_arranged-IsConsistent = elim (Result-cases answers.cwd) [
    | inr (message, unknown) ↦
        rw (unknown, run_arranged)
          (if_current-IsConsistent (codes "Program result unknown")
            "Program result is unknown; Manager inspection required")
    | inl (before, known) ↦ elim (Bool-cases (is_invocation before e version invocation)) [
      | inr stale ↦ rw (known, stale, run_arranged) tt
      | inl same ↦ elim (Result-cases answers.ran) [
        | inr (message, fails) ↦
            rw (known, same, fails, run_arranged)
              (if_current-IsConsistent (codes "Program result unknown")
                "Program result is unknown; Manager inspection required")
        | inl (result, done) ↦
            rw (known, same, done, run_arranged) (program_ran-IsConsistent result)
      ]
    ]
  ]
