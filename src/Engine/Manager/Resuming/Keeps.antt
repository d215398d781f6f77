-- ===== src/Engine/Manager/Resuming/Keeps.antt =====
-- The executions that a recovery writes, and the Judges whose sessions it continues.
use dsh_workflow_plugin.Prelude.{
  String, Text, trim, is_empty, ltb, length, Bool, true, false, ◌&&◌, ◌||◌, not, ◌==◌, Option, none,
  some, is_some, [], ◌≡◌, refl, sym, subst, ◌∙◌, arith, Bool-cases, Option-cases, inl, inr, Result,
  ok, err,
}
use dsh_workflow_plugin.Types.Limits
use dsh_workflow_plugin.Types.Graph.{
  NodeDef, actor_task, builtin_program, child_workflow, ActorTaskNode, ChildWorkflowNode,
}
use dsh_workflow_plugin.Types.Execution.{NodeExecution, ExecutionJudge, ResumeTarget}
use dsh_workflow_plugin.Types.Run.{RunState, is_blocked}
use dsh_workflow_plugin.State.Tests.{node_in, has_current, has_actor_materials, is_ready, is_exited}
use dsh_workflow_plugin.State.Checks.{
  position_problems, kind_problems, exit_problems, binding_problems, judgment_problems,
  resolution_problems, phase_problems,
}
use dsh_workflow_plugin.State.Valid.{IsConsistent}
use dsh_workflow_plugin.Engine.Base.{RuntimeRow, change, current_node}
use dsh_workflow_plugin.Engine.Judges.{transfer_judge}
use dsh_workflow_plugin.Engine.Judges.Keeps.{amended-IsConsistent}
use dsh_workflow_plugin.Engine.TurnEnd.{settled_owner, forget_judge}
use dsh_workflow_plugin.Engine.TurnEnd.Sound.{transfer_judge-stored}
use dsh_workflow_plugin.Engine.Writes.{
  EachWrite, EachChange, EachWrite-append, IsConsistentRow, IsConsistent-same_run,
}
use dsh_workflow_plugin.Engine.Manager.Rejudging.{ResumeAnswers, retokened_run}
use dsh_workflow_plugin.Engine.Manager.Rejudging.Keeps.{resume_judge-IsConsistent}
use dsh_workflow_plugin.Engine.Manager.Returning.Keeps.{resume_actor-IsConsistent}
use dsh_workflow_plugin.Engine.Manager.Resuming.{
  is_terminal_accepted, inspect_owner, recover_owner, owner_changes, owner_acts, is_auto,
  recalled_execution, resume_child, targets_judge, close_role, resume_task, resume_node,
  resume_recovered, resume_owned, resume_row, handle_resume,
}

module _ (run : RunState) (e : NodeExecution) (context : Text) (token : String)
    (n : ChildWorkflowNode) (v : IsConsistent run e) (first : is_ready e.phase ≡ true)
    (said : is_empty context ≡ false)
    (at : node_in run e.workflow_id e.node_id ≡ some (child_workflow n)) where
  recalled_kind :
      kind_problems (some (child_workflow n)) e ≡ []
      → kind_problems (some (child_workflow n)) (recalled_execution e context token) ≡ []
  unfolding kind_problems recalled_execution has_actor_materials
  recalled_kind h = ground (arith, h)

  recalled-judgment :
      kind_problems (some (child_workflow n)) e ≡ []
      → judgment_problems (recalled_execution e context token) ≡ []
  unfolding kind_problems judgment_problems recalled_execution has_actor_materials has_current
  recalled-judgment h = ground (arith, h)

  recalled-binding :
      kind_problems (some (child_workflow n)) e ≡ []
      → binding_problems (recalled_execution e context token) ≡ []
  unfolding kind_problems binding_problems recalled_execution has_actor_materials
  recalled-binding h = ground (arith, h)

  recalled-resolution :
      kind_problems (some (child_workflow n)) e ≡ []
      → resolution_problems (recalled_execution e context token) ≡ []
  unfolding kind_problems resolution_problems recalled_execution has_actor_materials has_current
  recalled-resolution h = ground (arith, h, said)

  recalled-IsConsistent : IsConsistent run (recalled_execution e context token)
  unfolding recalled_execution position_problems exit_problems phase_problems
  recalled-IsConsistent =
      let own = subst (λ o. kind_problems o e ≡ []) at v.kind in
      record {
        position = v.position;
        kind = rw at (recalled_kind own);
        exit = v.exit;
        binding = recalled-binding own;
        judgment = recalled-judgment own;
        resolution = recalled-resolution own;
        phase = v.phase;
      }

owner_acts-EachWrite : (o : Option NodeExecution) → EachWrite IsConsistent (owner_acts o)
unfolding forget_judge
owner_acts-EachWrite none = tt
owner_acts-EachWrite (some owner) = tt

inspected_owner :
    (e : NodeExecution) (same : Bool) (t : Option (NodeExecution × ExecutionJudge))
    (owner : NodeExecution)
    → inspect_owner e same t ≡ ok (some owner)
    → (k : ExecutionJudge) × (t ≡ some (owner, k))
unfolding inspect_owner
inspected_owner e false t owner h = cc
inspected_owner e true none owner h = cc
inspected_owner e true (some (o, k)) owner h = (
  k,
  elim (Bool-cases k.settled) [
    | inl settled ↦ absurd (ground (arith, settled, h))
    | inr waits ↦ elim (Bool-cases (e.restart_pending && is_terminal_accepted o k e)) [
      | inl accepted ↦ ground (arith, waits, accepted, h)
      | inr refused ↦ absurd (ground (arith, waits, refused, h))
    ]
  ],
)

-- The row stands at the top frame, and the executions of the store are consistent with its run.
module _ (row : RuntimeRow) (answers : ResumeAnswers) (v : IsConsistentRow row)
    (here : current_node row.run ≡ node_in row.run row.execution.workflow_id row.execution.node_id)
    (stored : (id : String) (e : NodeExecution)
      → answers.stored id ≡ some e
      → IsConsistent row.run e) where
  owner-IsConsistent :
      (owner : NodeExecution)
      → recover_owner row.execution answers ≡ ok (some owner)
      → IsConsistent row.run owner
  unfolding recover_owner
  owner-IsConsistent owner h = elim (Option-cases row.execution.predecessor_id) [
    | inl absent ↦ absurd (ground (arith, absent, h))
    | inr (id, there) ↦ elim (Bool-cases (is_ready row.execution.phase)) [
      | inr started ↦ absurd (ground (arith, there, started, h))
      | inl waits ↦
          let (k, found) =
            inspected_owner row.execution answers.same_after_predecessor
              (transfer_judge answers.rounds answers.stored [] (answers.stored id)) owner
              (rw (there, waits, recover_owner) at h) in
          transfer_judge-stored (IsConsistent row.run) answers.stored stored answers.rounds []
            (answers.stored id) owner k (λ e is_e. stored id e is_e) found
    ]
  ]

  owners-EachChange :
      (o : Option NodeExecution)
      → recover_owner row.execution answers ≡ ok o
      → (run : RunState) → run.run_id ≡ row.run.run_id
      → run.catalog_workflow_id ≡ row.run.catalog_workflow_id
      → run.definition_snapshot ≡ row.run.definition_snapshot
      → EachChange IsConsistent run (owner_changes o)
  unfolding settled_owner change
  owners-EachChange none h run id root snapshot = tt
  owners-EachChange (some owner) h run id root snapshot = (
    IsConsistent-same_run row.run run id root snapshot _ (
        amended-IsConsistent row.run owner (λ k. k.message_id) (λ k. true)
          (owner-IsConsistent owner h)),
    tt,
  )

  module _ (context : Text) (target : ResumeTarget) (skip : Bool) (said : is_empty context ≡ false)
      (o : Option NodeExecution) (recovered : recover_owner row.execution answers ≡ ok o) where
    child-IsConsistent :
        (n : ChildWorkflowNode)
        → node_in row.run row.execution.workflow_id row.execution.node_id ≡ some (child_workflow n)
        → EachWrite IsConsistent (resume_child row context target (owner_changes o) answers).acts
    unfolding resume_child change
    child-IsConsistent n at =
        elim (Bool-cases (
          not (is_auto target)
          || not (is_ready row.execution.phase)
          || is_some row.execution.child)) [
            | inl refused ↦ rw (refused, resume_child) tt
            | inr admitted ↦
                let run = retokened_run row.run (answers.fresh_token 0) in
                rw (admitted, resume_child)
                  (
                    (
                      IsConsistent-same_run row.run run refl refl refl _ (
                          recalled-IsConsistent row.run row.execution context
                            (answers.fresh_token 0) n v (ground (arith, admitted)) said at),
                      owners-EachChange o recovered run refl refl refl,
                    ),
                    tt,
                  )
          ]

    task-IsConsistent :
        (n : ActorTaskNode) (to_judge : Bool) (closed : Result Bool)
        → node_in row.run row.execution.workflow_id row.execution.node_id ≡ some (actor_task n)
        → EachWrite IsConsistent
            (resume_task row n context skip to_judge (owner_changes o) closed answers).acts
    unfolding resume_task
    task-IsConsistent n to_judge (err message) at = tt
    task-IsConsistent n true (ok replace) at =
        resume_judge-IsConsistent row context (owner_changes o) answers v said
          (owners-EachChange o recovered)
    task-IsConsistent n false (ok replace) at =
        resume_actor-IsConsistent row context (owner_changes o) answers v said
          (owners-EachChange o recovered) n at n.role skip replace

    node-IsConsistent :
        (node : NodeDef)
        → node_in row.run row.execution.workflow_id row.execution.node_id ≡ some node
        → EachWrite IsConsistent
            (resume_node row node context target skip (owner_changes o) answers).acts
    unfolding resume_node
    node-IsConsistent (child_workflow n) at = child-IsConsistent n at
    node-IsConsistent (builtin_program n) at = tt
    node-IsConsistent (actor_task n) at =
        task-IsConsistent n (targets_judge row.execution target)
          (close_role row n.role (not (targets_judge row.execution target)) answers) at

  recovered-IsConsistent :
      (node : NodeDef) (context : Text) (target : ResumeTarget) (skip : Bool)
      (r : Result (Option NodeExecution))
      → is_empty context ≡ false
      → node_in row.run row.execution.workflow_id row.execution.node_id ≡ some node
      → recover_owner row.execution answers ≡ r
      → EachWrite IsConsistent (resume_recovered row node context target skip r answers).acts
  unfolding resume_recovered
  recovered-IsConsistent node context target skip (err message) said at h = tt
  recovered-IsConsistent node context target skip (ok o) said at h =
      EachWrite-append IsConsistent (owner_acts o)
        (resume_node row node context target skip (owner_changes o) answers).acts
        (owner_acts-EachWrite o) (node-IsConsistent context target skip said o h node at)

  owned-IsConsistent :
      (context : Text) (target : ResumeTarget) (skip : Bool)
      → is_empty context ≡ false
      → EachWrite IsConsistent (resume_owned row context target skip answers).acts
  unfolding resume_owned
  owned-IsConsistent context target skip said = elim (Option-cases (current_node row.run)) [
    | inl absent ↦ rw (absent, resume_owned) tt
    | inr (node, there) ↦ elim (Bool-cases (is_exited row.execution.phase)) [
      | inl over ↦ rw (there, over, resume_owned) tt
      | inr stands ↦
          rw (there, stands, resume_owned)
            (recovered-IsConsistent node context target skip (recover_owner row.execution answers)
              said (sym here ∙ there) refl)
    ]
  ]

  -- Take a row whose execution is consistent and stands at the top frame, and let the executions
  -- that the store gives be consistent with its run. Then `handle_resume` writes only executions
  -- that are consistent with the run that it writes, whatever is answered: where the caller of a
  -- child workflow, the Actor or the Judge goes on, with a session that is continued or a fresh
  -- one, and for the earlier execution whose Judge is settled with it.
  pub handle_resume-IsConsistent :
      (token : String) (text : Text) (caller : String) (target : ResumeTarget) (skip : Bool)
      → EachWrite IsConsistent (handle_resume (some row) token text caller target skip answers).acts
  unfolding handle_resume resume_row
  handle_resume-IsConsistent token text caller target skip =
      elim (Bool-cases (is_empty (trim text) || ltb Limits.resolution_max (length (trim text)))) [
        | inl malformed ↦ rw (malformed, handle_resume) tt
        | inr fits ↦
            elim (Bool-cases (is_blocked row.run.status && row.execution.node_token == token)) [
              | inr stale ↦ rw (fits, stale, handle_resume) tt
              | inl current ↦ elim (Bool-cases (caller == row.run.manager_session_id)) [
                | inr other ↦ rw (fits, current, other, handle_resume) tt
                | inl manager ↦
                    rw (fits, current, manager, handle_resume)
                      (owned-IsConsistent (trim text) target skip (ground (arith, fits)))
              ]
            ]
      ]
