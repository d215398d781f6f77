-- ===== src/Engine/Manager/Respawn/Keeps.antt =====
-- The executions that the replacement of a Judge writes.
use dsh_workflow_plugin.Prelude.{
  ℕ, suc, String, Text, codes, trim, is_empty, ltb, length, true, false, ◌&&◌, ◌||◌, ◌==◌, nat_eq,
  Option, none, some, [], ◌++◌, ◌≡◌, refl, arith, Bool-cases, Option-cases, inl, inr, Result-cases,
  if-keeps, if-splits,
}
use dsh_workflow_plugin.Types.Limits
use dsh_workflow_plugin.Types.Execution.{NodeExecution, ExecutionClaim, ExecutionJudge}
use dsh_workflow_plugin.Types.Run.{RunState, is_running, is_blocked}
use dsh_workflow_plugin.State.Valid.{IsConsistent}
use dsh_workflow_plugin.Engine.Base.{RuntimeRow, Reply, change}
use dsh_workflow_plugin.Engine.Judges.{new_judge}
use dsh_workflow_plugin.Engine.Block.{block_row}
use dsh_workflow_plugin.Engine.Writes.{
  EachWrite, EachWrite-append, IsConsistentRow, IsConsistent-same_run, touch, touch-IsConsistent,
  block_row-IsConsistent,
}
use dsh_workflow_plugin.Engine.Manager.Recovery.{
  is_accepted, resumed_run, drains, judge_of_claim, dispatch_fault,
}
use dsh_workflow_plugin.Engine.Manager.Recovery.Rechecked.{
  rechecked, rechecked-IsConsistent, rechecked-fresh,
}
use dsh_workflow_plugin.Engine.Manager.Respawn.{
  RespawnAnswers, respawn_decision, respawned_execution, respawn_failed, arrange_respawn,
  drain_respawn, respawn_claim, may_respawn, respawn_owned, respawn_row, handle_respawn_judge,
}

respawn_decision-said : (reason : Text) → is_empty (respawn_decision reason) ≡ false
respawn_decision-said reason = elim (Bool-cases (is_empty reason)) [
  | inl blank ↦ ground (arith, blank)
  | inr said ↦ ground (arith, said)
]

module _ (run : RunState) (e : NodeExecution) (c : ExecutionClaim) (reason : Text)
    (token : ℕ → String) (v : IsConsistent run e) (hc : e.claim ≡ some c)
    (unaccepted : is_accepted e.judgment ≡ false) where
  respawned-IsConsistent : IsConsistent run (respawned_execution e run c reason token)
  unfolding respawned_execution touch new_judge
  respawned-IsConsistent =
      let k = new_judge run c (suc e.input_version) (token 0) (token 1) in
      touch-IsConsistent (rechecked e c k _) e.node_token false e.role_boundary_prepared false none
        run
        (rechecked-IsConsistent run e c k _ v hc unaccepted refl refl (
          rechecked-fresh run e c k _ v hc unaccepted refl refl refl
            (ground (arith, respawn_decision-said reason)) refl refl refl refl))

drains-EachWrite : (k : Option ExecutionJudge) → EachWrite IsConsistent (drains k)
drains-EachWrite none = tt
drains-EachWrite (some k) = tt

may_respawn-unaccepted :
    (row : RuntimeRow) → may_respawn row ≡ true → is_accepted row.execution.judgment ≡ false
unfolding may_respawn
may_respawn-unaccepted row may = ground (arith, may)

module _ (row : RuntimeRow) (answers : RespawnAnswers) (v : IsConsistentRow row)
    (faulted : (r : RuntimeRow) → answers.at_fault ≡ some r → IsConsistentRow r) where
  fault-IsConsistent :
      (version : ℕ) (message : Text) (o : Option RuntimeRow)
      → ((r : RuntimeRow) → o ≡ some r → IsConsistentRow r)
      → EachWrite IsConsistent (dispatch_fault row.execution version message o)
  unfolding dispatch_fault
  fault-IsConsistent version message none all = tt
  fault-IsConsistent version message (some r) all =
      if-keeps (EachWrite IsConsistent)
        (is_running r.run.status
          && r.run.run_id == row.execution.run_id
          && r.execution.execution_id == row.execution.execution_id
          && nat_eq r.version version)
        {x = block_row r (codes "dispatch fault: " ++ message) []} {y = []}
        (block_row-IsConsistent r (codes "dispatch fault: " ++ message) [] (all r refl)) tt

  failed-IsConsistent :
      (message : String)
      → EachWrite IsConsistent
          (respawn_failed row.execution row.version message answers.at_fault).acts
  unfolding respawn_failed
  failed-IsConsistent message =
      fault-IsConsistent row.version (codes message) answers.at_fault faulted

  module _ (c : ExecutionClaim) (reason : Text) (hc : row.execution.claim ≡ some c)
      (unaccepted : is_accepted row.execution.judgment ≡ false) where
    written-IsConsistent :
        IsConsistent
          (resumed_run row.run)
          (respawned_execution row.execution row.run c reason answers.fresh_token)
    written-IsConsistent =
        IsConsistent-same_run row.run (resumed_run row.run) refl refl refl _ (
          respawned-IsConsistent row.run row.execution c reason answers.fresh_token v hc unaccepted)

    arrange-IsConsistent : EachWrite IsConsistent (arrange_respawn row c reason answers).acts
    unfolding arrange_respawn change
    arrange-IsConsistent = elim (Result-cases answers.written) [
      | inr (message, fails) ↦
          rw (fails, arrange_respawn) ((written-IsConsistent, tt), failed-IsConsistent message)
      | inl (_, done) ↦ rw (done, arrange_respawn) ((written-IsConsistent, tt), tt)
    ]

    drain-IsConsistent : EachWrite IsConsistent (drain_respawn row c reason answers).acts
    unfolding drain_respawn
    drain-IsConsistent = elim (Result-cases answers.drained) [
      | inr (message, fails) ↦ rw (fails, drain_respawn) (failed-IsConsistent message)
      | inl (false, done) ↦ rw (done, drain_respawn) tt
      | inl (true, done) ↦ rw (done, drain_respawn) arrange-IsConsistent
    ]

    claim-IsConsistent : EachWrite IsConsistent (respawn_claim row c reason answers).acts
    unfolding respawn_claim
    claim-IsConsistent = elim (Result-cases answers.cwd) [
      | inr (message, fails) ↦ rw (fails, respawn_claim) (failed-IsConsistent message)
      | inl (_, found) ↦
          rw (found, respawn_claim)
            (EachWrite-append IsConsistent (drains (judge_of_claim row.execution (some c.id)))
              (drain_respawn row c reason answers).acts
              (drains-EachWrite (judge_of_claim row.execution (some c.id))) drain-IsConsistent)
    ]

  owned-IsConsistent :
      (reason : Text) → EachWrite IsConsistent (respawn_owned row reason answers).acts
  unfolding respawn_owned
  owned-IsConsistent reason = elim (Option-cases row.execution.claim) [
    | inl absent ↦ rw (absent, respawn_owned) tt
    | inr (c, hc) ↦
        rw (hc, respawn_owned)
          (if-splits (λ (reply : Reply). EachWrite IsConsistent reply.acts) (may_respawn row)
            (λ may. claim-IsConsistent c reason hc (may_respawn-unaccepted row may)) (λ _. tt))
  ]

  -- From a row whose execution is consistent, and with a consistent row where a fault is reported,
  -- `handle_respawn_judge` writes only executions that are consistent with the run that it writes,
  -- also where the drain or the write fails.
  pub handle_respawn_judge-IsConsistent :
      (token : String) (text : Text) (caller : String)
      → EachWrite IsConsistent (handle_respawn_judge (some row) token text caller answers).acts
  unfolding handle_respawn_judge respawn_row
  handle_respawn_judge-IsConsistent token text caller =
      elim (Bool-cases (ltb Limits.reason_max (length (trim text)))) [
        | inl long ↦ rw (long, handle_respawn_judge) tt
        | inr fits ↦
            elim (Bool-cases (
              (is_running row.run.status || is_blocked row.run.status)
              && row.execution.node_token == token)) [
                | inr stale ↦ rw (fits, stale, handle_respawn_judge) tt
                | inl current ↦ elim (Bool-cases (caller == row.run.manager_session_id)) [
                  | inr other ↦ rw (fits, current, other, handle_respawn_judge) tt
                  | inl manager ↦
                      rw (fits, current, manager, handle_respawn_judge)
                        (owned-IsConsistent (trim text))
                ]
              ]
      ]
