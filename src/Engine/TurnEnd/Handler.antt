-- ===== src/Engine/TurnEnd/Handler.antt =====
-- `handleTurnEnded` as a whole: whatever turn ends however, what is written is consistent.
use dsh_workflow_plugin.Prelude.{
  String, codes, Bool, true, false, ◌&&◌, ◌||◌, not, ◌==◌, nat_eq, Option, none, some, [], ◌≡◌,
  refl, Bool-cases, Option-cases, inl, inr,
}
use dsh_workflow_plugin.Types.Execution.{
  NodeExecution, ExecutionJudge, Phase, ready, working, checking, settling, exited,
}
use dsh_workflow_plugin.Types.Run.{is_running}
use dsh_workflow_plugin.Types.Claims.{ClaimCaller}
use dsh_workflow_plugin.State.Tests.{is_ready}
use dsh_workflow_plugin.State.Valid.{IsConsistent}
use dsh_workflow_plugin.Roles.{role_fallback_route}
use dsh_workflow_plugin.Roles.Failures.{ActorFailureFacts}
use dsh_workflow_plugin.Engine.Base.{RuntimeRow, change, matches_judge}
use dsh_workflow_plugin.Engine.Writes.{EachWrite, IsConsistentRow, block_row-IsConsistent}
use dsh_workflow_plugin.Engine.Judges.{
  SafeInspection, safe, waiting, unsafe, still_current, transfer_judge,
}
use dsh_workflow_plugin.Engine.Judges.Keeps.{amended-IsConsistent, still_current-row}
use dsh_workflow_plugin.Engine.TurnEnd.{
  TurnAnswers, settled_owner, settle_transfer, inspect_transfer, transfer_ended, actor_checked,
  judge_ended, closed_turn, inspected, ends_actor, ends_judge, own_turn_ended, handle_turn_ended,
  forget_actor,
}
use dsh_workflow_plugin.Engine.TurnEnd.Keeps.{settled_actor-IsConsistent}
use dsh_workflow_plugin.Engine.TurnEnd.Sound.{
  IsUsable, IsSoundAnswers, transfer_judge-stored, actor_failed-IsConsistent,
  judge_without_fallback-IsConsistent, judge_with_fallback-IsConsistent,
}

module _ (answers : TurnAnswers) (sound : IsSoundAnswers answers)
    (facts : Option ActorFailureFacts) where
  module _ (row : RuntimeRow) (u : IsUsable row) where
    actor_checked-IsConsistent : EachWrite IsConsistent (actor_checked row)
    unfolding actor_checked change forget_actor
    actor_checked-IsConsistent =
        ((settled_actor-IsConsistent row.run row.execution u.consistent, tt), tt)

    judge_ended-IsConsistent : EachWrite IsConsistent (judge_ended row answers facts)
    unfolding judge_ended
    judge_ended-IsConsistent = elim (Option-cases (role_fallback_route row.run "judge")) [
      | inr (route, there) ↦
          rw (there, judge_ended) (judge_with_fallback-IsConsistent answers sound facts row u)
      | inl absent ↦
          rw (absent, judge_ended) (judge_without_fallback-IsConsistent answers sound facts row u)
    ]

    closed_turn-IsConsistent :
        (actor judge : Bool) (phase : Phase)
        → row.execution.phase ≡ phase
        → EachWrite IsConsistent (closed_turn row answers actor judge phase facts)
    unfolding closed_turn
    closed_turn-IsConsistent true judge checking at = actor_checked-IsConsistent
    closed_turn-IsConsistent true judge working at =
        actor_failed-IsConsistent answers sound facts row u at
    closed_turn-IsConsistent true judge ready at = tt
    closed_turn-IsConsistent true judge settling at = tt
    closed_turn-IsConsistent true judge exited at = tt
    closed_turn-IsConsistent false true checking at = judge_ended-IsConsistent
    closed_turn-IsConsistent false true ready at = tt
    closed_turn-IsConsistent false true working at = tt
    closed_turn-IsConsistent false true settling at = tt
    closed_turn-IsConsistent false true exited at = tt
    closed_turn-IsConsistent false false phase at = tt

    inspected-IsConsistent :
        (actor judge : Bool) (inspection : SafeInspection)
        → EachWrite IsConsistent (inspected row answers actor judge facts inspection)
    unfolding inspected
    inspected-IsConsistent actor judge safe =
        closed_turn-IsConsistent actor judge row.execution.phase refl
    inspected-IsConsistent actor judge waiting = tt
    inspected-IsConsistent actor judge unsafe = block_row-IsConsistent row _ [] u.consistent

  module _ (row : RuntimeRow) (v : IsConsistentRow row) (caller : ClaimCaller) where
    own_turn_ended-IsConsistent : EachWrite IsConsistent (own_turn_ended row answers caller facts)
    unfolding own_turn_ended
    own_turn_ended-IsConsistent =
        elim (Bool-cases (ends_actor row.execution caller || ends_judge row.execution caller)) [
          | inr other ↦ rw (other, own_turn_ended) tt
          | inl ours ↦ elim (Option-cases answers.inspection) [
            | inl late ↦
                rw (ours, late, own_turn_ended)
                  (block_row-IsConsistent row (codes "whenIdle timed out") [] v)
            | inr (inspection, came) ↦
                elim (Option-cases (still_current answers.again row.execution row.version)) [
                  | inl stale ↦ rw (ours, came, stale, own_turn_ended) tt
                  | inr (current, same) ↦
                      rw (ours, came, same, own_turn_ended)
                        (inspected-IsConsistent current
                          (sound.again current (
                            still_current-row row.execution row.version answers.again current same))
                          (ends_actor row.execution caller) (ends_judge row.execution caller)
                          inspection)
                ]
          ]
        ]

    settle_transfer-IsConsistent :
        (owner : NodeExecution) (j : ExecutionJudge)
        → ((r : RuntimeRow) → answers.again ≡ some r → IsConsistent r.run owner)
        → EachWrite IsConsistent (settle_transfer row answers caller owner j)
    unfolding settle_transfer settled_owner change
    settle_transfer-IsConsistent owner j owned = elim (Option-cases answers.again) [
      | inl absent ↦ rw (absent, settle_transfer) tt
      | inr (current, found) ↦
          elim (Bool-cases (
            nat_eq current.version row.version
            && current.execution.execution_id == row.execution.execution_id)) [
              | inr moved ↦ rw (found, moved, settle_transfer) tt
              | inl same ↦
                  rw (found, same, settle_transfer)
                    (
                      (
                        amended-IsConsistent current.run owner (λ k. k.message_id) (λ k. true)
                            (owned current found),
                        tt,
                      ),
                      tt,
                    )
            ]
    ]

    inspect_transfer-IsConsistent :
        (owner : NodeExecution) (j : ExecutionJudge) (inspection : Option SafeInspection)
        → answers.inspection ≡ inspection
        → ((r : RuntimeRow) → answers.again ≡ some r → IsConsistent r.run owner)
        → EachWrite IsConsistent (inspect_transfer row answers caller owner j)
    unfolding inspect_transfer
    inspect_transfer-IsConsistent owner j none e owned =
        rw (e, inspect_transfer) (block_row-IsConsistent row (codes "whenIdle timed out") [] v)
    inspect_transfer-IsConsistent owner j (some safe) e owned =
        rw (e, inspect_transfer) (settle_transfer-IsConsistent owner j owned)
    inspect_transfer-IsConsistent owner j (some waiting) e owned =
        rw (e, inspect_transfer)
          (block_row-IsConsistent row (codes "Judge/known tools not safely closed") [] v)
    inspect_transfer-IsConsistent owner j (some unsafe) e owned =
        rw (e, inspect_transfer)
          (block_row-IsConsistent row (codes "Judge/known tools not safely closed") [] v)

    transfer_ended-IsConsistent :
        (predecessor : String)
        → EachWrite IsConsistent (transfer_ended row answers caller predecessor)
    unfolding transfer_ended
    transfer_ended-IsConsistent predecessor =
        elim (Option-cases
          (transfer_judge answers.rounds answers.stored [] (answers.stored predecessor))) [
            | inl no_owner ↦ rw (no_owner, transfer_ended) tt
            | inr ((owner, j), found) ↦
                elim (Bool-cases (matches_judge (some j) caller && not j.settled)) [
                  | inr other ↦ rw (found, other, transfer_ended) tt
                  | inl ours ↦
                      rw (found, ours, transfer_ended)
                        (inspect_transfer-IsConsistent owner j answers.inspection refl (λ r again.
                          transfer_judge-stored (IsConsistent r.run) answers.stored
                            (sound.owners r again) answers.rounds [] (answers.stored predecessor)
                            owner j (λ e h. sound.owners r again predecessor e h) found))
                ]
          ]

    -- Whatever turn ends with whatever failure, `handle_turn_ended` writes only executions that
    -- are consistent with the run that it writes: where the Actor or the Judge settles, is
    -- switched to another route, is retried or is blocked. The row must be consistent; the row
    -- read after the probe must be consistent too, stand at the top frame, have no judgment of its
    -- claim, and have no recovery that continues a Judge's session; what the handler reads later
    -- must be consistent, and the text of a switch must not be empty.
    pub handle_turn_ended-IsConsistent :
        EachWrite IsConsistent (handle_turn_ended (some row) answers caller facts)
    unfolding handle_turn_ended
    handle_turn_ended-IsConsistent = elim (Bool-cases (is_running row.run.status)) [
      | inr stopped ↦ rw (stopped, handle_turn_ended) tt
      | inl runs ↦ elim (Bool-cases (is_ready row.execution.phase)) [
        | inr busy ↦ rw (runs, busy, handle_turn_ended) own_turn_ended-IsConsistent
        | inl waits ↦ elim (Option-cases row.execution.predecessor_id) [
          | inl first ↦ rw (runs, waits, first, handle_turn_ended) own_turn_ended-IsConsistent
          | inr (predecessor, after) ↦
              rw (runs, waits, after, handle_turn_ended) (transfer_ended-IsConsistent predecessor)
        ]
      ]
    ]
