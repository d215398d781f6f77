-- ===== src/Engine/Judging/Handler.antt =====
-- Whatever a Judge submits, what is written is consistent.
use dsh_workflow_plugin.Prelude.{
  ℕ, String, Text, codes, trim, is_empty, ltb, length, true, false, ◌||◌, Option, some, [], ◌∷◌,
  ◌++◌, ◌≡◌, refl, arith, ◌==◌, nat_eq, EachOk, EachOk->>=, Bool-cases, Option-cases, inl, inr,
}
use dsh_workflow_plugin.Types.Limits
use dsh_workflow_plugin.Types.Execution.{
  NodeExecution, ExecutionClaim, ExecutionJudge, JudgeVerdict, reject, accept, need_context,
  checking, EventType,
}
use dsh_workflow_plugin.Types.Run.{is_running, blocked}
use dsh_workflow_plugin.Types.Claims.{ClaimCaller}
use dsh_workflow_plugin.State.Tests.{has_current}
use dsh_workflow_plugin.State.Valid.{IsConsistent}
use dsh_workflow_plugin.Engine.Base.{RuntimeRow, Reply, change, block_reason, retire_judge}
use dsh_workflow_plugin.Engine.Writes.{
  EachWrite, EachWrite-append, IsConsistentRow, IsConsistent-same_run, touch, touch-IsConsistent,
}
use dsh_workflow_plugin.Engine.Advance.{Decided, advance_known_result}
use dsh_workflow_plugin.Engine.Advance.Climbing.{IsRoutedRun}
use dsh_workflow_plugin.Engine.Advance.Keeps.{IsPlaced, IsPlaced-same}
use dsh_workflow_plugin.Engine.Advance.Results.{advance_known_result-IsConsistent}
use dsh_workflow_plugin.Engine.Judging.{
  settle_mode, judged_execution, waiting_execution, reject_claim, ask_context, accept_claim,
  judge_claim, binds_judge, judge_bound, handle_judge_claim,
}
use dsh_workflow_plugin.Engine.Judging.Keeps.{rejected-IsConsistent, judged-IsConsistent}

-- What the admission test says.
binds_judge_facts :
    (e : NodeExecution) (token : String) (c : ExecutionClaim) (j : ExecutionJudge)
    (caller : ClaimCaller)
    → binds_judge e token c j caller ≡ true
    → (e.phase ≡ checking)
      × ((j.claim_id == c.id) ≡ true)
      × (nat_eq j.input_version e.input_version ≡ true)
      × (has_current e ≡ false)
unfolding binds_judge
binds_judge_facts e token c j caller h = (ground arith, ground arith, ground arith, ground arith)

abbrev EachReply : Reply → Type 0
EachReply r = EachWrite IsConsistent r.acts

module _ (row : RuntimeRow) (c : ExecutionClaim) (j : ExecutionJudge) (reason : Text)
    (stored : String → Option NodeExecution) (fresh : ℕ → String) (now : String)
    (placed : IsPlaced row.run stored row.execution row.run.call_stack)
    (routed : IsRoutedRun row.run) (v : IsConsistentRow row) (ph : row.execution.phase ≡ checking)
    (hc : row.execution.claim ≡ some c) (hj : row.execution.judge ≡ some j)
    (id : (j.claim_id == c.id) ≡ true)
    (version : nat_eq j.input_version row.execution.input_version ≡ true)
    (first : has_current row.execution ≡ false) where
  rejects-IsConsistent : EachReply (reject_claim row (settle_mode row.execution) c j reason)
  unfolding reject_claim change
  rejects-IsConsistent =
      ((rejected-IsConsistent row.run row.execution c j reason v ph hc hj id version first, tt), tt)

  asks-IsConsistent : EachReply (ask_context row (settle_mode row.execution) c j reason)
  unfolding ask_context change touch waiting_execution
  asks-IsConsistent =
      let judged = judged_execution (settle_mode row.execution) need_context c j reason in
      (
        (
          IsConsistent-same_run row.run (record row.run { status = blocked }) refl refl refl _
              (touch-IsConsistent judged judged.node_token judged.restart_pending
                judged.role_boundary_prepared judged.judge_auto_retried
                (some (block_reason (codes "Judge NEED_CONTEXT: " ++ reason))) row.run
                (judged-IsConsistent row.run row.execution c j reason v ph hc hj id version first
                  need_context (λ h. cc))),
          tt,
        ),
        tt,
      )

  accepts-IsConsistent :
      EachOk EachReply (accept_claim row (settle_mode row.execution) c j reason stored fresh now)
  unfolding accept_claim judged_execution settle_mode
  accepts-IsConsistent =
      let judged = judged_execution (settle_mode row.execution) accept c j reason in
      EachOk->>= EachReply EachReply
        (advance_known_result (record row { execution = judged }) stored fresh now Decided.result
          c.result c.handoff (EventType.judgment ∷ []))
        _
        (advance_known_result-IsConsistent (record row { execution = judged }) stored c
          (IsPlaced-same row.run stored row.execution judged row.run.call_stack refl refl placed)
          routed
          (judged-IsConsistent row.run row.execution c j reason v ph hc hj id version first accept
            (λ h. cc))
          hc ph fresh now c.result c.handoff (EventType.judgment ∷ []))
        (λ r h. EachWrite-append IsConsistent r.acts (retire_judge j.session_id ∷ []) h tt)

  judges-IsConsistent :
      (verdict : JudgeVerdict)
      → EachOk EachReply
          (judge_claim row (settle_mode row.execution) verdict c j reason stored fresh now)
  unfolding judge_claim
  judges-IsConsistent reject = rejects-IsConsistent
  judges-IsConsistent need_context = asks-IsConsistent
  judges-IsConsistent accept = accepts-IsConsistent

module _ (row : RuntimeRow) (stored : String → Option NodeExecution) (fresh : ℕ → String)
    (now : String) (placed : IsPlaced row.run stored row.execution row.run.call_stack)
    (routed : IsRoutedRun row.run) (v : IsConsistentRow row) (token : String)
    (verdict : JudgeVerdict) (caller : ClaimCaller) where
  judge_bound-IsConsistent :
      (reason : Text)
      → EachOk EachReply (judge_bound row token verdict reason caller stored fresh now)
  unfolding judge_bound
  judge_bound-IsConsistent reason = elim (Option-cases row.execution.claim) [
    | inl none_yet ↦ rw (none_yet, judge_bound) tt
    | inr (c, hc) ↦ elim (Option-cases row.execution.judge) [
      | inl no_judge ↦ rw (hc, no_judge, judge_bound) tt
      | inr (j, hj) ↦ elim (Bool-cases (binds_judge row.execution token c j caller)) [
        | inr refused ↦ rw (hc, hj, refused, judge_bound) tt
        | inl bound ↦
            let f = binds_judge_facts row.execution token c j caller bound in
            rw (hc, hj, bound, judge_bound)
              (judges-IsConsistent row c j reason stored fresh now placed routed v f.0 hc hj f.1 f.2
                f.3 verdict)
      ]
    ]
  ]

  -- Take a row whose execution is consistent, stands at the top frame and has consistent callers,
  -- under a frozen definition whose edges all lead to nodes or returns of their workflows.
  -- Whatever token, verdict, reason and caller are submitted, where `handle_judge_claim` returns,
  -- every execution that it writes is consistent with the run that it writes: on REJECT, on
  -- NEED_CONTEXT, and on ACCEPT for the execution that leaves, each caller that its return climbs
  -- past and the execution that is entered.
  pub handle_judge_claim-IsConsistent :
      (text : Text)
      → EachOk
          (λ r. EachWrite IsConsistent r.acts)
          (handle_judge_claim (some row) token verdict text caller stored fresh now)
  unfolding handle_judge_claim
  handle_judge_claim-IsConsistent text =
      elim (Bool-cases (is_empty (trim text) || ltb Limits.reason_max (length (trim text)))) [
        | inl malformed ↦ rw (malformed, handle_judge_claim) tt
        | inr fine ↦ elim (Bool-cases (is_running row.run.status)) [
          | inr stopped ↦ rw (fine, stopped, handle_judge_claim) tt
          | inl runs ↦ rw (fine, runs, handle_judge_claim) (judge_bound-IsConsistent (trim text))
        ]
      ]
