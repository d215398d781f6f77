-- ===== src/Engine/TurnEnd/Sound.antt =====
-- Whatever turn ends however, what is written is consistent.
use dsh_workflow_plugin.Prelude.{
  ℕ, zero, suc, String, is_empty, codes, true, false, ◌&&◌, not, Option, none, some, opt_bind, List,
  [], ◌∷◌, includes, ◌≡◌, refl, arith, subst, Bool-cases, Option-cases, inl, inr,
}
use dsh_workflow_plugin.Types.Execution.{
  NodeExecution, ExecutionChild, ChildResult, ExecutionClaim, ExecutionJudge, working,
}
use dsh_workflow_plugin.State.Tests.{node_in, has_current}
use dsh_workflow_plugin.State.Valid.{IsConsistent}
use dsh_workflow_plugin.Roles.Failures.{ActorFailureFacts}
use dsh_workflow_plugin.Engine.Base.{RuntimeRow, change, current_node}
use dsh_workflow_plugin.Engine.Writes.{EachWrite, IsConsistentRow, block_row-IsConsistent}
use dsh_workflow_plugin.Engine.Judges.{new_judge, arranged_judge, transfer_judge}
use dsh_workflow_plugin.Engine.Judges.Keeps.{dispatch_judge-IsConsistent}
use dsh_workflow_plugin.Engine.Failover.{
  FailoverVerdict, switched, exhausted, ineligible, try_failover, try_judge_failover,
}
use dsh_workflow_plugin.Engine.Failover.Keeps.{rejudged-IsConsistent, continues_none}
use dsh_workflow_plugin.Engine.TurnEnd.{
  TurnAnswers, actor_failed, retried_execution, retry_judge_once, retry_present, judge_blocked,
  judge_without_fallback, judge_with_fallback, forget_judge,
}
use dsh_workflow_plugin.Engine.TurnEnd.Keeps.{
  EachSwitch, try_failover-EachSwitch, try_judge_failover-EachSwitch,
}

-- A row from which a running work order can go on: its execution is consistent and stands at the top
-- frame, has no judgment of its claim yet, and no recovery that continues a Judge's session.
pub record IsUsable (row : RuntimeRow) : Type 0 where
  pub consistent : IsConsistentRow row
  pub here : current_node row.run ≡ node_in row.run row.execution.workflow_id row.execution.node_id
  pub unjudged : has_current row.execution ≡ false
  pub free : continues_none row.execution.resolution ≡ true

-- The rows and executions that the handler reads later are such, too.
pub record IsSoundAnswers (answers : TurnAnswers) : Type 0 where
  pub said : is_empty answers.texts.decision ≡ false
  pub again : (r : RuntimeRow) → answers.again ≡ some r → IsUsable r
  pub owners :
      (r : RuntimeRow)
      → answers.again ≡ some r
      → (id : String) (e : NodeExecution) → answers.stored id ≡ some e
      → IsConsistent r.run e
  pub after : (r : RuntimeRow) → answers.judge_answers.after ≡ some r → IsConsistentRow r
  pub at_fault : (r : RuntimeRow) → answers.judge_answers.at_fault ≡ some r → IsConsistentRow r

returned_execution : (String → Option NodeExecution) → NodeExecution → Option NodeExecution
returned_execution stored e =
    opt_bind e.child (λ c. opt_bind c.result (λ r. stored r.terminal_execution_id))

returned-stored :
    (P : NodeExecution → Type 0) (stored : String → Option NodeExecution)
    → ((id : String) (e : NodeExecution) → stored id ≡ some e → P e)
    → (e found : NodeExecution) → returned_execution stored e ≡ some found
    → P found
unfolding returned_execution
returned-stored P stored all e found h = elim (Option-cases e.child) [
  | inl childless ↦ absurd (no_child childless)
  | inr (c, child) ↦ elim (Option-cases c.result) [
    | inl pending ↦ absurd (no_result c child pending)
    | inr (r, returned) ↦ all r.terminal_execution_id found (result c r child returned)
  ]
]
  where
    no_child : e.child ≡ none → ⊥
    no_child childless = ground arith

    no_result : (c : ExecutionChild) → e.child ≡ some c → c.result ≡ none → ⊥
    no_result c child pending = ground arith

    result :
        (c : ExecutionChild) (r : ChildResult)
        → e.child ≡ some c
        → c.result ≡ some r
        → stored r.terminal_execution_id ≡ some found
    result c r child returned = ground arith

-- The Judge that a transfer finds is that of a stored execution.
pub transfer_judge-stored :
    (P : NodeExecution → Type 0) (stored : String → Option NodeExecution)
    → ((id : String) (e : NodeExecution) → stored id ≡ some e → P e)
    → (rounds : ℕ) (seen : List String) (start : Option NodeExecution) (o : NodeExecution)
      (j : ExecutionJudge)
    → ((e : NodeExecution) → start ≡ some e → P e)
    → transfer_judge rounds stored seen start ≡ some (o, j)
    → P o
unfolding transfer_judge returned_execution
transfer_judge-stored P stored all zero seen start o j h found = cc
transfer_judge-stored P stored all (suc rounds) seen none o j h found = cc
transfer_judge-stored P stored all (suc rounds) seen (some e) o j h found =
    elim (Bool-cases (includes e.execution_id seen)) [
      | inl again ↦ absurd (stops again)
      | inr new ↦ elim (Option-cases e.judge) [
        | inr (k, judged) ↦ subst P (same k new judged) (h e refl)
        | inl unjudged ↦
            transfer_judge-stored P stored all rounds (e.execution_id ∷ seen)
              (returned_execution stored e) o j (returned-stored P stored all e)
              (goes_on new unjudged)
      ]
    ]
  where
    stops : includes e.execution_id seen ≡ true → ⊥
    stops again = ground arith

    same : (k : ExecutionJudge) → includes e.execution_id seen ≡ false → e.judge ≡ some k → e ≡ o
    same k new judged = ground arith

    goes_on :
        includes e.execution_id seen ≡ false
        → e.judge ≡ none
        → transfer_judge rounds stored (e.execution_id ∷ seen) (returned_execution stored e)
          ≡ some (o, j)
    goes_on new unjudged = ground arith

module _ (answers : TurnAnswers) (sound : IsSoundAnswers answers)
    (facts : Option ActorFailureFacts) where
  module _ (row : RuntimeRow) (u : IsUsable row) where
    pub actor_failed-IsConsistent :
        row.execution.phase ≡ working → EachWrite IsConsistent (actor_failed row answers facts)
    unfolding actor_failed
    actor_failed-IsConsistent w =
        go (try_failover row facts answers.texts) refl
          (try_failover-EachSwitch row u.consistent facts answers.texts sound.said u.here w)
      where
        go :
            (verdict : FailoverVerdict)
            → try_failover row facts answers.texts ≡ verdict
            → EachSwitch verdict
            → EachWrite IsConsistent (actor_failed row answers facts)
        go (switched acts) e h = rw (e, actor_failed) h
        go exhausted e h =
            rw (e, actor_failed)
              (block_row-IsConsistent row
                (answers.diagnosed (codes "actor-turn-ended-without-result")) [] u.consistent)
        go ineligible e h =
            rw (e, actor_failed)
              (block_row-IsConsistent row
                (answers.diagnosed (codes "actor-turn-ended-without-result")) [] u.consistent)

    retry_judge_once-IsConsistent :
        (c : ExecutionClaim) (j : ExecutionJudge)
        → row.execution.claim ≡ some c
        → EachWrite IsConsistent (retry_judge_once row c j answers)
    unfolding retry_judge_once retried_execution change new_judge arranged_judge
    retry_judge_once-IsConsistent c j hc = (
      (
        rejudged-IsConsistent row.run row.execution c
            (new_judge row.run c row.execution.input_version (answers.fresh 0) (answers.fresh 1))
            true u.consistent hc refl refl u.unjudged u.free,
        tt,
      ),
      dispatch_judge-IsConsistent _ _ _ _ answers.judge_answers sound.after sound.at_fault,
    )

    judge_blocked-IsConsistent :
        (reason : String) → EachWrite IsConsistent (judge_blocked row answers reason)
    unfolding judge_blocked forget_judge
    judge_blocked-IsConsistent reason = block_row-IsConsistent row _ [] u.consistent

    retry_present-IsConsistent : EachWrite IsConsistent (retry_present row answers)
    unfolding retry_present
    retry_present-IsConsistent = elim (Option-cases row.execution.claim) [
      | inl unclaimed ↦ rw (unclaimed, retry_present) tt
      | inr (c, hc) ↦ elim (Option-cases row.execution.judge) [
        | inl no_judge ↦ rw (hc, no_judge, retry_present) tt
        | inr (j, hj) ↦ rw (hc, hj, retry_present) (retry_judge_once-IsConsistent c j hc)
      ]
    ]

    pub judge_without_fallback-IsConsistent :
        EachWrite IsConsistent (judge_without_fallback row answers)
    unfolding judge_without_fallback
    judge_without_fallback-IsConsistent =
        elim (Bool-cases (answers.transient && not row.execution.judge_auto_retried)) [
          | inl again ↦ rw (again, judge_without_fallback) retry_present-IsConsistent
          | inr no_more ↦ elim (Bool-cases row.execution.judge_auto_retried) [
            | inl retried ↦
                rw (no_more, retried, judge_without_fallback)
                  (judge_blocked-IsConsistent "judge turn ended without judge_claim (retried once)")
            | inr first ↦
                rw (no_more, first, judge_without_fallback)
                  (judge_blocked-IsConsistent "judge turn ended without judge_claim")
          ]
        ]

    pub judge_with_fallback-IsConsistent :
        EachWrite IsConsistent (judge_with_fallback row answers facts)
    unfolding judge_with_fallback
    judge_with_fallback-IsConsistent =
        go (try_judge_failover row facts answers.fresh answers.judge_answers answers.texts) refl (
          try_judge_failover-EachSwitch row u.consistent facts answers.fresh answers.judge_answers
            answers.texts u.unjudged u.free sound.after sound.at_fault)
      where
        go :
            (verdict : FailoverVerdict)
            → try_judge_failover row facts answers.fresh answers.judge_answers answers.texts
              ≡ verdict
            → EachSwitch verdict
            → EachWrite IsConsistent (judge_with_fallback row answers facts)
        go (switched acts) e h = rw (e, judge_with_fallback) h
        go exhausted e h =
            rw (e, judge_with_fallback)
              (judge_blocked-IsConsistent
                "judge turn ended without judge_claim (fallback exhausted)")
        go ineligible e h =
            rw (e, judge_with_fallback)
              (judge_blocked-IsConsistent "judge turn ended without judge_claim")
