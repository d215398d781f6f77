-- ===== src/Engine/Manager/Rejudging/Keeps.antt =====
-- The executions that a recovery by the Judge writes.
use dsh_workflow_plugin.Prelude.{
  ℕ, suc, String, Text, is_empty, false, ◌||◌, not, Option, none, some, or_some, List, [], ◌∷◌, ◌≡◌,
  refl, arith, eq_refl, Bool-cases, Option-cases, inl, inr, Result, ok, err, if-keeps,
}
use dsh_workflow_plugin.Types.Execution.{
  NodeExecution, ExecutionClaim, ExecutionJudge, ExecutionResolution, ResolutionTarget, followup,
  ExecutionChange,
}
use dsh_workflow_plugin.Types.Run.{RunState}
use dsh_workflow_plugin.State.Tests.{has_current, is_checking}
use dsh_workflow_plugin.State.Checks.{judgment_problems, resolution_problems}
use dsh_workflow_plugin.State.Valid.{IsConsistent}
use dsh_workflow_plugin.Engine.Base.{RuntimeRow, Act, drive, forget_dispatch, change}
use dsh_workflow_plugin.Engine.Judges.{new_judge}
use dsh_workflow_plugin.Engine.Writes.{
  EachWrite, EachChange, EachWrite-append, IsConsistentRow, IsConsistent-same_run, touch,
  touch-IsConsistent,
}
use dsh_workflow_plugin.Engine.TurnEnd.{settled_actor}
use dsh_workflow_plugin.Engine.TurnEnd.Keeps.{settled_actor-IsConsistent}
use dsh_workflow_plugin.Engine.Manager.Ending.{retires}
use dsh_workflow_plugin.Engine.Manager.Recovery.{
  current_feedback, is_accepted, judge_of_claim, drains,
}
use dsh_workflow_plugin.Engine.Manager.Recovery.Rechecked.{
  rechecked, rechecked-IsConsistent, rechecked-fresh,
}
use dsh_workflow_plugin.Engine.Manager.Rejudging.{
  ResumeAnswers, JudgeRecovery, continues, starts_fresh, continued_judge, route_changed,
  replace_judge, continue_judge, recover_judge, judge_resolution, rejudged_execution, retokened_run,
  commit_rejudged, rejudge_recovered, forgets, resume_judge,
}

module _ (run : RunState) (e : NodeExecution) (c : ExecutionClaim) (k : ExecutionJudge)
    (r : ExecutionResolution) (session : String) (v : IsConsistent run e) (hc : e.claim ≡ some c)
    (id : k.claim_id ≡ c.id) (version : k.input_version ≡ suc e.input_version)
    (own : k.session_id ≡ session) where
  -- A Judge that has the session at this input binds the recovery.
  rechecked-followup :
      (t : Text)
      → r.target ≡ ResolutionTarget.judge
      → r.context ≡ some t
      → is_empty t ≡ false
      → r.input_version ≡ suc e.input_version
      → r.skip_compact ≡ false
      → r.judge_mode ≡ some followup
      → r.judge_session_id ≡ some session
      → resolution_problems (rechecked e c k r) ≡ []
  unfolding resolution_problems judgment_problems has_current
  rechecked-followup t at given said same uncompacted mode continued =
      elim (Option-cases e.judgment) [
        | inl unjudged ↦ ground (
          arith,
          unjudged,
          at,
          given,
          said,
          same,
          uncompacted,
          mode,
          continued,
          own,
          eq_refl c.id,
          eq_refl session,
        )
        | inr (j, judged) ↦ ground (
          arith,
          v.judgment,
          judged,
          at,
          given,
          said,
          same,
          uncompacted,
          mode,
          continued,
          own,
          eq_refl c.id,
          eq_refl session,
        )
      ]

module _ (run : RunState) (e : NodeExecution) (c : ExecutionClaim) (context : Text)
    (token : ℕ → String) (v : IsConsistent run e) (hc : e.claim ≡ some c)
    (unaccepted : is_accepted e.judgment ≡ false) (said : is_empty context ≡ false) where
  rejudged-IsConsistent :
      (m : JudgeRecovery) → IsConsistent run (rejudged_execution run e c context m token)
  unfolding rejudged_execution touch new_judge settled_actor current_feedback
  rejudged-IsConsistent (continues session) =
      let k = new_judge run c (suc e.input_version) (token 0) session in
      let r = judge_resolution context (suc e.input_version) (continues session) in
      touch-IsConsistent (rechecked (settled_actor e) c k r) (token 2) false
        e.role_boundary_prepared false none run
        (rechecked-IsConsistent run (settled_actor e) c k r (settled_actor-IsConsistent run e v) hc
          unaccepted refl refl
          (rechecked-followup run (settled_actor e) c k r session
            (settled_actor-IsConsistent run e v) hc refl refl refl context refl refl said refl refl
            refl refl))
  rejudged-IsConsistent starts_fresh =
      let k = new_judge run c (suc e.input_version) (token 0) (token 1) in
      let r = judge_resolution context (suc e.input_version) starts_fresh in
      touch-IsConsistent (rechecked (settled_actor e) c k r) (token 2) false
        e.role_boundary_prepared false none run
        (rechecked-IsConsistent run (settled_actor e) c k r (settled_actor-IsConsistent run e v) hc
          unaccepted refl refl
          (rechecked-fresh run (settled_actor e) c k r (settled_actor-IsConsistent run e v) hc
            unaccepted refl refl refl (ground (arith, said)) refl refl refl refl))

pub retires-EachWrite :
    (P : RunState → NodeExecution → Type 0) (e : NodeExecution) → EachWrite P (retires e)
retires-EachWrite P e = elim (Option-cases e.judge) [
  | inl absent ↦ rw (absent) tt
  | inr (k, there) ↦ rw (there) tt
]

pub drains-EachWrite :
    (P : RunState → NodeExecution → Type 0) (k : Option ExecutionJudge) → EachWrite P (drains k)
drains-EachWrite P none = tt
drains-EachWrite P (some k) = tt

-- What is written: the owner of a transfer keeps the run's checks, and so does the execution.
module _ (row : RuntimeRow) (context : Text) (owners : List ExecutionChange)
    (answers : ResumeAnswers) (v : IsConsistentRow row) (said : is_empty context ≡ false)
    (owned : (run : RunState)
      → run.run_id ≡ row.run.run_id
      → run.catalog_workflow_id ≡ row.run.catalog_workflow_id
      → run.definition_snapshot ≡ row.run.definition_snapshot
      → EachChange IsConsistent run owners) where
  module _ (c : ExecutionClaim) (hc : row.execution.claim ≡ some c)
      (unaccepted : is_accepted row.execution.judgment ≡ false) where
    commit-IsConsistent :
        (m : JudgeRecovery)
        → EachWrite IsConsistent (commit_rejudged row c context owners m answers).acts
    unfolding commit_rejudged change
    commit-IsConsistent m =
        let run = retokened_run row.run (answers.fresh_token 2) in
        (
          (
            IsConsistent-same_run row.run run refl refl refl _ (
                rejudged-IsConsistent row.run row.execution c context answers.fresh_token v hc
                  unaccepted said m),
            owned run refl refl refl,
          ),
          EachWrite-append IsConsistent (retires row.execution) (drive ∷ [])
              (retires-EachWrite IsConsistent row.execution) tt,
        )

    recovered-IsConsistent :
        (p : List Act × Result JudgeRecovery)
        → EachWrite IsConsistent p.0
        → EachWrite IsConsistent (rejudge_recovered row c context owners p answers).acts
    unfolding rejudge_recovered
    recovered-IsConsistent (acts, err message) silent = silent
    recovered-IsConsistent (acts, ok m) silent =
        EachWrite-append IsConsistent acts (commit_rejudged row c context owners m answers).acts
          silent (commit-IsConsistent m)

    continue-EachWrite :
        (k : ExecutionJudge)
        → EachWrite IsConsistent (continue_judge row.run row.execution k answers).0
    unfolding continue_judge replace_judge
    continue-EachWrite k = elim (Bool-cases (route_changed row.run k)) [
      | inl changed ↦
          rw (changed, continue_judge)
            (drains-EachWrite IsConsistent (or_some row.execution.judge (some k)))
      | inr kept ↦ elim (Bool-cases answers.same_after_judge) [
        | inr stale ↦ rw (kept, stale, continue_judge) tt
        | inl same ↦ elim (Bool-cases answers.judge_missing) [
          | inl missing ↦
              rw (kept, same, missing, continue_judge)
                (drains-EachWrite IsConsistent (or_some row.execution.judge (some k)))
          | inr there ↦ rw (kept, same, there, continue_judge) tt
        ]
      ]
    ]

    recover-EachWrite : EachWrite IsConsistent (recover_judge row.run row.execution c answers).0
    unfolding recover_judge
    recover-EachWrite = elim (Option-cases (continued_judge row.execution c)) [
      | inl none_left ↦
          rw (none_left, recover_judge)
            (drains-EachWrite IsConsistent (judge_of_claim row.execution (some c.id)))
      | inr (k, found) ↦ rw (found, recover_judge) (continue-EachWrite k)
    ]

  pub resume_judge-IsConsistent :
      EachWrite IsConsistent (resume_judge row context owners answers).acts
  unfolding resume_judge
  resume_judge-IsConsistent = elim (Option-cases row.execution.claim) [
    | inl absent ↦ rw (absent, resume_judge) tt
    | inr (c, hc) ↦ elim (Option-cases row.execution.dispatch) [
      | inl undispatched ↦ rw (hc, undispatched, resume_judge) tt
      | inr (d, dispatched) ↦
          elim (Bool-cases
            (not (is_checking row.execution.phase) || is_accepted row.execution.judgment)) [
              | inl refused ↦ rw (hc, dispatched, refused, resume_judge) tt
              | inr pending ↦
                  rw (hc, dispatched, pending, resume_judge)
                    (EachWrite-append IsConsistent (forgets d) _
                      (if-keeps (EachWrite IsConsistent) d.settled {x = []}
                        {y = forget_dispatch d.session_id (some d.id) ∷ []} tt tt)
                      (recovered-IsConsistent c hc (ground (arith, pending))
                        (recover_judge row.run row.execution c answers)
                        (recover-EachWrite c hc (ground (arith, pending)))))
            ]
    ]
  ]
