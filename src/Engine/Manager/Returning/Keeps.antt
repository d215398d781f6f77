-- ===== src/Engine/Manager/Returning/Keeps.antt =====
-- The executions that a recovery by the Actor writes.
use dsh_workflow_plugin.Prelude.{
  ℕ, String, Text, is_empty, Bool, true, false, none, some, List, [], ◌∷◌, ◌≡◌, refl, arith,
  eq_refl, eq_iff, Bool-cases, Option-cases, inl, inr, Result, ok, err,
}
use dsh_workflow_plugin.Types.Graph.{actor_task, ActorTaskNode}
use dsh_workflow_plugin.Types.Execution.{
  NodeExecution, ExecutionClaim, ExecutionJudge, ExecutionJudgment, ExecutionChange,
}
use dsh_workflow_plugin.Types.Run.{RunState}
use dsh_workflow_plugin.State.Tests.{node_in, workflow_def, has_current}
use dsh_workflow_plugin.State.Checks.{
  position_problems, kind_problems, exit_problems, binding_problems, judgment_problems,
  resolution_problems, phase_problems,
}
use dsh_workflow_plugin.State.Valid.{IsConsistent}
use dsh_workflow_plugin.Engine.Base.{RuntimeRow, change, drive}
use dsh_workflow_plugin.Engine.Writes.{
  EachWrite, EachChange, EachWrite-append, IsConsistentRow, IsConsistent-same_run,
}
use dsh_workflow_plugin.Engine.Manager.Ending.{retires}
use dsh_workflow_plugin.Engine.Manager.Recovery.{current_feedback, judge_of_claim, drains}
use dsh_workflow_plugin.Engine.Manager.Rejudging.{ResumeAnswers, drained_then, retokened_run}
use dsh_workflow_plugin.Engine.Manager.Rejudging.Keeps.{retires-EachWrite, drains-EachWrite}
use dsh_workflow_plugin.Engine.Manager.Returning.{
  related_claim, may_return, earlier_feedback, returned_judgment, returned_judge, returned_material,
  reworked_execution, replaced_run, commit_reworked, rework_drained, resume_actor,
}

module _ (run : RunState) (e : NodeExecution) (context : Text) (skip replace : Bool)
    (token : ℕ → String) (v : IsConsistent run e) (may : may_return e ≡ true)
    (said : is_empty context ≡ false) where
  reworked-binding : binding_problems (reworked_execution e context skip replace token) ≡ []
  unfolding binding_problems reworked_execution
  reworked-binding = refl

  reworked-resolution : resolution_problems (reworked_execution e context skip replace token) ≡ []
  unfolding resolution_problems reworked_execution has_current
  reworked-resolution = elim (Option-cases (returned_material e).judgment) [
    | inl unjudged ↦ ground (arith, unjudged, said)
    | inr (j, judged) ↦ ground (arith, judged, said)
  ]

  unclaimed-judgment :
      e.claim ≡ none → judgment_problems (reworked_execution e context skip replace token) ≡ []
  unfolding judgment_problems reworked_execution returned_material has_current
  unclaimed-judgment hc = ground (arith, hc, v.judgment)

  -- The feedback that the Judge has given now.
  feedback-judgment :
      (c : ExecutionClaim) (j : ExecutionJudgment) (k : ExecutionJudge)
      → e.claim ≡ some c
      → e.judgment ≡ some j
      → e.judge ≡ some k
      → current_feedback e c ≡ true
      → judgment_problems (reworked_execution e context skip replace token) ≡ []
  unfolding judgment_problems binding_problems reworked_execution returned_material
      returned_judgment returned_judge has_current current_feedback
  feedback-judgment c j k hc judged there feedback = ground (
    arith,
    hc,
    judged,
    there,
    feedback,
    v.binding,
    eq_iff j.claim_id c.id,
    eq_iff k.claim_id c.id,
    eq_refl c.id,
  )

  -- The feedback of an earlier input.
  earlier-judgment :
      (c : ExecutionClaim) (j : ExecutionJudgment) (k : ExecutionJudge)
      → e.claim ≡ some c
      → e.judgment ≡ some j
      → e.previous_judge ≡ some k
      → current_feedback e c ≡ false
      → earlier_feedback e c ≡ true
      → judgment_problems (reworked_execution e context skip replace token) ≡ []
  unfolding judgment_problems reworked_execution returned_material returned_judgment returned_judge
      has_current earlier_feedback
  earlier-judgment c j k hc judged there none_now earlier = ground (
    arith,
    hc,
    judged,
    there,
    none_now,
    earlier,
    v.judgment,
    eq_iff j.claim_id c.id,
    eq_refl c.id,
  )

  dropped-judgment :
      (c : ExecutionClaim)
      → e.claim ≡ some c
      → current_feedback e c ≡ false
      → earlier_feedback e c ≡ false
      → judgment_problems (reworked_execution e context skip replace token) ≡ []
  unfolding judgment_problems reworked_execution returned_material returned_judgment returned_judge
      has_current
  dropped-judgment c hc none_now none_before = ground (arith, hc, none_now, none_before)

  reworked-exit :
      exit_problems
        (workflow_def run e.workflow_id)
        (node_in run e.workflow_id e.node_id)
        (reworked_execution e context skip replace token)
      ≡ []
  unfolding exit_problems reworked_execution returned_material may_return
  reworked-exit = ground (arith, v.exit, may)

  feedback_judge_there :
      (c : ExecutionClaim)
      → current_feedback e c ≡ true
      → (j : ExecutionJudgment) × (k : ExecutionJudge) × (e.judgment ≡ some j) × (e.judge ≡ some k)
  unfolding current_feedback
  feedback_judge_there c h = elim (Option-cases e.judge) [
    | inl absent ↦ absurd (ground (arith, absent, h))
    | inr (k, there) ↦ elim (Option-cases e.judgment) [
      | inl unjudged ↦ absurd (ground (arith, there, unjudged, h))
      | inr (j, judged) ↦ (j, k, judged, there)
    ]
  ]

  earlier_judge_there :
      (c : ExecutionClaim)
      → earlier_feedback e c ≡ true
      → (j : ExecutionJudgment) × (k : ExecutionJudge) × (e.judgment ≡ some j)
        × (e.previous_judge ≡ some k)
  unfolding earlier_feedback
  earlier_judge_there c h = elim (Option-cases e.judgment) [
    | inl unjudged ↦ absurd (ground (arith, unjudged, h))
    | inr (j, judged) ↦ elim (Option-cases e.previous_judge) [
      | inl absent ↦ absurd (ground (arith, absent, judged, h))
      | inr (k, there) ↦ (j, k, judged, there)
    ]
  ]

  reworked-judgment : judgment_problems (reworked_execution e context skip replace token) ≡ []
  reworked-judgment = elim (Option-cases e.claim) [
    | inl unclaimed ↦ unclaimed-judgment unclaimed
    | inr (c, hc) ↦ elim (Bool-cases (current_feedback e c)) [
      | inl feedback ↦
          let (j, k, judged, there) = feedback_judge_there c feedback in
          feedback-judgment c j k hc judged there feedback
      | inr none_now ↦ elim (Bool-cases (earlier_feedback e c)) [
        | inl earlier ↦
            let (j, k, judged, there) = earlier_judge_there c earlier in
            earlier-judgment c j k hc judged there none_now earlier
        | inr none_before ↦ dropped-judgment c hc none_now none_before
      ]
    ]
  ]

  reworked_kind :
      (n : ActorTaskNode)
      → kind_problems (some (actor_task n)) (reworked_execution e context skip replace token) ≡ []
  unfolding kind_problems
  reworked_kind n = refl

  reworked-IsConsistent :
      (n : ActorTaskNode)
      → node_in run e.workflow_id e.node_id ≡ some (actor_task n)
      → IsConsistent run (reworked_execution e context skip replace token)
  unfolding reworked_execution returned_material position_problems phase_problems
  reworked-IsConsistent n at = record {
    position = v.position;
    kind = rw at (reworked_kind n);
    exit = reworked-exit;
    binding = reworked-binding;
    judgment = reworked-judgment;
    resolution = reworked-resolution;
    phase = refl;
  }

module _ (row : RuntimeRow) (context : Text) (owners : List ExecutionChange)
    (answers : ResumeAnswers) (v : IsConsistentRow row) (said : is_empty context ≡ false)
    (owned : (run : RunState)
      → run.run_id ≡ row.run.run_id
      → run.catalog_workflow_id ≡ row.run.catalog_workflow_id
      → run.definition_snapshot ≡ row.run.definition_snapshot
      → EachChange IsConsistent run owners)
    (n : ActorTaskNode)
    (at : node_in row.run row.execution.workflow_id row.execution.node_id
      ≡ some (actor_task n)) where
  module _ (role : String) (skip replace : Bool) where
    commit-IsConsistent :
        may_return row.execution ≡ true
        → EachWrite IsConsistent (commit_reworked row role context skip replace owners answers).acts
    unfolding commit_reworked change replaced_run
    commit-IsConsistent may =
        let run = retokened_run (replaced_run row.run role replace) (answers.fresh_token 2) in
        (
          (
            IsConsistent-same_run row.run run refl refl refl _ (
                reworked-IsConsistent row.run row.execution context skip replace answers.fresh_token
                  v may said n at),
            owned run refl refl refl,
          ),
          EachWrite-append IsConsistent (retires row.execution) (drive ∷ [])
              (retires-EachWrite IsConsistent row.execution) tt,
        )

    drained-IsConsistent :
        (drained : Result (Unit {0}))
        → may_return row.execution ≡ true
        → EachWrite IsConsistent
            (rework_drained row role context skip replace owners drained answers).acts
    unfolding rework_drained
    drained-IsConsistent (err message) may = tt
    drained-IsConsistent (ok _) may = commit-IsConsistent may

    pub resume_actor-IsConsistent :
        EachWrite IsConsistent (resume_actor row role context skip replace owners answers).acts
    unfolding resume_actor
    resume_actor-IsConsistent = elim (Bool-cases (may_return row.execution)) [
      | inr refused ↦ rw (refused, resume_actor) tt
      | inl may ↦
          let old = judge_of_claim row.execution (related_claim row.execution) in
          rw (may, resume_actor)
            (EachWrite-append IsConsistent (drains old)
              (rework_drained row role context skip replace owners
                (drained_then old "stale actor resume request after Judge drain" answers)
                answers).acts
              (drains-EachWrite IsConsistent old)
              (drained-IsConsistent
                (drained_then old "stale actor resume request after Judge drain" answers) may))
    ]
