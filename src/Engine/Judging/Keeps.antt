-- ===== src/Engine/Judging/Keeps.antt =====
-- Each verdict of the Judge leaves a consistent execution.
use dsh_workflow_plugin.Prelude.{
  Text, true, false, Option, none, some, [], ◌≡◌, ◌≢◌, refl, arith, eq_refl, eq_iff, nat_eq, ◌==◌,
}
use dsh_workflow_plugin.Types.Graph.{NodeDef, actor_task, builtin_program, child_workflow}
use dsh_workflow_plugin.Types.Execution.{
  NodeExecution, ExecutionClaim, ExecutionJudge, JudgeVerdict, checking, reject,
}
use dsh_workflow_plugin.Types.Run.{RunState}
use dsh_workflow_plugin.State.Tests.{node_in, workflow_def, has_current, has_actor_materials}
use dsh_workflow_plugin.State.Checks.{
  position_problems, kind_problems, exit_problems, binding_problems, judgment_problems,
  resolution_problems, phase_problems,
}
use dsh_workflow_plugin.State.Valid.{IsConsistent}
use dsh_workflow_plugin.Engine.Judging.{settle_mode, rejected_execution, judged_execution}

module _ (run : RunState) (e : NodeExecution) (c : ExecutionClaim) (j : ExecutionJudge)
    (reason : Text) (v : IsConsistent run e) (ph : e.phase ≡ checking) (hc : e.claim ≡ some c)
    (hj : e.judge ≡ some j) (id : (j.claim_id == c.id) ≡ true)
    (version : nat_eq j.input_version e.input_version ≡ true) (first : has_current e ≡ false) where
  rejected-binding : binding_problems (rejected_execution (settle_mode e) c j reason) ≡ []
  unfolding binding_problems rejected_execution settle_mode
  rejected-binding = ground (arith, v.binding)

  rejected-judgment : judgment_problems (rejected_execution (settle_mode e) c j reason) ≡ []
  unfolding judgment_problems binding_problems rejected_execution settle_mode has_current
  rejected-judgment =
      ground (
        arith,
        v.judgment,
        eq_refl c.id,
        eq_refl j.id,
        eq_refl j.session_id,
        eq_iff j.claim_id c.id,
      )

  rejected-resolution : resolution_problems (rejected_execution (settle_mode e) c j reason) ≡ []
  unfolding resolution_problems rejected_execution settle_mode has_current
  rejected-resolution = ground (arith, v.resolution)

  judged-binding :
      (verdict : JudgeVerdict)
      → binding_problems (judged_execution (settle_mode e) verdict c j reason) ≡ []
  unfolding binding_problems judged_execution settle_mode
  judged-binding verdict = ground (arith, v.binding)

  judged-judgment :
      (verdict : JudgeVerdict)
      → verdict ≢ reject
      → judgment_problems (judged_execution (settle_mode e) verdict c j reason) ≡ []
  unfolding judgment_problems binding_problems judged_execution settle_mode has_current
  judged-judgment verdict h =
      ground (arith, eq_refl c.id, eq_refl j.id, eq_refl j.session_id, eq_iff j.claim_id c.id)

  judged-resolution :
      (verdict : JudgeVerdict)
      → resolution_problems (judged_execution (settle_mode e) verdict c j reason) ≡ []
  unfolding resolution_problems judged_execution settle_mode has_current
  judged-resolution verdict = ground (
    arith,
    v.resolution,
    eq_refl c.id,
    eq_refl j.id,
    eq_refl j.session_id,
    eq_iff j.claim_id c.id,
  )

  rejected-exit :
      exit_problems
        (workflow_def run e.workflow_id)
        (node_in run e.workflow_id e.node_id)
        (rejected_execution (settle_mode e) c j reason)
      ≡ []
  unfolding exit_problems rejected_execution settle_mode
  rejected-exit = ground (arith, v.exit)

  judged-exit :
      (verdict : JudgeVerdict)
      → exit_problems
          (workflow_def run e.workflow_id)
          (node_in run e.workflow_id e.node_id)
          (judged_execution (settle_mode e) verdict c j reason)
        ≡ []
  unfolding exit_problems judged_execution settle_mode
  judged-exit verdict = ground (arith, v.exit)

  rejected-position :
      position_problems
        (node_in run e.workflow_id e.node_id)
        run.run_id
        e.workflow_id
        (rejected_execution (settle_mode e) c j reason)
      ≡ []
  unfolding position_problems rejected_execution settle_mode
  rejected-position = ground (arith, v.position)

  judged-position :
      (verdict : JudgeVerdict)
      → position_problems
          (node_in run e.workflow_id e.node_id)
          run.run_id
          e.workflow_id
          (judged_execution (settle_mode e) verdict c j reason)
        ≡ []
  unfolding position_problems judged_execution settle_mode
  judged-position verdict = ground (arith, v.position)

  -- A claim stands at an actor task only.
  rejected_kind :
      (n : Option NodeDef)
      → kind_problems n e ≡ []
      → kind_problems n (rejected_execution (settle_mode e) c j reason) ≡ []
  unfolding kind_problems has_actor_materials
  rejected_kind (some (actor_task n)) h = refl
  rejected_kind (some (builtin_program n)) h = ground (arith, h)
  rejected_kind (some (child_workflow n)) h = ground (arith, h)
  rejected_kind none h = refl

  judged_kind :
      (verdict : JudgeVerdict) (n : Option NodeDef)
      → kind_problems n e ≡ []
      → kind_problems n (judged_execution (settle_mode e) verdict c j reason) ≡ []
  unfolding kind_problems has_actor_materials
  judged_kind verdict (some (actor_task n)) h = refl
  judged_kind verdict (some (builtin_program n)) h = ground (arith, h)
  judged_kind verdict (some (child_workflow n)) h = ground (arith, h)
  judged_kind verdict none h = refl

  rejected-phase : phase_problems (rejected_execution (settle_mode e) c j reason) ≡ []
  unfolding phase_problems rejected_execution settle_mode
  rejected-phase = refl

  judged-phase :
      (verdict : JudgeVerdict)
      → phase_problems (judged_execution (settle_mode e) verdict c j reason) ≡ []
  unfolding phase_problems judged_execution settle_mode
  judged-phase verdict = ground (arith, v.phase)

  pub rejected-IsConsistent : IsConsistent run (rejected_execution (settle_mode e) c j reason)
  unfolding rejected_execution settle_mode
  rejected-IsConsistent = record {
    position = rejected-position;
    kind = rejected_kind (node_in run e.workflow_id e.node_id) v.kind;
    exit = rejected-exit;
    binding = rejected-binding;
    judgment = rejected-judgment;
    resolution = rejected-resolution;
    phase = rejected-phase;
  }

  pub judged-IsConsistent :
      (verdict : JudgeVerdict)
      → verdict ≢ reject
      → IsConsistent run (judged_execution (settle_mode e) verdict c j reason)
  unfolding judged_execution settle_mode
  judged-IsConsistent verdict h = record {
    position = judged-position verdict;
    kind = judged_kind verdict (node_in run e.workflow_id e.node_id) v.kind;
    exit = judged-exit verdict;
    binding = judged-binding verdict;
    judgment = judged-judgment verdict h;
    resolution = judged-resolution verdict;
    phase = judged-phase verdict;
  }
