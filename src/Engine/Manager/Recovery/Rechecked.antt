-- ===== src/Engine/Manager/Recovery/Rechecked.antt =====
-- The execution whose claim is given to a Judge at the next input.
use dsh_workflow_plugin.Prelude.{
  suc, Text, is_empty, Bool, true, false, ◌&&◌, Option, none, some, [], ◌≡◌, refl, arith, eq_refl,
  eq_iff, Option-cases, inl, inr,
}
use dsh_workflow_plugin.Types.Graph.{NodeDef, actor_task, builtin_program, child_workflow}
use dsh_workflow_plugin.Types.Execution.{
  NodeExecution, ExecutionClaim, ExecutionJudge, ExecutionResolution, ResolutionTarget, fresh,
}
use dsh_workflow_plugin.Types.Run.{RunState}
use dsh_workflow_plugin.State.Tests.{node_in, has_current, has_actor_materials}
use dsh_workflow_plugin.State.Checks.{
  position_problems, kind_problems, exit_problems, binding_problems, judgment_problems,
  resolution_problems, phase_problems,
}
use dsh_workflow_plugin.State.Valid.{IsConsistent}
use dsh_workflow_plugin.Engine.Manager.Recovery.{current_feedback, feedback_judge, is_accepted}

abbrev pub rechecked :
    NodeExecution → ExecutionClaim → ExecutionJudge → ExecutionResolution → NodeExecution
rechecked e c k r = record e {
  input_version = suc e.input_version;
  previous_judge = feedback_judge e c;
  judge = some k;
  resolution = some r;
}

abbrev blank : Option Text → Bool
blank none = true
blank (some t) = is_empty t

-- A recovery says something: a context or a decision.
abbrev says_nothing : ExecutionResolution → Bool
says_nothing r = blank r.context && blank r.decision

module _ (run : RunState) (e : NodeExecution) (c : ExecutionClaim) (k : ExecutionJudge)
    (r : ExecutionResolution) (v : IsConsistent run e) (hc : e.claim ≡ some c)
    (unaccepted : is_accepted e.judgment ≡ false) (id : k.claim_id ≡ c.id)
    (version : k.input_version ≡ suc e.input_version) where
  rechecked-binding : binding_problems (rechecked e c k r) ≡ []
  unfolding binding_problems
  rechecked-binding = ground (arith, v.binding, eq_refl c.id)

  rechecked-judgment : judgment_problems (rechecked e c k r) ≡ []
  unfolding judgment_problems binding_problems has_current current_feedback
  rechecked-judgment = elim (Option-cases e.judgment) [
    | inl unjudged ↦ ground (arith, v.judgment, unjudged)
    | inr (j, judged) ↦ elim (Option-cases e.judge) [
      | inl no_judge ↦ ground (arith, v.judgment, judged, no_judge, unaccepted)
      | inr (old, there) ↦ ground (
        arith,
        v.judgment,
        v.binding,
        judged,
        there,
        unaccepted,
        eq_iff j.claim_id c.id,
        eq_iff old.claim_id c.id,
        eq_refl c.id,
      )
    ]
  ]

  rechecked_kind :
      (n : Option NodeDef) → kind_problems n e ≡ [] → kind_problems n (rechecked e c k r) ≡ []
  unfolding kind_problems has_actor_materials
  rechecked_kind none h = refl
  rechecked_kind (some (actor_task n)) h = refl
  rechecked_kind (some (builtin_program n)) h = ground (arith, h)
  rechecked_kind (some (child_workflow n)) h = ground (arith, h)

  pub rechecked-IsConsistent :
      resolution_problems (rechecked e c k r) ≡ [] → IsConsistent run (rechecked e c k r)
  unfolding position_problems exit_problems phase_problems
  rechecked-IsConsistent resolved = record {
    position = v.position;
    kind = rechecked_kind (node_in run e.workflow_id e.node_id) v.kind;
    exit = v.exit;
    binding = rechecked-binding;
    judgment = rechecked-judgment;
    resolution = resolved;
    phase = v.phase;
  }

  -- A fresh Judge needs no other.
  pub rechecked-fresh :
      r.target ≡ ResolutionTarget.judge
      → says_nothing r ≡ false
      → r.input_version ≡ suc e.input_version
      → r.skip_compact ≡ false
      → r.judge_mode ≡ some fresh
      → r.judge_session_id ≡ none
      → resolution_problems (rechecked e c k r) ≡ []
  unfolding resolution_problems judgment_problems has_current current_feedback
  rechecked-fresh at said same uncompacted mode session = elim (Option-cases e.judgment) [
    | inl unjudged ↦ ground (arith, unjudged, at, said, same, uncompacted, mode, session)
    | inr (j, judged) ↦
        ground (arith, v.judgment, judged, at, said, same, uncompacted, mode, session)
  ]
