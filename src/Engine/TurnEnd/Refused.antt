-- ===== src/Engine/TurnEnd/Refused.antt =====
-- src/engine/engine.ts, `retryJudgeOnce` and `tryJudgeFailover`: the new Judge of a recovery that continues
-- the session of the old one.
use dsh_workflow_plugin.Prelude.{
  ℕ, String, Bool, true, false, ◌==◌, none, some, [], ◌≡◌, ◌≢◌, arith,
}
use dsh_workflow_plugin.Types.Routes.{RoleRouteStage}
use dsh_workflow_plugin.Types.Execution.{
  NodeExecution, ExecutionClaim, ExecutionJudge, ExecutionResolution, followup,
}
use dsh_workflow_plugin.Types.Run.{RunState}
use dsh_workflow_plugin.State.Checks.{resolution_problems}
use dsh_workflow_plugin.Engine.Judges.{new_judge, arranged_judge}
use dsh_workflow_plugin.Engine.Failover.{switched_judge, target_route}
use dsh_workflow_plugin.Engine.Failover.Keeps.{rejudged}
use dsh_workflow_plugin.Engine.TurnEnd.{retried_execution}

module _ (e : NodeExecution) (r : ExecutionResolution) (session : String)
    (unjudged : e.judgment ≡ none) (recovers : e.resolution ≡ some r)
    (mode : r.judge_mode ≡ some followup) (continues : r.judge_session_id ≡ some session) where
  other_judge-refused :
      (j : ExecutionJudge) (retried : Bool)
      → (session == j.session_id) ≡ false
      → resolution_problems (rejudged e j retried) ≢ []
  unfolding resolution_problems
  other_judge-refused j retried differs h = ground arith

  -- Where the recovery of an execution continues the session of a Judge and there is no judgment,
  -- neither the execution that a retry of the Judge writes nor the one that a failover of the
  -- Judge writes passes the checks on its resolution, since the new Judge has another session.
  pub rejudged-refused :
      (run : RunState) (c : ExecutionClaim) (to : RoleRouteStage) (fresh : ℕ → String)
      → (session == fresh 1) ≡ false
      → (resolution_problems (retried_execution e run c fresh) ≢ [])
        × (resolution_problems (switched_judge e run c to fresh) ≢ [])
  unfolding retried_execution switched_judge new_judge arranged_judge
  rejudged-refused run c to fresh differs = (
    other_judge-refused (new_judge run c e.input_version (fresh 0) (fresh 1)) true differs,
    other_judge-refused
        (arranged_judge (target_route run "judge" to) to c e.input_version (fresh 0) (fresh 1))
        e.judge_auto_retried differs,
  )
