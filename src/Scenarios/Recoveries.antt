-- ===== src/Scenarios/Recoveries.antt =====
-- The theorems on the recoveries of the Manager: the Judge has asked for context, and is to go on.
use dsh_workflow_plugin.Prelude.{
  ℕ, zero, suc, String, codes, true, false, none, some, ◌≡◌, refl, ok, lookup,
}
use dsh_workflow_plugin.Types.Execution.{NodeExecution, ExecutionJudgment, auto, need_context}
use dsh_workflow_plugin.Types.Run.{blocked}
use dsh_workflow_plugin.State.Tests.{node_in, workflow_def, has_current, has_actor_materials}
use dsh_workflow_plugin.State.Checks.{
  position_problems, kind_problems, exit_problems, binding_problems, judgment_problems,
  resolution_problems, phase_problems,
}
use dsh_workflow_plugin.State.Valid.{IsConsistent}
use dsh_workflow_plugin.Engine.Base.{RuntimeRow, current_node}
use dsh_workflow_plugin.Engine.Writes.{EachWrite}
use dsh_workflow_plugin.Engine.Manager.Models.{probe_session_idle, IdleProbe, Activity}
use dsh_workflow_plugin.Engine.Manager.Recovery.{current_feedback}
use dsh_workflow_plugin.Engine.Manager.Respawn.{RespawnAnswers, handle_respawn_judge}
use dsh_workflow_plugin.Engine.Manager.Respawn.Keeps.{handle_respawn_judge-IsConsistent}
use dsh_workflow_plugin.Engine.Manager.Rejudging.{
  route_changed, continued_judge, judge_to_continue, continue_judge, continue_probed, ResumeAnswers,
  continues, recover_judge, rejudged_execution,
}
use dsh_workflow_plugin.Engine.Manager.Rejudging.Sessions.{MayContinue, recover_judge-MayContinue}
use dsh_workflow_plugin.Engine.Manager.Resuming.{handle_resume}
use dsh_workflow_plugin.Engine.Manager.Resuming.Keeps.{handle_resume-IsConsistent}
use dsh_workflow_plugin.Scenarios.{run, claim, checked_execution, stored}

abbrev question : ExecutionJudgment
question = record {
  result = need_context;
  reason = codes "which one?";
  claim_id = "c1";
  judge_dispatch_id = "j1";
  judge_session_id = "s2";
  input_version = 1;
}

abbrev asked_execution : NodeExecution
asked_execution = record checked_execution { judgment = some question }

abbrev asked_row : RuntimeRow
asked_row = record {
  run = record run { status = blocked };
  execution = asked_execution;
  version = 6;
}

asked_row-IsConsistent : IsConsistent asked_row.run asked_row.execution
unfolding position_problems kind_problems exit_problems binding_problems judgment_problems
    resolution_problems phase_problems node_in workflow_def has_current has_actor_materials lookup
asked_row-IsConsistent = record {
  position = refl;
  kind = refl;
  exit = refl;
  binding = refl;
  judgment = refl;
  resolution = refl;
  phase = refl;
}

abbrev token : ℕ → String
token zero = "n0"
token (suc zero) = "n1"
token (suc (suc n)) = "n2"

abbrev closed : IdleProbe
closed = record {
  inspected = true;
  fresh_after_inspection = true;
  activity = Activity.idle;
  fresh_after_activity = true;
}

abbrev answers : ResumeAnswers
answers = record {
  stored = stored;
  rounds = 2;
  same_after_predecessor = true;
  role_probe = closed;
  role_missing = false;
  same_after_role = true;
  drained = ok true;
  judge_missing = false;
  same_after_judge = true;
  judge_probe = closed;
  fresh_token = token;
}

at_top : current_node asked_row.run ≡ node_in asked_row.run "main" "build"
unfolding current_node node_in workflow_def
at_top = refl

handle_resume_example :
    EachWrite IsConsistent
      (handle_resume (some asked_row) "t1" (codes " the first ") "boss" auto false answers).acts
handle_resume_example =
    handle_resume-IsConsistent asked_row answers asked_row-IsConsistent at_top (λ id e is_e. cc)
      "t1" (codes " the first ") "boss" auto false

continued : (recover_judge asked_row.run asked_execution claim answers).1 ≡ ok (continues "s2")
unfolding recover_judge current_feedback route_changed probe_session_idle lookup continued_judge
    judge_to_continue continue_judge continue_probed
continued = refl

recover_judge-MayContinue_example : MayContinue asked_row.run asked_execution claim answers "s2" (
    rejudged_execution asked_row.run asked_execution claim
      (codes "the first")
      (continues "s2")
      token)
recover_judge-MayContinue_example =
    recover_judge-MayContinue asked_row.run asked_execution claim answers asked_row-IsConsistent
      refl "s2" (codes "the first") token continued

abbrev respawn_answers : RespawnAnswers
respawn_answers = record {
  cwd = ok "/work";
  drained = ok true;
  fresh_token = token;
  written = ok tt;
  at_fault = none;
  driven = some asked_row;
}

handle_respawn_judge_example :
    EachWrite IsConsistent
      (handle_respawn_judge (some asked_row) "t1" (codes "again") "boss" respawn_answers).acts
handle_respawn_judge_example =
    handle_respawn_judge-IsConsistent asked_row respawn_answers asked_row-IsConsistent
      (λ r is_r. cc) "t1" (codes "again") "boss"
