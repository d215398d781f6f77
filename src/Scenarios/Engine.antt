-- ===== src/Scenarios/Engine.antt =====
-- The theorems on the engine, at the rows of the scenario.
use dsh_workflow_plugin.Prelude.{
  ◌+◌, ◌≤◌, codes, text_eq, true, false, Option, none, some, is_some, [], ◌∷◌, ◌≡◌, ◌≢◌, refl,
  Assoc, ok, err, EachOk, trim, lookup, subst,
}
use dsh_workflow_plugin.Types.Routes.{primary, fallback, normalize_model_route, same_model_route}
use dsh_workflow_plugin.Types.Graph.{to_return, read_role_fallback_model, read_role_def_model}
use dsh_workflow_plugin.Types.Execution.{ExecutionResolution, ResolutionTarget, followup, accept}
use dsh_workflow_plugin.Types.Claims.{Unknown}
use dsh_workflow_plugin.State.Tests.{has_current, node_in, workflow_def}
use dsh_workflow_plugin.State.Checks.{resolution_problems}
use dsh_workflow_plugin.State.Valid.{IsConsistent}
use dsh_workflow_plugin.Roles.{
  effective_role_route_stage, stage_of, role_fallback_route, role_primary_route, resolve_role_model,
}
use dsh_workflow_plugin.Engine.Base.{RuntimeRow, current_node}
use dsh_workflow_plugin.Engine.Writes.{EachWrite}
use dsh_workflow_plugin.Engine.Judges.{JudgeAnswers, safe}
use dsh_workflow_plugin.Engine.Claim.{handle_claim}
use dsh_workflow_plugin.Engine.Claim.Keeps.{handle_claim-IsConsistent}
use dsh_workflow_plugin.Engine.Judging.{handle_judge_claim}
use dsh_workflow_plugin.Engine.Judging.Handler.{handle_judge_claim-IsConsistent}
use dsh_workflow_plugin.Engine.Advance.{Decided, advance_known_result, follow}
use dsh_workflow_plugin.Engine.Advance.Results.{advance_known_result-IsConsistent}
use dsh_workflow_plugin.Engine.Advance.Edges.{OneEdge, follow-OneEdge}
use dsh_workflow_plugin.Engine.Failover.{
  next_stage, switched_run, target_route, SwitchTexts, try_failover, try_role, switch_from,
  switch_actor, switched_judge, may_switch, is_same_model,
}
use dsh_workflow_plugin.Engine.Failover.Rounds.{resolve-switched}
use dsh_workflow_plugin.Engine.Failover.Budget.{Round, switches_left, Round-switches_left}
use dsh_workflow_plugin.Engine.TurnEnd.Refused.{rejudged-refused}
use dsh_workflow_plugin.Roles.Failures.{ActorFailureFacts, classify_actor_failure}
use dsh_workflow_plugin.Types.Run.{RunState, completed}
use dsh_workflow_plugin.Engine.TurnEnd.{TurnAnswers, handle_turn_ended, retried_execution}
use dsh_workflow_plugin.Engine.TurnEnd.Sound.{IsUsable, IsSoundAnswers}
use dsh_workflow_plugin.Engine.TurnEnd.Handler.{handle_turn_ended-IsConsistent}
use dsh_workflow_plugin.Engine.Manager.Models.{SettingAnswers, Activity, handle_set_role_model}
use dsh_workflow_plugin.Engine.Manager.Override.{IsOverridden, handle_set_role_model-IsOverridden}
use dsh_workflow_plugin.Engine.Manager.Final.{IsFinal, over-IsFinal}
use dsh_workflow_plugin.Scenarios.{
  run, checked_execution, working_row, checked_row, actor, checker, fresh, stored, claim, model_b,
}
use dsh_workflow_plugin.Scenarios.Rows.{
  working_execution-IsConsistent, checked_execution-IsConsistent, run-IsRoutedRun,
}

abbrev submitted : Assoc Unknown
submitted = ("result", Unknown.string "pass") ∷ ("handoff", Unknown.string "built") ∷ []

handle_claim_example :
    EachWrite IsConsistent (handle_claim (some working_row) fresh submitted actor).acts
handle_claim_example =
    handle_claim-IsConsistent working_row fresh submitted actor working_execution-IsConsistent

handle_judge_claim_example :
    EachOk
      (λ r. EachWrite IsConsistent r.acts)
      (handle_judge_claim
        (some checked_row)
        "t1"
        accept
        (codes "it works")
        checker
        stored
        fresh
        "now")
handle_judge_claim_example =
    handle_judge_claim-IsConsistent checked_row stored fresh "now" (refl, refl, tt) run-IsRoutedRun
      checked_execution-IsConsistent "t1" accept checker (codes "it works")

advance_known_result_example :
    EachOk
      (λ r. EachWrite IsConsistent r.acts)
      (advance_known_result checked_row stored fresh "now" Decided.result "pass" (codes "built") [])
advance_known_result_example =
    advance_known_result-IsConsistent checked_row stored claim (refl, refl, tt) run-IsRoutedRun
      checked_execution-IsConsistent refl refl fresh "now" "pass" (codes "built") []

follow_example :
    EachOk
      (OneEdge run checked_execution "now" (to_return "done") "pass" (codes "built"))
      (follow run checked_execution stored fresh "now" (to_return "done") "pass" (codes "built") [])
follow_example =
    follow-OneEdge run checked_execution "now" (to_return "done") "pass" (codes "built") stored
      fresh []

-- `dev` starts on its primary route and is switched to its fallback.
primary_first : effective_role_route_stage run "dev" ≡ primary
unfolding effective_role_route_stage stage_of lookup
primary_first = refl

abbrev overloaded : Option ActorFailureFacts
overloaded = some (record { code = "SERVER"; status = some 503 })

abbrev texts : SwitchTexts
texts = record {
  reason = codes "server";
  decision = codes "go on with the fallback";
  note = codes "switched";
}

abbrev switched_dev : RunState
switched_dev = switched_run run "dev" primary fallback (codes "server")

one_switch : Round "dev" run switched_dev 1
unfolding try_failover try_role switch_from switch_actor next_stage effective_role_route_stage
    stage_of role_fallback_route role_primary_route read_role_fallback_model read_role_def_model
    lookup current_node node_in workflow_def same_model_route text_eq may_switch is_same_model
    classify_actor_failure
one_switch = Round.actor working_row overloaded texts "dev" Round.still refl refl

Round-switches_left_example :
    (1 + switches_left (effective_role_route_stage switched_dev "dev")
      ≡ switches_left (effective_role_route_stage run "dev"))
    × (1 ≤ 2)
Round-switches_left_example = Round-switches_left "dev" one_switch

next_fallback : next_stage (effective_role_route_stage run "dev") ≡ some fallback
unfolding next_stage
next_fallback = rw primary_first refl

has_fallback : is_some (role_fallback_route run "dev") ≡ true
unfolding role_fallback_route read_role_fallback_model lookup
has_fallback = refl

resolve-switched_example :
    resolve_role_model
      (switched_run run "dev" (effective_role_route_stage run "dev") fallback (codes "503"))
      "dev"
      none
    ≡ target_route run "dev" fallback
resolve-switched_example =
    resolve-switched run "dev" (codes "503") none fallback next_fallback has_fallback refl

abbrev continued : ExecutionResolution
continued = record {
  target = ResolutionTarget.judge;
  context = some (codes "go on");
  skip_compact = false;
  decision = none;
  failover = none;
  judge_mode = some followup;
  judge_session_id = some "s2";
  input_version = 1;
}

rejudged-refused_example :
    (resolution_problems (
        retried_execution
          (record checked_execution { resolution = some continued })
          run
          claim
          fresh)
      ≢ [])
    × (resolution_problems (
          switched_judge
            (record checked_execution { resolution = some continued })
            run
            claim
            fallback
            fresh)
        ≢ [])
rejudged-refused_example =
    rejudged-refused (record checked_execution { resolution = some continued }) continued "s2" refl
      refl refl refl run claim fallback fresh refl

abbrev judge_answers : JudgeAnswers
judge_answers = record {
  cwd = ok "dir";
  before = none;
  sent = err "none";
  after = none;
  at_fault = none;
}

abbrev answers : TurnAnswers
answers = record {
  stored = stored;
  rounds = 1;
  inspection = some safe;
  again = some working_row;
  fresh = fresh;
  judge_answers = judge_answers;
  texts = texts;
  transient = false;
  diagnosed = λ t. t;
}

working_row-IsUsable : IsUsable working_row
unfolding current_node node_in workflow_def has_current
working_row-IsUsable = record {
  consistent = working_execution-IsConsistent;
  here = refl;
  unjudged = refl;
  free = refl;
}

same_row : (r : RuntimeRow) → some working_row ≡ some r → working_row ≡ r
same_row r h = cc

answers-IsSoundAnswers : IsSoundAnswers answers
answers-IsSoundAnswers = record {
  said = refl;
  again = λ r h. subst IsUsable (same_row r h) working_row-IsUsable;
  owners = λ r h id e found. absurd cc;
  after = λ r h. absurd cc;
  at_fault = λ r h. absurd cc;
}

handle_turn_ended_example : EachWrite IsConsistent (
    handle_turn_ended
      (some working_row)
      answers
      actor
      (some (record { code = "SERVER"; status = some 503 })))
handle_turn_ended_example =
    handle_turn_ended-IsConsistent answers answers-IsSoundAnswers
      (some (record { code = "SERVER"; status = some 503 })) working_row
      working_execution-IsConsistent actor

abbrev done_row : RuntimeRow
done_row = record checked_row { run = record run { status = completed } }

over-IsFinal_example : IsFinal done_row
over-IsFinal_example = over-IsFinal done_row refl

abbrev unwired : SettingAnswers
unwired = record {
  validates = none;
  probe = record {
    inspected = true;
    fresh_after_inspection = true;
    activity = Activity.idle;
    fresh_after_activity = true;
  };
}

normal_b : normalize_model_route (codes " p") (codes "b ") none ≡ ok model_b
unfolding normalize_model_route trim
normal_b = refl

handle_set_role_model_example :
    EachWrite
      (λ r e. IsOverridden "dev" model_b r)
      (handle_set_role_model
        (some working_row)
        "dev"
        (codes " p")
        (codes "b ")
        none
        "boss"
        unwired).acts
handle_set_role_model_example =
    handle_set_role_model-IsOverridden working_row "dev" (codes " p") (codes "b ") none "boss"
      unwired model_b normal_b
