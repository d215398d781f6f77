-- ===== src/Scenarios/Catalogs.antt =====
-- The theorems on the validation of a catalog: the Manager plans, and a child workflow builds.
use dsh_workflow_plugin.Types.Routes.{same_model_route}
use dsh_workflow_plugin.State.Invariants.{has_duplicate}
use dsh_workflow_plugin.Catalog.Targets.{valid_target, node_targets}
use dsh_workflow_plugin.Prelude.{
  values, text_eq, put, is_id, contains_text, none, some, List, [], ◌∷◌, lookup, keys, includes,
  codes, trim, or_else, ok, ◌≡◌, ◌↔◌, refl, true, String,
}
use dsh_workflow_plugin.Types.Graph.{
  node_results, node_on_return, NodeDef, actor_task, child_workflow, ResultDef, to_node, to_return,
  WorkflowDef, WorkflowConfig, CheckerRef,
}
use dsh_workflow_plugin.Types.Run.{RunState}
use dsh_workflow_plugin.State.Tests.{workflow_def}
use dsh_workflow_plugin.Engine.Advance.Climbing.{IsRoutedRun}
use dsh_workflow_plugin.Catalog.Reachability.{reachable}
use dsh_workflow_plugin.Catalog.Reachability.Exact.{Reaches, reachable-Reaches}
use dsh_workflow_plugin.Catalog.Cycles.{Search, child_graph, find_cycles}
use dsh_workflow_plugin.Catalog.Cycles.Calls.{IsGrounded}
use dsh_workflow_plugin.Catalog.Cycles.Found.{find_cycles-IsGrounded}
use dsh_workflow_plugin.Catalog.Normalize.{map_values, normalized_workflow, normalized_catalog}
use dsh_workflow_plugin.Catalog.Problems.{
  target_problems, results_problems, checker_problems, reached, workflow_problems, cycle_problems,
}
use dsh_workflow_plugin.Catalog.Validate.{
  all_workflows, all_warnings, Validated, validate_and_normalize,
}
use dsh_workflow_plugin.Catalog.Validate.Routed.{accepted-IsRoutedRun}
use dsh_workflow_plugin.Catalog.Validate.Walks.{accepted-Reaches, accepted-IsGrounded}
use dsh_workflow_plugin.Catalog.Validate.Fixed.{validate_and_normalize-again}
use dsh_workflow_plugin.Scenarios.{run, config}

abbrev checker : CheckerRef
checker = record { checker_id = "judge.claim-correct"; config = none }

abbrev task : String → ResultDef → NodeDef
task role r = actor_task (record {
  role = role;
  instruction = codes " do it ";
  checker = checker;
  results = ("pass", r) ∷ [];
})

abbrev planned : ResultDef
planned = record { criteria = codes " it is planned well enough"; target = to_node "fix" }

abbrev built : ResultDef
built = record { criteria = codes "it works and is tested"; target = to_return "done" }

abbrev main : WorkflowDef
main = record {
  start_node = "plan";
  returns = "done" ∷ [];
  nodes =
      ("plan", task "manager" planned)
      ∷ (
        "fix",
        child_workflow
            (record { workflow_id = "sub"; on_return = ("done", to_return "done") ∷ [] }),
      )
      ∷ [];
}

abbrev sub : WorkflowDef
sub = record {
  start_node = "build";
  returns = "done" ∷ [];
  nodes = ("build", task "dev" built) ∷ [];
}

abbrev catalog : WorkflowConfig
catalog = record config { workflow = main; child_workflows = some (("sub", sub) ∷ []) }

-- The config as it is accepted: trimmed, with the settings of the roles and the checkers filled in.
abbrev trimmed_catalog : WorkflowConfig
trimmed_catalog = normalized_catalog "main" catalog

abbrev checked : Validated
checked = record { config = trimmed_catalog; warnings = [] }

main-reached : reached main ≡ "fix" ∷ "plan" ∷ []
unfolding reached reachable includes lookup node_targets node_results values node_on_return
main-reached = refl

sub-reached : reached sub ≡ "build" ∷ []
unfolding reached reachable includes lookup node_targets node_results values
sub-reached = refl

main_accepted : workflow_problems catalog "main" "main" main ≡ []
unfolding workflow_problems is_id lookup has_duplicate includes keys checker_problems
    results_problems trim target_problems values valid_target node_targets node_results
    node_on_return reachable
main_accepted = refl

sub_accepted : workflow_problems catalog "main" "sub" sub ≡ []
unfolding workflow_problems is_id lookup has_duplicate includes keys checker_problems
    results_problems trim target_problems values valid_target reachable node_targets node_results
sub_accepted = refl

no_warnings : all_warnings catalog ≡ []
unfolding all_warnings contains_text trim
no_warnings = refl

no_cycles : cycle_problems (("sub", sub) ∷ []) ≡ []
unfolding cycle_problems find_cycles keys child_graph includes lookup values
no_cycles = refl

accepted : validate_and_normalize catalog (some "main") ≡ ok checked
unfolding validate_and_normalize all_workflows is_id map_values trim includes same_model_route
    lookup text_eq put
accepted = rw (sub_accepted, main_accepted, no_warnings, no_cycles) refl

abbrev catalog_run : RunState
catalog_run = record run { definition_snapshot = trimmed_catalog }

reachable-Reaches_example :
    (r : List String) × (reachable main ≡ some r)
    × ((v : String) → (includes v r ≡ true) ↔ Reaches main v)
reachable-Reaches_example = reachable-Reaches main

find_cycles-IsGrounded_example :
    (r : Search) × (find_cycles (child_graph (("sub", sub) ∷ [])) ≡ some r)
    × ((r.problems ≡ []) ↔ (
        (id : String)
        → includes id (keys (child_graph (("sub", sub) ∷ []))) ≡ true
        → IsGrounded (child_graph (("sub", sub) ∷ [])) id))
find_cycles-IsGrounded_example = find_cycles-IsGrounded (child_graph (("sub", sub) ∷ []))

accepted-IsRoutedRun_example : IsRoutedRun catalog_run
accepted-IsRoutedRun_example =
    accepted-IsRoutedRun catalog "main" checked catalog_run accepted refl refl

sub_there : workflow_def catalog_run "sub" ≡ some (normalized_workflow sub)
unfolding workflow_def normalized_catalog lookup
sub_there = refl

build_there : includes "build" (keys (normalized_workflow sub).nodes) ≡ true
unfolding includes keys normalized_workflow map_values
build_there = refl

accepted-Reaches_example : Reaches (normalized_workflow sub) "build"
accepted-Reaches_example =
    accepted-Reaches catalog "main" checked catalog_run accepted refl refl "sub" "build"
      (normalized_workflow sub) sub_there build_there

sub_called :
    includes "sub" (keys (child_graph (or_else catalog_run.definition_snapshot.child_workflows [])))
    ≡ true
unfolding includes keys child_graph normalized_catalog
sub_called = refl

accepted-IsGrounded_example :
    IsGrounded (child_graph (or_else catalog_run.definition_snapshot.child_workflows [])) "sub"
accepted-IsGrounded_example =
    accepted-IsGrounded catalog "main" checked catalog_run accepted refl refl "sub" sub_called

validate_and_normalize-again_example :
    validate_and_normalize trimmed_catalog (some "main") ≡ ok checked
validate_and_normalize-again_example =
    validate_and_normalize-again catalog (some "main") checked accepted
