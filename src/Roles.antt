-- ===== src/Roles.antt =====
-- src/roles/roles.ts and src/engine/failover.ts: which model route a role runs on, which tools the
-- Judge may see, and which failures of a model are worth another route.
pub mod Failures
use dsh_workflow_plugin.Prelude.{
  ℕ, String, Text, Bool, true, false, Option, none, some, List, [], ◌∷◌, ◌++◌, lookup, includes,
  filter_by, or_else, opt_bind, opt_map, is_some, ◌==◌, not,
}
use dsh_workflow_plugin.Types.Routes.{
  Route, RoleModel, RoleRouteStage, primary, fallback, manual, as_route, no_route,
}
use dsh_workflow_plugin.Types.Graph.{WorkflowConfig, read_role_def_model, read_role_fallback_model}
use dsh_workflow_plugin.Types.Run.{RunState}

-- The override of a role where the stage does not say `primary`.
unfoldable pub stage_of : Option RoleRouteStage → Option RoleModel → RoleRouteStage
stage_of (some declared) override = declared
stage_of none none = primary
stage_of none (some override) = manual

unfoldable pub effective_role_route_stage : RunState → String → RoleRouteStage
unfolding stage_of
effective_role_route_stage run role_key =
    stage_of (opt_map (λ r. r.stage) (lookup role_key run.role_routes))
      (lookup role_key run.model_overrides)

unfoldable pub role_fallback_route : RunState → String → Option Route
role_fallback_route run role_key =
    opt_map as_route (read_role_fallback_model run.definition_snapshot role_key)

unfoldable pub role_primary_route : RunState → String → Option Route → Route
role_primary_route run role_key frozen =
    or_else (opt_map as_route (read_role_def_model run.definition_snapshot role_key))
      (or_else frozen no_route)

unfoldable pub override_or_primary : RunState → String → Option Route → Route
unfolding role_primary_route
override_or_primary run role_key frozen = elim (lookup role_key run.model_overrides) [
  | some override ↦ as_route override
  | none ↦ role_primary_route run role_key frozen
]

-- Stage, then override, then the catalog, then the route frozen at the start.
unfoldable pub route_at : RoleRouteStage → RunState → String → Option Route → Route
unfolding role_fallback_route override_or_primary role_primary_route
route_at primary run role_key frozen = role_primary_route run role_key frozen
route_at manual run role_key frozen = override_or_primary run role_key frozen
route_at fallback run role_key frozen = elim (role_fallback_route run role_key) [
  | some route ↦ route
  | none ↦ override_or_primary run role_key frozen
]

unfoldable pub resolve_role_model : RunState → String → Option Route → Route
unfolding route_at
resolve_role_model run role_key frozen =
    route_at (effective_role_route_stage run role_key) run role_key frozen

abbrev judge_required_tools : List String
judge_required_tools =
    "read" ∷ "glob" ∷ "grep" ∷ "read_image" ∷ "workflow_inspect_git" ∷ "workflow_inspect_github"
    ∷ "judge_claim" ∷ []

abbrev judge_default_deny : List String
judge_default_deny =
    "edit" ∷ "write" ∷ "node_claim" ∷ "node_block" ∷ "node_resume" ∷ "node_run_program"
    ∷ "node_resolve_program" ∷ "workflow_set_role_model" ∷ "judge_respawn" ∷ []

abbrev judge_machinery_exempt : List String
judge_machinery_exempt = "report" ∷ "structured_output" ∷ []

-- The catalog schema refuses to deny these.
abbrev judge_protected_tools : List String
judge_protected_tools = judge_required_tools ++ judge_machinery_exempt

-- `[...new Set(xs)]`, for what has not been seen yet.
dedup_from : List String → List String → List String
dedup_from seen [] = []
dedup_from seen (x ∷ xs) = elim (includes x seen) [
  | true ↦ dedup_from seen xs
  | false ↦ x ∷ dedup_from (x ∷ seen) xs
]

pub judge_deny_list : RunState → List String
unfolding dedup_from
judge_deny_list run =
    dedup_from [] (judge_default_deny ++ or_else run.definition_snapshot.judge_role.tools_deny [])

known_deny_list : List String → List String → List String
known_deny_list deny available = filter_by (λ name. includes name available) deny

role_deny_list : RunState → String → List String
role_deny_list run role_key =
    or_else (opt_bind (lookup role_key run.definition_snapshot.roles) (λ r. r.tools_deny)) []
