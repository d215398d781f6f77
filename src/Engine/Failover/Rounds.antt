-- ===== src/Engine/Failover/Rounds.antt =====
-- The rounds of `tryFailover` and `tryJudgeFailover`: how far a role is switched, and onto what.
use dsh_workflow_plugin.Prelude.{
  String, Text, true, false, ◌==◌, Option, none, some, is_some, or_else, Assoc, ◌≡◌, ◌≢◌, refl,
  lookup, remove, lookup-put, lookup-remove, eq_refl,
}
use dsh_workflow_plugin.Types.Routes.{Route, RoleModel, RoleRouteStage, primary, fallback, manual}
use dsh_workflow_plugin.Types.Run.{RunState}
use dsh_workflow_plugin.Roles.{
  effective_role_route_stage, stage_of, role_fallback_route, role_primary_route, resolve_role_model,
  route_at,
}
use dsh_workflow_plugin.Engine.Failover.{
  next_stage, switched_routes, switched_run, target_route, is_manual,
}

-- Of the overrides a switch drops at most the role's own.
overrides_of_others :
    (from : RoleRouteStage) (role other : String) (m : Assoc RoleModel)
    → (role == other) ≡ false
    → lookup other (elim (is_manual from) [ true ↦ remove role m | false ↦ m ]) ≡ lookup other m
overrides_of_others manual role other m h = rw (lookup-remove role other m, h) refl
overrides_of_others primary role other m h = refl
overrides_of_others fallback role other m h = refl

module _ (run : RunState) (role : String) (from to : RoleRouteStage) (reason : Text) where
  pub judge_stage_after :
      effective_role_route_stage (switched_routes run role from to reason) role ≡ to
  unfolding effective_role_route_stage stage_of switched_routes
  judge_stage_after = rw (lookup-put role role, eq_refl role) refl

  pub judge_stage_of_others :
      (other : String)
      → (role == other) ≡ false
      → effective_role_route_stage (switched_routes run role from to reason) other
        ≡ effective_role_route_stage run other
  unfolding effective_role_route_stage stage_of switched_routes
  judge_stage_of_others other differs =
      rw
        (
          lookup-put role other,
          differs,
          overrides_of_others from role other run.model_overrides differs,
        )
        refl

  pub stage_after : effective_role_route_stage (switched_run run role from to reason) role ≡ to
  unfolding effective_role_route_stage stage_of switched_run switched_routes
  stage_after = rw (lookup-put role role, eq_refl role) refl

  pub stage_of_others :
      (other : String)
      → (role == other) ≡ false
      → effective_role_route_stage (switched_run run role from to reason) other
        ≡ effective_role_route_stage run other
  unfolding effective_role_route_stage stage_of switched_run switched_routes
  stage_of_others other differs =
      rw
        (
          lookup-put role other,
          differs,
          overrides_of_others from role other run.model_overrides differs,
        )
        refl

the_route :
    (o : Option Route) (x y : Route)
    → is_some o ≡ true
    → (elim o [ some route ↦ route | none ↦ x ]) ≡ or_else o y
the_route none x y h = cc
the_route (some route) x y h = refl

module _ (run : RunState) (role : String) (reason : Text) (frozen : Option Route) where
  no_manual : (from : RoleRouteStage) → next_stage from ≢ some manual
  unfolding next_stage
  no_manual manual h = cc
  no_manual primary h = cc
  no_manual fallback h = cc

  route_after :
      (from to : RoleRouteStage)
      → next_stage from ≡ some to
      → is_some (role_fallback_route run role) ≡ true
      → run.delegation_route ≡ frozen
      → route_at to (switched_run run role from to reason) role frozen ≡ target_route run role to
  unfolding route_at target_route role_primary_route role_fallback_route switched_run
      switched_routes
  route_after from manual next there same = absurd (no_manual from next)
  route_after from primary next there same = rw same refl
  route_after from fallback next there same = the_route (role_fallback_route run role) _ _ there

  -- After a switch of a role that has a fallback to its next stage, the run resolves the role to
  -- the route that the switch was aimed at: the primary route where the manual one failed, and the
  -- fallback where the primary one failed. The frozen route is the run's.
  pub resolve-switched :
      (to : RoleRouteStage)
      → next_stage (effective_role_route_stage run role) ≡ some to
      → is_some (role_fallback_route run role) ≡ true
      → run.delegation_route ≡ frozen
      → resolve_role_model
          (switched_run run role (effective_role_route_stage run role) to reason)
          role
          frozen
        ≡ target_route run role to
  unfolding resolve_role_model
  resolve-switched to next there same =
      rw (stage_after run role (effective_role_route_stage run role) to reason)
        (route_after (effective_role_route_stage run role) to next there same)
