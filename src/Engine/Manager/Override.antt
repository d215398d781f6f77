-- ===== src/Engine/Manager/Override.antt =====
-- What a saved override means for the route of the role.
use dsh_workflow_plugin.Prelude.{
  String, Text, ◌&&◌, ◌||◌, ◌==◌, Option, some, ◌≡◌, refl, lookup, lookup-put, eq_refl, ok,
  Bool-cases, Option-cases, Result-cases, inl, inr, is_some, is_none,
}
use dsh_workflow_plugin.Types.Routes.{Route, RoleModel, manual, as_route, normalize_model_route}
use dsh_workflow_plugin.Types.Execution.{NodeExecution}
use dsh_workflow_plugin.Types.Run.{RunState, is_completed, is_terminated, is_running}
use dsh_workflow_plugin.State.Tests.{is_working}
use dsh_workflow_plugin.Roles.{
  effective_role_route_stage, stage_of, resolve_role_model, route_at, override_or_primary,
}
use dsh_workflow_plugin.Engine.Base.{RuntimeRow, change}
use dsh_workflow_plugin.Engine.Writes.{EachWrite}
use dsh_workflow_plugin.Engine.Failover.{auto_switches}
use dsh_workflow_plugin.Engine.Manager.Models.{
  overridden_run, SettingAnswers, save_override, probe_mapped, apply_route, validate_route,
  set_active, handle_set_role_model, mapped_session, probe_session_idle, SessionIdleVerdict,
  replaces_current, same_override, is_manual_round,
}

-- The role runs on the route, and a new round stands before it.
pub record IsOverridden (role : String) (route : RoleModel) (run : RunState) : Type 0 where
  pub resolves : (frozen : Option Route) → resolve_role_model run role frozen ≡ as_route route
  pub stage : effective_role_route_stage run role ≡ manual
  pub unused : auto_switches run role ≡ 0

module _ (run : RunState) (role : String) (route : RoleModel) where
  overridden-stage : effective_role_route_stage (overridden_run run role route) role ≡ manual
  unfolding effective_role_route_stage stage_of overridden_run
  overridden-stage = rw (lookup-put role role, eq_refl role) refl

  overridden-unused : auto_switches (overridden_run run role route) role ≡ 0
  unfolding auto_switches overridden_run
  overridden-unused = rw (lookup-put role role, eq_refl role) refl

  overridden-lookup : lookup role (overridden_run run role route).model_overrides ≡ some route
  unfolding overridden_run
  overridden-lookup = rw (lookup-put role role, eq_refl role) refl

  overridden-route :
      (frozen : Option Route)
      → override_or_primary (overridden_run run role route) role frozen ≡ as_route route
  unfolding override_or_primary
  overridden-route frozen = rw (overridden-lookup, override_or_primary) refl

  overridden-resolves :
      (frozen : Option Route)
      → resolve_role_model (overridden_run run role route) role frozen ≡ as_route route
  unfolding resolve_role_model route_at
  overridden-resolves frozen = rw (overridden-stage) (overridden-route frozen)

  overridden_run-IsOverridden : IsOverridden role route (overridden_run run role route)
  overridden_run-IsOverridden = record {
    resolves = overridden-resolves;
    stage = overridden-stage;
    unused = overridden-unused;
  }

module _ (row : RuntimeRow) (role : String) (route : RoleModel) (answers : SettingAnswers) where
  abbrev Written : RunState → NodeExecution → Type 0
  Written run e = IsOverridden role route run

  saves-override : EachWrite Written (save_override row role route).acts
  unfolding save_override change
  saves-override = ((overridden_run-IsOverridden row.run role route, tt), tt)

  probed :
      (session : String)
      → mapped_session row.run role ≡ some session
      → (v : SessionIdleVerdict) → probe_session_idle answers.probe ≡ v
      → EachWrite Written (probe_mapped row role route answers).acts
  unfolding probe_mapped
  probed session mapped SessionIdleVerdict.safe e = rw (mapped, e, probe_mapped) saves-override
  probed session mapped SessionIdleVerdict.cold_safe e = rw (mapped, e, probe_mapped) saves-override
  probed session mapped SessionIdleVerdict.safety_stale e = rw (mapped, e, probe_mapped) tt
  probed session mapped SessionIdleVerdict.activity_stale e = rw (mapped, e, probe_mapped) tt
  probed session mapped SessionIdleVerdict.active e = rw (mapped, e, probe_mapped) tt

  probes-override : EachWrite Written (probe_mapped row role route answers).acts
  unfolding probe_mapped
  probes-override = elim (Option-cases (mapped_session row.run role)) [
    | inl unmapped ↦ rw (unmapped, probe_mapped) saves-override
    | inr (session, mapped) ↦ probed session mapped (probe_session_idle answers.probe) refl
  ]

  applies-override : EachWrite Written (apply_route row role route answers).acts
  unfolding apply_route
  applies-override =
      elim (Bool-cases (
        same_override (lookup role row.run.model_overrides) route
        && is_none (mapped_session row.run role)
        && is_manual_round (lookup role row.run.role_routes))) [
          | inl applied ↦ rw (applied, apply_route) tt
          | inr new ↦
              elim (Bool-cases (
                replaces_current row role
                && is_running row.run.status
                && is_working row.execution.phase)) [
                  | inl busy ↦ rw (new, busy, apply_route) tt
                  | inr free ↦ rw (new, free, apply_route) probes-override
                ]
        ]

  validates-override : EachWrite Written (validate_route row role route answers).acts
  unfolding validate_route
  validates-override = elim (Option-cases answers.validates) [
    | inl unwired ↦ rw (unwired, validate_route) applies-override
    | inr (validate, wired) ↦ elim (Result-cases (validate route)) [
      | inl (answer, fine) ↦ rw (wired, fine, validate_route) applies-override
      | inr (reason, refused) ↦ rw (wired, refused, validate_route) tt
    ]
  ]

-- Where the route that is asked for normalizes, every run that `handle_set_role_model` writes
-- resolves the role to the normalized route, whatever the frozen route, with the role at its
-- manual stage and no switch used.
pub handle_set_role_model-IsOverridden :
    (row : RuntimeRow) (role : String) (provider model : Text) (effort : Option Text)
    (caller : String) (answers : SettingAnswers) (route : RoleModel)
    → normalize_model_route provider model effort ≡ ok route
    → EachWrite
        (λ run e. IsOverridden role route run)
        (handle_set_role_model (some row) role provider model effort caller answers).acts
unfolding handle_set_role_model set_active
handle_set_role_model-IsOverridden row role provider model effort caller answers route valid =
    elim (Bool-cases (is_completed row.run.status || is_terminated row.run.status)) [
      | inl over ↦ rw (over, handle_set_role_model) tt
      | inr going ↦ elim (Bool-cases (caller == row.run.manager_session_id)) [
        | inr other ↦ rw (going, other, handle_set_role_model, set_active) tt
        | inl manager ↦
            elim (Bool-cases
              (role == "judge" || is_some (lookup role row.run.definition_snapshot.roles))) [
                | inr unknown ↦ rw (going, manager, unknown, handle_set_role_model, set_active) tt
                | inl known ↦
                    rw (going, manager, known, valid, handle_set_role_model, set_active)
                      (validates-override row role route answers)
              ]
      ]
    ]
