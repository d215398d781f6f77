-- ===== src/Types/Routes.antt =====
-- src/types.ts: model routes and the stages of a role's route.
use dsh_workflow_plugin.Prelude.{
  ℕ, Text, text_eq, trim, length, is_empty, ltb, Bool, true, false, ◌&&◌, Option, none, some,
  is_some, is_none, opt_eq, Result, ok, ◌>>◌, throw_if,
}
use dsh_workflow_plugin.Types.Limits

-- `RoleModel`, and `ModelOverride` of the same shape.
pub record RoleModel : Type 0 where
  pub provider : Text
  pub model_id : Text
  pub reasoning_effort : Option Text

-- `DelegationRoute = Partial<RoleModel>`.
pub record Route : Type 0 where
  pub provider : Option Text
  pub model_id : Option Text
  pub reasoning_effort : Option Text

-- A `RoleModel` where a `DelegationRoute` is wanted.
abbrev pub as_route : RoleModel → Route
as_route m = record {
  provider = some m.provider;
  model_id = some m.model_id;
  reasoning_effort = m.reasoning_effort;
}

-- `{}`.
abbrev pub no_route : Route
no_route = record { provider = none; model_id = none; reasoning_effort = none }

-- The host says `model` where the domain says `modelId`. `reasoning_effort` keeps apart a missing
-- key (outer `none`) and a key that is explicitly undefined.
pub record SpawnAgentOptions : Type 0 where
  pub provider : Option Text
  pub model : Option Text
  pub reasoning_effort : Option (Option Text)

unfoldable pub route_to_agent_options : Option Route → Option SpawnAgentOptions
route_to_agent_options none = none
route_to_agent_options (some r) =
    elim (is_none r.provider && is_none r.model_id && is_none r.reasoning_effort) [
      | true ↦ none
      | false ↦ some (record {
        provider = r.provider;
        model = r.model_id;
        reasoning_effort = some r.reasoning_effort;
      })
    ]

abbrev join {ℓ} : {A : Type ℓ} → Option (Option A) → Option A
join none = none
join (some o) = o

unfoldable pub agent_options_to_route : SpawnAgentOptions → Route
agent_options_to_route o = record {
  provider = o.provider;
  model_id = o.model;
  reasoning_effort = join o.reasoning_effort;
}

unfoldable pub same_model_route : Route → Route → Bool
same_model_route a b =
    is_some a.provider
    && is_some a.model_id
    && opt_eq text_eq a.provider b.provider
    && opt_eq text_eq a.model_id b.model_id

-- Three components at once; an absent key equals an absent key only.
abbrev pub route_eq : Route → Route → Bool
route_eq a b =
    opt_eq text_eq a.provider b.provider
    && opt_eq text_eq a.model_id b.model_id
    && opt_eq text_eq a.reasoning_effort b.reasoning_effort

unfoldable pub same_route_identity : Option Route → Option Route → Bool
same_route_identity none b = false
same_route_identity (some a) none = false
same_route_identity (some a) (some b) = route_eq a b

normalize_effort : Text → Text → Option Text → Result RoleModel
normalize_effort p m none = ok (record { provider = p; model_id = m; reasoning_effort = none })
normalize_effort p m (some effort) = do
  let e = trim effort
  throw_if (is_empty e) "reasoningEffort must be non-empty after trim"
  throw_if (ltb Limits.reasoning_effort_max (length e)) "reasoningEffort is too long"
  ok (record { provider = p; model_id = m; reasoning_effort = some e })

unfoldable pub normalize_model_route : Text → Text → Option Text → Result RoleModel
unfolding normalize_effort
normalize_model_route provider model_id effort = do
  let p = trim provider
  let m = trim model_id
  throw_if (is_empty p) "provider must be non-empty after trim"
  throw_if (ltb Limits.provider_max (length p)) "provider is too long"
  throw_if (is_empty m) "modelId must be non-empty after trim"
  throw_if (ltb Limits.model_id_max (length m)) "modelId is too long"
  normalize_effort p m effort

-- `ROLE_ROUTE_STAGES`.
pub data RoleRouteStage : Type 0 where
  primary fallback manual : RoleRouteStage

-- Why the stage was entered, and how often it was switched by itself in this round.
pub record RoleRouteState : Type 0 where
  pub stage : RoleRouteStage
  pub reason : Option Text
  pub auto_switches : Option ℕ
