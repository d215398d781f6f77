-- ===== src/Engine/Manager/Models.antt =====
-- src/engine/engine.ts: `handleSetRoleModel` and `probeSessionIdle`. The Manager gives a role another
-- model.
use dsh_workflow_plugin.Prelude.{
  ℕ, zero, suc, String, Text, text_eq, codes, trim, is_empty, ltb, length, Bool, true, false, ◌&&◌,
  ◌||◌, not, ◌==◌, opt_eq, Option, none, some, is_some, is_none, opt_bind, opt_map, List, [], ◌∷◌,
  ◌++◌, lookup, remove, Result, ok, err, Assoc,
}
use dsh_workflow_plugin.Prelude
use dsh_workflow_plugin.Types.Routes.{RoleModel, RoleRouteState, manual, normalize_model_route}
use dsh_workflow_plugin.Types.Graph.{NodeDef, actor_task}
use dsh_workflow_plugin.Types.Execution.{NodeExecution, EventType}
use dsh_workflow_plugin.Types.Run.{RunState, is_running, is_completed, is_terminated}
use dsh_workflow_plugin.State.Tests.{is_working}
use dsh_workflow_plugin.Engine.Base.{
  RuntimeRow, EngineOutcome, put, Reply, reject, change, current_node,
}

-- `probeSessionIdle`, folded from the inspection, the activity and the rows read after them.
pub data SessionIdleVerdict : Type 0 where
  safe cold_safe safety_stale activity_stale active : SessionIdleVerdict

pub data Activity : Type 0 where
  active idle unknown : Activity

-- The answers of one probe; the inspection is true where the host says `safe`.
pub record IdleProbe : Type 0 where
  pub inspected : Bool
  pub fresh_after_inspection : Bool
  pub activity : Activity
  pub fresh_after_activity : Bool

abbrev is_unknown : Activity → Bool
is_unknown Activity.unknown = true
is_unknown _ = false

unfoldable pub probe_session_idle : IdleProbe → SessionIdleVerdict
probe_session_idle p = elim p.fresh_after_inspection [
  | false ↦ safety_stale
  | true ↦ elim p.inspected [
    | true ↦ SessionIdleVerdict.safe
    | false ↦ elim p.fresh_after_activity [
      | false ↦ activity_stale
      | true ↦ elim (is_unknown p.activity) [ true ↦ cold_safe | false ↦ SessionIdleVerdict.active ]
    ]
  ]
]

-- `validateModelRoute`, where it is wired: it lets the route pass, or gives a reason.
pub record SettingAnswers : Type 0 where
  pub validates : Option (RoleModel → Result (Option String))
  pub probe : IdleProbe

abbrev is_current_role : Option NodeDef → String → Bool
is_current_role (some (actor_task n)) role = n.role == role
is_current_role _ role = false

abbrev pub is_manual_round : Option RoleRouteState → Bool
is_manual_round none = false
is_manual_round (some s) = elim s.stage [ manual ↦ true | _ ↦ false ]

abbrev pub same_override : Option RoleModel → RoleModel → Bool
same_override none route = false
same_override (some m) route =
    text_eq m.provider route.provider
    && text_eq m.model_id route.model_id
    && opt_eq text_eq m.reasoning_effort route.reasoning_effort

-- The session of a role; the Judge has none here.
pub mapped_session : RunState → String → Option String
mapped_session run role = elim (role == "judge") [
  | true ↦ none
  | false ↦ lookup role run.role_actors
]

-- Setting a model opens a new round: the manual route, with no switch used.
unfoldable pub overridden_run : RunState → String → RoleModel → RunState
overridden_run run role route = record run {
  model_overrides = Prelude.put role route run.model_overrides;
  role_actors = elim (mapped_session run role) [
    | none ↦ run.role_actors
    | some s ↦ remove role run.role_actors
  ];
  role_routes =
      Prelude.put role
        (record { stage = manual; reason = some (codes "manager-set"); auto_switches = some 0 })
        run.role_routes;
}

pub replaces_current : RuntimeRow → String → Bool
replaces_current row role =
    is_some (mapped_session row.run role) && is_current_role (current_node row.run) role

overridden_execution : RuntimeRow → String → NodeExecution
overridden_execution row role = elim (replaces_current row role) [
  | true ↦ record row.execution { role_boundary_prepared = true }
  | false ↦ row.execution
]

unfoldable pub save_override : RuntimeRow → String → RoleModel → Reply
unfolding overridden_run overridden_execution
save_override row role route =
    let run = overridden_run row.run role route in
    record {
      outcome = EngineOutcome.accepted (some run) "model override saved";
      acts =
          put run row.version
            (change (overridden_execution row role) (EventType.model_changed ∷ []) ∷ [])
          ∷ [];
    }

-- A mapped session must be closed before its role is given another model.
unfoldable pub probe_mapped : RuntimeRow → String → RoleModel → SettingAnswers → Reply
unfolding save_override probe_session_idle
probe_mapped row role route answers = elim (mapped_session row.run role) [
  | none ↦ save_override row role route
  | some session ↦ elim (probe_session_idle answers.probe) [
    | safety_stale ↦ reject "stale model replacement after Role safety inspection"
    | activity_stale ↦ reject "stale model replacement after Role activity inspection"
    | SessionIdleVerdict.active ↦ reject "active actor cannot be replaced"
    | SessionIdleVerdict.safe ↦ save_override row role route
    | cold_safe ↦ save_override row role route
  ]
]

unfoldable pub apply_route : RuntimeRow → String → RoleModel → SettingAnswers → Reply
unfolding probe_mapped
apply_route row role route answers =
    elim (same_override (lookup role row.run.model_overrides) route
      && is_none (mapped_session row.run role)
      && is_manual_round (lookup role row.run.role_routes)) [
        | true ↦ record {
          outcome = EngineOutcome.accepted (some row.run) "model override already applied";
          acts = [];
        }
        | false ↦
            elim (replaces_current row role
              && is_running row.run.status
              && is_working row.execution.phase) [
                | true ↦ reject "current active Role must node_block before model replacement"
                | false ↦ probe_mapped row role route answers
              ]
      ]

unfoldable pub validate_route : RuntimeRow → String → RoleModel → SettingAnswers → Reply
unfolding apply_route
validate_route row role route answers = elim answers.validates [
  | none ↦ apply_route row role route answers
  | some validate ↦ elim (validate route) [
    | err reason ↦ reject reason
    | ok _ ↦ apply_route row role route answers
  ]
]

unfoldable pub set_active :
    RuntimeRow
    → String
    → (provider model : Text) → Option Text
    → (caller : String) → SettingAnswers
    → Reply
unfolding validate_route
set_active row role provider model effort caller answers =
    elim (caller == row.run.manager_session_id) [
      | false ↦ reject "workflow_set_role_model is Manager-only"
      | true ↦ elim (role == "judge" || is_some (lookup role row.run.definition_snapshot.roles)) [
        | false ↦ reject "unknown role"
        | true ↦ elim (normalize_model_route provider model effort) [
          | err reason ↦ reject reason
          | ok route ↦ validate_route row role route answers
        ]
      ]
    ]

unfoldable pub handle_set_role_model :
    Option RuntimeRow
    → String
    → (provider model : Text) → Option Text
    → (caller : String) → SettingAnswers
    → Reply
unfolding set_active
handle_set_role_model none role provider model effort caller answers =
    reject "workflow_set_role_model requires the current active Run"
handle_set_role_model (some row) role provider model effort caller answers =
    elim (is_completed row.run.status || is_terminated row.run.status) [
      | true ↦ reject "workflow_set_role_model requires the current active Run"
      | false ↦ set_active row role provider model effort caller answers
    ]
