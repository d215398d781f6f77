-- ===== src/Tools/Authz.antt =====
-- src/tools/authz.ts: which workflow tools a session may call.
pub mod Policy
use dsh_workflow_plugin.Prelude.{
  String, Bool, true, false, ◌==◌, Option, none, some, or_some, opt_eq, List, [], ◌∷◌, includes,
  lookup, Assoc,
}
use dsh_workflow_plugin.Types.Run.{RunState}
use dsh_workflow_plugin.Roles.{judge_deny_list}

-- The reasons are named by their fixed text.
pub data AuthzDecision : Type 0 where
  manager : AuthzDecision
  role : (role_key : String) → AuthzDecision
  judge : AuthzDecision
  denied : (reason : String) → AuthzDecision

abbrev pub role_allowed : List String
role_allowed = "node_claim" ∷ "node_block" ∷ "workflow_status" ∷ []

pub record AuthzInput : Type 0 where
  pub run : RunState
  pub session_id : String
  pub known_role_of_session : Option String
  pub is_judge_session : Bool
  pub tool_name : String

-- The first role that is mapped to the session.
unfoldable pub mapped_role : String → Assoc String → Option String
mapped_role session [] = none
mapped_role session ((role_key, actor) ∷ actors) = elim (actor == session) [
  | true ↦ some role_key
  | false ↦ mapped_role session actors
]

unfoldable pub authorize_role : AuthzInput → String → AuthzDecision
authorize_role input role_key =
    elim (opt_eq ◌==◌ (lookup role_key input.run.role_actors) (some input.session_id)) [
      | false ↦
          AuthzDecision.denied
            "only the current Run Manager or a mapped Role Actor may call workflow tools"
      | true ↦ elim (includes input.tool_name role_allowed) [
        | true ↦ AuthzDecision.role role_key
        | false ↦ AuthzDecision.denied "role may not call the tool"
      ]
    ]

unfoldable pub authorize_actor : AuthzInput → Option String → AuthzDecision
unfolding authorize_role
authorize_actor input none =
    AuthzDecision.denied
      "only the current Run Manager or a mapped Role Actor may call workflow tools"
authorize_actor input (some role_key) = authorize_role input role_key

unfoldable pub authorize_tool_call : AuthzInput → AuthzDecision
unfolding authorize_actor mapped_role
authorize_tool_call input = elim input.is_judge_session [
  | true ↦ elim (includes input.tool_name (judge_deny_list input.run)) [
    | false ↦ AuthzDecision.judge
    | true ↦ AuthzDecision.denied "judge sessions may not call the denied tool"
  ]
  | false ↦ elim (input.run.manager_session_id == input.session_id) [
    | true ↦ AuthzDecision.manager
    | false ↦
        authorize_actor input
          (or_some input.known_role_of_session (mapped_role input.session_id input.run.role_actors))
  ]
]
