-- ===== src/Tools/Authz/Policy.antt =====
-- What the policy of src/tools/authz.ts lets a session do.
use dsh_workflow_plugin.Prelude.{
  String, true, false, ◌==◌, Option, none, some, or_some, includes, lookup, ◌≡◌, arith, eq_iff,
  Option-cases, inl, inr,
}
use dsh_workflow_plugin.Tools.Authz.{
  AuthzInput, AuthzDecision, role_allowed, mapped_role, authorize_role, authorize_actor,
  authorize_tool_call,
}

module _ (input : AuthzInput) (role_key : String) where
  abbrev IsMapped : Type 0
  IsMapped =
      (lookup role_key input.run.role_actors ≡ some input.session_id)
      × (includes input.tool_name role_allowed ≡ true)

  role_facts : (name : String) → authorize_role input name ≡ AuthzDecision.role role_key → IsMapped
  unfolding authorize_role
  role_facts name h = elim (Option-cases (lookup name input.run.role_actors)) [
    | inl absent ↦ absurd (unmapped name absent h)
    | inr (actor, found) ↦ (ground (arith, eq_iff actor input.session_id), ground arith)
  ]
    where
      unmapped :
          (name : String)
          → lookup name input.run.role_actors ≡ none
          → authorize_role input name ≡ AuthzDecision.role role_key
          → ⊥
      unmapped name absent h = ground arith

  actor_facts :
      (name : Option String) → authorize_actor input name ≡ AuthzDecision.role role_key → IsMapped
  unfolding authorize_actor
  actor_facts none h = cc
  actor_facts (some name) h = role_facts name h

-- A call is let through as that of a role only where it is no Judge's and not the Manager's, the
-- run maps this role to this session, and the tool is one of the three that a role may call.
pub authorize_tool_call-role :
    (input : AuthzInput) (role_key : String)
    → authorize_tool_call input ≡ AuthzDecision.role role_key
    → (input.is_judge_session ≡ false)
      × ((input.run.manager_session_id == input.session_id) ≡ false)
      × (lookup role_key input.run.role_actors ≡ some input.session_id)
      × (includes input.tool_name role_allowed ≡ true)
unfolding authorize_tool_call
authorize_tool_call-role input role_key h =
    let facts =
      actor_facts input role_key (
        or_some input.known_role_of_session (mapped_role input.session_id input.run.role_actors)) in
    (ground arith, ground arith, ground (arith, facts), ground (arith, facts))
