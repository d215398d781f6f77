-- ===== src/Scenarios/Sessions.antt =====
-- The theorems on session logs, on the tools of a session, and on the checks of the store.
use dsh_workflow_plugin.Prelude.{
  ℕ, String, true, false, ◌==◌, none, some, List, [], ◌∷◌, ◌++◌, includes, lookup, reverse, ◌≡◌,
  refl, Assoc,
}
use dsh_workflow_plugin.Plugin.Turnbind.{
  TurnBindEvent, Field, caller_turn_user_message_ids, caller_session_user_message_ids,
  turn_user_message_ids, scan_turn, locate_call, find_call,
}
use dsh_workflow_plugin.Plugin.Turnbind.Lineage.{caller_turn-session, turn-start}
use dsh_workflow_plugin.Tools.Authz.{
  AuthzInput, AuthzDecision, role_allowed, authorize_tool_call, authorize_actor, authorize_role,
  mapped_role,
}
use dsh_workflow_plugin.Tools.Authz.Policy.{authorize_tool_call-role}
use dsh_workflow_plugin.Scenarios.{run}

-- A turn of an earlier message, and the turn that makes the call.
abbrev event : String → ℕ → Assoc Field → TurnBindEvent
event type seq fields = record { type = type; seq = seq; data_of = some fields }

abbrev earlier : List TurnBindEvent
earlier =
    event "turn/start" 1 (("turn", Field.number 1) ∷ [])
    ∷ event "user/message" 2 (("id", Field.string "m0") ∷ [])
    ∷ event "turn/end" 3 (("turn", Field.number 1) ∷ [])
    ∷ []

abbrev start : TurnBindEvent
start = event "turn/start" 4 (("turn", Field.number 2) ∷ [])

abbrev rest : List TurnBindEvent
rest =
    event "user/message" 5 (("id", Field.string "m1") ∷ [])
    ∷ event "tool/call" 6 (("callId", Field.string "c1") ∷ ("turn", Field.number 2) ∷ [])
    ∷ []

abbrev log : List TurnBindEvent
log = earlier ++ start ∷ rest

strict_ids : caller_turn_user_message_ids log "c1" "c1" ≡ some ("m1" ∷ [])
unfolding caller_turn_user_message_ids turn_user_message_ids scan_turn locate_call find_call lookup
    reverse
strict_ids = refl

has_m1 : includes "m1" ("m1" ∷ []) ≡ true
unfolding includes
has_m1 = refl

caller_turn-session_example :
    (session : List String) × (caller_session_user_message_ids log "c1" "c1" ≡ some session)
    × (includes "m1" session ≡ true)
caller_turn-session_example = caller_turn-session log "c1" "c1" "m1" ("m1" ∷ []) strict_ids has_m1

turn-start_example :
    turn_user_message_ids (earlier ++ start ∷ rest) 6 2 ≡ turn_user_message_ids (start ∷ rest) 6 2
turn-start_example = turn-start earlier rest start 6 2 refl refl

abbrev call : AuthzInput
call = record {
  run = run;
  session_id = "s1";
  known_role_of_session = none;
  is_judge_session = false;
  tool_name = "node_claim";
}

call_allowed : authorize_tool_call call ≡ AuthzDecision.role "dev"
unfolding authorize_tool_call authorize_actor authorize_role mapped_role lookup includes
call_allowed = refl

authorize_tool_call-role_example :
    (false ≡ false)
    × (("boss" == "s1") ≡ false)
    × (lookup "dev" run.role_actors ≡ some "s1")
    × (includes "node_claim" role_allowed ≡ true)
authorize_tool_call-role_example = authorize_tool_call-role call "dev" call_allowed
