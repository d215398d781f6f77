-- ===== src/Types/Claims.antt =====
-- src/types.ts: who calls, and the contract of a claim.
use dsh_workflow_plugin.Prelude.{
  String, Text, Assoc, keys, lookup, codes, trim, length, ltb, is_empty, is_id, true, false, not,
  ◌&&◌, ◌==◌, Option, some, List, any_of, Result, ok, err, ◌>>=◌, ◌>>◌, throw_if,
}
use dsh_workflow_plugin.Types.Limits
use dsh_workflow_plugin.Types.Execution.{NodeClaim}

-- The sets of message ids that the tool layer took from the caller's session log.
pub record ClaimCaller : Type 0 where
  pub session_id : String
  pub turn_user_message_ids : List String
  pub session_user_message_ids : Option (List String)

-- What a tool call hands over before anything is checked.
pub data Unknown : Type 0 where
  string : String → Unknown
  other : Unknown

claim_result : Option Unknown → Result String
claim_result (some (Unknown.string s)) = elim (is_id s) [
  | true ↦ ok s
  | false ↦ err "node_claim result must be a declared lowercase result name"
]
claim_result _ = err "node_claim result must be a declared lowercase result name"

claim_handoff : Option Unknown → Result Text
claim_handoff (some (Unknown.string s)) = do
  let handoff = trim (codes s)
  throw_if (is_empty handoff) "handoff is required"
  throw_if (ltb Limits.handoff_max (length handoff)) "handoff is too long"
  ok handoff
claim_handoff _ = err "handoff is required"

unfoldable pub normalize_node_claim : Assoc Unknown → Result NodeClaim
unfolding claim_result claim_handoff
normalize_node_claim claim = do
  throw_if (any_of (λ key. not (key == "result") && not (key == "handoff")) (keys claim))
      "node_claim only accepts result and handoff"
  result ← claim_result (lookup "result" claim)
  handoff ← claim_handoff (lookup "handoff" claim)
  ok (record { result = result; handoff = handoff })
