-- ===== src/Engine/Claim.antt =====
-- src/engine/engine.ts: `handleClaim`. An Actor submits one named result of its node.
pub mod Keeps
use dsh_workflow_plugin.Prelude.{
  ℕ, String, Text, Bool, true, false, ◌&&◌, ◌||◌, not, Option, none, some, is_some, List, [], ◌∷◌,
  includes, Result, ok, err, Assoc,
}
use dsh_workflow_plugin.Types.Graph.{declared_results}
use dsh_workflow_plugin.Types.Execution.{NodeExecution, NodeClaim, Phase, checking, EventType}
use dsh_workflow_plugin.Types.Run.{RunState, is_running}
use dsh_workflow_plugin.Types.Claims.{ClaimCaller, Unknown, normalize_node_claim}
use dsh_workflow_plugin.State.Tests.{is_working}
use dsh_workflow_plugin.Engine.Base.{
  RuntimeRow, EngineOutcome, put, notify_node_event, Reply, reject, change, current_node, matches,
}

abbrev dispatch_of : NodeExecution → String
dispatch_of e = elim e.dispatch [ none ↦ "" | some d ↦ d.id ]

pub claimed : NodeExecution → NodeClaim → String → NodeExecution
claimed e claim id = record e {
  claim = some (record {
    id = id;
    dispatch_id = dispatch_of e;
    result = claim.result;
    handoff = claim.handoff;
  });
  phase = checking;
}

pub accept_claim : RuntimeRow → (ℕ → String) → NodeClaim → Reply
unfolding claimed
accept_claim row fresh claim =
    let e = claimed row.execution claim (fresh 0) in
    record {
      outcome = EngineOutcome.accepted (some row.run) "claim saved";
      acts =
          put row.run row.version (change e (EventType.claim ∷ []) ∷ [])
          ∷ notify_node_event row.run e
          ∷ [];
    }

-- The execution waits for a claim of this caller.
pub awaits_claim : NodeExecution → ClaimCaller → Bool
awaits_claim e caller = is_working e.phase && not (is_some e.claim) && matches e.dispatch caller

pub claim_row : RuntimeRow → (ℕ → String) → NodeClaim → ClaimCaller → Reply
unfolding accept_claim
claim_row row fresh claim caller = elim (awaits_claim row.execution caller) [
  | false ↦ reject "no dispatched Node is bound to this call"
  | true ↦ elim (includes claim.result (declared_results (current_node row.run))) [
    | false ↦ reject "unknown result"
    | true ↦ accept_claim row fresh claim
  ]
]

unfoldable pub claim_running : Option RuntimeRow → (ℕ → String) → NodeClaim → ClaimCaller → Reply
unfolding claim_row
claim_running none fresh claim caller = reject "no running work order"
claim_running (some row) fresh claim caller = elim (is_running row.run.status) [
  | false ↦ reject "no running work order"
  | true ↦ claim_row row fresh claim caller
]

unfoldable pub handle_claim : Option RuntimeRow → (ℕ → String) → Assoc Unknown → ClaimCaller → Reply
unfolding claim_running
handle_claim row fresh input caller = elim (normalize_node_claim input) [
  | err reason ↦ reject reason
  | ok claim ↦ claim_running row fresh claim caller
]
