-- ===== src/Engine/Claim/Keeps.antt =====
-- A claim leaves a consistent execution.
use dsh_workflow_plugin.Prelude.{
  ℕ, String, true, Option, none, some, [], ◌≡◌, refl, arith, eq_refl, inl, inr, Bool-cases,
  Option-cases, includes, Assoc, Result-cases,
}
use dsh_workflow_plugin.Types.Graph.{
  NodeDef, actor_task, builtin_program, child_workflow, declared_results,
}
use dsh_workflow_plugin.Types.Execution.{NodeExecution, NodeClaim, ExecutionDispatch, working}
use dsh_workflow_plugin.Types.Run.{RunState, is_running}
use dsh_workflow_plugin.Types.Claims.{ClaimCaller, Unknown, normalize_node_claim}
use dsh_workflow_plugin.State.Tests.{node_in, workflow_def, has_current, has_actor_materials}
use dsh_workflow_plugin.State.Checks.{
  position_problems, kind_problems, exit_problems, binding_problems, judgment_problems,
  resolution_problems, phase_problems,
}
use dsh_workflow_plugin.State.Valid.{IsConsistent}
use dsh_workflow_plugin.Engine.Base.{RuntimeRow, change, current_node, matches}
use dsh_workflow_plugin.Engine.Writes.{EachWrite, IsConsistentRow}
use dsh_workflow_plugin.Engine.Claim.{
  claimed, awaits_claim, accept_claim, claim_row, claim_running, handle_claim,
}

module _ (run : RunState) (e : NodeExecution) (claim : NodeClaim) (id : String)
    (d : ExecutionDispatch) (v : IsConsistent run e) (w : e.phase ≡ working) (nc : e.claim ≡ none)
    (hd : e.dispatch ≡ some d) where
  claimed-binding : binding_problems (claimed e claim id) ≡ []
  unfolding binding_problems claimed
  claimed-binding = ground (arith, v.binding, eq_refl d.id)

  claimed-judgment : judgment_problems (claimed e claim id) ≡ []
  unfolding judgment_problems binding_problems claimed has_current
  claimed-judgment = ground (arith, v.judgment, v.binding)

  claimed-resolution : resolution_problems (claimed e claim id) ≡ []
  unfolding resolution_problems judgment_problems binding_problems claimed has_current
  claimed-resolution = ground (arith, v.judgment, v.resolution, v.binding)

  claimed-phase : phase_problems (claimed e claim id) ≡ []
  unfolding phase_problems claimed
  claimed-phase = refl

  claimed-exit :
      exit_problems
        (workflow_def run e.workflow_id)
        (node_in run e.workflow_id e.node_id)
        (claimed e claim id)
      ≡ []
  unfolding exit_problems claimed
  claimed-exit = ground (arith, v.exit)

  claimed-position :
      position_problems
        (node_in run e.workflow_id e.node_id)
        run.run_id
        e.workflow_id
        (claimed e claim id)
      ≡ []
  unfolding position_problems claimed
  claimed-position = ground (arith, v.position)

  -- A dispatch stands at an actor task only.
  claimed_kind :
      (n : Option NodeDef) → kind_problems n e ≡ [] → kind_problems n (claimed e claim id) ≡ []
  unfolding kind_problems has_actor_materials
  claimed_kind (some (actor_task n)) h = refl
  claimed_kind (some (builtin_program n)) h = ground (arith, h)
  claimed_kind (some (child_workflow n)) h = ground (arith, h)
  claimed_kind none h = refl

  claimed-IsConsistent : IsConsistent run (claimed e claim id)
  unfolding claimed
  claimed-IsConsistent = record {
    position = claimed-position;
    kind = claimed_kind (node_in run e.workflow_id e.node_id) v.kind;
    exit = claimed-exit;
    binding = claimed-binding;
    judgment = claimed-judgment;
    resolution = claimed-resolution;
    phase = claimed-phase;
  }

-- What the admission test says.
awaits_claim_facts :
    (e : NodeExecution) (caller : ClaimCaller)
    → awaits_claim e caller ≡ true
    → (e.phase ≡ working) × (e.claim ≡ none) × ((d : ExecutionDispatch) × (e.dispatch ≡ some d))
unfolding awaits_claim matches
awaits_claim_facts e caller h = (
  ground arith,
  ground arith,
  elim (Option-cases e.dispatch) [ inl absent ↦ absurd (refused absent) | inr present ↦ present ],
)
  where
    refused : e.dispatch ≡ none → ⊥
    refused absent = ground arith

claim_row-IsConsistent :
    (row : RuntimeRow) (fresh : ℕ → String) (claim : NodeClaim) (caller : ClaimCaller)
    → IsConsistentRow row
    → EachWrite IsConsistent (claim_row row fresh claim caller).acts
unfolding claim_row accept_claim change
claim_row-IsConsistent row fresh claim caller v =
    elim (Bool-cases (awaits_claim row.execution caller)) [
      | inl admitted ↦
          elim (Bool-cases (includes claim.result (declared_results (current_node row.run)))) [
            | inl declared ↦
                let f = awaits_claim_facts row.execution caller admitted in
                rw (admitted, declared, claim_row)
                  (
                    (
                      claimed-IsConsistent row.run row.execution claim (fresh 0) f.2.0 v f.0 f.1
                          f.2.1,
                      tt,
                    ),
                    tt,
                  )
            | inr undeclared ↦ rw (admitted, undeclared, claim_row) tt
          ]
      | inr refused ↦ rw (refused, claim_row) tt
    ]

-- From a row whose execution is consistent, `handle_claim` writes only executions that are
-- consistent with the run that it writes, whatever is submitted by whom.
pub handle_claim-IsConsistent :
    (row : RuntimeRow) (fresh : ℕ → String) (input : Assoc Unknown) (caller : ClaimCaller)
    → IsConsistentRow row
    → EachWrite IsConsistent (handle_claim (some row) fresh input caller).acts
unfolding handle_claim claim_running
handle_claim-IsConsistent row fresh input caller v =
    elim (Result-cases (normalize_node_claim input)) [
      | inr (reason, e) ↦ rw (e, handle_claim) tt
      | inl (claim, e) ↦ elim (Bool-cases (is_running row.run.status)) [
        | inl run ↦
            rw (e, run, handle_claim, claim_running)
              (claim_row-IsConsistent row fresh claim caller v)
        | inr stopped ↦ rw (e, stopped, handle_claim, claim_running) tt
      ]
    ]
