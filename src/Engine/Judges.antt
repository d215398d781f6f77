-- ===== src/Engine/Judges.antt =====
-- src/engine/engine.ts: how a Judge is arranged and dispatched, and which Judge a transfer waits for.
pub mod Keeps
use dsh_workflow_plugin.Prelude.{
  ℕ, zero, suc, ◌+◌, String, Text, codes, Bool, true, false, ◌&&◌, ◌||◌, not, ◌==◌, nat_eq, Option,
  none, some, is_some, opt_eq, opt_bind, opt_map, List, [], ◌∷◌, ◌++◌, includes, length, Result, ok,
  err,
}
use dsh_workflow_plugin.Types.Routes.{Route, RoleRouteStage}
use dsh_workflow_plugin.Types.Execution.{NodeExecution, ExecutionClaim, ExecutionJudge, EventType}
use dsh_workflow_plugin.Types.Run.{RunState, is_running}
use dsh_workflow_plugin.Roles.{resolve_role_model, effective_role_route_stage}
use dsh_workflow_plugin.Engine.Base.{RuntimeRow, Act, put, notify_node_event, retire_judge, change}
use dsh_workflow_plugin.Engine.Block.{block_row}

-- What the host answers to a probe of a session.
pub data SafeInspection : Type 0 where
  safe waiting unsafe : SafeInspection

-- A Judge of this claim at this input, not yet dispatched.
unfoldable pub arranged_judge :
    Route → RoleRouteStage → ExecutionClaim → ℕ → String → String → ExecutionJudge
arranged_judge model source claim version id session = record {
  id = id;
  session_id = session;
  message_id = none;
  settled = false;
  model = some model;
  source = some source;
  claim_id = claim.id;
  input_version = version;
}

-- `judgeRouteFacts`: the route that the run resolves for its Judge now.
unfoldable pub new_judge : RunState → ExecutionClaim → ℕ → String → String → ExecutionJudge
unfolding arranged_judge
new_judge run =
    arranged_judge (resolve_role_model run "judge" run.delegation_route)
      (effective_role_route_stage run "judge")

abbrev id_of_dispatch : NodeExecution → Option String
id_of_dispatch e = opt_map (λ d. d.id) e.dispatch

abbrev id_of_claim : NodeExecution → Option String
id_of_claim e = opt_map (λ c. c.id) e.claim

abbrev id_of_judge : NodeExecution → Option String
id_of_judge e = opt_map (λ j. j.id) e.judge

-- `stillCurrent`: the row that is read again is the one at hand, at this version.
pub is_still_current : RuntimeRow → NodeExecution → ℕ → Bool
is_still_current row e version =
    is_running row.run.status
    && nat_eq row.version version
    && row.execution.execution_id == e.execution_id
    && opt_eq ◌==◌ (id_of_dispatch row.execution) (id_of_dispatch e)
    && opt_eq ◌==◌ (id_of_claim row.execution) (id_of_claim e)
    && opt_eq ◌==◌ (id_of_judge row.execution) (id_of_judge e)

pub still_current : Option RuntimeRow → NodeExecution → ℕ → Option RuntimeRow
still_current none e version = none
still_current (some row) e version = elim (is_still_current row e version) [
  | true ↦ some row
  | false ↦ none
]

-- `sameRow`.
same_row : Option RuntimeRow → RuntimeRow → Bool
same_row none row = false
same_row (some current) row =
    nat_eq current.version row.version
    && current.run.run_id == row.run.run_id
    && current.execution.execution_id == row.execution.execution_id

-- `transferJudge`: down the chain of child results to the execution that has a Judge. The code
-- stops at an execution that it has seen; the rounds bound the executions that it may visit.
unfoldable pub transfer_judge :
    ℕ
    → (String → Option NodeExecution)
    → List String
    → Option NodeExecution
    → Option (NodeExecution × ExecutionJudge)
transfer_judge zero stored seen current = none
transfer_judge (suc rounds) stored seen none = none
transfer_judge (suc rounds) stored seen (some e) = elim (includes e.execution_id seen) [
  | true ↦ none
  | false ↦ elim e.judge [
    | some judge ↦ some (e, judge)
    | none ↦
        transfer_judge rounds stored (e.execution_id ∷ seen)
          (opt_bind e.child (λ c. opt_bind c.result (λ r. stored r.terminal_execution_id)))
  ]
]

-- What is read and answered while a Judge is dispatched.
pub record JudgeAnswers : Type 0 where
  pub cwd : Result String
  pub before : Option RuntimeRow
  pub sent : Result (String × Option String)
  pub after : Option RuntimeRow
  pub at_fault : Option RuntimeRow

pub dispatch_failed : NodeExecution → ℕ → Text → JudgeAnswers → List Act
dispatch_failed e version reason answers = elim answers.at_fault [
  | none ↦ []
  | some current ↦
      elim (nat_eq current.version version && current.execution.execution_id == e.execution_id) [
        | true ↦ block_row current reason []
        | false ↦ []
      ]
]

abbrev with_message : ExecutionJudge → String → ExecutionJudge
with_message j message = record j { message_id = some message }

-- The message of the Judge that was arranged.
pub published : NodeExecution → String → NodeExecution
published e message = record e { judge = opt_map (λ j. with_message j message) e.judge }

pub publish : RuntimeRow → String → List Act
unfolding published
publish row message =
    let e = published row.execution message in
    put row.run row.version (change e [] ∷ []) ∷ notify_node_event row.run e ∷ []

pub dispatch_sent :
    NodeExecution → ExecutionJudge → ℕ → Text → JudgeAnswers → String × Option String → List Act
unfolding dispatch_failed publish
dispatch_sent e judge version reason answers (session, message) =
    elim (still_current answers.after e version) [
      | none ↦ retire_judge judge.session_id ∷ []
      | some current ↦ elim message [
        | none ↦ dispatch_failed e version reason answers
        | some m ↦ elim (session == judge.session_id) [
          | true ↦ publish current m
          | false ↦ dispatch_failed e version reason answers
        ]
      ]
    ]

-- The part of a retry and of a failover that follows their first write, at the version written.
pub dispatch_judge : NodeExecution → ExecutionJudge → ℕ → Text → JudgeAnswers → List Act
unfolding dispatch_failed dispatch_sent
dispatch_judge e judge version reason answers = elim answers.cwd [
  | err _ ↦ dispatch_failed e version reason answers
  | ok _ ↦ elim (still_current answers.before e version) [
    | none ↦ retire_judge judge.session_id ∷ []
    | some _ ↦ elim answers.sent [
      | err _ ↦ dispatch_failed e version reason answers
      | ok sent ↦ dispatch_sent e judge version reason answers sent
    ]
  ]
]
