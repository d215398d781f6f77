-- ===== src/Engine/TurnEnd.antt =====
-- src/engine/engine.ts: `handleTurnEnded` and `retryJudgeOnce`. The host reports that a turn has
-- ended; only the turn of the current dispatch, safely closed, moves the work order.
pub mod Keeps
pub mod Sound
pub mod Handler
pub mod Refused
use dsh_workflow_plugin.Prelude.{
  ℕ, zero, suc, String, Text, codes, Bool, true, false, ◌&&◌, ◌||◌, not, ◌==◌, nat_eq, Option, none,
  some, is_some, opt_bind, opt_map, List, [], ◌∷◌, ◌++◌,
}
use dsh_workflow_plugin.Types.Execution.{
  NodeExecution, ExecutionClaim, ExecutionDispatch, ExecutionJudge, Phase, working, checking, ready,
  settling, exited, EventType,
}
use dsh_workflow_plugin.Types.Run.{RunState, is_running}
use dsh_workflow_plugin.Types.Claims.{ClaimCaller}
use dsh_workflow_plugin.State.Tests.{is_ready}
use dsh_workflow_plugin.Roles.{role_fallback_route}
use dsh_workflow_plugin.Roles.Failures.{ActorFailureFacts}
use dsh_workflow_plugin.Engine.Base.{
  RuntimeRow, Act, put, retire_judge, forget_dispatch, drive, change, matches, matches_judge,
}
use dsh_workflow_plugin.Engine.Block.{block_row}
use dsh_workflow_plugin.Engine.Judges.{
  SafeInspection, safe, waiting, unsafe, new_judge, still_current, transfer_judge, JudgeAnswers,
  dispatch_judge,
}
use dsh_workflow_plugin.Engine.Failover.{
  FailoverVerdict, switched, exhausted, ineligible, SwitchTexts, settle_dispatch, try_failover,
  try_judge_failover,
}

-- What the handler reads and is answered after its first read.
pub record TurnAnswers : Type 0 where
  -- The store's executions, and a bound on how many there are.
  pub stored : String → Option NodeExecution
  pub rounds : ℕ
  -- `none` where the probe ran out of time.
  pub inspection : Option SafeInspection
  -- The row read after the probe.
  pub again : Option RuntimeRow
  pub fresh : ℕ → String
  pub judge_answers : JudgeAnswers
  pub texts : SwitchTexts
  -- `isTransientJudgeFailure` of the diagnosis of the turn, and the diagnosis appended to a reason.
  pub transient : Bool
  pub diagnosed : Text → Text

abbrev settle_judge : ExecutionJudge → ExecutionJudge
settle_judge j = record j { settled = true }

-- The Judge whose verdict led here has closed its turn: the successor may be driven.
unfoldable pub settled_owner : NodeExecution → NodeExecution
settled_owner owner = record owner { judge = opt_map settle_judge owner.judge }

pub settle_transfer :
    RuntimeRow → TurnAnswers → ClaimCaller → NodeExecution → ExecutionJudge → List Act
unfolding settled_owner
settle_transfer row answers caller owner judge = elim answers.again [
  | none ↦ []
  | some current ↦
      elim (nat_eq current.version row.version
        && current.execution.execution_id == row.execution.execution_id) [
          | false ↦ []
          | true ↦
              put current.run current.version (change (settled_owner owner) [] ∷ [])
              ∷ forget_dispatch (some caller.session_id) (some judge.id)
              ∷ drive
              ∷ []
        ]
]

pub inspect_transfer :
    RuntimeRow → TurnAnswers → ClaimCaller → NodeExecution → ExecutionJudge → List Act
unfolding settle_transfer
inspect_transfer row answers caller owner judge = elim answers.inspection [
  | none ↦ block_row row (codes "whenIdle timed out") []
  | some safe ↦ settle_transfer row answers caller owner judge
  | some waiting ↦ block_row row (codes "Judge/known tools not safely closed") []
  | some unsafe ↦ block_row row (codes "Judge/known tools not safely closed") []
]

pub transfer_ended : RuntimeRow → TurnAnswers → ClaimCaller → String → List Act
unfolding inspect_transfer
transfer_ended row answers caller predecessor =
    elim (transfer_judge answers.rounds answers.stored [] (answers.stored predecessor)) [
      | none ↦ []
      | some (owner, judge) ↦ elim (matches_judge (some judge) caller && not judge.settled) [
        | false ↦ []
        | true ↦ inspect_transfer row answers caller owner judge
      ]
    ]

-- The dispatch of the Actor is closed; its claim may be judged.
unfoldable pub settled_actor : NodeExecution → NodeExecution
settled_actor e = record e { dispatch = settle_dispatch e.dispatch }

abbrev dispatch_session : NodeExecution → Option String
dispatch_session e = opt_bind e.dispatch (λ d. d.session_id)

abbrev dispatch_id : NodeExecution → Option String
dispatch_id e = opt_map (λ d. d.id) e.dispatch

pub forget_actor : NodeExecution → Act
forget_actor e = forget_dispatch (dispatch_session e) (dispatch_id e)

unfoldable pub forget_judge : NodeExecution → Act
forget_judge e = forget_dispatch (opt_map (λ j. j.session_id) e.judge) (opt_map (λ j. j.id) e.judge)

pub actor_checked : RuntimeRow → List Act
unfolding settled_actor forget_actor
actor_checked row =
    put row.run row.version (change (settled_actor row.execution) [] ∷ [])
    ∷ forget_actor row.execution
    ∷ drive
    ∷ []

pub actor_failed : RuntimeRow → TurnAnswers → Option ActorFailureFacts → List Act
unfolding forget_actor
actor_failed row answers facts = elim (try_failover row facts answers.texts) [
  | switched acts ↦ acts
  | exhausted ↦
      forget_actor row.execution
      ∷ block_row row (answers.diagnosed (codes "actor-turn-ended-without-result")) []
  | ineligible ↦
      forget_actor row.execution
      ∷ block_row row (answers.diagnosed (codes "actor-turn-ended-without-result")) []
]

-- One retry, in a fresh session, for the same claim at the same input.
pub retried_execution : NodeExecution → RunState → ExecutionClaim → (ℕ → String) → NodeExecution
retried_execution e run claim fresh = record e {
  judge_auto_retried = true;
  judge = some (new_judge run claim e.input_version (fresh 0) (fresh 1));
}

pub retry_judge_once : RuntimeRow → ExecutionClaim → ExecutionJudge → TurnAnswers → List Act
unfolding retried_execution
retry_judge_once row claim judge answers =
    let e = retried_execution row.execution row.run claim answers.fresh in
    let arranged = new_judge row.run claim e.input_version (answers.fresh 0) (answers.fresh 1) in
    put row.run row.version (change e (EventType.judge_arranged ∷ []) ∷ [])
    ∷ retire_judge judge.session_id
    ∷ forget_dispatch (some judge.session_id) none
    ∷ dispatch_judge e arranged (suc row.version)
        (answers.diagnosed (codes "judge auto-retry failed")) answers.judge_answers

pub judge_blocked : RuntimeRow → TurnAnswers → String → List Act
unfolding forget_judge
judge_blocked row answers reason =
    forget_judge row.execution ∷ block_row row (answers.diagnosed (codes reason)) []

-- Without a claim or a Judge the retry fails before it writes.
pub retry_present : RuntimeRow → TurnAnswers → List Act
unfolding retry_judge_once
retry_present row answers = elim row.execution.claim [
  | none ↦ []
  | some claim ↦ elim row.execution.judge [
    | none ↦ []
    | some judge ↦ retry_judge_once row claim judge answers
  ]
]

pub judge_without_fallback : RuntimeRow → TurnAnswers → List Act
unfolding retry_present judge_blocked
judge_without_fallback row answers =
    elim (answers.transient && not row.execution.judge_auto_retried) [
      | true ↦ retry_present row answers
      | false ↦ elim row.execution.judge_auto_retried [
        | true ↦ judge_blocked row answers "judge turn ended without judge_claim (retried once)"
        | false ↦ judge_blocked row answers "judge turn ended without judge_claim"
      ]
    ]

pub judge_with_fallback : RuntimeRow → TurnAnswers → Option ActorFailureFacts → List Act
unfolding judge_blocked
judge_with_fallback row answers facts =
    elim (try_judge_failover row facts answers.fresh answers.judge_answers answers.texts) [
      | switched acts ↦ acts
      | exhausted ↦
          judge_blocked row answers "judge turn ended without judge_claim (fallback exhausted)"
      | ineligible ↦ judge_blocked row answers "judge turn ended without judge_claim"
    ]

pub judge_ended : RuntimeRow → TurnAnswers → Option ActorFailureFacts → List Act
unfolding judge_without_fallback judge_with_fallback
judge_ended row answers facts = elim (role_fallback_route row.run "judge") [
  | some route ↦ judge_with_fallback row answers facts
  | none ↦ judge_without_fallback row answers
]

-- The turn of the Actor or of the Judge is safely closed.
pub closed_turn :
    RuntimeRow → TurnAnswers → (actor judge : Bool) → Phase → Option ActorFailureFacts → List Act
unfolding actor_checked actor_failed judge_ended
closed_turn row answers true judge checking facts = actor_checked row
closed_turn row answers true judge working facts = actor_failed row answers facts
closed_turn row answers false true checking facts = judge_ended row answers facts
closed_turn row answers true judge ready facts = []
closed_turn row answers true judge settling facts = []
closed_turn row answers true judge exited facts = []
closed_turn row answers false true ready facts = []
closed_turn row answers false true working facts = []
closed_turn row answers false true settling facts = []
closed_turn row answers false true exited facts = []
closed_turn row answers false false phase facts = []

pub inspected :
    RuntimeRow
    → TurnAnswers
    → (actor judge : Bool) → Option ActorFailureFacts
    → SafeInspection
    → List Act
unfolding closed_turn
inspected row answers actor judge facts safe =
    closed_turn row answers actor judge row.execution.phase facts
inspected row answers actor judge facts waiting = []
inspected row answers actor judge facts unsafe =
    block_row row (codes "Actor/Judge or known tools not safely closed") []

-- The dispatch is the caller's, and still open.
pub ends_actor : NodeExecution → ClaimCaller → Bool
ends_actor e caller = elim e.dispatch [
  | none ↦ false
  | some d ↦ matches (some d) caller && not d.settled
]

pub ends_judge : NodeExecution → ClaimCaller → Bool
ends_judge e caller = elim e.judge [
  | none ↦ false
  | some j ↦ matches_judge (some j) caller && not j.settled
]

pub own_turn_ended : RuntimeRow → TurnAnswers → ClaimCaller → Option ActorFailureFacts → List Act
unfolding inspected ends_actor ends_judge
own_turn_ended row answers caller facts =
    elim (ends_actor row.execution caller || ends_judge row.execution caller) [
      | false ↦ []
      | true ↦ elim answers.inspection [
        | none ↦ block_row row (codes "whenIdle timed out") []
        | some inspection ↦ elim (still_current answers.again row.execution row.version) [
          | none ↦ []
          | some current ↦
              inspected current answers (ends_actor row.execution caller)
                (ends_judge row.execution caller) facts inspection
        ]
      ]
    ]

-- What the handler does; it has no outcome of its own.
unfoldable pub handle_turn_ended :
    Option RuntimeRow → TurnAnswers → ClaimCaller → Option ActorFailureFacts → List Act
unfolding own_turn_ended transfer_ended
handle_turn_ended none answers caller facts = []
handle_turn_ended (some row) answers caller facts = elim (is_running row.run.status) [
  | false ↦ []
  | true ↦ elim (is_ready row.execution.phase) [
    | false ↦ own_turn_ended row answers caller facts
    | true ↦ elim row.execution.predecessor_id [
      | none ↦ own_turn_ended row answers caller facts
      | some predecessor ↦ transfer_ended row answers caller predecessor
    ]
  ]
]
