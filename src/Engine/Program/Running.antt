-- ===== src/Engine/Program/Running.antt =====
-- src/engine/engine.ts: `handleRunProgram`. The Manager starts the program of a node.
use dsh_workflow_plugin.Prelude.{
  ℕ, suc, String, Text, codes, Bool, true, false, ◌&&◌, ◌||◌, not, ◌==◌, nat_eq, Option, none, some,
  is_some, opt_map, List, [], ◌∷◌, ◌++◌, Result, ok, err, Assoc,
}
use dsh_workflow_plugin.Types.Graph.{BuiltinProgramNode, builtin_program, Value}
use dsh_workflow_plugin.Types.Execution.{
  NodeExecution, ProgramKind, ProgramOutcome, ProgramResult, Phase, working, settling, EventType,
}
use dsh_workflow_plugin.Types.Run.{RunState, running, blocked, is_running, is_blocked}
use dsh_workflow_plugin.State.Tests.{has_result, is_ready, is_working, is_settling}
use dsh_workflow_plugin.Engine.Base.{
  RuntimeRow, EngineOutcome, Act, drive, Reply, reject, change, current_node, retoken_top,
}
use dsh_workflow_plugin.Engine.Base
use dsh_workflow_plugin.Engine.Block.{block_row}
use dsh_workflow_plugin.Engine.Advance.{Decided, advance_known_result}
use dsh_workflow_plugin.Engine.Program.Parameters.{
  program_parameters, effective_program_result, kind_name,
}

-- What is read and answered while the program runs.
pub record ProgramAnswers : Type 0 where
  pub encoded_length : Assoc Value → ℕ
  pub fresh : ℕ → String
  pub now : String
  pub stored : String → Option NodeExecution
  -- The row read before the program runs; none where the working directory is not known.
  pub cwd : Result (Option RuntimeRow)
  pub ran : Result ProgramResult
  pub after : Option RuntimeRow
  -- `false` where the store refuses the write of the advance.
  pub commits : Bool
  pub after_commit : Option RuntimeRow

-- A program is arranged under a new token where the run was blocked.
unfoldable pub arranged_program : NodeExecution → Bool → Assoc Value → (ℕ → String) → NodeExecution
arranged_program e was_blocked parameters fresh = record e {
  node_token = elim was_blocked [ true ↦ fresh 1 | false ↦ e.node_token ];
  program = some (record { id = fresh 0; parameters = parameters; result = none });
  phase = working;
  restart_pending = false;
  block_reason = none;
}

unfoldable pub arranged_run : RunState → Bool → (ℕ → String) → RunState
arranged_run run was_blocked fresh = record run {
  call_stack = elim was_blocked [
    | true ↦ retoken_top (fresh 1) run.call_stack
    | false ↦ run.call_stack
  ];
  status = running;
  block_reason = none;
}

abbrev pub without_outcome : NodeExecution → NodeExecution
without_outcome e = elim e.program [
  | none ↦ e
  | some p ↦ record e { program = some (record p { result = none }) }
]

abbrev program_id_of : NodeExecution → Option String
program_id_of e = opt_map (λ p. p.id) e.program

-- The row read again still waits for this invocation.
unfoldable pub is_invocation : Option RuntimeRow → NodeExecution → ℕ → String → Bool
is_invocation none e version invocation = false
is_invocation (some current) e version invocation =
    nat_eq current.version version
    && is_running current.run.status
    && current.execution.execution_id == e.execution_id
    && elim (program_id_of current.execution) [ none ↦ false | some id ↦ id == invocation ]

unfoldable pub with_outcome : NodeExecution → ProgramOutcome → NodeExecution
with_outcome e outcome = elim e.program [
  | none ↦ e
  | some p ↦ record e { program = some (record p { result = some outcome }) }
]

unfoldable pub block_if_current :
    Option RuntimeRow → NodeExecution → ℕ → String → Text → String → Reply
block_if_current current e version invocation reason message = record {
  outcome = EngineOutcome.rejected message;
  acts = elim current [
    | none ↦ []
    | some row ↦ elim (is_invocation (some row) e version invocation) [
      | true ↦ block_row row reason []
      | false ↦ []
    ]
  ];
}

-- After the result the run goes on, unless it is over or stopped.
abbrev pub drives : EngineOutcome → List Act
drives (EngineOutcome.accepted (some run) message) = elim (is_running run.status) [
  | true ↦ drive ∷ []
  | false ↦ []
]
drives _ = []

unfoldable pub then_drive : Reply → Reply
then_drive reply = record reply { acts = reply.acts ++ drives reply.outcome }

-- The write failed: the invocation stays, without a result, and the Manager decides.
unfoldable pub commit_failed : ProgramAnswers → NodeExecution → ℕ → String → Reply
commit_failed answers e version invocation = record {
  outcome = EngineOutcome.rejected "Program result commit failed; Manager inspection required";
  acts = elim answers.after_commit [
    | none ↦ []
    | some row ↦ elim (is_invocation (some row) e version invocation) [
      | true ↦
          block_row (record row { execution = without_outcome row.execution })
            (codes "Program result commit unknown") []
      | false ↦ []
    ]
  ];
}

unfoldable pub result_committed :
    RuntimeRow → ProgramAnswers → ProgramKind → Text → NodeExecution → ℕ → String → Reply
unfolding commit_failed then_drive
result_committed current answers kind handoff e version invocation =
    elim (advance_known_result current answers.stored (λ n. answers.fresh (suc (suc n))) answers.now
      Decided.result (kind_name kind) handoff (EventType.program_result ∷ [])) [
        | err _ ↦ commit_failed answers e version invocation
        | ok reply ↦ elim answers.commits [
          | true ↦ then_drive reply
          | false ↦ commit_failed answers e version invocation
        ]
      ]

unfoldable pub result_known :
    RuntimeRow → ProgramAnswers → ProgramOutcome → NodeExecution → ℕ → String → Reply
unfolding result_committed with_outcome
result_known current answers (ProgramOutcome.error reason) e version invocation =
    let settled = record (with_outcome current.execution (ProgramOutcome.error reason)) {
      phase = settling;
    } in
    record {
      outcome =
          EngineOutcome.accepted (some (record current.run { status = blocked })) "Program ERROR";
      acts =
          block_row (record current { execution = settled }) (codes "Program ERROR: " ++ reason)
            (EventType.program_result ∷ []);
    }
result_known current answers (ProgramOutcome.done kind handoff reason) e version invocation =
    result_committed
      (record current {
        execution = with_outcome current.execution (ProgramOutcome.done kind handoff reason);
      })
      answers kind handoff e version invocation

unfoldable pub program_ran : ProgramAnswers → ProgramResult → NodeExecution → ℕ → String → Reply
unfolding result_known is_invocation
program_ran answers result e version invocation = elim answers.after [
  | none ↦ reject "stale Program result ignored"
  | some current ↦ elim (is_invocation (some current) e version invocation) [
    | false ↦ reject "stale Program result ignored"
    | true ↦ elim (effective_program_result result current.execution.input) [
      | err _ ↦ record {
        outcome = EngineOutcome.rejected "invalid Program result; Manager inspection required";
        acts = block_row current (codes "Program result unknown") [];
      }
      | ok outcome ↦ result_known current answers outcome e version invocation
    ]
  ]
]

-- The part that follows the write of the arrangement.
unfoldable pub run_arranged : ProgramAnswers → NodeExecution → ℕ → String → Reply
unfolding program_ran block_if_current
run_arranged answers e version invocation = elim answers.cwd [
  | err _ ↦
      block_if_current answers.after e version invocation (codes "Program result unknown")
        "Program result is unknown; Manager inspection required"
  | ok before ↦ elim (is_invocation before e version invocation) [
    | false ↦ reject "stale Program invocation before effect"
    | true ↦ elim answers.ran [
      | err _ ↦
          block_if_current answers.after e version invocation (codes "Program result unknown")
            "Program result is unknown; Manager inspection required"
      | ok result ↦ program_ran answers result e version invocation
    ]
  ]
]

unfoldable pub arrange_program : RuntimeRow → Assoc Value → ProgramAnswers → Reply
unfolding run_arranged arranged_program arranged_run
arrange_program row parameters answers =
    let e = arranged_program row.execution (is_blocked row.run.status) parameters answers.fresh in
    let run = arranged_run row.run (is_blocked row.run.status) answers.fresh in
    let rest = run_arranged answers e (suc row.version) (answers.fresh 0) in
    record rest {
      acts = Base.put run row.version (change e (EventType.program_arranged ∷ []) ∷ []) ∷ rest.acts;
    }

unfoldable pub program_node : RuntimeRow → BuiltinProgramNode → Assoc Value → ProgramAnswers → Reply
unfolding arrange_program
program_node row n supplied answers =
    elim (is_running row.run.status
      && is_some row.execution.program
      && not (has_result row.execution.program)) [
        | true ↦ reject "Program invocation is already in progress"
        | false ↦ elim (program_parameters answers.encoded_length n supplied) [
          | err reason ↦ reject reason
          | ok parameters ↦ arrange_program row parameters answers
        ]
      ]

abbrev pub runnable : Phase → Bool
runnable p = is_ready p || is_working p || is_settling p

unfoldable pub program_owned : RuntimeRow → Assoc Value → ProgramAnswers → Reply
unfolding program_node
program_owned row supplied answers = elim (current_node row.run) [
  | some (builtin_program n) ↦ elim (runnable row.execution.phase) [
    | true ↦ program_node row n supplied answers
    | false ↦ reject "current execution is not a runnable Program"
  ]
  | _ ↦ reject "current execution is not a runnable Program"
]

-- The reply of a whole invocation: its arrangement, the run of the program, and its result.
unfoldable pub handle_run_program :
    Option RuntimeRow → String → Assoc Value → (caller : String) → ProgramAnswers → Reply
unfolding program_owned
handle_run_program none token supplied caller answers =
    reject "node_run_program requires the current Node/token"
handle_run_program (some row) token supplied caller answers =
    elim ((is_running row.run.status || is_blocked row.run.status)
      && row.execution.node_token == token) [
        | false ↦ reject "node_run_program requires the current Node/token"
        | true ↦ elim (caller == row.run.manager_session_id) [
          | false ↦ reject "node_run_program is Manager-only"
          | true ↦ program_owned row supplied answers
        ]
      ]
