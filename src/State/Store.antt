-- ===== src/State/Store.antt =====
-- src/state/store.ts: `createRow` and `updateRow`, one transaction each. A database is its tables; a
-- transaction is a function to a new database, and an error leaves the old one. The columns that repeat
-- a part of a snapshot are left out.
pub mod Transactions
pub mod Versions
pub mod Frozen
pub mod Creation
use dsh_workflow_plugin.Prelude.{
  ℕ, zero, suc, ◌+◌, String, Text, text_eq, Bool, true, false, ◌&&◌, ◌||◌, not, ◌==◌, nat_eq, leb,
  if◌then◌else◌, opt_eq, is_some, is_none, or_else, Option, none, some, opt_bind, opt_map, List, [],
  ◌∷◌, ◌++◌, map, length, any_of, Assoc, lookup, trim, is_empty, codes, Result, ok, err, ◌>>=◌,
  ◌>>◌, throw_if,
}
use dsh_workflow_plugin.Prelude
use dsh_workflow_plugin.Types.Routes.{route_eq}
use dsh_workflow_plugin.Types.Graph.{WorkflowConfig}
use dsh_workflow_plugin.Types.Execution.{
  NodeExecution, ExecutionJudge, EventType, entered, NodeExecutionEvent, ExecutionChange,
}
use dsh_workflow_plugin.Types.Run.{RunState, is_running, is_completed, is_terminated}
use dsh_workflow_plugin.State.Tests.{is_ready, is_exited}
use dsh_workflow_plugin.State.Invariants.{
  Definitions, check_execution_invariants, check_run_invariants, check_state_invariants,
  has_duplicate,
}

-- `isDeepStrictEqual` of Node, on the two types on which the store calls it for whole objects.
pub record DeepEqual : Type 0 where
  pub same_config : WorkflowConfig → WorkflowConfig → Bool
  pub same_execution : NodeExecution → NodeExecution → Bool

-- A row of `runs`.
pub record RunRow : Type 0 where
  pub workspace_key : String
  pub state_version : ℕ
  pub run : RunState

-- The three tables; `runs` has the newest row first.
pub record Database : Type 0 where
  pub runs : List RunRow
  pub executions : Assoc NodeExecution
  pub events : List NodeExecutionEvent

unfoldable pub latest_in : String → List RunRow → Option RunRow
latest_in key [] = none
latest_in key (row ∷ rows) = elim (row.workspace_key == key) [
  | true ↦ some row
  | false ↦ latest_in key rows
]

abbrev pub latest : Database → String → Option RunRow
latest db key = latest_in key db.runs

abbrev pub no_problems : List String → Bool
no_problems [] = true
no_problems (p ∷ ps) = false

-- `assertValid`.
abbrev pub assert_valid : List String → Result (Unit {0})
assert_valid problems = throw_if (not (no_problems problems)) "corrupt or invalid state"

-- The row of an execution, in this run.
unfoldable pub execution_row : Database → RunState → String → Option NodeExecution
execution_row db run id =
    opt_bind (lookup id db.executions)
      (λ e. elim (e.run_id == run.run_id) [ true ↦ some e | false ↦ none ])

pub settle : ExecutionJudge → ExecutionJudge
settle j = record j { settled = true }

-- All that may change in an execution that has left.
pub receipt : NodeExecution → NodeExecution
unfolding settle
receipt e = record e { judge = opt_map settle e.judge }

abbrev pub is_entered : EventType → Bool
is_entered entered = true
is_entered _ = false

abbrev pub no_events : List EventType → Bool
no_events [] = true
no_events (t ∷ ts) = false

pub keeps_identity : NodeExecution → NodeExecution → Bool
keeps_identity existing e =
    existing.execution_id == e.execution_id
    && existing.run_id == e.run_id
    && existing.workflow_id == e.workflow_id
    && existing.node_id == e.node_id
    && nat_eq existing.visit e.visit
    && text_eq existing.input e.input
    && existing.entered_at == e.entered_at
    && opt_eq ◌==◌ existing.predecessor_id e.predecessor_id

pub admit_new : Option NodeExecution → NodeExecution → List EventType → Result (Unit {0})
admit_new existing e events =
    throw_if (is_some existing || not (nat_eq e.revision 0) || not (any_of is_entered events))
      "new execution requires revision 0 and entered event"

abbrev pub saved_execution : ExecutionChange → NodeExecution
saved_execution change = record change.execution {
  revision = suc (or_else change.expected_revision 0);
}

same_visit : NodeExecution → String × NodeExecution → Bool
same_visit e (id, other) = other.run_id == e.run_id && nat_eq other.visit e.visit

-- The keys of the table: the id, and the visit within a run.
pub insert_ok : Database → ExecutionChange → Bool
unfolding same_visit
insert_ok db change =
    is_some change.expected_revision
    || (is_none (lookup change.execution.execution_id db.executions)
        && not (any_of (same_visit change.execution) db.executions))

number_events : ℕ → NodeExecution → List EventType → List NodeExecutionEvent
number_events n e [] = []
number_events n e (t ∷ ts) =
    record { execution_id = e.execution_id; sequence = suc n; type = t; snapshot = e }
    ∷ number_events (suc n) e ts

-- `COALESCE(MAX(sequence), 0)` of the events of the execution.
last_sequence : String → List NodeExecutionEvent → ℕ
last_sequence id [] = 0
last_sequence id (event ∷ events) =
    let rest = last_sequence id events in
    if event.execution_id == id && leb rest event.sequence then event.sequence else rest

pub save_execution : Database → NodeExecution → List EventType → Database
unfolding number_events last_sequence
save_execution db e types = record db {
  executions = Prelude.put e.execution_id e db.executions;
  events = db.events ++ number_events (last_sequence e.execution_id db.events) e types;
}

-- The row of the run at the next version.
unfoldable pub bump : String → RunState → List RunRow → List RunRow
bump key run [] = []
bump key run (row ∷ rows) =
    let rest = bump key run rows in
    elim (row.workspace_key == key) [
      | true ↦ record row { state_version = suc row.state_version; run = run } ∷ rows
      | false ↦ row ∷ rest
    ]

abbrev pub is_over : RunState → Bool
is_over run = is_completed run.status || is_terminated run.status

pub create_change : NodeExecution → ExecutionChange
create_change e = record { execution = e; expected_revision = none; events = entered ∷ [] }

abbrev pub first_row : String → RunState → RunRow
first_row key run = record { workspace_key = key; state_version = 1; run = run }
