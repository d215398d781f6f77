-- ===== src/Engine/Manager/Ending.antt =====
-- src/engine/engine.ts: `handleReset` and `handleRestartReconcile`.
use dsh_workflow_plugin.Prelude.{
  ℕ, String, Text, codes, Bool, true, false, ◌||◌, Option, none, some, List, [], ◌∷◌, ◌++◌,
}
use dsh_workflow_plugin.Types.Execution.{NodeExecution, EventType}
use dsh_workflow_plugin.Types.Run.{
  RunState, is_running, is_blocked, is_completed, is_terminated, terminated,
}
use dsh_workflow_plugin.Engine.Base.{
  RuntimeRow, EngineOutcome, Act, put, retire_judge, run_closed, Reply, reject, change, retoken_top,
}
use dsh_workflow_plugin.Engine.Block.{block_row}

abbrev terminated_reason : Text
terminated_reason = codes "terminated; external effects not cancelled"

-- A reset ends the run for good; a new token cuts off every session.
unfoldable pub terminated_run : RunState → String → RunState
terminated_run run token = record run {
  status = terminated;
  block_reason = some terminated_reason;
  call_stack = retoken_top token run.call_stack;
}

unfoldable pub terminated_execution : NodeExecution → String → NodeExecution
terminated_execution e token = record e {
  restart_pending = false;
  block_reason = some terminated_reason;
  node_token = token;
}

abbrev pub retires : NodeExecution → List Act
retires e = elim e.judge [ none ↦ [] | some j ↦ retire_judge j.session_id ∷ [] ]

unfoldable pub reset_row : RuntimeRow → (ℕ → String) → Reply
unfolding terminated_run terminated_execution
reset_row row fresh =
    let run = terminated_run row.run (fresh 0) in
    record {
      outcome = EngineOutcome.accepted (some run) "terminated; saved Run history retained";
      acts =
          put run row.version (
              change (terminated_execution row.execution (fresh 0)) (EventType.terminated ∷ [])
              ∷ [])
            ∷ retires row.execution
          ++ run_closed run ∷ [];
    }

unfoldable pub handle_reset : Option RuntimeRow → (root_session : Bool) → (ℕ → String) → Reply
unfolding reset_row
handle_reset row false fresh = reject "reset requires a root session"
handle_reset none true fresh = record {
  outcome = EngineOutcome.accepted none "no active run";
  acts = [];
}
handle_reset (some row) true fresh = elim (is_running row.run.status || is_blocked row.run.status) [
  | false ↦ reject "reset requires the current active Run"
  | true ↦ reset_row row fresh
]

unfoldable pub interrupted : NodeExecution → NodeExecution
interrupted e = record e { restart_pending = true }

unfoldable pub reconcile_row : RuntimeRow → List Act
unfolding interrupted
reconcile_row row = elim (is_running row.run.status) [
  | true ↦
      block_row (record row { execution = interrupted row.execution })
        (codes
          "host restarted; saved work retained; Manager resume must confirm the recovery target")
        (EventType.interrupted ∷ [])
  | false ↦
      put row.run row.version (change (interrupted row.execution) (EventType.interrupted ∷ []) ∷ [])
      ∷ []
]

-- Each row on its own; a failure of one is reported and passed over.
unfoldable pub handle_restart_reconcile : List RuntimeRow → List Act
unfolding reconcile_row
handle_restart_reconcile [] = []
handle_restart_reconcile (row ∷ rows) =
    (elim (is_completed row.run.status
      || is_terminated row.run.status
      || row.execution.restart_pending) [ true ↦ [] | false ↦ reconcile_row row ])
    ++ handle_restart_reconcile rows
