-- ===== src/State/Store/Transactions.antt =====
-- `createRow`, `updateRow` and `writeExecution`: the tests in their order, and then the writes.
use dsh_workflow_plugin.Prelude.{
  ℕ, String, Bool, ◌&&◌, ◌||◌, not, ◌==◌, nat_eq, opt_eq, is_some, Option, none, some, List, [],
  ◌∷◌, map, any_of, trim, is_empty, codes, Result, ok, err, ◌>>=◌, ◌>>◌, throw_if,
}
use dsh_workflow_plugin.Types.Routes.{route_eq}
use dsh_workflow_plugin.Types.Execution.{NodeExecution, EventType, ExecutionChange}
use dsh_workflow_plugin.Types.Run.{RunState, is_running}
use dsh_workflow_plugin.State.Tests.{is_ready, is_exited}
use dsh_workflow_plugin.State.Invariants.{
  Definitions, check_execution_invariants, check_run_invariants, check_state_invariants,
  has_duplicate,
}
use dsh_workflow_plugin.State.Store.{
  DeepEqual, RunRow, Database, latest, assert_valid, execution_row, receipt, is_entered, no_events,
  keeps_identity, admit_new, saved_execution, insert_ok, save_execution, bump, is_over,
  create_change, first_row,
}

module _ (defs : Definitions) (deep : DeepEqual) where
  -- `readExecution` where it validates.
  unfoldable pub valid_row : RunState → Option NodeExecution → Result (Option NodeExecution)
  valid_row run none = ok none
  valid_row run (some e) = do
    assert_valid (check_execution_invariants defs.formats run e)
    ok (some e)

  -- `decode`.
  unfoldable pub decode : Database → RunRow → Result RunState
  decode db row = elim (execution_row db row.run row.run.current_execution_id) [
    | none ↦ err "corrupt run: current execution is missing"
    | some e ↦ assert_valid (check_state_invariants defs row.run e) >> ok row.run
  ]

  -- The tests on a change of an execution that is there.
  unfoldable pub admit_change :
      NodeExecution → ℕ → NodeExecution → List EventType → Result (Unit {0})
  unfolding keeps_identity receipt
  admit_change existing expected e events = do
    throw_if (not (nat_eq existing.revision expected) || not (nat_eq e.revision expected))
        "state version mismatch"
    throw_if
        (is_exited existing.phase
          && (not (deep.same_execution (receipt existing) e) || not (no_events events)))
        "exited execution materials are immutable"
    throw_if (not (keeps_identity existing e)) "execution identity is immutable"
    throw_if (any_of is_entered events) "entered event is only valid for new execution"

  unfoldable pub admit : Option NodeExecution → ExecutionChange → Result (Unit {0})
  unfolding admit_new admit_change
  admit existing change = elim change.expected_revision [
    | none ↦ admit_new existing change.execution change.events
    | some expected ↦ elim existing [
      | none ↦ err "state version mismatch"
      | some e ↦ admit_change e expected change.execution change.events
    ]
  ]

  -- The tests of `writeExecution`, the constraints of the table last.
  unfoldable pub admit_write : RunState → ExecutionChange → Database → Result (Unit {0})
  unfolding valid_row admit insert_ok
  admit_write run change db = do
    assert_valid (check_execution_invariants defs.formats run change.execution)
    existing ← valid_row run (execution_row db run change.execution.execution_id)
    admit existing change
    throw_if (not (insert_ok db change)) "constraint failed"

  unfoldable pub write_execution : RunState → ExecutionChange → Database → Result Database
  unfolding admit_write save_execution
  write_execution run change db = do
    admit_write run change db
    ok (save_execution db (saved_execution change) change.events)

  unfoldable pub write_all : RunState → List ExecutionChange → Database → Result Database
  unfolding write_execution
  write_all run [] db = ok db
  write_all run (change ∷ changes) db = write_execution run change db >>= write_all run changes

  -- What the whole transaction writes must be valid with the execution that the run points to.
  unfoldable pub assert_current : RunState → Database → Result (Unit {0})
  assert_current run db = elim (execution_row db run run.current_execution_id) [
    | none ↦ err "current execution is missing"
    | some e ↦ assert_valid (check_state_invariants defs run e)
  ]

  keeps_run : RunState → RunState → Bool
  keeps_run old new =
      old.run_id == new.run_id
      && old.manager_session_id == new.manager_session_id
      && old.catalog_workflow_id == new.catalog_workflow_id
      && old.definition_hash == new.definition_hash
      && deep.same_config old.definition_snapshot new.definition_snapshot
      && opt_eq route_eq old.delegation_route new.delegation_route

  -- The tests of `updateRow` before it writes.
  unfoldable pub admit_update :
      Database → RunRow → RunState → ℕ → List ExecutionChange → Result (Unit {0})
  unfolding decode keeps_run
  admit_update db row run expected changes = do
    current ← decode db row
    throw_if (not (nat_eq row.state_version expected)) "state version mismatch"
    throw_if (is_over current) "run is immutable"
    throw_if (not (keeps_run current run)) "run identity is immutable"
    assert_valid (check_run_invariants defs run)
    throw_if (has_duplicate (map (λ c. c.execution.execution_id) changes))
        "duplicate execution change"

  unfoldable pub update_latest :
      Database → String → RunRow → RunState → ℕ → List ExecutionChange → Result Database
  unfolding admit_update write_all assert_current bump
  update_latest db key row run expected changes = do
    admit_update db row run expected changes
    written ← write_all run changes db
    assert_current run written
    ok (record written { runs = bump key run written.runs })

  unfoldable pub update_row :
      Database → String → RunState → ℕ → List ExecutionChange → Result Database
  unfolding update_latest
  update_row db key run expected changes = elim (latest db key) [
    | none ↦ err "no state row"
    | some row ↦ update_latest db key row run expected changes
  ]

  -- A workspace has one active run at most.
  unfoldable pub admit_create : Database → Option RunRow → Result (Unit {0})
  unfolding decode
  admit_create db none = ok tt
  admit_create db (some row) = do
    current ← decode db row
    throw_if (not (is_over current)) "workspace already has an active run"

  -- The tests of `createRow` before it writes.
  unfoldable pub admit_run : Database → String → RunState → NodeExecution → Result (Unit {0})
  unfolding admit_create
  admit_run db key run e = do
    throw_if (is_empty (trim (codes key))) "workspace key is required"
    admit_create db (latest db key)
    assert_valid (check_state_invariants defs run e)
    throw_if
        (not (nat_eq e.revision 0)
          || not (is_ready e.phase)
          || is_some e.predecessor_id
          || not (is_running run.status))
        "new run requires a ready revision"
    throw_if (any_of (λ row. row.run.run_id == run.run_id) db.runs) "constraint failed"

  unfoldable pub create_row : Database → String → RunState → NodeExecution → Result Database
  unfolding admit_run write_execution create_change assert_current
  create_row db key run e = do
    admit_run db key run e
    written ←
        write_execution run (create_change e) (record db { runs = first_row key run ∷ db.runs })
    assert_current run written
    ok written
