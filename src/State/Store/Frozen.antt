-- ===== src/State/Store/Frozen.antt =====
-- What a transaction leaves of an execution that was there.
use dsh_workflow_plugin.Prelude.{
  ℕ, suc, or_else, String, true, Option, none, some, opt_map, List, [], ◌∷◌, lookup, ok, EachOk,
  EachOk->>=, ◌≡◌, refl, sym, subst, ◌∙◌, arith, eq_iff, Bool-cases, Option-cases, Result-cases,
  inl, inr, lookup-put, ◌==◌, if◌then◌else◌,
}
use dsh_workflow_plugin.Types.Execution.{NodeExecution, ExecutionChange, ExecutionJudge, EventType}
use dsh_workflow_plugin.Types.Run.{RunState}
use dsh_workflow_plugin.State.Tests.{is_exited}
use dsh_workflow_plugin.State.Invariants.{Definitions}
use dsh_workflow_plugin.State.Store.{
  DeepEqual, Database, receipt, settle, admit_new, save_execution, saved_execution, execution_row,
  RunRow, latest,
}
use dsh_workflow_plugin.State.Store.Transactions.{
  admit_change, admit, valid_row, admit_write, write_execution, write_all, update_row,
  update_latest, admit_update, assert_current,
}

-- All that an execution carries, but for the revision and the receipt of its judge.
material : NodeExecution → NodeExecution
unfolding receipt
material e = record (receipt e) { revision = 0 }

same_string : (a b : String) → (a == b) ≡ true → a ≡ b
same_string a b h = ground (arith, h, eq_iff a b)

settled_twice : (j : Option ExecutionJudge) → opt_map settle (opt_map settle j) ≡ opt_map settle j
unfolding settle
settled_twice none = refl
settled_twice (some j) = refl

module _ (defs : Definitions) (deep : DeepEqual)
    (sound : (x y : NodeExecution) → deep.same_execution x y ≡ true → x ≡ y) where
  admit_change-receipt :
      (existing : NodeExecution) (expected : ℕ) (e : NodeExecution) (events : List EventType)
      → is_exited existing.phase ≡ true
      → admit_change defs deep existing expected e events ≡ ok tt
      → receipt existing ≡ e
  unfolding admit_change
  admit_change-receipt existing expected e events h admitted =
      elim (Bool-cases (deep.same_execution (receipt existing) e)) [
        | inl same ↦ sound (receipt existing) e same
        | inr other ↦ ground (arith, h, other, admitted)
      ]

  admit-receipt :
      (existing : NodeExecution) (change : ExecutionChange)
      → is_exited existing.phase ≡ true
      → admit defs deep (some existing) change ≡ ok tt
      → receipt existing ≡ change.execution
  unfolding admit admit_new
  admit-receipt existing change h admitted = elim (Option-cases change.expected_revision) [
    | inl new ↦ ground (arith, new, admitted)
    | inr (n, old) ↦
        elim (Result-cases (admit_change defs deep existing n change.execution change.events)) [
          | inl (_, good) ↦ admit_change-receipt existing n change.execution change.events h good
          | inr (_, bad) ↦ ground (arith, old, bad, admitted)
        ]
  ]

  admit_write-receipt :
      (run : RunState) (change : ExecutionChange) (db : Database) (x : NodeExecution)
      → execution_row db run change.execution.execution_id ≡ some x
      → is_exited x.phase ≡ true
      → admit_write defs deep run change db ≡ ok tt
      → receipt x ≡ change.execution
  unfolding admit_write valid_row
  admit_write-receipt run change db x there h admitted =
      elim (Result-cases (admit defs deep (some x) change)) [
        | inl (_, good) ↦ admit-receipt x change h good
        | inr (_, bad) ↦ ground (arith, there, bad, admitted)
      ]

  -- The execution is there, as it was but for the revision and the receipt.
  pub Frozen : RunState → String → NodeExecution → Database → Type 0
  Frozen run id x db =
      (y : NodeExecution) × (execution_row db run id ≡ some y)
      × (material y ≡ material x)
      × (is_exited y.phase ≡ true)

  receipt-material :
      (x y : NodeExecution) (revision : ℕ)
      → receipt x ≡ y
      → is_exited x.phase ≡ true
      → (material (record y { revision = revision }) ≡ material x) × (is_exited y.phase ≡ true)
  unfolding material receipt
  receipt-material x y revision h exited = (
    subst (λ z. material (record z { revision = revision }) ≡ material x) h
        (rw (settled_twice x.judge) refl),
    subst (λ z. is_exited z.phase ≡ true) h exited,
  )

  execution_row-save :
      (db : Database) (run : RunState) (id : String) (e : NodeExecution) (events : List EventType)
      → execution_row (save_execution db e events) run id ≡ (
          if e.execution_id == id
          then (if e.run_id == run.run_id then some e else none)
          else execution_row db run id)
  unfolding execution_row save_execution
  execution_row-save db run id e events =
      ground (arith, lookup-put e.execution_id id e db.executions)

  -- A row that the run reads is the run's own.
  execution_row-run_id :
      (db : Database) (run : RunState) (id : String) (y : NodeExecution)
      → execution_row db run id ≡ some y
      → (y.run_id == run.run_id) ≡ true
  unfolding execution_row
  execution_row-run_id db run id y h = elim (Option-cases (lookup id db.executions)) [
    | inl missing ↦ ground (arith, missing, h)
    | inr (e, there) ↦ elim (Bool-cases (e.run_id == run.run_id)) [
      | inl own ↦ ground (arith, there, own, h)
      | inr other ↦ ground (arith, there, other, h)
    ]
  ]

  write_execution-Frozen :
      (run : RunState) (id : String) (x : NodeExecution) (change : ExecutionChange) (db : Database)
      → Frozen run id x db
      → EachOk (Frozen run id x) (write_execution defs deep run change db)
  unfolding write_execution Frozen
  write_execution-Frozen run id x change db frozen =
      elim (Result-cases (admit_write defs deep run change db)) [
        | inl (_, admitted) ↦
            let (y, there, kept, exited) = frozen in
            let row = execution_row-save db run id (saved_execution change) change.events in
            elim (Bool-cases (change.execution.execution_id == id)) [
              | inl same ↦
                  let is_id = same_string change.execution.execution_id id same in
                  let here = subst (λ i. execution_row db run i ≡ some y) (sym is_id) there in
                  let written = admit_write-receipt run change db y here exited admitted in
                  let saved =
                    receipt-material y change.execution (suc (or_else change.expected_revision 0))
                      written exited in
                  let own =
                    subst (λ e. (e.run_id == run.run_id) ≡ true) written
                      (execution_row-run_id db run id y there) in
                  rw (admitted) (
                    saved_execution change,
                    row ∙ ground (arith, same, own),
                    saved.0 ∙ kept,
                    saved.1,
                  )
              | inr other ↦ rw (admitted) (y, row ∙ ground (arith, other, there), kept, exited)
            ]
        | inr (_, refused) ↦ rw (refused) tt
      ]

  write_all-Frozen :
      (run : RunState) (id : String) (x : NodeExecution) (changes : List ExecutionChange)
      (db : Database)
      → Frozen run id x db
      → EachOk (Frozen run id x) (write_all defs deep run changes db)
  unfolding write_all
  write_all-Frozen run id x [] db frozen = frozen
  write_all-Frozen run id x (change ∷ changes) db frozen =
      EachOk->>= (Frozen run id x) (Frozen run id x) (write_execution defs deep run change db)
        (write_all defs deep run changes) (write_execution-Frozen run id x change db frozen)
        (λ db1. write_all-Frozen run id x changes db1)

  update_latest-Frozen :
      (db : Database) (key : String) (row : RunRow) (run : RunState) (expected : ℕ)
      (changes : List ExecutionChange) (id : String) (x : NodeExecution)
      → Frozen run id x db
      → EachOk (Frozen run id x) (update_latest defs deep db key row run expected changes)
  unfolding update_latest Frozen execution_row
  update_latest-Frozen db key row run expected changes id x frozen =
      elim (Result-cases (admit_update defs deep db row run expected changes)) [
        | inl (_, admitted) ↦ elim (Result-cases (write_all defs deep run changes db)) [
          | inl (written, all) ↦ elim (Result-cases (assert_current defs deep run written)) [
            | inl (_, current) ↦
                rw (admitted, all, current)
                  (subst (EachOk (Frozen run id x)) all
                    (write_all-Frozen run id x changes db frozen))
            | inr (_, refused) ↦ rw (admitted, all, refused) tt
          ]
          | inr (_, refused) ↦ rw (admitted, refused) tt
        ]
        | inr (_, refused) ↦ rw (refused) tt
      ]

  update_row-EachFrozen :
      (db : Database) (key : String) (run : RunState) (expected : ℕ)
      (changes : List ExecutionChange) (id : String) (x : NodeExecution)
      → Frozen run id x db
      → EachOk (Frozen run id x) (update_row defs deep db key run expected changes)
  unfolding update_row
  update_row-EachFrozen db key run expected changes id x frozen =
      elim (Option-cases (latest db key)) [
        | inl missing ↦ rw (missing, EachOk) tt
        | inr (row, found) ↦
            rw (found, EachOk) (update_latest-Frozen db key row run expected changes id x frozen)
      ]

  -- Take an execution of the run that has left. Where `update_row` returns, whatever the changes,
  -- the execution is still there, has still left, and carries what it carried, but for its
  -- revision and for the receipt that its Judge has settled. What the deep comparison calls equal
  -- is taken to be equal.
  pub update_row-Frozen :
      (db : Database) (key : String) (run : RunState) (expected : ℕ)
      (changes : List ExecutionChange) (db' : Database) (id : String) (x : NodeExecution)
      → execution_row db run id ≡ some x
      → is_exited x.phase ≡ true
      → update_row defs deep db key run expected changes ≡ ok db'
      → Frozen run id x db'
  unfolding Frozen
  update_row-Frozen db key run expected changes db' id x there exited h =
      subst (EachOk (Frozen run id x)) h
        (update_row-EachFrozen db key run expected changes id x (x, there, refl, exited))
