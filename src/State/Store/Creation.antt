-- ===== src/State/Store/Creation.antt =====
-- A workspace has one active run.
use dsh_workflow_plugin.Prelude.{
  String, true, false, some, List, ◌∷◌, ok, EachOk, ◌≡◌, ◌≢◌, returned->>=, sym, subst, arith,
  eq_refl, Bool-cases, Result-cases, inl, inr,
}
use dsh_workflow_plugin.Types.Execution.{NodeExecution}
use dsh_workflow_plugin.Types.Run.{RunState, is_running}
use dsh_workflow_plugin.State.Invariants.{Definitions, check_state_invariants}
use dsh_workflow_plugin.State.Store.{
  DeepEqual, Database, RunRow, latest_in, latest, first_row, create_change, is_over, no_problems,
}
use dsh_workflow_plugin.State.Store.Transactions.{
  decode, write_execution, assert_current, admit_create, admit_run, create_row,
}
use dsh_workflow_plugin.State.Store.Versions.{current-decode, write_execution-runs}

running_not_over : (run : RunState) → is_running run.status ≡ true → is_over run ≡ false
running_not_over run h = ground (arith, h)

latest_first :
    (key : String) (run : RunState) (rows : List RunRow)
    → latest_in key (first_row key run ∷ rows) ≡ some (first_row key run)
unfolding latest_in
latest_first key run rows = ground (arith, eq_refl key)

module _ (defs : Definitions) (deep : DeepEqual) where
  admit_run-running :
      (db : Database) (key : String) (run : RunState) (e : NodeExecution)
      → admit_run defs deep db key run e ≡ ok tt
      → is_running run.status ≡ true
  unfolding admit_run
  admit_run-running db key run e h = elim (Bool-cases (is_running run.status)) [
    | inl running_there ↦ running_there
    | inr not_running ↦ elim (Result-cases (admit_create defs deep db (latest db key))) [
      | inl (_, created) ↦ elim (Bool-cases (no_problems (check_state_invariants defs run e))) [
        | inl valid ↦ ground (arith, not_running, created, valid, h)
        | inr corrupt ↦ ground (arith, corrupt, created, h)
      ]
      | inr (_, refused) ↦ ground (arith, refused, h)
    ]
  ]

  -- No run is admitted beside one that reads back and is not over.
  admit_run-active :
      (db : Database) (key : String) (row : RunRow) (run other : RunState) (e : NodeExecution)
      → latest db key ≡ some row
      → decode defs deep db row ≡ ok run
      → is_over run ≡ false
      → admit_run defs deep db key other e ≢ ok tt
  unfolding admit_run admit_create
  admit_run-active db key row run other e there read active h =
      ground (arith, there, read, active, h)

  pub Created : Database → String → RunState → Database → Type 0
  Created db key run db' =
      (latest db' key ≡ some (first_row key run))
      × (decode defs deep db' (first_row key run) ≡ ok run)
      × (is_over run ≡ false)

  create_row-EachCreated :
      (db : Database) (key : String) (run : RunState) (e : NodeExecution)
      → EachOk (Created db key run) (create_row defs deep db key run e)
  unfolding create_row Created
  create_row-EachCreated db key run e = elim (Result-cases (admit_run defs deep db key run e)) [
    | inl (_, admitted) ↦
        let first = record db { runs = first_row key run ∷ db.runs } in
        elim (Result-cases (write_execution defs deep run (create_change e) first)) [
          | inl (written, wrote) ↦ elim (Result-cases (assert_current defs deep run written)) [
            | inl (_, current) ↦
                let kept =
                  subst (EachOk (λ db'. db'.runs ≡ first.runs)) wrote
                    (write_execution-runs defs deep run (create_change e) first) in
                rw (admitted, wrote, current)
                  (
                    subst (λ rows. latest_in key rows ≡ some (first_row key run)) (sym kept)
                        (latest_first key run db.runs),
                    current-decode defs deep run written written.runs (first_row key run) 1 current,
                    running_not_over run (admit_run-running db key run e admitted),
                  )
            | inr (_, refused) ↦ rw (admitted, wrote, refused) tt
          ]
          | inr (_, refused) ↦ rw (admitted, refused) tt
        ]
    | inr (_, refused) ↦ rw (refused) tt
  ]

  -- Where `create_row` returns, the newest row of the workspace is at version 1 and holds the run,
  -- which is not over and reads back valid with its first execution. No further run can be created
  -- in the workspace then, whatever it is: a workspace has one active run.
  pub create_row-once :
      (db : Database) (key : String) (run : RunState) (e : NodeExecution) (db' : Database)
      (other : RunState) (e' : NodeExecution) (db'' : Database)
      → create_row defs deep db key run e ≡ ok db'
      → Created db key run db' × (create_row defs deep db' key other e' ≢ ok db'')
  unfolding Created create_row
  create_row-once db key run e db' other e' db'' h =
      let first = subst (EachOk (Created db key run)) h (create_row-EachCreated db key run e) in
      (
        first,
        λ again.
            let admitted = returned->>= (admit_run defs deep db' key other e') _ again in
            admit_run-active db' key (first_row key run) run other e' first.0 first.1 first.2
              admitted.1,
      )
