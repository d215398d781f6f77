-- ===== src/State/Store/Versions.antt =====
-- An update is made once for each version, and what it writes reads back.
use dsh_workflow_plugin.Prelude.{
  ℕ, suc, String, ◌==◌, nat_eq, Option, some, opt_map, List, [], ◌∷◌, ok, EachOk, EachOk->>=, ◌≡◌,
  ◌≢◌, refl, sym, subst, ◌∙◌, arith, Bool-cases, Option-cases, Result-cases, inl, inr,
}
use mathlib.Core.Path.{ap}
use dsh_workflow_plugin.Types.Execution.{ExecutionChange}
use dsh_workflow_plugin.Types.Run.{RunState}
use dsh_workflow_plugin.State.Invariants.{Definitions, check_state_invariants}
use dsh_workflow_plugin.State.Store.{
  DeepEqual, RunRow, Database, latest_in, latest, execution_row, bump, save_execution, no_problems,
}
use dsh_workflow_plugin.State.Store.Transactions.{
  decode, write_execution, write_all, assert_current, update_latest, update_row, admit_write,
  admit_update,
}

row_version : RunRow → ℕ
row_version row = row.state_version

-- A row is at one version.
one_version :
    (o : Option RunRow) (r s : RunRow) (n : ℕ)
    → o ≡ some r
    → r.state_version ≡ suc n
    → o ≡ some s
    → s.state_version ≡ n
    → ⊥
unfolding row_version
one_version o r s n hr vr hs vs =
    let same = ap (opt_map row_version) (sym hr ∙ hs) in ground (arith, same, vr, vs)

latest-bump :
    (key : String) (run : RunState) (rows : List RunRow) (row : RunRow)
    → latest_in key rows ≡ some row
    → latest_in key (bump key run rows)
      ≡ some (record row { state_version = suc row.state_version; run = run })
unfolding latest_in bump
latest-bump key run [] row h = cc
latest-bump key run (r ∷ rows) row h = elim (Bool-cases (r.workspace_key == key)) [
  | inl same ↦ ground (arith, same, h)
  | inr other ↦ ground (arith, other, h, latest-bump key run rows row)
]

module _ (defs : Definitions) (deep : DeepEqual) where
  pub write_execution-runs :
      (run : RunState) (change : ExecutionChange) (db : Database)
      → EachOk (λ db'. db'.runs ≡ db.runs) (write_execution defs deep run change db)
  unfolding write_execution save_execution
  write_execution-runs run change db = elim (Result-cases (admit_write defs deep run change db)) [
    | inl (_, admitted) ↦ rw (admitted) refl
    | inr (_, refused) ↦ rw (refused) tt
  ]

  write_all-runs :
      (run : RunState) (changes : List ExecutionChange) (db : Database)
      → EachOk (λ db'. db'.runs ≡ db.runs) (write_all defs deep run changes db)
  unfolding write_all
  write_all-runs run [] db = refl
  write_all-runs run (change ∷ changes) db =
      EachOk->>= (λ db1. db1.runs ≡ db.runs) (λ db2. db2.runs ≡ db.runs)
        (write_execution defs deep run change db) (write_all defs deep run changes)
        (write_execution-runs run change db)
        (λ db1 h.
          subst (λ rows. EachOk (λ db2. db2.runs ≡ rows) (write_all defs deep run changes db1)) h
            (write_all-runs run changes db1))

  -- The version that an update is admitted on is that of the row.
  admitted_version :
      (db : Database) (row : RunRow) (run : RunState) (expected : ℕ)
      (changes : List ExecutionChange)
      → admit_update defs deep db row run expected changes ≡ ok tt
      → row.state_version ≡ expected
  unfolding admit_update
  admitted_version db row run expected changes h = elim (Result-cases (decode defs deep db row)) [
    | inl (current, read) ↦ elim (Bool-cases (nat_eq row.state_version expected)) [
      | inl same ↦ ground (arith, same, read, h)
      | inr other ↦ ground (arith, other, read, h)
    ]
    | inr (_, refused) ↦ ground (arith, refused, h)
  ]

  -- A run that is written reads back, whatever the other rows.
  pub current-decode :
      (run : RunState) (written : Database) (rows : List RunRow) (row : RunRow) (version : ℕ)
      → assert_current defs deep run written ≡ ok tt
      → decode defs deep
          (record written { runs = rows })
          (record row { state_version = version; run = run })
        ≡ ok run
  unfolding assert_current decode execution_row
  current-decode run written rows row version h =
      elim (Option-cases (execution_row written run run.current_execution_id)) [
        | inl missing ↦ ground (arith, missing, h)
        | inr (e, there) ↦ elim (Bool-cases (no_problems (check_state_invariants defs run e))) [
          | inl valid ↦ ground (arith, there, valid, h)
          | inr corrupt ↦ ground (arith, there, corrupt, h)
        ]
      ]

  -- The row is at the version that was expected, the next version holds the run, and the run reads back.
  pub Bumped : Database → String → RunState → ℕ → Database → Type 0
  Bumped db key run expected db' =
      (row : RunRow) × (latest db key ≡ some row)
      × (row.state_version ≡ expected)
      × (latest db' key ≡ some (record row { state_version = suc expected; run = run }))
      × (decode defs deep db' (record row { state_version = suc expected; run = run }) ≡ ok run)

  update_latest-Bumped :
      (db : Database) (key : String) (row : RunRow) (run : RunState) (expected : ℕ)
      (changes : List ExecutionChange)
      → latest db key ≡ some row
      → EachOk
          (Bumped db key run expected)
          (update_latest defs deep db key row run expected changes)
  unfolding update_latest Bumped
  update_latest-Bumped db key row run expected changes h =
      elim (Result-cases (admit_update defs deep db row run expected changes)) [
        | inl (_, admitted) ↦ elim (Result-cases (write_all defs deep run changes db)) [
          | inl (written, all) ↦ elim (Result-cases (assert_current defs deep run written)) [
            | inl (_, current) ↦
                let kept =
                  subst (EachOk (λ db'. db'.runs ≡ db.runs)) all (write_all-runs run changes db) in
                let version = admitted_version db row run expected changes admitted in
                rw (admitted, all, current)
                  (
                    row,
                    h,
                    version,
                    rw (kept, sym version) (latest-bump key run db.runs row h),
                    current-decode run written (bump key run written.runs) row (suc expected)
                        current,
                  )
            | inr (_, refused) ↦ rw (admitted, all, refused) tt
          ]
          | inr (_, refused) ↦ rw (admitted, refused) tt
        ]
        | inr (_, refused) ↦ rw (refused) tt
      ]

  update_row-Bumped :
      (db : Database) (key : String) (run : RunState) (expected : ℕ)
      (changes : List ExecutionChange)
      → EachOk (Bumped db key run expected) (update_row defs deep db key run expected changes)
  unfolding update_row
  update_row-Bumped db key run expected changes = elim (Option-cases (latest db key)) [
    | inl none_there ↦ rw (none_there, EachOk) tt
    | inr (row, there) ↦
        rw (there, EachOk) (update_latest-Bumped db key row run expected changes there)
  ]

  -- Where `update_row` returns, the workspace had a row at the version expected; after it, the row
  -- is at the next version and holds the run written, and reading it gives this run back, valid
  -- with its current execution. No further update that expects the same version returns, whatever
  -- it writes: of two handlers that have read one version, one at most writes.
  pub update_row-once :
      (db : Database) (key : String) (run : RunState) (expected : ℕ)
      (changes : List ExecutionChange) (db' : Database) (other : RunState)
      (others : List ExecutionChange) (db'' : Database)
      → update_row defs deep db key run expected changes ≡ ok db'
      → Bumped db key run expected db'
        × (update_row defs deep db' key other expected others ≢ ok db'')
  unfolding Bumped
  update_row-once db key run expected changes db' other others db'' h =
      let first =
        subst (EachOk (Bumped db key run expected)) h
          (update_row-Bumped db key run expected changes) in
      (
        first,
        λ again.
            let second =
              subst (EachOk (Bumped db' key other expected)) again
                (update_row-Bumped db' key other expected others) in
            one_version (latest db' key)
              (record first.0 { state_version = suc expected; run = run }) second.0 expected first.3
              refl second.1 second.2,
      )
