-- ===== src/Engine/Manager/Reconciled.antt =====
-- What a restart of the host leaves: every active run waits for the Manager, and once is enough.
use dsh_workflow_plugin.Prelude.{suc, true, false, ◌||◌, List, [], ◌∷◌, map, ◌≡◌, ◌⊎◌}
use dsh_workflow_plugin.Types.Run.{is_running, is_completed, is_terminated}
use dsh_workflow_plugin.Engine.Base.{RuntimeRow}
use dsh_workflow_plugin.Engine.Manager.Ending.{handle_restart_reconcile}
use dsh_workflow_plugin.Engine.Manager.Final.{written_row}

-- Each row after what the reconciliation writes for it.
pub reconciled : List RuntimeRow → List RuntimeRow
reconciled = map (λ row. written_row row (handle_restart_reconcile (row ∷ [])))

-- The run has stopped and waits for the Manager, with all the material of its execution.
pub record IsInterrupted (before after : RuntimeRow) : Type 0 where
  pub pending : after.execution.restart_pending ≡ true
  pub stopped : is_running after.run.status ≡ false
  pub next : after.version ≡ suc before.version
  pub kept :
      (record after.execution {
        restart_pending = before.execution.restart_pending;
        block_reason = before.execution.block_reason;
      })
      ≡ before.execution
  pub same_run : (record after.run { status = before.run.status }) ≡ before.run

-- The run is over, or was interrupted before.
abbrev IsPassed : RuntimeRow → Type 0
IsPassed row =
    (is_completed row.run.status || is_terminated row.run.status || row.execution.restart_pending)
    ≡ true

abbrev IsReconciled : RuntimeRow → RuntimeRow → Type 0
IsReconciled before after = (IsPassed before × (after ≡ before)) ⊎ IsInterrupted before after

abbrev pub EachReconciled : List RuntimeRow → List RuntimeRow → Type 0
EachReconciled [] [] = Unit {0}
EachReconciled (r ∷ rows) (s ∷ others) = IsReconciled r s × EachReconciled rows others
EachReconciled [] (s ∷ others) = ⊥
EachReconciled (r ∷ rows) [] = ⊥
