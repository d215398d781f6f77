-- ===== src/Engine/Block.antt =====
-- src/engine/engine.ts: `blockRow`.
use dsh_workflow_plugin.Prelude.{Text, some, List, [], ◌∷◌, ◌++◌}
use dsh_workflow_plugin.Types.Execution.{NodeExecution, EventType}
use dsh_workflow_plugin.Types.Run.{blocked}
use dsh_workflow_plugin.Engine.Base.{RuntimeRow, Act, put, notify_block, change, block_reason}

-- The run waits for the Manager; the execution keeps all its material.
pub blocked_execution : NodeExecution → Text → NodeExecution
blocked_execution e reason = record e { block_reason = some (block_reason reason) }

unfoldable pub block_row : RuntimeRow → Text → List EventType → List Act
unfolding blocked_execution
block_row row reason before =
    let e = blocked_execution row.execution reason in
    put (record row.run { status = blocked }) row.version
      (change e (before ++ EventType.blocked ∷ []) ∷ [])
    ∷ notify_block e (block_reason reason)
    ∷ []
