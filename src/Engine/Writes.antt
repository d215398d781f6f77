-- ===== src/Engine/Writes.antt =====
-- What holds of every write among the acts of a handler.
use dsh_workflow_plugin.Prelude.{
  Text, String, Bool, Option, none, some, List, [], ◌∷◌, ◌++◌, ◌≡◌, refl,
}
use dsh_workflow_plugin.Types.Execution.{NodeExecution, ExecutionChange, EventType}
use dsh_workflow_plugin.Types.Run.{RunState, blocked}
use dsh_workflow_plugin.Types.Graph.{NodeDef, actor_task, builtin_program, child_workflow}
use dsh_workflow_plugin.State.Tests.{node_in, workflow_def, has_actor_materials, has_current}
use dsh_workflow_plugin.State.Checks.{
  position_problems, kind_problems, exit_problems, binding_problems, judgment_problems,
  resolution_problems, phase_problems,
}
use dsh_workflow_plugin.State.Valid.{IsConsistent}
use dsh_workflow_plugin.Engine.Base.{
  RuntimeRow, Act, put, notify_terminal, notify_node_event, notify_block, retire_judge, drain_judge,
  drain_role_actor, forget_dispatch, run_closed, drive, change, block_reason,
}
use dsh_workflow_plugin.Engine.Block.{blocked_execution, block_row}

module _ (P : RunState → NodeExecution → Type 0) where
  abbrev pub EachChange : RunState → List ExecutionChange → Type 0
  EachChange run [] = Unit {0}
  EachChange run (c ∷ cs) = P run c.execution × EachChange run cs

  -- Every execution that an act writes satisfies `P` with the run that is written.
  abbrev pub EachWrite : List Act → Type 0
  EachWrite [] = Unit {0}
  EachWrite (put run version changes ∷ acts) = EachChange run changes × EachWrite acts
  EachWrite (notify_terminal run e handoff ∷ acts) = EachWrite acts
  EachWrite (notify_node_event run e ∷ acts) = EachWrite acts
  EachWrite (notify_block e reason ∷ acts) = EachWrite acts
  EachWrite (retire_judge id ∷ acts) = EachWrite acts
  EachWrite (drain_judge id ∷ acts) = EachWrite acts
  EachWrite (drain_role_actor role ∷ acts) = EachWrite acts
  EachWrite (forget_dispatch session id ∷ acts) = EachWrite acts
  EachWrite (run_closed run ∷ acts) = EachWrite acts
  EachWrite (drive ∷ acts) = EachWrite acts

  pub EachWrite-append : (xs ys : List Act) → EachWrite xs → EachWrite ys → EachWrite (xs ++ ys)
  EachWrite-append [] ys hx hy = hy
  EachWrite-append (put run version changes ∷ xs) ys hx hy = (hx.0, EachWrite-append xs ys hx.1 hy)
  EachWrite-append (notify_terminal run e handoff ∷ xs) ys hx hy = EachWrite-append xs ys hx hy
  EachWrite-append (notify_node_event run e ∷ xs) ys hx hy = EachWrite-append xs ys hx hy
  EachWrite-append (notify_block e reason ∷ xs) ys hx hy = EachWrite-append xs ys hx hy
  EachWrite-append (retire_judge id ∷ xs) ys hx hy = EachWrite-append xs ys hx hy
  EachWrite-append (drain_judge id ∷ xs) ys hx hy = EachWrite-append xs ys hx hy
  EachWrite-append (drain_role_actor role ∷ xs) ys hx hy = EachWrite-append xs ys hx hy
  EachWrite-append (forget_dispatch session id ∷ xs) ys hx hy = EachWrite-append xs ys hx hy
  EachWrite-append (run_closed run ∷ xs) ys hx hy = EachWrite-append xs ys hx hy
  EachWrite-append (drive ∷ xs) ys hx hy = EachWrite-append xs ys hx hy

-- The row is consistent: the material of its execution fits.
abbrev pub IsConsistentRow : RuntimeRow → Type 0
IsConsistentRow row = IsConsistent row.run row.execution

module _ (run run' : RunState) (id : run'.run_id ≡ run.run_id)
    (root : run'.catalog_workflow_id ≡ run.catalog_workflow_id)
    (snapshot : run'.definition_snapshot ≡ run.definition_snapshot) where
  pub same_workflow_def : (w : String) → workflow_def run' w ≡ workflow_def run w
  unfolding workflow_def
  same_workflow_def w = rw (root, snapshot)

  pub same_node_in : (w n : String) → node_in run' w n ≡ node_in run w n
  unfolding node_in
  same_node_in w n = rw (same_workflow_def w)

  -- The checks of an execution read the run's id and its frozen definition.
  pub IsConsistent-same_run : (e : NodeExecution) → IsConsistent run e → IsConsistent run' e
  IsConsistent-same_run e v = record {
    position = rw (same_node_in e.workflow_id e.node_id, id) v.position;
    kind = rw (same_node_in e.workflow_id e.node_id) v.kind;
    exit = rw (same_node_in e.workflow_id e.node_id, same_workflow_def e.workflow_id) v.exit;
    binding = v.binding;
    judgment = v.judgment;
    resolution = v.resolution;
    phase = v.phase;
  }

-- The parts of an execution that no check between its materials reads.
unfoldable pub touch : NodeExecution → String → Bool → Bool → Bool → Option Text → NodeExecution
touch e token restart prepared retried reason = record e {
  node_token = token;
  restart_pending = restart;
  role_boundary_prepared = prepared;
  judge_auto_retried = retried;
  block_reason = reason;
}

module _ (e : NodeExecution) (token : String) (restart prepared retried : Bool)
    (reason : Option Text) where
  touch_kind :
      (n : Option NodeDef)
      → kind_problems n e ≡ []
      → kind_problems n (touch e token restart prepared retried reason) ≡ []
  unfolding kind_problems touch has_actor_materials
  touch_kind (some (builtin_program n)) h = h
  touch_kind (some (child_workflow n)) h = h
  touch_kind (some (actor_task n)) h = h
  touch_kind none h = h

  pub touch-IsConsistent :
      (run : RunState)
      → IsConsistent run e
      → IsConsistent run (touch e token restart prepared retried reason)
  unfolding touch position_problems exit_problems binding_problems judgment_problems
      resolution_problems phase_problems has_current
  touch-IsConsistent run v = record {
    position = v.position;
    kind = touch_kind (node_in run e.workflow_id e.node_id) v.kind;
    exit = v.exit;
    binding = v.binding;
    judgment = v.judgment;
    resolution = v.resolution;
    phase = v.phase;
  }

-- A block writes the material as it is.
pub block_row-IsConsistent :
    (row : RuntimeRow) (reason : Text) (before : List EventType)
    → IsConsistentRow row
    → EachWrite IsConsistent (block_row row reason before)
unfolding block_row change touch
block_row-IsConsistent row reason before v = (
  (
    IsConsistent-same_run row.run (record row.run { status = blocked }) refl refl refl
        (blocked_execution row.execution reason)
        (touch-IsConsistent row.execution row.execution.node_token row.execution.restart_pending
          row.execution.role_boundary_prepared row.execution.judge_auto_retried
          (some (block_reason reason)) row.run v),
    tt,
  ),
  tt,
)
