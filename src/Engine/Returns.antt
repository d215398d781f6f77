-- ===== src/Engine/Returns.antt =====
-- src/engine/engine.ts, `advanceKnownResult`: how an execution leaves, and how a return climbs the
-- stack of callers.
use dsh_workflow_plugin.Prelude.{
  ℕ, max, String, Text, true, false, ◌&&◌, Option, none, some, is_none, List, [], ◌∷◌, ◌++◌, lookup,
  Result, ok, err, ◌>>=◌,
}
use dsh_workflow_plugin.Types.Graph.{NodeDef, child_workflow, Target, to_node, to_return}
use dsh_workflow_plugin.Types.Execution.{
  NodeExecution, CallFrame, ExecutionChild, exited, EventType, ExecutionChange,
}
use dsh_workflow_plugin.Types.Run.{RunState}
use dsh_workflow_plugin.State.Tests.{is_working}
use dsh_workflow_plugin.Engine.Base.{change, frame_node, decision_of}

-- An execution leaves by a target.
unfoldable pub exit_execution : NodeExecution → (now : String) → Target → String → NodeExecution
exit_execution e now target name = record e {
  phase = exited;
  exited_at = some now;
  returned = some (decision_of target name e.execution_id);
}

-- Where a return has come to: the callers left, who left last, and the target to follow.
pub record Climb : Type 0 where
  pub frames : List CallFrame
  pub last : NodeExecution
  pub next : Target
  pub next_name : String
  pub terminal_visit : ℕ
  pub changes : List ExecutionChange

-- The caller's record of what its child returned.
unfoldable pub return_child : NodeExecution → ExecutionChild → String → Text → NodeExecution
return_child parent child terminal handoff = record parent {
  child = some (record child {
    result = some (record { terminal_execution_id = terminal; handoff = handoff });
  });
}

-- A caller that can take the return: it works, and waits for its child.
unfoldable pub pending_child : Option NodeExecution → Option (NodeExecution × ExecutionChild)
pending_child none = none
pending_child (some parent) = elim parent.child [
  | none ↦ none
  | some child ↦ elim (is_working parent.phase && is_none child.result) [
    | true ↦ some (parent, child)
    | false ↦ none
  ]
]

abbrev pub mapped_return : Option NodeDef → String → Option Target
mapped_return (some (child_workflow n)) name = lookup name n.on_return
mapped_return _ name = none

module _ (run : RunState) (stored : String → Option NodeExecution) (now : String)
    (handoff : Text) where
  -- One round of the loop, for a caller that is found.
  unfoldable pub take_return : CallFrame → String → Climb → Result Climb
  take_return parent_frame name at = elim (pending_child (stored parent_frame.execution_id)) [
    | none ↦ err "stale or corrupt Child return"
    | some (parent, child) ↦ elim (mapped_return (frame_node run parent_frame) name) [
      | none ↦ err "stale or corrupt Child return"
      | some mapped ↦
          let left =
            exit_execution (return_child parent child at.last.execution_id handoff) now mapped
              name in
          ok (record {
            frames = at.frames;
            last = left;
            next = mapped;
            next_name = name;
            terminal_visit = max at.terminal_visit parent.visit;
            changes =
                at.changes ++ change left (EventType.child_returned ∷ EventType.exited ∷ []) ∷ [];
          })
    ]
  ]

  -- The loop, over the frames above which the return stands.
  unfoldable pub climb : CallFrame → List CallFrame → Climb → Result Climb
  unfolding take_return
  climb frame [] at = ok (record at { frames = frame ∷ [] })
  climb frame (parent ∷ frames) at = elim at.next [
    | to_node n ↦ ok (record at { frames = frame ∷ parent ∷ frames })
    | to_return name ↦ take_return parent name at >>= climb parent frames
  ]
