-- ===== src/Engine/Advance.antt =====
-- src/engine/engine.ts: `advanceKnownResult`, the one way in which a run moves on. A confirmed
-- result follows its static target; a return climbs the stack of callers, each of which maps the
-- name to a target of its own, until a node is entered or the root returns.
pub mod Leaving
pub mod Climbing
pub mod Keeps
pub mod Results
pub mod Chains
pub mod Edges
use dsh_workflow_plugin.Prelude.{
  ℕ, suc, ◌+◌, max, String, Text, codes, Bool, true, false, ◌&&◌, ◌||◌, not, ◌==◌, Option, none,
  some, is_some, is_none, opt_bind, opt_map, List, [], ◌∷◌, ◌++◌, map, lookup, remove, Result, ok,
  err, ◌>>=◌, Assoc,
}
use dsh_workflow_plugin.Types.Graph.{
  NodeDef, actor_task, builtin_program, child_workflow, Target, to_node, to_return, role_reuse_mode,
  node_on_return,
}
use dsh_workflow_plugin.Types.Execution.{
  NodeExecution, CallFrame, ExecutionChild, Phase, working, settling, exited, EventType,
  ExecutionChange,
}
use dsh_workflow_plugin.Types.Run.{RunState, RunStatus, running, blocked, completed}
use dsh_workflow_plugin.State.Tests.{is_working}
use dsh_workflow_plugin.Engine.Base.{
  RuntimeRow, EngineOutcome, Act, put, notify_terminal, notify_node_event, notify_block, run_closed,
  drain_role_actor, Reply, change, frame_node, current_node, decision_of, result_def_of,
  is_node_reuse, new_execution, block_reason,
}
use dsh_workflow_plugin.Engine.Returns.{exit_execution, Climb, climb}

-- `releaseNodeScopedActor`: the role whose session ends with the node.
pub released_role : RunState → Option NodeDef → Option String
released_role run (some (actor_task n)) =
    elim (not (n.role == "manager")
      && is_some (lookup n.role run.role_actors)
      && is_node_reuse (role_reuse_mode (lookup n.role run.definition_snapshot.roles))) [
        | true ↦ some n.role
        | false ↦ none
      ]
released_role run _ = none

abbrev pub release_actor : Option String → Assoc String → Assoc String
release_actor none actors = actors
release_actor (some role) actors = remove role actors

-- The target of the confirmed result; a return is its own target.
pub data Decided : Type 0 where
  result return : Decided

pub decided_target : Option NodeDef → Decided → String → Option Target
decided_target n Decided.result name = opt_map (λ r. r.target) (result_def_of n name)
decided_target n Decided.return name = some (to_return name)

abbrev pub set_successor : String → ExecutionChange → ExecutionChange
set_successor id c = record c { execution = record c.execution { successor_id = some id } }

-- The root has returned: the run is over, and its return is recorded with its source.
pub complete_run : RunState → String → Climb → RunState
complete_run run name at = record run {
  status = completed;
  current_execution_id = at.last.execution_id;
  call_stack = [];
  business_return = some (record { name = name; source = at.last.execution_id });
}

-- The frame moves to the next node, under a new token and for a new execution.
pub move_frame : CallFrame → String → (ℕ → String) → CallFrame
move_frame frame node_id fresh = record frame {
  node_id = node_id;
  node_token = fresh 1;
  execution_id = fresh 0;
}

pub enter_node : RunState → String → (ℕ → String) → CallFrame → List CallFrame → RunState
unfolding move_frame
enter_node run node_id fresh frame frames = record run {
  current_execution_id = fresh 0;
  call_stack = move_frame frame node_id fresh ∷ frames;
}

pub successor_of :
    RunState → String → (ℕ → String) → CallFrame → (now : String) → Text → Climb → NodeExecution
unfolding move_frame
successor_of run node_id fresh frame now handoff at =
    new_execution run (move_frame frame node_id fresh) handoff (suc at.terminal_visit)
      (some at.last.execution_id) now

-- The change that creates an execution.
abbrev pub entered_change : NodeExecution → ExecutionChange
entered_change e = record {
  execution = e;
  expected_revision = none;
  events = EventType.entered ∷ [];
}

-- The run, and all the changes, of one step along an edge.
pub record Advanced : Type 0 where
  pub run : RunState
  pub last : NodeExecution
  pub changes : List ExecutionChange

pub settle_climb : RunState → (ℕ → String) → (now : String) → Text → Climb → Result Advanced
unfolding complete_run enter_node successor_of
settle_climb run fresh now handoff at = elim at.next [
  | to_return name ↦
      ok (record { run = complete_run run name at; last = at.last; changes = at.changes })
  | to_node node_id ↦ elim at.frames [
    | [] ↦ err "call stack is empty"
    | frame ∷ frames ↦
        let moved = enter_node run node_id fresh frame frames in
        let successor = successor_of moved node_id fresh frame now handoff at in
        ok (record {
          run = moved;
          last = at.last;
          changes = map (set_successor (fresh 0)) at.changes ++ entered_change successor ∷ [];
        })
  ]
]

-- Where the loop starts: the execution itself has left.
pub start_climb :
    NodeExecution → (now : String) → Target → String → List EventType → List CallFrame → Climb
start_climb e now target name events frames =
    let left = exit_execution e now target name in
    record {
      frames = frames;
      last = left;
      next = target;
      next_name = name;
      terminal_visit = e.visit;
      changes = change left (events ++ EventType.exited ∷ []) ∷ [];
    }

-- The new row of the run along one target; the released role has left `run`.
pub follow :
    RunState
    → NodeExecution
    → (String → Option NodeExecution)
    → (ℕ → String)
    → (now : String) → Target
    → String
    → Text
    → List EventType
    → Result Advanced
unfolding settle_climb start_climb climb
follow run e stored fresh now target name handoff events = elim run.call_stack [
  | [] ↦ err "call stack is empty"
  | frame ∷ frames ↦ do
    at ←
        climb run stored now handoff frame frames
          (start_climb e now target name events run.call_stack)
    settle_climb run fresh now handoff at
]

-- Without a target the run stops, with its material.
pub unroutable : RuntimeRow → List EventType → Reply
unroutable row events =
    let reason = block_reason (codes "result has no configured Target") in
    let e = record row.execution { phase = settling; block_reason = some reason } in
    let run = record row.run { status = blocked } in
    record {
      outcome = EngineOutcome.accepted (some run) "result has no configured Target";
      acts =
          put run row.version (change e (events ++ EventType.blocked ∷ []) ∷ [])
          ∷ notify_block e reason
          ∷ [];
    }

abbrev pub is_over : RunState → Bool
is_over run = elim run.status [ RunStatus.completed ↦ true | _ ↦ false ]

abbrev pub drains : Option String → List Act
drains none = []
drains (some role) = drain_role_actor role ∷ []

-- The end of the run is announced with the handoff as it is, any other step with its event.
pub after_put : Advanced → NodeExecution → Text → List Act
after_put moved e handoff = elim (is_over moved.run) [
  | true ↦ run_closed moved.run ∷ notify_terminal moved.run moved.last handoff ∷ []
  | false ↦ notify_node_event moved.run e ∷ []
]

pub advance_along :
    RuntimeRow
    → (String → Option NodeExecution)
    → (ℕ → String)
    → (now : String) → Target
    → String
    → Text
    → List EventType
    → Result Reply
unfolding released_role after_put
advance_along row stored fresh now target name handoff events = do
  let role = released_role row.run (current_node row.run)
  let run = record row.run { role_actors = release_actor role row.run.role_actors }
  moved ← follow run row.execution stored fresh now target name handoff events
  ok (record {
    outcome = EngineOutcome.accepted (some moved.run) "committed";
    acts =
        drains role
        ++ put moved.run row.version moved.changes
          ∷ after_put moved (exit_execution row.execution now target name) handoff;
  })

pub advance_known_result :
    RuntimeRow
    → (String → Option NodeExecution)
    → (ℕ → String)
    → (now : String) → Decided
    → String
    → Text
    → List EventType
    → Result Reply
unfolding decided_target unroutable advance_along
advance_known_result row stored fresh now kind name handoff events =
    elim (decided_target (current_node row.run) kind name) [
      | none ↦ ok (unroutable row events)
      | some target ↦ advance_along row stored fresh now target name handoff events
    ]
