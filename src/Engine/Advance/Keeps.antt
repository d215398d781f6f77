-- ===== src/Engine/Advance/Keeps.antt =====
-- Every execution that a step along an edge writes is consistent.
use dsh_workflow_plugin.Prelude.{
  ℕ, suc, String, Text, Option, none, some, List, [], ◌∷◌, ◌++◌, map, ◌≡◌, refl, arith, eq_refl,
  subst, ◌∙◌, EachOk, EachOk->>=, Bool-cases, inl, inr,
}
use dsh_workflow_plugin.Types.Graph.{
  NodeDef, actor_task, builtin_program, child_workflow, Target, to_node,
}
use dsh_workflow_plugin.Types.Execution.{NodeExecution, CallFrame, ExecutionChange, EventType}
use dsh_workflow_plugin.Types.Run.{RunState}
use dsh_workflow_plugin.State.Tests.{node_in, workflow_def, has_current, has_actor_materials}
use dsh_workflow_plugin.State.Checks.{
  position_problems, kind_problems, exit_problems, binding_problems, judgment_problems,
  resolution_problems, phase_problems,
}
use dsh_workflow_plugin.State.Valid.{IsConsistent}
use dsh_workflow_plugin.Engine.Base.{RuntimeRow, change, new_execution, current_node}
use dsh_workflow_plugin.Engine.Writes.{
  EachChange, EachWrite, EachWrite-append, IsConsistent-same_run, same_workflow_def, same_node_in,
}
use dsh_workflow_plugin.Engine.Advance.{
  settle_climb, start_climb, follow, complete_run, enter_node, move_frame, successor_of,
  set_successor, entered_change, Advanced, advance_along, after_put, drains, is_over, release_actor,
  released_role,
}
use dsh_workflow_plugin.Engine.Returns.{exit_execution, Climb, climb}
use dsh_workflow_plugin.Engine.Advance.Leaving.{IsValidTarget}
use dsh_workflow_plugin.Engine.Advance.Climbing.{
  IsRoutedRun, EachCaller, IsSound, EndsAt, EndsSound, Target-cases, climb-EndsSound,
  EachChange-append,
}

module _ (run : RunState) (frame : CallFrame) (input : Text) (visit : ℕ)
    (predecessor : Option String) (now : String) where
  entered-position :
      (n : Option NodeDef) (d : NodeDef)
      → n ≡ some d
      → position_problems n run.run_id frame.workflow_id
          (new_execution run frame input visit predecessor now)
        ≡ []
  unfolding position_problems new_execution
  entered-position none d h = cc
  entered-position (some m) d h = ground (arith, eq_refl run.run_id)

  entered_kind :
      (n : Option NodeDef)
      → kind_problems n (new_execution run frame input visit predecessor now) ≡ []
  unfolding kind_problems new_execution has_actor_materials
  entered_kind none = refl
  entered_kind (some (actor_task m)) = refl
  entered_kind (some (builtin_program m)) = refl
  entered_kind (some (child_workflow m)) = refl

  -- An execution that enters a node of the definition has nothing that could be inconsistent.
  entered-IsConsistent :
      (d : NodeDef)
      → node_in run frame.workflow_id frame.node_id ≡ some d
      → IsConsistent run (new_execution run frame input visit predecessor now)
  unfolding new_execution exit_problems binding_problems judgment_problems resolution_problems
      phase_problems has_current
  entered-IsConsistent d h = record {
    position = entered-position (node_in run frame.workflow_id frame.node_id) d h;
    kind = entered_kind (node_in run frame.workflow_id frame.node_id);
    exit = refl;
    binding = refl;
    judgment = refl;
    resolution = refl;
    phase = refl;
  }

module _ (run run' : RunState) (id : run'.run_id ≡ run.run_id)
    (root : run'.catalog_workflow_id ≡ run.catalog_workflow_id)
    (snapshot : run'.definition_snapshot ≡ run.definition_snapshot) where
  EachChange-same_run :
      (cs : List ExecutionChange) → EachChange IsConsistent run cs → EachChange IsConsistent run' cs
  EachChange-same_run [] h = tt
  EachChange-same_run (c ∷ cs) h =
      (IsConsistent-same_run run run' id root snapshot c.execution h.0, EachChange-same_run cs h.1)

successor_kind :
    (e : NodeExecution) (id : String) (n : Option NodeDef)
    → kind_problems n e ≡ []
    → kind_problems n (record e { successor_id = some id }) ≡ []
unfolding kind_problems has_actor_materials
successor_kind e id none h = h
successor_kind e id (some (actor_task m)) h = h
successor_kind e id (some (builtin_program m)) h = h
successor_kind e id (some (child_workflow m)) h = h

-- No check of an execution reads its successor.
successor-IsConsistent :
    (run : RunState) (e : NodeExecution) (id : String)
    → IsConsistent run e
    → IsConsistent run (record e { successor_id = some id })
unfolding exit_problems binding_problems judgment_problems resolution_problems phase_problems
    has_current position_problems
successor-IsConsistent run e id v = record {
  position = v.position;
  kind = successor_kind e id (node_in run e.workflow_id e.node_id) v.kind;
  exit = v.exit;
  binding = v.binding;
  judgment = v.judgment;
  resolution = v.resolution;
  phase = v.phase;
}

EachChange-successor :
    (run : RunState) (id : String) (cs : List ExecutionChange)
    → EachChange IsConsistent run cs
    → EachChange IsConsistent run (map (set_successor id) cs)
EachChange-successor run id [] h = tt
EachChange-successor run id (c ∷ cs) h =
    (successor-IsConsistent run c.execution id h.0, EachChange-successor run id cs h.1)

abbrev IsConsistentStep : Advanced → Type 0
IsConsistentStep moved = EachChange IsConsistent moved.run moved.changes

module _ (run : RunState) (fresh : ℕ → String) (now : String) (handoff : Text) where
  completed-IsConsistent :
      (name : String) (at : Climb)
      → EachChange IsConsistent run at.changes
      → EachChange IsConsistent (complete_run run name at) at.changes
  unfolding complete_run
  completed-IsConsistent name at h =
      EachChange-same_run run (complete_run run name at) refl refl refl at.changes h

  moved-IsConsistent :
      (n : String) (f : CallFrame) (fs : List CallFrame) (at : Climb)
      → EachChange IsConsistent run at.changes
      → IsValidTarget (workflow_def run f.workflow_id) (to_node n)
      → EachChange IsConsistent (enter_node run n fresh f fs) (
          map (set_successor (fresh 0)) at.changes
          ++ entered_change (successor_of (enter_node run n fresh f fs) n fresh f now handoff at)
            ∷ [])
  unfolding enter_node successor_of move_frame node_in workflow_def
  moved-IsConsistent n f fs at h valid =
      EachChange-append IsConsistent (enter_node run n fresh f fs) _ _
        (EachChange-successor (enter_node run n fresh f fs) (fresh 0) at.changes
          (EachChange-same_run run (enter_node run n fresh f fs) refl refl refl at.changes h))
        (
          entered-IsConsistent (enter_node run n fresh f fs) (move_frame f n fresh) handoff
              (suc at.terminal_visit) (some at.last.execution_id) now valid.0 valid.1,
          tt,
        )

  settle_at :
      (at : Climb) (frames : List CallFrame)
      → at.frames ≡ frames
      → EndsAt run frames at
      → EachOk IsConsistentStep (settle_climb run fresh now handoff at)
  unfolding settle_climb
  settle_at at [] e sound = absurd sound
  settle_at at (f ∷ fs) e sound = elim (Target-cases at.next) [
    | inl (n, to) ↦
        rw (to, e, settle_climb)
          (moved-IsConsistent n f fs at sound.changes_consistent
            (subst (IsValidTarget (workflow_def run f.workflow_id)) to sound.next_valid))
    | inr (name, to) ↦
        rw (to, settle_climb) (completed-IsConsistent name at sound.changes_consistent)
  ]

  settle_climb-IsConsistent :
      (at : Climb)
      → EndsSound run at
      → EachOk IsConsistentStep (settle_climb run fresh now handoff at)
  settle_climb-IsConsistent at sound = settle_at at at.frames refl sound

-- The execution stands at the top frame, and those of the callers below it are consistent.
abbrev pub IsPlaced :
    RunState → (String → Option NodeExecution) → NodeExecution → List CallFrame → Type 0
IsPlaced run stored e [] = Unit {0}
IsPlaced run stored e (f ∷ fs) =
    (e.workflow_id ≡ f.workflow_id) × (e.node_id ≡ f.node_id) × EachCaller run stored fs

module _ (run : RunState) (e : NodeExecution) (stored : String → Option NodeExecution)
    (fresh : ℕ → String) (now : String) (target : Target) (name : String) (handoff : Text)
    (events : List EventType) where
  start_climb-IsSound :
      (f : CallFrame)
      → e.workflow_id ≡ f.workflow_id
      → IsConsistent run (exit_execution e now target name)
      → IsValidTarget (workflow_def run e.workflow_id) target
      → IsSound run f.workflow_id (start_climb e now target name events run.call_stack)
  unfolding start_climb change
  start_climb-IsSound f w v valid = record {
    changes_consistent = (v, tt);
    next_valid = subst (λ x. IsValidTarget (workflow_def run x) target) w valid;
  }

  follow_at :
      (frames : List CallFrame)
      → run.call_stack ≡ frames
      → IsPlaced run stored e frames
      → IsRoutedRun run
      → IsConsistent run (exit_execution e now target name)
      → IsValidTarget (workflow_def run e.workflow_id) target
      → EachOk IsConsistentStep (follow run e stored fresh now target name handoff events)
  unfolding follow
  follow_at [] top placed routed v valid = rw (top, follow) tt
  follow_at (f ∷ fs) top placed routed v valid =
      rw (top, follow)
        (EachOk->>= (EndsSound run) IsConsistentStep
          (climb run stored now handoff f fs (start_climb e now target name events run.call_stack))
          (settle_climb run fresh now handoff)
          (climb-EndsSound run stored now handoff routed f fs
            (start_climb e now target name events run.call_stack) placed.2
            (start_climb-IsSound f placed.0 v valid))
          (settle_climb-IsConsistent run fresh now handoff))

pub IsPlaced-same :
    (run : RunState) (stored : String → Option NodeExecution) (e e' : NodeExecution)
    (fs : List CallFrame)
    → e'.workflow_id ≡ e.workflow_id
    → e'.node_id ≡ e.node_id
    → IsPlaced run stored e fs
    → IsPlaced run stored e' fs
IsPlaced-same run stored e e' [] w n h = tt
IsPlaced-same run stored e e' (f ∷ fs) w n h = (w ∙ h.0, n ∙ h.1, h.2)

-- A run that has let go of a role's session.
abbrev released : RunState → Option String → RunState
released run role = record run { role_actors = release_actor role run.role_actors }

-- What is asked of a run reads its id and its frozen definition.
module _ (run run' : RunState) (id : run'.run_id ≡ run.run_id)
    (root : run'.catalog_workflow_id ≡ run.catalog_workflow_id)
    (snapshot : run'.definition_snapshot ≡ run.definition_snapshot) where
  same-EachCaller :
      (stored : String → Option NodeExecution) (fs : List CallFrame)
      → EachCaller run stored fs
      → EachCaller run' stored fs
  same-EachCaller stored [] h = tt
  same-EachCaller stored (f ∷ fs) h = (
    λ p found.
        let q = h.0 p found in (IsConsistent-same_run run run' id root snapshot p q.0, q.1, q.2),
    same-EachCaller stored fs h.1,
  )

  pub same-IsPlaced :
      (stored : String → Option NodeExecution) (e : NodeExecution) (fs : List CallFrame)
      → IsPlaced run stored e fs
      → IsPlaced run' stored e fs
  same-IsPlaced stored e [] h = tt
  same-IsPlaced stored e (f ∷ fs) h = (h.0, h.1, same-EachCaller stored fs h.2)

  pub same-IsRoutedRun : IsRoutedRun run → IsRoutedRun run'
  same-IsRoutedRun h = record {
    results = λ w n name d found.
        rw (same_workflow_def run run' id root snapshot w)
          (h.results w n name d (rw (same_node_in run run' id root snapshot w n) at found));
    returns = λ w n name t found.
        rw (same_workflow_def run run' id root snapshot w)
          (h.returns w n name t (rw (same_node_in run run' id root snapshot w n) at found));
  }

drains-EachWrite : (role : Option String) → EachWrite IsConsistent (drains role)
drains-EachWrite none = tt
drains-EachWrite (some role) = tt

after_put-EachWrite :
    (moved : Advanced) (e : NodeExecution) (handoff : Text)
    → EachWrite IsConsistent (after_put moved e handoff)
unfolding after_put
after_put-EachWrite moved e handoff = elim (Bool-cases (is_over moved.run)) [
  | inl over ↦ rw (over, after_put) tt
  | inr going ↦ rw (going, after_put) tt
]

released-valid :
    (run : RunState) (role : Option String) (w : String) (t : Target)
    → IsValidTarget (workflow_def run w) t
    → IsValidTarget (workflow_def (released run role) w) t
unfolding workflow_def
released-valid run role w t h = h

module _ (row : RuntimeRow) (stored : String → Option NodeExecution) (fresh : ℕ → String)
    (now : String) (target : Target) (name : String) (handoff : Text) (events : List EventType)
    (placed : IsPlaced row.run stored row.execution row.run.call_stack)
    (routed : IsRoutedRun row.run)
    (v : IsConsistent row.run (exit_execution row.execution now target name))
    (valid : IsValidTarget (workflow_def row.run row.execution.workflow_id) target) where
  pub advance_along-IsConsistent :
      EachOk
        (λ r. EachWrite IsConsistent r.acts)
        (advance_along row stored fresh now target name handoff events)
  unfolding advance_along
  advance_along-IsConsistent =
      let role = released_role row.run (current_node row.run) in
      let run = released row.run role in
      EachOk->>= IsConsistentStep (λ r. EachWrite IsConsistent r.acts)
        (follow run row.execution stored fresh now target name handoff events) _
        (follow_at run row.execution stored fresh now target name handoff events row.run.call_stack
          refl
          (same-IsPlaced row.run run refl refl refl stored row.execution row.run.call_stack placed)
          (same-IsRoutedRun row.run run refl refl refl routed)
          (IsConsistent-same_run row.run run refl refl refl _ v)
          (released-valid row.run role row.execution.workflow_id target valid))
        (λ moved h.
          EachWrite-append IsConsistent (drains role) _ (drains-EachWrite role)
            (h, after_put-EachWrite moved (exit_execution row.execution now target name) handoff))
