-- ===== src/Engine/Advance/Climbing.antt =====
-- A return that climbs the stack of callers leaves each caller with a consistent execution.
use dsh_workflow_plugin.Prelude.{
  String, Text, true, Option, none, some, List, [], ◌∷◌, ◌++◌, ◌≡◌, refl, arith, includes,
  includes-keys, EachOk, EachOk->>=, Option-cases, ◌⊎◌, inl, inr,
}
use dsh_workflow_plugin.Types.Graph.{
  NodeDef, actor_task, builtin_program, child_workflow, ResultDef, Target, to_node, to_return,
  declared_results, node_results, node_on_return,
}
use dsh_workflow_plugin.Types.Execution.{
  NodeExecution, CallFrame, ExecutionChild, ExecutionChange, working,
}
use dsh_workflow_plugin.Types.Run.{RunState}
use dsh_workflow_plugin.State.Tests.{node_in, workflow_def, has_current, has_actor_materials}
use dsh_workflow_plugin.State.Checks.{
  position_problems, kind_problems, binding_problems, judgment_problems, resolution_problems,
  phase_problems,
}
use dsh_workflow_plugin.State.Valid.{IsConsistent}
use dsh_workflow_plugin.Engine.Base.{result_def_of, change}
use dsh_workflow_plugin.Engine.Writes.{EachChange}
use dsh_workflow_plugin.Engine.Returns.{
  exit_execution, return_child, pending_child, mapped_return, Climb, take_return, climb,
}
use dsh_workflow_plugin.Engine.Advance.Leaving.{IsValidTarget, exited-exit}

-- Every edge of the frozen definition leads to a node, or to a return, of its workflow.
pub record IsRoutedRun (run : RunState) : Type 0 where
  pub results :
      (w n name : String) (d : ResultDef)
      → result_def_of (node_in run w n) name ≡ some d
      → IsValidTarget (workflow_def run w) d.target
  pub returns :
      (w n name : String) (t : Target)
      → mapped_return (node_in run w n) name ≡ some t
      → IsValidTarget (workflow_def run w) t

-- The stored execution of a frame is consistent, and stands where the frame does.
abbrev IsCaller : RunState → (String → Option NodeExecution) → CallFrame → Type 0
IsCaller run stored f =
    (p : NodeExecution)
    → stored f.execution_id ≡ some p
    → IsConsistent run p × (p.workflow_id ≡ f.workflow_id) × (p.node_id ≡ f.node_id)

abbrev pub EachCaller : RunState → (String → Option NodeExecution) → List CallFrame → Type 0
EachCaller run stored [] = Unit {0}
EachCaller run stored (f ∷ fs) = IsCaller run stored f × EachCaller run stored fs

pub EachChange-append :
    (P : RunState → NodeExecution → Type 0) (run : RunState) (xs ys : List ExecutionChange)
    → EachChange P run xs
    → EachChange P run ys
    → EachChange P run (xs ++ ys)
EachChange-append P run [] ys hx hy = hy
EachChange-append P run (x ∷ xs) ys hx hy = (hx.0, EachChange-append P run xs ys hx.1 hy)

pending_facts :
    (o : Option NodeExecution) (p : NodeExecution) (c : ExecutionChild)
    → pending_child o ≡ some (p, c)
    → (o ≡ some p) × (p.child ≡ some c) × (p.phase ≡ working)
unfolding pending_child
pending_facts none p c h = cc
pending_facts (some q) p c h = (ground arith, ground arith, ground arith)

-- A mapped return is a name of the caller's node.
mapped-declared :
    (node : Option NodeDef) (name : String) (t : Target)
    → mapped_return node name ≡ some t
    → includes name (declared_results node) ≡ true
unfolding declared_results node_results node_on_return
mapped-declared none name t h = cc
mapped-declared (some (actor_task n)) name t h = cc
mapped-declared (some (builtin_program n)) name t h = cc
mapped-declared (some (child_workflow n)) name t h = rw (includes-keys name n.on_return, h) refl

module _ (run : RunState) (p : NodeExecution) (c : ExecutionChild) (now id : String)
    (handoff : Text) (v : IsConsistent run p) (hc : p.child ≡ some c) (w : p.phase ≡ working) where
  returned_kind :
      (n : Option NodeDef) (t : Target) (name : String)
      → mapped_return n name ≡ some t
      → kind_problems n p ≡ []
      → kind_problems n (exit_execution (return_child p c id handoff) now t name) ≡ []
  unfolding kind_problems has_actor_materials exit_execution return_child
  returned_kind (some (actor_task n)) t name m h = refl
  returned_kind (some (builtin_program n)) t name m h = cc
  returned_kind (some (child_workflow n)) t name m h = ground (arith, h)
  returned_kind none t name m h = refl

  returned_position :
      (n : Option NodeDef) (t : Target) (name : String)
      → position_problems n run.run_id p.workflow_id p ≡ []
      → position_problems n run.run_id p.workflow_id
          (exit_execution (return_child p c id handoff) now t name)
        ≡ []
  unfolding position_problems exit_execution return_child
  returned_position n t name h = ground (arith, h)

  -- The caller leaves by the target to which it maps the return.
  returned-IsConsistent :
      (t : Target) (name : String)
      → mapped_return (node_in run p.workflow_id p.node_id) name ≡ some t
      → IsValidTarget (workflow_def run p.workflow_id) t
      → IsConsistent run (exit_execution (return_child p c id handoff) now t name)
  unfolding exit_execution return_child position_problems binding_problems judgment_problems
      resolution_problems phase_problems has_current
  returned-IsConsistent t name m valid = record {
    position = returned_position (node_in run p.workflow_id p.node_id) t name v.position;
    kind = returned_kind (node_in run p.workflow_id p.node_id) t name m v.kind;
    exit = exited-exit run (return_child p c id handoff) now t name (record {
      declared = mapped-declared (node_in run p.workflow_id p.node_id) name t m;
      target_valid = valid;
    });
    binding = v.binding;
    judgment = v.judgment;
    resolution = v.resolution;
    phase = refl;
  }

pub Target-cases :
    (t : Target) → ((n : String) × (t ≡ to_node n)) ⊎ ((r : String) × (t ≡ to_return r))
Target-cases (to_node n) = inl (n, refl)
Target-cases (to_return r) = inr (r, refl)

-- A climb whose executions are consistent, and whose target is one of the workflow of `frame`.
pub record IsSound (run : RunState) (workflow_id : String) (at : Climb) : Type 0 where
  pub changes_consistent : EachChange IsConsistent run at.changes
  pub next_valid : IsValidTarget (workflow_def run workflow_id) at.next

-- The same at the end, where the frame is the top of the frames that are left.
abbrev pub EndsAt : RunState → List CallFrame → Climb → Type 0
EndsAt run [] at = ⊥
EndsAt run (f ∷ fs) at = IsSound run f.workflow_id at

abbrev pub EndsSound : RunState → Climb → Type 0
EndsSound run at = EndsAt run at.frames at

module _ (run : RunState) (stored : String → Option NodeExecution) (now : String) (handoff : Text)
    (routed : IsRoutedRun run) where
  take_return-IsSound :
      (f : CallFrame) (name : String) (at : Climb)
      → IsCaller run stored f
      → EachChange IsConsistent run at.changes
      → EachOk (IsSound run f.workflow_id) (take_return run stored now handoff f name at)
  unfolding take_return change
  take_return-IsSound f name at caller h =
      elim (Option-cases (pending_child (stored f.execution_id))) [
        | inl refused ↦ rw (refused, take_return) tt
        | inr ((p, c), found) ↦
            elim (Option-cases (mapped_return (node_in run f.workflow_id f.node_id) name)) [
              | inl unmapped ↦ rw (found, unmapped, take_return) tt
              | inr (t, mapped) ↦
                  let facts = pending_facts (stored f.execution_id) p c found in
                  let q = caller p facts.0 in
                  let valid = routed.returns f.workflow_id f.node_id name t mapped in
                  rw (found, mapped, take_return)
                    (record {
                      changes_consistent = EachChange-append IsConsistent run at.changes _ h (
                        returned-IsConsistent run p c now at.last.execution_id handoff q.0 facts.1
                            facts.2 t name (rw (q.1, q.2) mapped) (rw q.1 valid),
                        tt,
                      );
                      next_valid = valid;
                    })
            ]
      ]

  -- Every caller that the return climbs past is written with a consistent execution.
  pub climb-EndsSound :
      (f : CallFrame) (frames : List CallFrame) (at : Climb)
      → EachCaller run stored frames
      → IsSound run f.workflow_id at
      → EachOk (EndsSound run) (climb run stored now handoff f frames at)
  unfolding climb
  climb-EndsSound f [] at callers h = record {
    changes_consistent = h.changes_consistent;
    next_valid = h.next_valid;
  }
  climb-EndsSound f (g ∷ frames) at callers h = elim (Target-cases at.next) [
    | inl (n, e) ↦
        rw (e, climb)
          (record { changes_consistent = h.changes_consistent; next_valid = h.next_valid })
    | inr (name, e) ↦
        rw (e, climb)
          (EachOk->>= (IsSound run g.workflow_id) (EndsSound run)
            (take_return run stored now handoff g name at) (climb run stored now handoff g frames)
            (take_return-IsSound g name at callers.0 h.changes_consistent)
            (λ moved sound. climb-EndsSound g frames moved callers.1 sound))
  ]
