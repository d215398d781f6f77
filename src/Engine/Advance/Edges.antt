-- ===== src/Engine/Advance/Edges.antt =====
-- A step along a target ends the run or enters one node, and both are where the target leads.
use dsh_workflow_plugin.Prelude.{
  ℕ, suc, ◌≤◌, String, Text, Option, some, List, [], ◌∷◌, ◌++◌, length, map, ◌≡◌, refl, sym, subst,
  arith, ◌>>=◌, EachOk, EachOk->>=, List-cases, ◌⊎◌, inl, inr,
}
use dsh_workflow_plugin.Types.Graph.{Target, to_node, to_return}
use dsh_workflow_plugin.Types.Execution.{
  NodeExecution, CallFrame, ExecutionChange, ready, EventType,
}
use dsh_workflow_plugin.Types.Run.{RunState, completed}
use dsh_workflow_plugin.Engine.Base.{new_execution, change, decision_of}
use dsh_workflow_plugin.Engine.Advance.{
  settle_climb, start_climb, follow, complete_run, enter_node, move_frame, successor_of,
  set_successor, entered_change, Advanced,
}
use dsh_workflow_plugin.Engine.Returns.{Climb, climb, exit_execution}
use dsh_workflow_plugin.Engine.Advance.Climbing.{Target-cases}
use dsh_workflow_plugin.Engine.Advance.Chains.{
  Leads, IsLeft, IsChain, IsClimbing, IsClimbed, climbed,
}

module _ (run : RunState) (e : NodeExecution) (now : String) (target : Target) (name : String)
    (handoff : Text) where
  -- The root has returned, by the name that the target leads to at the bottom of the stack.
  pub record IsCompleted (moved : Advanced) : Type 0 where
    return_name : String
    callers : ℕ
    frames : List CallFrame
    leads : Leads run target run.call_stack callers frames (to_return return_name)
    root : length frames ≡ 1
    left : IsLeft e now target name handoff moved.changes moved.last
    label : String
    decided :
        moved.last.returned
        ≡ some (decision_of (to_return return_name) label moved.last.execution_id)
    count : length moved.changes ≡ suc callers
    status : moved.run.status ≡ completed
    stack : moved.run.call_stack ≡ []
    current : moved.run.current_execution_id ≡ moved.last.execution_id
    returned :
        moved.run.business_return
        ≡ some (record { name = return_name; source = moved.last.execution_id })

  -- One execution is created, at the node that the target leads to.
  pub record IsEntered (moved : Advanced) : Type 0 where
    successor : NodeExecution
    before : CallFrame
    frame : CallFrame
    frames : List CallFrame
    callers : ℕ
    leads : Leads run target run.call_stack callers (before ∷ frames) (to_node successor.node_id)
    changes_left : List ExecutionChange
    left : IsLeft e now target name handoff changes_left moved.last
    label : String
    decided :
        moved.last.returned
        ≡ some (decision_of (to_node successor.node_id) label moved.last.execution_id)
    count : length changes_left ≡ suc callers
    changes :
        moved.changes
        ≡ map (set_successor successor.execution_id) changes_left ++ entered_change successor ∷ []
    input : successor.input ≡ handoff
    phase : successor.phase ≡ ready
    predecessor : successor.predecessor_id ≡ some moved.last.execution_id
    stack : moved.run.call_stack ≡ frame ∷ frames
    current : moved.run.current_execution_id ≡ successor.execution_id
    same_execution : frame.execution_id ≡ successor.execution_id
    same_token : frame.node_token ≡ successor.node_token
    same_node : frame.node_id ≡ successor.node_id
    same_workflow : frame.workflow_id ≡ before.workflow_id
    later : suc e.visit ≤ successor.visit

  abbrev pub OneEdge : Advanced → Type 0
  OneEdge moved = IsCompleted moved ⊎ IsEntered moved

  module _ (stored : String → Option NodeExecution) (fresh : ℕ → String) where
    settled :
        (start at : Climb)
        → start.next ≡ target
        → length start.changes ≡ 1
        → IsClimbed run stored e now target name handoff start run.call_stack at
        → EachOk OneEdge (settle_climb run fresh now handoff at)
    unfolding settle_climb complete_run enter_node move_frame successor_of new_execution
    settled start at from one h =
        let leads =
          subst (λ t. Leads run t run.call_stack h.callers at.frames at.next) from h.leads in
        elim (Target-cases at.next) [
          | inr (r, to) ↦
              simp (to, settle_climb)
                (inl (record {
                  return_name = r;
                  callers = h.callers;
                  frames = at.frames;
                  leads =
                      subst (λ t. Leads run target run.call_stack h.callers at.frames t) to leads;
                  root = h.root r to;
                  left = h.climbing.left;
                  label = at.next_name;
                  decided =
                      subst
                        (λ t.
                          at.last.returned ≡ some (decision_of t at.next_name at.last.execution_id))
                        to h.climbing.decided;
                  count = omega (arith, h.count, one);
                  status = refl;
                  stack = refl;
                  current = refl;
                  returned = refl;
                }))
          | inl (n, to) ↦ elim (List-cases at.frames) [
            | inl none_left ↦ simp (to, none_left, settle_climb) tt
            | inr (f, fs, there) ↦
                simp (to, there, settle_climb)
                  (inr (record {
                    successor = successor_of (enter_node run n fresh f fs) n fresh f now handoff at;
                    before = f;
                    frame = move_frame f n fresh;
                    frames = fs;
                    callers = h.callers;
                    leads =
                        subst (λ t. Leads run target run.call_stack h.callers (f ∷ fs) t) to
                          (subst (λ g. Leads run target run.call_stack h.callers g at.next) there
                            leads);
                    changes_left = at.changes;
                    left = h.climbing.left;
                    label = at.next_name;
                    decided =
                        subst
                          (λ t.
                            at.last.returned
                            ≡ some (decision_of t at.next_name at.last.execution_id))
                          to h.climbing.decided;
                    count = omega (arith, h.count, one);
                    changes = refl;
                    input = refl;
                    phase = refl;
                    predecessor = refl;
                    stack = refl;
                    current = refl;
                    same_execution = refl;
                    same_token = refl;
                    same_node = refl;
                    same_workflow = refl;
                    later = omega (arith, h.climbing.later);
                  }))
          ]
        ]

    started :
        (events : List EventType)
        → IsClimbing run stored e now target name handoff
            (start_climb e now target name events run.call_stack)
    unfolding start_climb exit_execution change IsChain
    started events = record {
      left = record { first = refl; chain = tt; end = refl; gone = refl };
      decided = refl;
      later = omega arith;
    }

    -- For every run, execution, store and target, take where the target leads on the stack of the
    -- run: a return goes on at the target that the caller below maps it to, and leaves that
    -- caller. Where `follow` returns, the changes record the executions left, in their order, and
    -- as many as there are callers left and the execution itself: first this execution, as it
    -- exits by the target; then each caller, with the handoff as the result of its child, which
    -- names the execution left before it. The execution left last has exited, by the target at
    -- which the way ends. Either this is a return of the root, and the run is completed: its stack
    -- is empty, it points to the execution left last, and its business return has that name and
    -- that execution as its source. Or it is a node, and one execution is entered: the last change
    -- creates it, at this node, and the others name it as their successor; it is ready, its input
    -- is the handoff as it is, its predecessor is the execution left last, its visit is larger
    -- than that of the execution that started the step, and the top frame, which has moved within
    -- its workflow and above the same frames, and the run point to it.
    pub follow-OneEdge :
        (events : List EventType)
        → EachOk OneEdge (follow run e stored fresh now target name handoff events)
    unfolding follow start_climb
    follow-OneEdge events =
        let start = start_climb e now target name events run.call_stack in
        elim (List-cases run.call_stack) [
          | inl top ↦ rw (top, follow) tt
          | inr (f, fs, top) ↦ subst (EachOk OneEdge) (along f fs top) (
              EachOk->>= (IsClimbed run stored e now target name handoff start (f ∷ fs)) OneEdge
                (climb run stored now handoff f fs start) (settle_climb run fresh now handoff)
                (climbed run stored e now target name handoff f fs start (started events))
                (λ at h. settled start at refl refl (
                  subst (λ g. IsClimbed run stored e now target name handoff start g at) (sym top)
                    h)))
        ]
      where
        along :
            (f : CallFrame) (fs : List CallFrame)
            → run.call_stack ≡ f ∷ fs
            → (climb run stored now handoff f fs
                  (start_climb e now target name events run.call_stack)
                >>= settle_climb run fresh now handoff)
              ≡ follow run e stored fresh now target name handoff events
        along f fs top = ground (arith, top)
