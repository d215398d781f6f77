-- ===== src/Engine/Advance/Chains.antt =====
-- The executions that leave in one step along a target: the one that decided, and each caller that its
-- return climbs past.
use dsh_workflow_plugin.Prelude.{
  ℕ, suc, ◌+◌, ◌≤◌, String, Text, Option, none, some, opt_map, opt_bind, List, [], ◌∷◌, ◌++◌,
  length, length-append, ◌≡◌, refl, subst, arith, Result, ok, err, ◌>>=◌, EachOk, EachOk->>=,
  Option-cases, inl, inr,
}
use dsh_workflow_plugin.Types.Graph.{Target, to_node, to_return}
use dsh_workflow_plugin.Types.Execution.{
  NodeExecution, CallFrame, ExecutionChange, exited, EventType,
}
use dsh_workflow_plugin.Types.Run.{RunState}
use dsh_workflow_plugin.Engine.Base.{change, frame_node, decision_of}
use dsh_workflow_plugin.Engine.Returns.{
  exit_execution, return_child, Climb, climb, take_return, pending_child, mapped_return,
}
use dsh_workflow_plugin.Engine.Advance.Climbing.{Target-cases}

-- Where a target leads on a stack of frames, past how many callers: a return goes on at the target that
-- the caller below maps it to.
pub data Leads (run : RunState)
    : Target → List CallFrame → ℕ → List CallFrame → Target → Type 0 where
  here : {t : Target} {frames : List CallFrame} → Leads run t frames 0 frames t
  climbs :
      {name : String} {f g : CallFrame} {fs rest : List CallFrame} {t u : Target} {n : ℕ}
      → mapped_return (frame_node run g) name ≡ some t
      → Leads run t (g ∷ fs) n rest u
      → Leads run (to_return name) (f ∷ g ∷ fs) (suc n) rest u

abbrev last_change : List ExecutionChange → Option ExecutionChange
last_change [] = none
last_change (c ∷ []) = some c
last_change (c ∷ (d ∷ ds)) = last_change (d ∷ ds)

abbrev first_change : List ExecutionChange → Option ExecutionChange
first_change [] = none
first_change (c ∷ cs) = some c

-- The caller has as the result of its child the handoff, from the execution that left before it.
abbrev Receives : Text → NodeExecution → NodeExecution → Type 0
Receives handoff from caller =
    opt_bind caller.child (λ c. c.result)
    ≡ some (record { terminal_execution_id = from.execution_id; handoff = handoff })

unfoldable pub IsChain : Text → List ExecutionChange → Type 0
IsChain handoff [] = Unit {0}
IsChain handoff (c ∷ []) = Unit {0}
IsChain handoff (c ∷ (d ∷ ds)) = Receives handoff c.execution d.execution × IsChain handoff (d ∷ ds)

last_change-append :
    (xs : List ExecutionChange) (c : ExecutionChange) → last_change (xs ++ c ∷ []) ≡ some c
last_change-append [] c = refl
last_change-append (x ∷ []) c = refl
last_change-append (x ∷ (y ∷ ys)) c = last_change-append (y ∷ ys) c

first_change-append :
    (xs : List ExecutionChange) (c : ExecutionChange) (e : NodeExecution)
    → opt_map (λ d. d.execution) (first_change xs) ≡ some e
    → opt_map (λ d. d.execution) (first_change (xs ++ c ∷ [])) ≡ some e
first_change-append [] c e h = cc
first_change-append (x ∷ xs) c e h = h

IsChain-append :
    (handoff : Text) (xs : List ExecutionChange) (c : ExecutionChange) (e : NodeExecution)
    → IsChain handoff xs
    → opt_map (λ d. d.execution) (last_change xs) ≡ some e
    → Receives handoff e c.execution
    → IsChain handoff (xs ++ c ∷ [])
unfolding IsChain
IsChain-append handoff [] c e h last r = tt
IsChain-append handoff (x ∷ []) c e h last r = (ground (arith, last, r), tt)
IsChain-append handoff (x ∷ (y ∷ ys)) c e h last r =
    (h.0, IsChain-append handoff (y ∷ ys) c e h.1 last r)

-- The executions left by a step of `e` along `target`, in their order, as the changes record them: `e`
-- is the first, each further one is the caller of the one before, and `last` is the last.
pub record IsLeft (e : NodeExecution) (now : String) (target : Target) (name : String)
    (handoff : Text) (left : List ExecutionChange) (last : NodeExecution) : Type 0 where
  pub first :
      opt_map (λ c. c.execution) (first_change left) ≡ some (exit_execution e now target name)
  pub chain : IsChain handoff left
  pub end : opt_map (λ c. c.execution) (last_change left) ≡ some last
  pub gone : last.phase ≡ exited

EachOk-weaken {ℓ κ μ} :
    {A : Type ℓ} {P : A → Type κ} {Q : A → Type μ} (m : Result A)
    → ((a : A) → P a → Q a)
    → EachOk P m
    → EachOk Q m
EachOk-weaken (ok a) w h = w a h
EachOk-weaken (err message) w h = tt

module _ (run : RunState) (stored : String → Option NodeExecution) (e : NodeExecution)
    (now : String) (target : Target) (name : String) (handoff : Text) where
  pub record IsClimbing (at : Climb) : Type 0 where
    pub left : IsLeft e now target name handoff at.changes at.last
    pub decided : at.last.returned ≡ some (decision_of at.next at.next_name at.last.execution_id)
    pub later : e.visit ≤ at.terminal_visit

  -- From one round of the loop to a later one, over the callers between.
  pub record IsClimbed (from : Climb) (frames : List CallFrame) (to : Climb) : Type 0 where
    pub climbing : IsClimbing to
    pub callers : ℕ
    pub leads : Leads run from.next frames callers to.frames to.next
    pub count : length to.changes ≡ length from.changes + callers
    pub root : (r : String) → to.next ≡ to_return r → length to.frames ≡ 1

  record IsTaken (from : Climb) (f : CallFrame) (r : String) (to : Climb) : Type 0 where
    climbing : IsClimbing to
    mapped : mapped_return (frame_node run f) r ≡ some to.next
    count : length to.changes ≡ suc (length from.changes)

  taken :
      (f : CallFrame) (r : String) (at : Climb)
      → IsClimbing at
      → EachOk (IsTaken at f r) (take_return run stored now handoff f r at)
  unfolding take_return exit_execution return_child change
  taken f r at h = elim (Option-cases (pending_child (stored f.execution_id))) [
    | inl refused ↦ rw (refused, take_return) tt
    | inr ((p, c), found) ↦ elim (Option-cases (mapped_return (frame_node run f) r)) [
      | inl unmapped ↦ rw (found, unmapped, take_return) tt
      | inr (t, mapped) ↦
          let left = exit_execution (return_child p c at.last.execution_id handoff) now t r in
          let c = change left (EventType.child_returned ∷ EventType.exited ∷ []) in
          rw (found, mapped, take_return)
            (record {
              climbing = record {
                left = record {
                  first = first_change-append at.changes c _ h.left.first;
                  chain = IsChain-append handoff at.changes c at.last h.left.chain h.left.end refl;
                  end = rw (last_change-append at.changes c) refl;
                  gone = refl;
                };
                decided = refl;
                later = omega (arith, h.later);
              };
              mapped = mapped;
              count = omega (arith, length-append at.changes (c ∷ []));
            })
    ]
  ]

  stays :
      (frames : List CallFrame) (at : Climb)
      → IsClimbing at
      → ((r : String) → at.next ≡ to_return r → length frames ≡ 1)
      → IsClimbed at frames (record at { frames = frames })
  stays frames at h root = record {
    climbing = record { left = h.left; decided = h.decided; later = h.later };
    callers = 0;
    leads = Leads.here;
    count = omega arith;
    root = root;
  }

  climb_node :
      (f g : CallFrame) (frames : List CallFrame) (at : Climb) (n : String)
      → at.next ≡ to_node n
      → ok (record at { frames = f ∷ g ∷ frames }) ≡ climb run stored now handoff f (g ∷ frames) at
  unfolding climb
  climb_node f g frames at n to = ground (arith, to)

  climb_return :
      (f g : CallFrame) (frames : List CallFrame) (at : Climb) (r : String)
      → at.next ≡ to_return r
      → (take_return run stored now handoff g r at >>= climb run stored now handoff g frames)
        ≡ climb run stored now handoff f (g ∷ frames) at
  unfolding climb
  climb_return f g frames at r to = rw (to, climb) refl

  pub climbed :
      (f : CallFrame) (frames : List CallFrame) (at : Climb)
      → IsClimbing at
      → EachOk (IsClimbed at (f ∷ frames)) (climb run stored now handoff f frames at)
  unfolding climb
  climbed f [] at h = stays (f ∷ []) at h (λ r to. refl)
  climbed f (g ∷ frames) at h = elim (Target-cases at.next) [
    | inl (n, to) ↦
        subst (EachOk (IsClimbed at (f ∷ g ∷ frames))) (climb_node f g frames at n to)
          (stays (f ∷ g ∷ frames) at h (λ r back. absurd (ground (arith, to, back))))
    | inr (r, to) ↦
        subst (EachOk (IsClimbed at (f ∷ g ∷ frames))) (climb_return f g frames at r to) (
          EachOk->>= (IsTaken at g r) (IsClimbed at (f ∷ g ∷ frames))
            (take_return run stored now handoff g r at) (climb run stored now handoff g frames)
            (taken g r at h)
            (λ moved step.
              EachOk-weaken _ (onward moved r step to) (climbed g frames moved step.climbing)))
  ]
    where
      onward :
          (moved : Climb) (r : String)
          → IsTaken at g r moved
          → at.next ≡ to_return r
          → (last : Climb) → IsClimbed moved (g ∷ frames) last
          → IsClimbed at (f ∷ g ∷ frames) last
      onward moved r step to last done = record {
        climbing = done.climbing;
        callers = suc done.callers;
        leads = rw to (Leads.climbs step.mapped done.leads);
        count = omega (arith, done.count, step.count);
        root = done.root;
      }
