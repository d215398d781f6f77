-- ===== src/State/Checks.antt =====
-- src/state/invariants.ts, `checkExecutionInvariants`: its checks in groups, in the order of the
-- source. A group yields the problems that it finds.
use dsh_workflow_plugin.Prelude.{
  String, Text, is_empty, is_id, leb, nat_eq, Bool, true, false, ◌&&◌, ◌||◌, not, ◌==◌, Option,
  none, some, is_some, is_none, List, [], ◌∷◌, ◌++◌, includes,
}
use dsh_workflow_plugin.Types.Graph.{
  NodeDef, actor_task, builtin_program, child_workflow, WorkflowDef, declared_results,
}
use dsh_workflow_plugin.Types.Execution.{
  NodeExecution, ExecutionJudge, ExecutionJudgment, ExecutionResolution, Returned, ReturnedKind,
  ResolutionTarget, JudgeMode, followup, ProgramOutcome, error,
}
use dsh_workflow_plugin.State.Tests.{
  when, is_id_of, claim_id, is_ready, is_working, is_checking, is_settling, is_exited, is_reject,
  is_accept, is_need_context, is_current, has_current, is_program_node, child_target,
  has_actor_materials, has_result,
}

abbrev is_error : Option ProgramOutcome → Bool
is_error (some (error reason)) = true
is_error _ = false

abbrev outcome_of : NodeExecution → Option ProgramOutcome
outcome_of e = elim e.program [ none ↦ none | some p ↦ p.result ]

abbrev child_returned : NodeExecution → Bool
child_returned e = elim e.child [ none ↦ false | some c ↦ is_some c.result ]

-- Which materials fit the kind of the node.
unfoldable pub position_problems : Option NodeDef → String → String → NodeExecution → List String
position_problems node run_id workflow_id e =
    when (not (e.run_id == run_id)) "execution belongs to another run"
    ++ when (is_none node) "execution position is absent from definitionSnapshot"
    ++ when (is_some e.program && not (is_program_node node))
        "Program materials require a builtin-program execution"
    ++ elim e.child [
      | none ↦ []
      | some c ↦
          when (not (is_id_of c.workflow_id (child_target node)))
            "Child materials do not match the child-workflow execution"
    ]

program_problems : NodeExecution → List String
program_problems e =
    when (has_actor_materials e || is_some e.resolution)
      "builtin-program cannot carry Actor/Judge materials"
    ++ when (is_checking e.phase) "builtin-program cannot enter checking"
    ++ when (is_ready e.phase && is_some e.program) "ready Program cannot have an invocation"
    ++ when (is_working e.phase && (is_none e.program || has_result e.program))
        "working Program requires one unresolved invocation"
    ++ when (is_settling e.phase && not (has_result e.program))
        "settling Program requires a known result"
    ++ when (is_exited e.phase && (not (has_result e.program) || is_error (outcome_of e)))
        "exited Program requires PASS or FAIL result"

abbrev is_child_target : ExecutionResolution → Bool
is_child_target r = elim r.target [ ResolutionTarget.child ↦ true | _ ↦ false ]

abbrev is_judge_target : ExecutionResolution → Bool
is_judge_target r = elim r.target [ ResolutionTarget.judge ↦ true | _ ↦ false ]

abbrev is_actor_target : ExecutionResolution → Bool
is_actor_target r = elim r.target [ ResolutionTarget.actor ↦ true | _ ↦ false ]

child_problems : NodeExecution → List String
child_problems e =
    when (has_actor_materials e || is_some e.program)
      "child-workflow cannot carry Actor/Judge/Program materials"
    ++ elim e.resolution [
      | none ↦ []
      | some r ↦ when (not (is_child_target r)) "Child recovery metadata must target child"
    ]
    ++ when (is_checking e.phase || is_settling e.phase)
        "child-workflow has no checking or settling phase"
    ++ when (is_ready e.phase && is_some e.child) "ready Child caller cannot have an invocation"
    ++ when (is_working e.phase && (is_none e.child || child_returned e))
        "working Child caller requires one pending Child"
    ++ when (is_exited e.phase && not (child_returned e))
        "exited Child caller requires a returned Child result"

-- The checks that only one kind of node has.
unfoldable pub kind_problems : Option NodeDef → NodeExecution → List String
unfolding program_problems child_problems
kind_problems (some (builtin_program n)) e = program_problems e
kind_problems (some (child_workflow n)) e = child_problems e
kind_problems (some (actor_task n)) e = []
kind_problems none e = []

abbrev pub declares_return : Option WorkflowDef → String → Bool
declares_return none name = false
declares_return (some d) name = includes name d.returns

returned_name_problems : Option WorkflowDef → Option NodeDef → Returned → List String
returned_name_problems def node r = elim r.kind [
  | ReturnedKind.return ↦ elim (is_id r.name) [
    | false ↦ "workflow return name must be a lowercase id" ∷ []
    | true ↦
        when (not (declares_return def r.name))
          "workflow return name is not declared by this workflow"
  ]
  | ReturnedKind.result ↦
      when (is_some node && not (includes r.name (declared_results node)))
        "node result name is not declared by this node"
]

-- The exit and the decision that it carries.
unfoldable pub exit_problems : Option WorkflowDef → Option NodeDef → NodeExecution → List String
unfolding returned_name_problems
exit_problems def node e =
    when
      ((is_exited e.phase && is_none e.exited_at)
        || (not (is_exited e.phase) && is_some e.exited_at))
      "exited phase/time mismatch"
    ++ elim e.returned [
      | none ↦ []
      | some r ↦
          when (not (is_exited e.phase)) "returned is only valid on an exited execution"
          ++ when (not (r.source == e.execution_id)) "returned source must be this execution"
          ++ returned_name_problems def node r
    ]

abbrev dispatch_id : NodeExecution → Option String
dispatch_id e = elim e.dispatch [ none ↦ none | some d ↦ some d.id ]

-- A claim belongs to the dispatch, a Judge to the claim.
unfoldable pub binding_problems : NodeExecution → List String
binding_problems e =
    elim e.claim [
      | none ↦ []
      | some c ↦ when (not (is_id_of c.dispatch_id (dispatch_id e))) "claim dispatch mismatch"
    ]
    ++ elim e.judge [
      | none ↦ []
      | some j ↦
          when
            (not (is_id_of j.claim_id (claim_id e.claim))
              || not (nat_eq j.input_version e.input_version))
            "judge claim/input mismatch"
    ]

-- The judgment names this Judge: its dispatch and its session.
abbrev names_judge : ExecutionJudgment → Option ExecutionJudge → Bool
names_judge j none = false
names_judge j (some k) = j.judge_dispatch_id == k.id && j.judge_session_id == k.session_id

-- It names this earlier Judge, whose claim and input it had.
abbrev names_previous : ExecutionJudgment → Option ExecutionJudge → Bool
names_previous j none = false
names_previous j (some k) =
    j.judge_dispatch_id == k.id
    && j.judge_session_id == k.session_id
    && j.claim_id == k.claim_id
    && nat_eq j.input_version k.input_version

-- A judgment of this claim at this input.
current_problems : NodeExecution → ExecutionJudgment → List String
current_problems e j =
    when (is_reject j.result) "REJECT cannot be a current judgment"
    ++ when (not (names_judge j e.judge)) "judgment dispatch/session mismatch"

-- A judgment that a later input has superseded.
historical_problems : NodeExecution → ExecutionJudgment → List String
historical_problems e j =
    when
      (not (is_id_of j.claim_id (claim_id e.claim))
        && not (is_id_of j.claim_id (claim_id e.previous_claim)))
      "judgment claim mismatch"
    ++ when (is_accept j.result) "ACCEPT must be the current conclusion"
    ++ when (is_reject j.result && not (is_id_of j.claim_id (claim_id e.previous_claim)))
        "historical REJECT must target previous claim"
    ++ when (leb e.input_version j.input_version)
        "historical judgment must have an older input version"
    ++ when (not (names_previous j e.previous_judge)) "historical judgment/Judge mismatch"

unfoldable pub judgment_problems : NodeExecution → List String
unfolding current_problems historical_problems
judgment_problems e =
    when (is_some e.previous_judge && (is_none e.judgment || has_current e))
      "previous Judge requires a historical judgment"
    ++ elim e.judgment [
      | none ↦ []
      | some j ↦ elim (is_current e j) [
        | true ↦ current_problems e j
        | false ↦ historical_problems e j
      ]
    ]

abbrev absent_or_empty : Option Text → Bool
absent_or_empty none = true
absent_or_empty (some t) = is_empty t

abbrev pub is_followup : Option JudgeMode → Bool
is_followup (some followup) = true
is_followup _ = false

abbrev session_of : Option ExecutionJudge → Option String
session_of none = none
session_of (some j) = some j.session_id

abbrev session_is : Option String → Option String → Bool
session_is none b = false
session_is (some a) b = is_id_of a b

-- A followup continues the Judge of this input, or the Judge that asked for context.
binds_followup : NodeExecution → ExecutionResolution → Bool
binds_followup e r =
    (elim e.judgment [
      | none ↦ false
      | some j ↦
          is_need_context j.result
          && not (is_current e j)
          && is_id_of j.claim_id (claim_id e.claim)
          && names_judge j e.previous_judge
          && session_is r.judge_session_id (session_of e.previous_judge)
    ])
    || (elim e.judge [
      | none ↦ false
      | some k ↦
          not (has_current e)
          && is_id_of k.claim_id (claim_id e.claim)
          && nat_eq k.input_version e.input_version
          && session_is r.judge_session_id (some k.session_id)
    ])

resolution_problems_of : NodeExecution → ExecutionResolution → List String
unfolding binds_followup
resolution_problems_of e r =
    when (absent_or_empty r.context && absent_or_empty r.decision)
      "resolution requires context or decision"
    ++ when (not (nat_eq r.input_version e.input_version)) "resolution input version mismatch"
    ++ when (is_judge_target r && is_none e.claim) "judge resolution requires claim"
    ++ when (is_judge_target r && not (has_current e) && is_none r.judge_mode)
        "judge resolution requires a recovery mode"
    ++ when
        (is_judge_target r && has_current e && (is_some r.judge_mode || is_some r.judge_session_id))
        "current judgment cannot retain Judge recovery mode"
    ++ when (not (is_judge_target r) && (is_some r.judge_mode || is_some r.judge_session_id))
        "Judge recovery metadata requires judge target"
    ++ when (r.skip_compact && not (is_actor_target r)) "skipCompact requires actor target"
    ++ when
        ((is_followup r.judge_mode && is_none r.judge_session_id)
          || (not (is_followup r.judge_mode) && is_some r.judge_session_id))
        "Judge followup requires exactly one Session id"
    ++ when (is_followup r.judge_mode && not (binds_followup e r))
        "Judge followup must bind the exact current recovery or historical NEED_CONTEXT Judge"

unfoldable pub resolution_problems : NodeExecution → List String
unfolding resolution_problems_of
resolution_problems e = elim e.resolution [ none ↦ [] | some r ↦ resolution_problems_of e r ]

unfoldable pub phase_problems : NodeExecution → List String
phase_problems e = when (is_checking e.phase && is_none e.claim) "checking requires claim"
