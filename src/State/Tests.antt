-- ===== src/State/Tests.antt =====
-- src/state/invariants.ts: the tests that its checks are made of.
use dsh_workflow_plugin.Prelude.{
  String, nat_eq, Bool, true, false, ◌&&◌, ◌||◌, ◌==◌, Option, none, some, is_some, opt_bind, List,
  [], ◌∷◌, lookup,
}
use dsh_workflow_plugin.Types.Graph.{NodeDef, builtin_program, child_workflow, WorkflowDef}
use dsh_workflow_plugin.Types.Execution.{
  NodeExecution, ExecutionProgram, ExecutionJudgment, ExecutionClaim, Phase, ready, working,
  checking, settling, exited, JudgeVerdict,
}
use dsh_workflow_plugin.Types.Run.{RunState}

abbrev pub when : Bool → String → List String
when true problem = problem ∷ []
when false problem = []

-- `a === b` for identities of which one may be absent.
abbrev pub is_id_of : String → Option String → Bool
is_id_of a none = false
is_id_of a (some b) = a == b

abbrev pub claim_id : Option ExecutionClaim → Option String
claim_id none = none
claim_id (some c) = some c.id

-- `e.phase === p`.
abbrev pub is_ready : Phase → Bool
is_ready ready = true
is_ready _ = false

abbrev pub is_working : Phase → Bool
is_working working = true
is_working _ = false

abbrev pub is_checking : Phase → Bool
is_checking checking = true
is_checking _ = false

abbrev pub is_settling : Phase → Bool
is_settling settling = true
is_settling _ = false

abbrev pub is_exited : Phase → Bool
is_exited exited = true
is_exited _ = false

abbrev pub is_reject : JudgeVerdict → Bool
is_reject JudgeVerdict.reject = true
is_reject _ = false

abbrev pub is_accept : JudgeVerdict → Bool
is_accept JudgeVerdict.accept = true
is_accept _ = false

abbrev pub is_need_context : JudgeVerdict → Bool
is_need_context JudgeVerdict.need_context = true
is_need_context _ = false

-- The workflow that a frame stands in.
unfoldable pub workflow_def : RunState → String → Option WorkflowDef
workflow_def run workflow_id = elim (workflow_id == run.catalog_workflow_id) [
  | true ↦ some run.definition_snapshot.workflow
  | false ↦ opt_bind run.definition_snapshot.child_workflows (λ m. lookup workflow_id m)
]

unfoldable pub node_in : RunState → String → String → Option NodeDef
node_in run workflow_id node_id =
    opt_bind (workflow_def run workflow_id) (λ d. lookup node_id d.nodes)

abbrev pub is_program_node : Option NodeDef → Bool
is_program_node (some (builtin_program n)) = true
is_program_node _ = false

abbrev pub child_target : Option NodeDef → Option String
child_target (some (child_workflow n)) = some n.workflow_id
child_target _ = none

-- `alignedJudgment` of the engine, the same test.
pub is_current : NodeExecution → ExecutionJudgment → Bool
is_current e j = nat_eq j.input_version e.input_version && is_id_of j.claim_id (claim_id e.claim)

unfoldable pub has_current : NodeExecution → Bool
unfolding is_current
has_current e = elim e.judgment [ none ↦ false | some j ↦ is_current e j ]

-- Any material of an Actor or a Judge but a resolution.
unfoldable pub has_actor_materials : NodeExecution → Bool
has_actor_materials e =
    is_some e.dispatch
    || is_some e.previous_dispatch
    || is_some e.boundary
    || is_some e.claim
    || is_some e.previous_claim
    || is_some e.judge
    || is_some e.previous_judge
    || is_some e.judgment

abbrev pub has_result : Option ExecutionProgram → Bool
has_result none = false
has_result (some p) = is_some p.result
