-- ===== src/State/Schema.antt =====
-- src/state/invariants.ts, `executionSchema`: the bounds of a persisted execution. The shapes
-- themselves are the records of the model. The two formats that zod decides are parameters.
use dsh_workflow_plugin.Prelude.{
  ℕ, String, Text, codes, length, trim, leb, is_id, Bool, true, false, ◌&&◌, not, ◌==◌, Option,
  none, some, [], ◌∷◌, Assoc,
}
use dsh_workflow_plugin.Types.Limits
use dsh_workflow_plugin.Types.Graph.{Value, text, number, other}
use dsh_workflow_plugin.Types.Routes.{Route}
use dsh_workflow_plugin.Types.Execution.{
  NodeExecution, ExecutionDispatch, ExecutionJudge, ExecutionClaim, ExecutionJudgment,
  ExecutionResolution, ExecutionProgram, ExecutionChild, ProgramOutcome, done, error, Returned,
  NodeContextBoundary,
}

-- `z.uuid()` and `z.iso.datetime()`.
pub record Formats : Type 0 where
  pub is_uuid : String → Bool
  pub is_datetime : String → Bool

-- `z.string().min(1)`.
abbrev pub filled : String → Bool
filled s = not (s == "")

abbrev pub filled_text : Text → Bool
filled_text [] = false
filled_text (c ∷ s) = true

-- `z.string().trim().min(1).max(n)`.
abbrev bounded : ℕ → Text → Bool
bounded n s = leb 1 (length (trim s)) && leb (length (trim s)) n

-- `schema.optional()`.
abbrev pub optional {ℓ} : {A : Type ℓ} → (A → Bool) → Option A → Bool
optional test none = true
optional test (some a) = test a

pub route_schema : Route → Bool
route_schema r =
    optional filled_text r.provider
    && optional filled_text r.model_id
    && optional filled_text r.reasoning_effort

dispatch_schema : ExecutionDispatch → Bool
dispatch_schema d =
    filled d.id
    && optional filled d.session_id
    && optional filled d.message_id
    && optional route_schema d.model

judge_schema : ExecutionJudge → Bool
judge_schema j =
    filled j.id
    && filled j.session_id
    && optional filled j.message_id
    && optional route_schema j.model
    && filled j.claim_id

claim_schema : ExecutionClaim → Bool
claim_schema c =
    filled c.id && filled c.dispatch_id && is_id c.result && bounded Limits.handoff_max c.handoff

judgment_schema : ExecutionJudgment → Bool
judgment_schema j =
    bounded Limits.reason_max j.reason
    && filled j.claim_id
    && filled j.judge_dispatch_id
    && filled j.judge_session_id

resolution_schema : ExecutionResolution → Bool
resolution_schema r =
    optional (bounded Limits.resolution_max) r.context
    && optional (bounded Limits.reason_max) r.decision
    && optional filled r.judge_session_id
    && optional (bounded Limits.block_reason_max) r.failover

parameter_schema : Value → Bool
parameter_schema (text t) = leb (length t) Limits.program_parameters_max
parameter_schema (number n) = true
parameter_schema other = false

parameters_schema : Assoc Value → Bool
unfolding parameter_schema
parameters_schema [] = true
parameters_schema ((k, v) ∷ m) = parameter_schema v && parameters_schema m

outcome_schema : ProgramOutcome → Bool
outcome_schema (done kind handoff reason) =
    bounded Limits.handoff_max handoff
    && optional (λ t. leb (length t) Limits.block_reason_max) reason
outcome_schema (error reason) = bounded Limits.block_reason_max reason

program_schema : ExecutionProgram → Bool
unfolding parameters_schema
program_schema p = filled p.id && parameters_schema p.parameters && optional outcome_schema p.result

child_schema : ExecutionChild → Bool
child_schema c =
    filled c.workflow_id
    && filled c.execution_id
    && optional (λ r. filled r.terminal_execution_id && bounded Limits.handoff_max r.handoff)
        c.result

returned_schema : Returned → Bool
returned_schema r = filled r.name && leb (length (codes r.name)) 64 && filled r.source

boundary_schema : NodeContextBoundary → Bool
boundary_schema b =
    optional filled b.executor_session_id && optional filled b.executor_dispatch_message_id

-- The identity columns.
identity_schema : Formats → NodeExecution → Bool
identity_schema fmt e =
    filled e.execution_id
    && filled e.run_id
    && filled e.workflow_id
    && filled e.node_id
    && fmt.is_uuid e.node_token
    && leb 1 e.visit
    && optional filled e.predecessor_id
    && optional filled e.successor_id
    && fmt.is_datetime e.entered_at
    && optional fmt.is_datetime e.exited_at

-- The materials of an Actor and its Judge.
actor_schema : NodeExecution → Bool
actor_schema e =
    optional boundary_schema e.boundary
    && optional dispatch_schema e.dispatch
    && optional dispatch_schema e.previous_dispatch
    && optional claim_schema e.claim
    && optional claim_schema e.previous_claim
    && optional judge_schema e.judge
    && optional judge_schema e.previous_judge
    && optional judgment_schema e.judgment
    && optional resolution_schema e.resolution

-- The materials of a program, a child call and the exit.
outcome_schemas : NodeExecution → Bool
outcome_schemas e =
    optional program_schema e.program
    && optional child_schema e.child
    && optional returned_schema e.returned
    && optional filled_text e.block_reason

unfoldable pub execution_schema : Formats → NodeExecution → Bool
unfolding identity_schema actor_schema outcome_schemas boundary_schema dispatch_schema claim_schema
    judge_schema judgment_schema resolution_schema program_schema child_schema returned_schema
    route_schema outcome_schema
execution_schema fmt e = identity_schema fmt e && actor_schema e && outcome_schemas e
