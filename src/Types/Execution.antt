-- ===== src/Types/Execution.antt =====
-- src/types.ts: `NodeExecution`, the one current material of a visit of a node, and its parts.
-- An optional Boolean key that the code only tests for truth is a Boolean, false where it is absent.
use dsh_workflow_plugin.Prelude.{ℕ, String, Text, Assoc, Bool, Option, List}
use dsh_workflow_plugin.Types.Routes.{Route, RoleRouteStage}
use dsh_workflow_plugin.Types.Graph.{Value}

pub data JudgeVerdict : Type 0 where
  accept reject need_context : JudgeVerdict

pub record CallFrame : Type 0 where
  pub workflow_id : String
  pub node_id : String
  pub node_token : String
  pub execution_id : String

pub record NodeContextBoundary : Type 0 where
  pub dispatched_at : ℕ
  pub manager_from_seq : ℕ
  pub executor_session_id : Option String
  pub executor_dispatch_message_id : Option String

pub record ExecutionDispatch : Type 0 where
  pub id : String
  pub session_id : Option String
  pub message_id : Option String
  pub settled : Bool
  pub model : Option Route
  pub source : Option RoleRouteStage

pub record NodeClaim : Type 0 where
  pub result : String
  pub handoff : Text

pub record ExecutionClaim : Type 0 where
  pub id : String
  pub dispatch_id : String
  pub result : String
  pub handoff : Text

-- A dispatch whose session is always known.
pub record ExecutionJudge : Type 0 where
  pub id : String
  pub session_id : String
  pub message_id : Option String
  pub settled : Bool
  pub model : Option Route
  pub source : Option RoleRouteStage
  pub claim_id : String
  pub input_version : ℕ

pub record ExecutionJudgment : Type 0 where
  pub result : JudgeVerdict
  pub reason : Text
  pub claim_id : String
  pub judge_dispatch_id : String
  pub judge_session_id : String
  pub input_version : ℕ

-- `ResumeTarget`, and the targets of a stored resolution.
pub data ResumeTarget : Type 0 where
  auto actor judge : ResumeTarget

pub data ResolutionTarget : Type 0 where
  actor judge child : ResolutionTarget

pub data JudgeMode : Type 0 where
  followup fresh : JudgeMode

pub record ExecutionResolution : Type 0 where
  pub target : ResolutionTarget
  pub context : Option Text
  pub skip_compact : Bool
  pub decision : Option Text
  pub failover : Option Text
  pub judge_mode : Option JudgeMode
  pub judge_session_id : Option String
  pub input_version : ℕ

pub data ProgramKind : Type 0 where
  pass fail : ProgramKind

-- The settled result of a program.
pub data ProgramOutcome : Type 0 where
  done : ProgramKind → (handoff : Text) → (reason : Option Text) → ProgramOutcome
  error : (reason : Text) → ProgramOutcome

-- What the program itself returns.
pub data ProgramResult : Type 0 where
  pass : (handoff : Option Text) → ProgramResult
  fail : (reason : Option Text) → (handoff : Option Text) → ProgramResult
  error : (reason : Text) → ProgramResult

pub record ExecutionProgram : Type 0 where
  pub id : String
  pub parameters : Assoc Value
  pub result : Option ProgramOutcome

pub record ChildResult : Type 0 where
  pub terminal_execution_id : String
  pub handoff : Text

pub record ExecutionChild : Type 0 where
  pub workflow_id : String
  pub execution_id : String
  pub result : Option ChildResult

pub data Phase : Type 0 where
  ready working checking settling exited : Phase

pub data ReturnedKind : Type 0 where
  result return : ReturnedKind

pub record Returned : Type 0 where
  pub kind : ReturnedKind
  pub name : String
  pub source : String

pub record NodeExecution : Type 0 where
  pub execution_id : String
  pub run_id : String
  pub workflow_id : String
  pub node_id : String
  pub node_token : String
  pub visit : ℕ
  pub revision : ℕ
  pub input : Text
  pub phase : Phase
  pub role_boundary_prepared : Bool
  pub restart_pending : Bool
  pub predecessor_id : Option String
  pub successor_id : Option String
  pub boundary : Option NodeContextBoundary
  pub dispatch : Option ExecutionDispatch
  pub previous_dispatch : Option ExecutionDispatch
  pub claim : Option ExecutionClaim
  pub previous_claim : Option ExecutionClaim
  pub judge : Option ExecutionJudge
  pub judge_auto_retried : Bool
  pub previous_judge : Option ExecutionJudge
  pub judgment : Option ExecutionJudgment
  pub resolution : Option ExecutionResolution
  pub program : Option ExecutionProgram
  pub child : Option ExecutionChild
  pub returned : Option Returned
  pub input_version : ℕ
  pub block_reason : Option Text
  pub entered_at : String
  pub exited_at : Option String

-- `EVENT_TYPES`.
pub data EventType : Type 0 where
  entered actor_arranged claim judge_arranged judgment exited blocked : EventType
  manager_context resumed judge_respawned interrupted : EventType
  program_ready program_arranged program_result program_resolved : EventType
  child_entered child_returned model_changed terminated : EventType

pub record NodeExecutionEvent : Type 0 where
  pub execution_id : String
  pub sequence : ℕ
  pub type : EventType
  pub snapshot : NodeExecution

pub record ExecutionChange : Type 0 where
  pub execution : NodeExecution
  pub expected_revision : Option ℕ
  pub events : List EventType
