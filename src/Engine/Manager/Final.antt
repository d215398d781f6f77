-- ===== src/Engine/Manager/Final.antt =====
-- A run that is over stays as it is, whatever is submitted, and a reset ends a run so.
use dsh_workflow_plugin.Prelude.{
  ℕ, suc, String, Text, trim, is_empty, ltb, length, Bool, true, false, ◌||◌, Option, none, some,
  List, [], ◌∷◌, Assoc, ◌≡◌, refl, arith, EachOk, Bool-cases, Result-cases, ◌⊎◌, inl, inr,
}
use dsh_workflow_plugin.Types.Limits
use dsh_workflow_plugin.Types.Graph.{Value}
use dsh_workflow_plugin.Types.Execution.{
  NodeExecution, JudgeVerdict, ProgramKind, ResumeTarget, CallFrame,
}
use dsh_workflow_plugin.Types.Run.{is_running, is_blocked, is_completed, is_terminated, terminated}
use dsh_workflow_plugin.Types.Claims.{Unknown, ClaimCaller, normalize_node_claim}
use dsh_workflow_plugin.Roles.Failures.{ActorFailureFacts}
use dsh_workflow_plugin.Engine.Base.{RuntimeRow, Act, put}
use dsh_workflow_plugin.Engine.Claim.{handle_claim, claim_running}
use dsh_workflow_plugin.Engine.Judging.{handle_judge_claim}
use dsh_workflow_plugin.Engine.TurnEnd.{TurnAnswers, handle_turn_ended}
use dsh_workflow_plugin.Engine.Program.Running.{ProgramAnswers, handle_run_program}
use dsh_workflow_plugin.Engine.Program.Resolving.{handle_resolve_program, resolve_row}
use dsh_workflow_plugin.Engine.Manager.Blocking.{handle_block}
use dsh_workflow_plugin.Engine.Manager.Models.{SettingAnswers, handle_set_role_model}
use dsh_workflow_plugin.Engine.Manager.Rejudging.{ResumeAnswers}
use dsh_workflow_plugin.Engine.Manager.Resuming.{handle_resume, resume_row}
use dsh_workflow_plugin.Engine.Manager.Respawn.{RespawnAnswers, handle_respawn_judge, respawn_row}
use dsh_workflow_plugin.Engine.Manager.Ending.{handle_reset, handle_restart_reconcile}

-- No handler acts on the row: none writes, announces or drives anything.
pub record IsFinal (row : RuntimeRow) : Type 0 where
  pub claims :
      (fresh : ℕ → String) (input : Assoc Unknown) (caller : ClaimCaller)
      → (handle_claim (some row) fresh input caller).acts ≡ []
  pub judgments :
      (token : String) (verdict : JudgeVerdict) (text : Text) (caller : ClaimCaller)
      (stored : String → Option NodeExecution) (fresh : ℕ → String) (now : String)
      → EachOk
          (λ r. r.acts ≡ [])
          (handle_judge_claim (some row) token verdict text caller stored fresh now)
  pub turn_ends :
      (answers : TurnAnswers) (caller : ClaimCaller) (facts : Option ActorFailureFacts)
      → handle_turn_ended (some row) answers caller facts ≡ []
  pub blocks :
      (token : Option String) (text : Text) (caller : ClaimCaller)
      → (handle_block (some row) token text caller).acts ≡ []
  pub resumptions :
      (token : String) (text : Text) (caller : String) (target : ResumeTarget) (skip : Bool)
      (answers : ResumeAnswers)
      → (handle_resume (some row) token text caller target skip answers).acts ≡ []
  pub respawns :
      (token : String) (text : Text) (caller : String) (answers : RespawnAnswers)
      → (handle_respawn_judge (some row) token text caller answers).acts ≡ []
  pub programs :
      (token : String) (supplied : Assoc Value) (caller : String) (answers : ProgramAnswers)
      → (handle_run_program (some row) token supplied caller answers).acts ≡ []
  pub resolutions :
      (token : String) (kind : ProgramKind) (text : Text) (caller : String)
      (stored : String → Option NodeExecution) (fresh : ℕ → String) (now : String)
      → EachOk
          (λ r. r.acts ≡ [])
          (handle_resolve_program (some row) token kind text caller stored fresh now)
  pub models :
      (role : String) (provider model : Text) (effort : Option Text) (caller : String)
      (answers : SettingAnswers)
      → (handle_set_role_model (some row) role provider model effort caller answers).acts ≡ []
  pub resets : (root : Bool) (fresh : ℕ → String) → (handle_reset (some row) root fresh).acts ≡ []
  pub restarts : handle_restart_reconcile (row ∷ []) ≡ []

module _ (row : RuntimeRow)
    (over : (is_completed row.run.status || is_terminated row.run.status) ≡ true) where
  not_running : is_running row.run.status ≡ false
  not_running = ground (arith, over)

  not_blocked : is_blocked row.run.status ≡ false
  not_blocked = ground (arith, over)

  final_claims :
      (fresh : ℕ → String) (input : Assoc Unknown) (caller : ClaimCaller)
      → (handle_claim (some row) fresh input caller).acts ≡ []
  unfolding handle_claim claim_running
  final_claims fresh input caller = elim (Result-cases (normalize_node_claim input)) [
    | inl (c, fine) ↦ rw (fine, not_running, handle_claim, claim_running) refl
    | inr (reason, malformed) ↦ rw (malformed, handle_claim) refl
  ]

  final_judgments :
      (token : String) (verdict : JudgeVerdict) (text : Text) (caller : ClaimCaller)
      (stored : String → Option NodeExecution) (fresh : ℕ → String) (now : String)
      → EachOk
          (λ r. r.acts ≡ [])
          (handle_judge_claim (some row) token verdict text caller stored fresh now)
  unfolding handle_judge_claim
  final_judgments token verdict text caller stored fresh now =
      elim (Bool-cases (is_empty (trim text) || ltb Limits.reason_max (length (trim text)))) [
        | inl malformed ↦ rw (malformed, handle_judge_claim) refl
        | inr fine ↦ rw (fine, not_running, handle_judge_claim) refl
      ]

  final_resumptions :
      (token : String) (text : Text) (caller : String) (target : ResumeTarget) (skip : Bool)
      (answers : ResumeAnswers)
      → (handle_resume (some row) token text caller target skip answers).acts ≡ []
  unfolding handle_resume resume_row
  final_resumptions token text caller target skip answers =
      elim (Bool-cases (is_empty (trim text) || ltb Limits.resolution_max (length (trim text)))) [
        | inl malformed ↦ rw (malformed, handle_resume) refl
        | inr fine ↦ rw (fine, not_blocked, handle_resume) refl
      ]

  final_respawns :
      (token : String) (text : Text) (caller : String) (answers : RespawnAnswers)
      → (handle_respawn_judge (some row) token text caller answers).acts ≡ []
  unfolding handle_respawn_judge respawn_row
  final_respawns token text caller answers =
      elim (Bool-cases (ltb Limits.reason_max (length (trim text)))) [
        | inl malformed ↦ rw (malformed, handle_respawn_judge) refl
        | inr fine ↦ rw (fine, not_running, not_blocked, handle_respawn_judge) refl
      ]

  final_resolutions :
      (token : String) (kind : ProgramKind) (text : Text) (caller : String)
      (stored : String → Option NodeExecution) (fresh : ℕ → String) (now : String)
      → EachOk
          (λ r. r.acts ≡ [])
          (handle_resolve_program (some row) token kind text caller stored fresh now)
  unfolding handle_resolve_program resolve_row
  final_resolutions token kind text caller stored fresh now =
      elim (Bool-cases (is_empty (trim text) || ltb Limits.block_reason_max (length (trim text)))) [
        | inl malformed ↦ rw (malformed, handle_resolve_program) refl
        | inr fine ↦ rw (fine, not_blocked, handle_resolve_program, resolve_row) refl
      ]

  final_resets : (root : Bool) (fresh : ℕ → String) → (handle_reset (some row) root fresh).acts ≡ []
  unfolding handle_reset
  final_resets false fresh = refl
  final_resets true fresh = rw (not_running, not_blocked, handle_reset) refl

  -- On a run that is completed or terminated, no handler acts any more: a claim, a judgment, the
  -- end of a turn, a block, a resumption, a respawn of the Judge, the run and the resolution of a
  -- program, a new model, a reset and a restart of the host write, announce and drive nothing,
  -- whatever is submitted by whom and whatever is answered.
  pub over-IsFinal : IsFinal row
  unfolding handle_turn_ended handle_block handle_run_program handle_set_role_model
      handle_restart_reconcile
  over-IsFinal = record {
    claims = final_claims;
    judgments = final_judgments;
    turn_ends = λ answers caller facts. rw (not_running, handle_turn_ended) refl;
    blocks = λ token text caller. rw (not_running, handle_block) refl;
    resumptions = final_resumptions;
    respawns = final_respawns;
    programs =
        λ token supplied caller answers. rw (not_running, not_blocked, handle_run_program) refl;
    resolutions = final_resolutions;
    models = λ role provider model effort caller answers. rw (over, handle_set_role_model) refl;
    resets = final_resets;
    restarts = reconciled;
  }
    where
      reconciled : handle_restart_reconcile (row ∷ []) ≡ []
      reconciled = elim (Bool-cases (is_completed row.run.status)) [
        | inl done ↦ rw (done, handle_restart_reconcile) refl
        | inr not_done ↦
            let ended : is_terminated row.run.status ≡ true = ground (arith, over, not_done) in
            rw (not_done, ended, handle_restart_reconcile) refl
      ]

-- The row that acts leave, where they begin with a write.
abbrev pub written_row : RuntimeRow → List Act → RuntimeRow
written_row row (put run version (c ∷ cs) ∷ acts) = record {
  run = run;
  execution = c.execution;
  version = suc version;
}
written_row row _ = row

abbrev top_token : List CallFrame → Option String
top_token [] = none
top_token (frame ∷ frames) = some frame.node_token

-- The row of a run that a reset has ended.
pub record IsReset (before after : RuntimeRow) : Type 0 where
  pub ended : after.run.status ≡ terminated
  pub final : IsFinal after
  pub next : after.version ≡ suc before.version
  pub same_depth : length after.run.call_stack ≡ length before.run.call_stack
  pub retokened :
      (before.run.call_stack ≡ [])
      ⊎ (top_token after.run.call_stack ≡ some after.execution.node_token)
  pub not_pending : after.execution.restart_pending ≡ false
