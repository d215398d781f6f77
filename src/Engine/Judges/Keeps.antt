-- ===== src/Engine/Judges/Keeps.antt =====
-- The executions that the dispatch of a Judge writes.
use dsh_workflow_plugin.Prelude.{
  ℕ, String, Text, Bool, true, false, ◌&&◌, ◌==◌, nat_eq, Option, none, some, opt_map, [], ◌≡◌,
  refl, subst, arith, Bool-cases, Option-cases, Result-cases, inl, inr,
}
use dsh_workflow_plugin.Types.Graph.{NodeDef, actor_task, builtin_program, child_workflow}
use dsh_workflow_plugin.Types.Execution.{NodeExecution, ExecutionJudge}
use dsh_workflow_plugin.Types.Run.{RunState}
use dsh_workflow_plugin.State.Tests.{node_in, has_current, has_actor_materials}
use dsh_workflow_plugin.State.Checks.{
  position_problems, kind_problems, exit_problems, binding_problems, judgment_problems,
  resolution_problems, phase_problems,
}
use dsh_workflow_plugin.State.Valid.{IsConsistent}
use dsh_workflow_plugin.Engine.Base.{RuntimeRow, change}
use dsh_workflow_plugin.Engine.Writes.{EachWrite, IsConsistentRow, block_row-IsConsistent}
use dsh_workflow_plugin.Engine.Judges.{
  is_still_current, still_current, JudgeAnswers, dispatch_failed, published, publish, dispatch_sent,
  dispatch_judge,
}

-- The parts of a Judge that no check reads.
abbrev amend :
    (ExecutionJudge → Option String) → (ExecutionJudge → Bool) → ExecutionJudge → ExecutionJudge
amend m s j = record j { message_id = m j; settled = s j }

abbrev amended :
    NodeExecution → (ExecutionJudge → Option String) → (ExecutionJudge → Bool) → NodeExecution
amended e m s = record e { judge = opt_map (amend m s) e.judge }

module _ (run : RunState) (e : NodeExecution) (m : ExecutionJudge → Option String)
    (s : ExecutionJudge → Bool) (v : IsConsistent run e) where
  amended-binding : binding_problems (amended e m s) ≡ []
  unfolding binding_problems
  amended-binding = ground (arith, v.binding)

  amended-judgment : judgment_problems (amended e m s) ≡ []
  unfolding judgment_problems has_current
  amended-judgment = ground (arith, v.judgment)

  amended-resolution : resolution_problems (amended e m s) ≡ []
  unfolding resolution_problems has_current
  amended-resolution = ground (arith, v.resolution)

  amended_kind :
      (n : Option NodeDef) → kind_problems n e ≡ [] → kind_problems n (amended e m s) ≡ []
  unfolding kind_problems has_actor_materials
  amended_kind none h = refl
  amended_kind (some (actor_task n)) h = refl
  amended_kind (some (builtin_program n)) h = ground (arith, h)
  amended_kind (some (child_workflow n)) h = ground (arith, h)

  pub amended-IsConsistent : IsConsistent run (amended e m s)
  unfolding position_problems exit_problems phase_problems
  amended-IsConsistent = record {
    position = v.position;
    kind = amended_kind (node_in run e.workflow_id e.node_id) v.kind;
    exit = v.exit;
    binding = amended-binding;
    judgment = amended-judgment;
    resolution = amended-resolution;
    phase = v.phase;
  }

-- The rows that are read again are consistent.
abbrev EachSome : (RuntimeRow → Type 0) → Option RuntimeRow → Type 0
EachSome P none = Unit {0}
EachSome P (some row) = P row

module _ (e : NodeExecution) (version : ℕ) where
  pub still_current-row :
      (o : Option RuntimeRow) (row : RuntimeRow)
      → still_current o e version ≡ some row
      → o ≡ some row
  unfolding still_current
  still_current-row none row h = cc
  still_current-row (some r) row h = elim (Bool-cases (is_still_current r e version)) [
    | inl same ↦ subst (λ x. elim x [ true ↦ some r | false ↦ none ] ≡ some row) same h
    | inr moved ↦ absurd (refused r row moved h)
  ]
    where
      refused :
          (r row : RuntimeRow)
          → is_still_current r e version ≡ false
          → still_current (some r) e version ≡ some row
          → ⊥
      refused r row moved h = ground arith

module _ (e : NodeExecution) (judge : ExecutionJudge) (version : ℕ) (reason : Text)
    (answers : JudgeAnswers)
    (after : (row : RuntimeRow) → answers.after ≡ some row → IsConsistentRow row)
    (at_fault : (row : RuntimeRow) → answers.at_fault ≡ some row → IsConsistentRow row) where
  dispatch_failed-IsConsistent : EachWrite IsConsistent (dispatch_failed e version reason answers)
  unfolding dispatch_failed
  dispatch_failed-IsConsistent = elim (Option-cases answers.at_fault) [
    | inl absent ↦ rw (absent, dispatch_failed) tt
    | inr (row, found) ↦
        elim (Bool-cases
          (nat_eq row.version version && row.execution.execution_id == e.execution_id)) [
            | inl same ↦
                rw (found, same, dispatch_failed)
                  (block_row-IsConsistent row reason [] (at_fault row found))
            | inr moved ↦ rw (found, moved, dispatch_failed) tt
          ]
  ]

  publish-IsConsistent :
      (row : RuntimeRow) (message : String)
      → IsConsistentRow row
      → EachWrite IsConsistent (publish row message)
  unfolding publish change published
  publish-IsConsistent row message v =
      ((amended-IsConsistent row.run row.execution (λ j. some message) (λ j. j.settled) v, tt), tt)

  dispatch_sent-IsConsistent :
      (sent : String × Option String)
      → EachWrite IsConsistent (dispatch_sent e judge version reason answers sent)
  unfolding dispatch_sent
  dispatch_sent-IsConsistent (session, message) =
      elim (Option-cases (still_current answers.after e version)) [
        | inl stale ↦ rw (stale, dispatch_sent) tt
        | inr (row, current) ↦ elim (Option-cases message) [
          | inl absent ↦ rw (current, absent, dispatch_sent) dispatch_failed-IsConsistent
          | inr (m, there) ↦ elim (Bool-cases (session == judge.session_id)) [
            | inr other ↦ rw (current, there, other, dispatch_sent) dispatch_failed-IsConsistent
            | inl same ↦
                rw (current, there, same, dispatch_sent)
                  (publish-IsConsistent row m
                    (after row (still_current-row e version answers.after row current)))
          ]
        ]
      ]

  pub dispatch_judge-IsConsistent :
      EachWrite IsConsistent (dispatch_judge e judge version reason answers)
  unfolding dispatch_judge
  dispatch_judge-IsConsistent = elim (Result-cases answers.cwd) [
    | inr (why, refused) ↦ rw (refused, dispatch_judge) dispatch_failed-IsConsistent
    | inl (cwd, known) ↦ elim (Option-cases (still_current answers.before e version)) [
      | inl stale ↦ rw (known, stale, dispatch_judge) tt
      | inr (row, current) ↦ elim (Result-cases answers.sent) [
        | inr (why, failed) ↦
            rw (known, current, failed, dispatch_judge) dispatch_failed-IsConsistent
        | inl (sent, fine) ↦
            rw (known, current, fine, dispatch_judge) (dispatch_sent-IsConsistent sent)
      ]
    ]
  ]
