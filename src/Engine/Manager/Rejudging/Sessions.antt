-- ===== src/Engine/Manager/Rejudging/Sessions.antt =====
-- The Judges whose sessions a recovery continues.
use dsh_workflow_plugin.Prelude.{
  ℕ, suc, String, Text, text_eq, text_eq_sound, opt_eq, true, false, ◌&&◌, ◌||◌, Option, none, some,
  lookup, is_none, ◌≡◌, refl, sym, ◌⊎◌, arith, eq_iff, Bool-cases, Option-cases, inl, inr, Result,
  ok, err,
}
use dsh_workflow_plugin.Types.Routes.{Route}
use dsh_workflow_plugin.Types.Execution.{
  NodeExecution, ExecutionClaim, ExecutionJudge, ExecutionJudgment, JudgeVerdict, need_context,
  accept, reject,
}
use dsh_workflow_plugin.State.Tests.{is_need_context}
use dsh_workflow_plugin.Roles.{resolve_role_model}
use dsh_workflow_plugin.Engine.Judges.{new_judge, arranged_judge}
use dsh_workflow_plugin.Types.Run.{RunState}
use dsh_workflow_plugin.State.Checks.{binding_problems}
use dsh_workflow_plugin.State.Valid.{IsConsistent}
use dsh_workflow_plugin.Engine.Manager.Models.{
  SessionIdleVerdict, cold_safe, safety_stale, activity_stale, probe_session_idle,
}
use dsh_workflow_plugin.Engine.Manager.Recovery.{current_feedback}
use dsh_workflow_plugin.Engine.Manager.Rejudging.{
  ResumeAnswers, continues, historical_feedback, judge_to_continue, continued_judge, route_changed,
  then_fresh, continue_probed, replace_judge, continue_judge, recover_judge, rejudged_execution,
}

-- The Judge has asked for context, about this claim and in its own session.
pub record HasAsked (e : NodeExecution) (c : ExecutionClaim) (judge : ExecutionJudge) : Type 0 where
  judgment : ExecutionJudgment
  given : e.judgment ≡ some judgment
  asks : judgment.result ≡ need_context
  of_claim : judgment.claim_id ≡ c.id
  by_session : judgment.judge_session_id ≡ judge.session_id

-- What makes it right to continue a session in the execution written: it is that of a Judge that the
-- execution has or has had, for this claim and on the same route; its turn is closed, or was cut off by
-- a restart; and it has asked for context, or there was a restart.
pub record MayContinue (run : RunState) (e : NodeExecution) (c : ExecutionClaim)
    (answers : ResumeAnswers) (session : String) (written : NodeExecution) : Type 0 where
  judge : ExecutionJudge
  next : ExecutionJudge
  next_judge : written.judge ≡ some next
  known : (e.judge ≡ some judge) ⊎ (e.previous_judge ≡ some judge)
  own : judge.session_id ≡ session
  of_claim : judge.claim_id ≡ c.id
  same_session : next.session_id ≡ judge.session_id
  same_claim : next.claim_id ≡ judge.claim_id
  same_route :
      (next.model ≡ judge.model)
      ⊎ ((judge.model ≡ none) × (lookup "judge" run.model_overrides ≡ none))
  asked_or_cut : HasAsked e c judge ⊎ (e.restart_pending ≡ true)
  closed :
      (probe_session_idle answers.judge_probe ≡ SessionIdleVerdict.safe)
      ⊎ ((probe_session_idle answers.judge_probe ≡ cold_safe) × (e.restart_pending ≡ true))

opt_text_sound : (a b : Option Text) → opt_eq text_eq a b ≡ true → a ≡ b
opt_text_sound none none h = refl
opt_text_sound none (some b) h = cc
opt_text_sound (some a) none h = cc
opt_text_sound (some a) (some b) h = let same = text_eq_sound a b h in cc

same_fields :
    (a b : Route)
    → a.provider ≡ b.provider
    → a.model_id ≡ b.model_id
    → a.reasoning_effort ≡ b.reasoning_effort
    → a ≡ b
same_fields a b p m r = cc

-- A Judge whose route has not changed is on the route that a new Judge would get, or on none where the
-- Manager has set none.
kept_route :
    (run : RunState) (k : ExecutionJudge)
    → route_changed run k ≡ false
    → (some (resolve_role_model run "judge" run.delegation_route) ≡ k.model)
      ⊎ ((k.model ≡ none) × (lookup "judge" run.model_overrides ≡ none))
unfolding route_changed
kept_route run k kept =
    let current = resolve_role_model run "judge" run.delegation_route in
    elim (Option-cases k.model) [
      | inl unbound ↦ elim (Option-cases (lookup "judge" run.model_overrides)) [
        | inl unset ↦ inr (unbound, unset)
        | inr (m, set) ↦ absurd (ground (arith, unbound, set, kept))
      ]
      | inr (b, bound) ↦
          let same : b ≡ current =
            same_fields b current
              (opt_text_sound b.provider current.provider (ground (arith, bound, kept)))
              (opt_text_sound b.model_id current.model_id (ground (arith, bound, kept)))
              (opt_text_sound b.reasoning_effort current.reasoning_effort
                (ground (arith, bound, kept))) in
          inl cc
    ]

module _ (run : RunState) (e : NodeExecution) (c : ExecutionClaim) (answers : ResumeAnswers)
    (v : IsConsistent run e) (hc : e.claim ≡ some c) where
  own_judge : (k : ExecutionJudge) → e.judge ≡ some k → k.claim_id ≡ c.id
  unfolding binding_problems
  own_judge k there = ground (arith, v.binding, hc, there, eq_iff k.claim_id c.id)

  earlier_judge :
      (k : ExecutionJudge)
      → e.previous_judge ≡ some k
      → historical_feedback e c ≡ true
      → k.claim_id ≡ c.id
  unfolding historical_feedback
  earlier_judge k there h = elim (Option-cases e.judgment) [
    | inl unjudged ↦ absurd (ground (arith, there, unjudged, h))
    | inr (j, judged) ↦ ground (arith, there, judged, h, eq_iff k.claim_id c.id)
  ]

  to_continue-of_claim : (k : ExecutionJudge) → judge_to_continue e c ≡ some k → k.claim_id ≡ c.id
  unfolding judge_to_continue
  to_continue-of_claim k found = elim (Bool-cases (current_feedback e c)) [
    | inl asked ↦ own_judge k (rw (asked, judge_to_continue) at found)
    | inr unasked ↦ elim (Bool-cases (historical_feedback e c && is_none e.judge)) [
      | inl earlier ↦
          earlier_judge k (rw (unasked, earlier, judge_to_continue) at found)
            (ground (arith, earlier))
      | inr later ↦ own_judge k (ground (arith, found, unasked, later))
    ]
  ]

  to_continue-known :
      (k : ExecutionJudge)
      → judge_to_continue e c ≡ some k
      → (e.judge ≡ some k) ⊎ (e.previous_judge ≡ some k)
  unfolding judge_to_continue
  to_continue-known k found = elim (Bool-cases (current_feedback e c)) [
    | inl asked ↦ inl (rw (asked, judge_to_continue) at found)
    | inr unasked ↦ elim (Bool-cases (historical_feedback e c && is_none e.judge)) [
      | inl earlier ↦ inr (rw (unasked, earlier, judge_to_continue) at found)
      | inr later ↦ inl (ground (arith, found, unasked, later))
    ]
  ]

  asked-HasAsked :
      (k : ExecutionJudge)
      → judge_to_continue e c ≡ some k
      → current_feedback e c ≡ true
      → HasAsked e c k
  unfolding judge_to_continue current_feedback
  asked-HasAsked k found asked =
      let current : e.judge ≡ some k = ground (arith, found, asked) in
      elim (Option-cases e.judgment) [
        | inl unjudged ↦ absurd (ground (arith, current, unjudged, asked))
        | inr (j, judged) ↦ record {
          judgment = j;
          given = judged;
          asks = needs_context j.result (ground (arith, current, judged, asked));
          of_claim = ground (arith, current, judged, asked, eq_iff j.claim_id c.id);
          by_session =
              ground (arith, current, judged, asked, eq_iff j.judge_session_id k.session_id);
        }
      ]
    where
      needs_context : (r : JudgeVerdict) → is_need_context r ≡ true → r ≡ need_context
      needs_context need_context h = refl
      needs_context accept h = cc
      needs_context reject h = cc

  why :
      (k : ExecutionJudge)
      → judge_to_continue e c ≡ some k
      → (current_feedback e c || e.restart_pending) ≡ true
      → HasAsked e c k ⊎ (e.restart_pending ≡ true)
  why k found reason = elim (Bool-cases (current_feedback e c)) [
    | inl asked ↦ inl (asked-HasAsked k found asked)
    | inr unasked ↦ inr (ground (arith, unasked, reason))
  ]

  probed_closed :
      (k : ExecutionJudge) (verdict : SessionIdleVerdict) (session : String)
      → continue_probed e k verdict ≡ ok (continues session)
      → (k.session_id ≡ session)
        × ((verdict ≡ SessionIdleVerdict.safe)
            ⊎ ((verdict ≡ cold_safe) × (e.restart_pending ≡ true)))
  unfolding continue_probed
  probed_closed k safety_stale session h = cc
  probed_closed k activity_stale session h = cc
  probed_closed k SessionIdleVerdict.active session h = cc
  probed_closed k cold_safe session h = elim (Bool-cases e.restart_pending) [
    | inl cut ↦ (ground (arith, cut, h), inr (refl, cut))
    | inr uncut ↦ absurd (ground (arith, uncut, h))
  ]
  probed_closed k SessionIdleVerdict.safe session h = (ground (arith, h), inl refl)

  fresh_only :
      (r : Result (Unit {0})) (session : String) → then_fresh r ≡ ok (continues session) → ⊥
  unfolding then_fresh
  fresh_only (err message) session h = cc
  fresh_only (ok _) session h = cc

  continued_parts :
      (k : ExecutionJudge)
      → continued_judge e c ≡ some k
      → (judge_to_continue e c ≡ some k) × ((current_feedback e c || e.restart_pending) ≡ true)
  unfolding continued_judge
  continued_parts k found = elim (Bool-cases (e.restart_pending || current_feedback e c)) [
    | inl admitted ↦ (rw (admitted, continued_judge) at found, ground (arith, admitted))
    | inr refused ↦ absurd (ground (arith, refused, found))
  ]

  continue-MayContinue :
      (k : ExecutionJudge) (session : String) (context : Text) (token : ℕ → String)
      → continued_judge e c ≡ some k
      → (continue_judge run e k answers).1 ≡ ok (continues session)
      → MayContinue run e c answers session
          (rejudged_execution run e c context (continues session) token)
  unfolding continue_judge replace_judge rejudged_execution new_judge arranged_judge
  continue-MayContinue k session context token found h = elim (Bool-cases (route_changed run k)) [
    | inl changed ↦ absurd (fresh_only _ session (rw (changed, continue_judge) at h))
    | inr kept ↦ elim (Bool-cases answers.same_after_judge) [
      | inr stale ↦ absurd (ground (arith, kept, stale, h))
      | inl same ↦ elim (Bool-cases answers.judge_missing) [
        | inl missing ↦
            absurd (fresh_only _ session (rw (kept, same, missing, continue_judge) at h))
        | inr there ↦
            let (own, closed) =
              probed_closed k (probe_session_idle answers.judge_probe) session
                (rw (kept, same, there, continue_judge) at h) in
            let (chosen, reason) = continued_parts k found in
            record {
              judge = k;
              next = new_judge run c (suc e.input_version) (token 0) session;
              next_judge = refl;
              known = to_continue-known k chosen;
              own = own;
              of_claim = to_continue-of_claim k chosen;
              same_session = sym own;
              same_claim = sym (to_continue-of_claim k chosen);
              same_route = kept_route run k kept;
              asked_or_cut = why k chosen reason;
              closed = closed;
            }
      ]
    ]
  ]

  -- Take a consistent execution with a claim. Where its recovery continues a session, this is the
  -- session of a Judge of this very claim that the execution has, or had before; and the Judge of
  -- the execution that is then written keeps the session and the claim of that Judge. It also
  -- keeps its route, unless that Judge is bound to no route and the Manager has set none for the
  -- Judge. That Judge has asked for context on this claim in this session, or a restart has cut
  -- the work off; and the probe has found the session closed, or cold after a restart.
  pub recover_judge-MayContinue :
      (session : String) (context : Text) (token : ℕ → String)
      → (recover_judge run e c answers).1 ≡ ok (continues session)
      → MayContinue run e c answers session
          (rejudged_execution run e c context (continues session) token)
  unfolding recover_judge
  recover_judge-MayContinue session context token h = elim (Option-cases (continued_judge e c)) [
    | inl none_left ↦ absurd (fresh_only _ session (rw (none_left, recover_judge) at h))
    | inr (k, found) ↦
        continue-MayContinue k session context token found (rw (found, recover_judge) at h)
  ]
