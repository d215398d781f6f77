-- ===== src/Engine/Failover/Budget.antt =====
-- How often a role is switched: each failover of `tryFailover` and `tryJudgeFailover` moves one role to
-- its next stage.
use dsh_workflow_plugin.Prelude.{
  ℕ, suc, ◌+◌, ◌≤◌, String, Bool, true, false, ◌==◌, ◌||◌, Option, none, some, is_some, ◌∷◌, ◌≡◌,
  refl, sym, subst, arith, eq_iff, Bool-cases, Option-cases, inl, inr,
}
use dsh_workflow_plugin.Types.Routes.{RoleRouteStage, primary, fallback, manual}
use dsh_workflow_plugin.Types.Graph.{NodeDef, actor_task, builtin_program, child_workflow}
use dsh_workflow_plugin.Types.Run.{RunState}
use dsh_workflow_plugin.State.Tests.{is_checking}
use dsh_workflow_plugin.Roles.Failures.{ActorFailureFacts}
use dsh_workflow_plugin.Engine.Base.{RuntimeRow, put, current_node}
use dsh_workflow_plugin.Engine.Judges.{JudgeAnswers}
use dsh_workflow_plugin.Roles.{effective_role_route_stage, stage_of}
use dsh_workflow_plugin.Engine.Failover.{
  next_stage, switched_routes, switched_run, FailoverVerdict, switched, SwitchTexts, try_failover,
  try_role, try_judge_failover, switch_from, switch_actor, switch_judge, may_switch, is_same_model,
}
use dsh_workflow_plugin.Engine.Failover.Rounds.{
  stage_after, stage_of_others, judge_stage_after, judge_stage_of_others,
}

-- The switches that are left to a stage.
pub switches_left : RoleRouteStage → ℕ
switches_left manual = 2
switches_left primary = 1
switches_left fallback = 0

-- The run that a failover writes, where it switches.
abbrev written_run : FailoverVerdict → Option RunState
written_run (switched (put run version changes ∷ acts)) = some run
written_run _ = none

abbrev counted : Bool → ℕ → ℕ
counted true n = suc n
counted false n = n

abbrev actor_role : Option NodeDef → Option String
actor_role (some (actor_task n)) = some n.role
actor_role _ = none

-- The runs between two settings of a model by the Manager, with the switches of this role among them:
-- `tryFailover` switches the role of the current node, `tryJudgeFailover` the Judge, and any other write
-- leaves the stages and the overrides as they are.
pub data Round (role : String) : RunState → RunState → ℕ → Type 0 where
  still : {run : RunState} → Round role run run 0
  actor :
      {run next : RunState} {n : ℕ} (row : RuntimeRow) (facts : Option ActorFailureFacts)
      (texts : SwitchTexts) (name : String)
      → Round role run row.run n
      → actor_role (current_node row.run) ≡ some name
      → written_run (try_failover row facts texts) ≡ some next
      → Round role run next (counted (name == role) n)
  judge :
      {run next : RunState} {n : ℕ} (row : RuntimeRow) (facts : Option ActorFailureFacts)
      (fresh : ℕ → String) (answers : JudgeAnswers) (texts : SwitchTexts)
      → Round role run row.run n
      → written_run (try_judge_failover row facts fresh answers texts) ≡ some next
      → Round role run next (counted ("judge" == role) n)
  other :
      {run last : RunState} {n : ℕ} (next : RunState)
      → Round role run last n
      → next.role_routes ≡ last.role_routes
      → next.model_overrides ≡ last.model_overrides
      → Round role run next n

-- A role has moved to its next stage, and the others have stayed.
record IsSwitched (last next : RunState) (name : String) : Type 0 where
  to : RoleRouteStage
  step : next_stage (effective_role_route_stage last name) ≡ some to
  moved : effective_role_route_stage next name ≡ to
  others :
      (role : String)
      → (name == role) ≡ false
      → effective_role_route_stage next role ≡ effective_role_route_stage last role

some_stage : (a b : RunState) → some a ≡ some b → a ≡ b
some_stage a b h = cc

switch_from-IsSwitched :
    (run next : RunState) (role : String) (facts : Option ActorFailureFacts)
    (go : RoleRouteStage → RoleRouteStage → FailoverVerdict)
    → ((to : RoleRouteStage)
        → next_stage (effective_role_route_stage run role) ≡ some to
        → written_run (go (effective_role_route_stage run role) to) ≡ some next
        → IsSwitched run next role)
    → written_run (switch_from run role facts go) ≡ some next
    → IsSwitched run next role
unfolding switch_from
switch_from-IsSwitched run next role facts go from_go h =
    elim (Bool-cases (may_switch run role facts)) [
      | inr refused ↦ absurd (ground (arith, refused, h))
      | inl may ↦ elim (Option-cases (next_stage (effective_role_route_stage run role))) [
        | inl last ↦ absurd (ground (arith, may, last, h))
        | inr (to, step) ↦ elim (Bool-cases (is_same_model run role)) [
          | inl same ↦ absurd (ground (arith, may, step, same, h))
          | inr different ↦ from_go to step (rw (may, step, different, switch_from) at h)
        ]
      ]
    ]

module _ (row : RuntimeRow) (facts : Option ActorFailureFacts) (texts : SwitchTexts)
    (next : RunState) where
  try_role-IsSwitched :
      (name : String)
      → written_run (try_role row name facts texts) ≡ some next
      → IsSwitched row.run next name
  unfolding try_role switch_actor
  try_role-IsSwitched name h =
      elim (Bool-cases (name == "manager" || is_some row.execution.claim)) [
        | inl refused ↦ absurd (ground (arith, refused, h))
        | inr free ↦
            switch_from-IsSwitched row.run next name facts
              (λ from to. switch_actor row name from to texts)
              (λ to step written. switched-IsSwitched name to step written)
              (rw (free, try_role) at h)
      ]
    where
      switched-IsSwitched :
          (name : String) (to : RoleRouteStage)
          → next_stage (effective_role_route_stage row.run name) ≡ some to
          → written_run (switch_actor row name (effective_role_route_stage row.run name) to texts)
            ≡ some next
          → IsSwitched row.run next name
      switched-IsSwitched name to step written =
          let from = effective_role_route_stage row.run name in
          subst (λ r. IsSwitched row.run r name)
            (some_stage (switched_run row.run name from to texts.reason) next written)
            (record {
              to = to;
              step = step;
              moved = stage_after row.run name from to texts.reason;
              others =
                  λ role differs. stage_of_others row.run name from to texts.reason role differs;
            })

  try_failover-IsSwitched :
      (name : String)
      → actor_role (current_node row.run) ≡ some name
      → written_run (try_failover row facts texts) ≡ some next
      → IsSwitched row.run next name
  unfolding try_failover
  try_failover-IsSwitched name = go (current_node row.run) refl
    where
      go :
          (n : Option NodeDef)
          → current_node row.run ≡ n
          → actor_role (current_node row.run) ≡ some name
          → written_run (try_failover row facts texts) ≡ some next
          → IsSwitched row.run next name
      go none at r h = absurd (ground (arith, at, r))
      go (some (builtin_program n)) at r h = absurd (ground (arith, at, r))
      go (some (child_workflow n)) at r h = absurd (ground (arith, at, r))
      go (some (actor_task n)) at r h =
          let role : n.role ≡ name = ground (arith, at, r) in
          subst (λ k. IsSwitched row.run next k) role
            (try_role-IsSwitched n.role (rw (at, try_failover) at h))

  try_judge_failover-IsSwitched :
      (fresh : ℕ → String) (answers : JudgeAnswers)
      → written_run (try_judge_failover row facts fresh answers texts) ≡ some next
      → IsSwitched row.run next "judge"
  unfolding try_judge_failover switch_judge
  try_judge_failover-IsSwitched fresh answers h =
      elim (Bool-cases (is_checking row.execution.phase)) [
        | inr idle ↦ absurd (ground (arith, idle, h))
        | inl checks ↦ elim (Option-cases row.execution.claim) [
          | inl unclaimed ↦ absurd (ground (arith, checks, unclaimed, h))
          | inr (c, claimed) ↦ elim (Option-cases row.execution.judge) [
            | inl unjudged ↦ absurd (ground (arith, checks, claimed, unjudged, h))
            | inr (k, judged) ↦
                let from = effective_role_route_stage row.run "judge" in
                switch_from-IsSwitched row.run next "judge" facts
                  (switch_judge row c k fresh answers texts)
                  (λ to step written.
                    subst (λ r. IsSwitched row.run r "judge")
                      (some_stage (switched_routes row.run "judge" from to texts.reason) next
                        written)
                      (record {
                        to = to;
                        step = step;
                        moved = judge_stage_after row.run "judge" from to texts.reason;
                        others = λ role differs.
                            judge_stage_of_others row.run "judge" from to texts.reason role differs;
                      }))
                  (rw (checks, claimed, judged, try_judge_failover) at h)
          ]
        ]
      ]

left_after :
    (from to : RoleRouteStage)
    → next_stage from ≡ some to
    → suc (switches_left to) ≡ switches_left from
unfolding next_stage switches_left
left_after manual to h = ground (arith, h)
left_after primary to h = ground (arith, h)
left_after fallback to h = cc

same_name : (name role : String) → (name == role) ≡ true → name ≡ role
same_name name role h = ground (arith, h, eq_iff name role)

counted-switches_left :
    (role name : String) (last next : RunState) (n total : ℕ)
    → IsSwitched last next name
    → n + switches_left (effective_role_route_stage last role) ≡ total
    → counted (name == role) n + switches_left (effective_role_route_stage next role) ≡ total
counted-switches_left role name last next n total h sum = elim (Bool-cases (name == role)) [
  | inl mine ↦ rw (mine) (
      subst (λ r. suc n + switches_left (effective_role_route_stage next r) ≡ total)
        (same_name name role mine)
        (rw h.moved (
          let before =
            subst (λ r. n + switches_left (effective_role_route_stage last r) ≡ total)
              (sym (same_name name role mine)) sum in
          let l = left_after (effective_role_route_stage last name) h.to h.step in omega arith)))
  | inr different ↦ rw (different, h.others role different) sum
]

same_stage :
    (role : String) (last next : RunState)
    → next.role_routes ≡ last.role_routes
    → next.model_overrides ≡ last.model_overrides
    → effective_role_route_stage next role ≡ effective_role_route_stage last role
unfolding effective_role_route_stage stage_of
same_stage role last next routes overrides = rw (routes, overrides) refl

used_and_left :
    (role : String) {run last : RunState} {n : ℕ}
    → Round role run last n
    → n + switches_left (effective_role_route_stage last role)
      ≡ switches_left (effective_role_route_stage run role)
used_and_left role still = omega arith
used_and_left role {run = run} {last = next} (actor {n = n} row facts texts name round of h) =
    counted-switches_left role name row.run next n _
      (try_failover-IsSwitched row facts texts next name of h) (used_and_left role round)
used_and_left role {run = run} {last = next} (judge {n = n} row facts fresh answers texts round h) =
    counted-switches_left role "judge" row.run next n _
      (try_judge_failover-IsSwitched row facts texts next fresh answers h)
      (used_and_left role round)
used_and_left role (other {last = last} next round routes overrides) =
    rw (same_stage role last next routes overrides) (used_and_left role round)

switches_left_max : (s : RoleRouteStage) → switches_left s ≤ 2
unfolding switches_left
switches_left_max manual = omega arith
switches_left_max primary = omega arith
switches_left_max fallback = omega arith

-- Take any runs in a row, each written by `try_failover` for the role of its current node, or by
-- `try_judge_failover` for the Judge, or otherwise without a change of the stages and the
-- overrides. Along them, the switches of a role and those that its stage has left add up to those
-- that its stage had at the start: two from the manual route, one from the primary, none from the
-- fallback. So they are at most two, whatever other roles switch in between.
pub Round-switches_left :
    (role : String) {run last : RunState} {n : ℕ}
    → Round role run last n
    → (n + switches_left (effective_role_route_stage last role)
        ≡ switches_left (effective_role_route_stage run role))
      × (n ≤ 2)
Round-switches_left role {run = run} round =
    let sum = used_and_left role round in
    let most = switches_left_max (effective_role_route_stage run role) in (sum, omega arith)
