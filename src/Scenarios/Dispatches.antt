-- ===== src/Scenarios/Dispatches.antt =====
-- The theorems on the observation of dispatches: one that is started, published and ended.
use dsh_workflow_plugin.Prelude.{
  none, some, List, [], ◌∷◌, lookup, put, codes, trim, take, ◌≡◌, refl, false,
}
use dsh_workflow_plugin.Plugin.Lifecycle.{
  Registration, ActivationEndInfo, DispatchPublication, DispatchObservationRef, DispatchCandidate,
  failed, make_dispatch_lifecycle, DispatchKind, drop_oldest, drop_excess, sweep_buffer,
}
use dsh_workflow_plugin.Plugin.Lifecycle.Methods.{
  Report, start, settle, finish, publication, after, publish, release, consume, current_entry,
  rejected,
}
use dsh_workflow_plugin.Plugin.Lifecycle.Bounds.{IsBounded, after-IsBounded}
use dsh_workflow_plugin.Plugin.Lifecycle.Candidates.{OfOwnEpoch, consume-OfOwnEpoch}
use dsh_workflow_plugin.Plugin.Lifecycle.References.{publish-replaces}

abbrev fact : DispatchPublication
fact = record {
  workspace_key = "ws";
  run_id = "r1";
  execution_id = "e1";
  node_token = "t1";
  dispatch_id = "d1";
  kind = DispatchKind.actor;
  role_key = "dev";
  route = none;
  session_id = "s1";
  message_id = "m1";
  claim_id = none;
  input_version = none;
}

abbrev over : ActivationEndInfo
over = record { run_id = "run1"; stop_reason = "error"; provider = none }

-- The activation fails, and ends before the engine has published it.
abbrev reports : List Report
reports =
    start "s1" "run1"
    ∷ settle "s1" (some "run1") (rejected (codes "E1") (codes "no quota"))
    ∷ finish "s1" over 10
    ∷ publication fact 20
    ∷ []

abbrev first : DispatchObservationRef
first = record { session_id = "s1"; registration = 1 }

abbrev seen : DispatchCandidate
seen = record {
  fact = fact;
  epoch_run_id = some "run1";
  end_info = over;
  outcome = failed;
  failure_code = some (codes "E1");
  failure_summary = some (codes "no quota");
}

abbrev entry : Registration
entry = record { registration = 1; fact = fact; epoch_run_id = some "run1"; end_info = some over }

after-IsBounded_example : IsBounded (after reports make_dispatch_lifecycle)
after-IsBounded_example = after-IsBounded reports

consumed : consume (after reports make_dispatch_lifecycle) first ≡ some seen
unfolding after consume lookup put drop_oldest drop_excess sweep_buffer trim take
consumed = refl

consume-OfOwnEpoch_example : (seen.fact.session_id ≡ first.session_id) × OfOwnEpoch reports seen
consume-OfOwnEpoch_example = consume-OfOwnEpoch reports first seen consumed

on : (after reports make_dispatch_lifecycle).disposed ≡ false
unfolding after lookup put drop_oldest drop_excess sweep_buffer
on = refl

current : current_entry (after reports make_dispatch_lifecycle) first ≡ some entry
unfolding after current_entry lookup put drop_oldest drop_excess sweep_buffer
current = refl

publish-replaces_example :
    (consume (publish fact 30 (after reports make_dispatch_lifecycle)).0 first ≡ none)
    × (release first (publish fact 30 (after reports make_dispatch_lifecycle)).0
        ≡ (publish fact 30 (after reports make_dispatch_lifecycle)).0)
publish-replaces_example = publish-replaces reports fact 30 first entry on refl current
