-- ===== src/Plugin/Lifecycle/Methods.antt =====
-- The methods that `makeDispatchLifecycle` returns, and the reports on which they act.
use dsh_workflow_plugin.Prelude.{
  ℕ, suc, String, Text, trim, is_empty, true, ◌&&◌, ◌||◌, not, ◌==◌, nat_eq, if◌then◌else◌, opt_eq,
  is_some, is_none, Option, none, some, opt_map, opt_bind, List, [], ◌∷◌, lookup, put, remove, take,
}
use dsh_workflow_plugin.Plugin.Lifecycle.{
  buffer_max, pending_max, ActivationEndInfo, DispatchPublication, Outcome, DispatchCandidate,
  DispatchObservationRef, BufferedEnd, Registration, ResultObservation, Lifecycle, drop_oldest,
  sweep_buffer, buffer, unknown, completed, failed,
}

-- A result counts for a registration of the same known epoch.
unfoldable pub attributable : Lifecycle → Registration → Option ResultObservation
attributable l entry = opt_bind (lookup entry.fact.session_id l.outcomes) (λ observed.
    if is_none entry.epoch_run_id || not (opt_eq ◌==◌ observed.epoch entry.epoch_run_id)
    then none
    else some observed)

abbrev ref : Registration → DispatchObservationRef
ref entry = record { session_id = entry.fact.session_id; registration = entry.registration }

unfoldable pub note_start : String → String → Lifecycle → Lifecycle
unfolding drop_oldest
note_start child_id epoch_run_id l =
    if l.disposed
    then l
    else record l { epochs = put child_id epoch_run_id (drop_oldest l.epochs pending_max child_id) }

-- The epoch that a result is mounted on.
abbrev mounted_epoch : Lifecycle → String → Option String
mounted_epoch l child_id = lookup child_id l.epochs

-- How the promise of an activation settles: with the reason why the run stopped, or with an error, its
-- code as a text (empty where it has none) and its message.
pub data Settlement : Type 0 where
  resolved : Option String → Settlement
  rejected : (error_code : Text) → (message : Text) → Settlement

abbrev stopped_as_completed : Option String → Outcome
stopped_as_completed none = failed
stopped_as_completed (some reason) = if reason == "completed" then completed else failed

abbrev trimmed_code : Text → Option Text
trimmed_code code = let t = trim code in if is_empty t then none else some (take 120 t)

unfoldable pub result_observation : Option String → Settlement → ResultObservation
result_observation epoch (resolved reason) = record {
  epoch = epoch;
  outcome = stopped_as_completed reason;
  failure_code = none;
  failure_summary = none;
}
result_observation epoch (rejected error_code message) = record {
  epoch = epoch;
  outcome = failed;
  failure_code = trimmed_code error_code;
  failure_summary = some message;
}

-- The callback of `observeResult`, on the epoch that it was mounted on.
unfoldable pub record_result : String → Option String → Settlement → Lifecycle → Lifecycle
unfolding drop_oldest result_observation
record_result child_id epoch settled l = if l.disposed then l else record l {
  outcomes =
      put child_id (result_observation epoch settled) (drop_oldest l.outcomes buffer_max child_id);
}

abbrev pub ended : Registration → ActivationEndInfo → Registration
ended entry end_info = record entry { end_info = some end_info }

-- The end of an epoch that is not the registration's.
unfoldable pub note_other_end : String → ActivationEndInfo → ℕ → Lifecycle → Lifecycle
unfolding buffer
note_other_end child_id end_info now l =
    if opt_eq ◌==◌ (some end_info.run_id) (lookup child_id l.epochs)
    then buffer child_id end_info now (record l { pending = remove child_id l.pending })
    else l

unfoldable pub note_pending_end :
    String
    → ActivationEndInfo
    → ℕ
    → Registration
    → Lifecycle
    → Lifecycle × Option DispatchObservationRef
unfolding note_other_end
note_pending_end child_id end_info now entry l =
    if is_some entry.epoch_run_id && not (opt_eq ◌==◌ entry.epoch_run_id (some end_info.run_id))
    then (note_other_end child_id end_info now l, none)
    else (record l { pending = put child_id (ended entry end_info) l.pending }, some (ref entry))

unfoldable pub note_end :
    String → ActivationEndInfo → ℕ → Lifecycle → Lifecycle × Option DispatchObservationRef
unfolding buffer note_pending_end
note_end child_id end_info now l =
    if l.disposed then (l, none) else elim (lookup child_id l.pending) [
      | none ↦ (buffer child_id end_info now l, none)
      | some entry ↦ note_pending_end child_id end_info now entry l
    ]

unfoldable pub new_registration : Lifecycle → DispatchPublication → Registration
new_registration l fact = record {
  registration = suc l.registrations;
  fact = fact;
  epoch_run_id = lookup fact.session_id l.epochs;
  end_info = none;
}

-- The end that came before the identity is used once, and only for the epoch of the registration.
unfoldable pub publish_buffered :
    Registration → BufferedEnd → Lifecycle → Lifecycle × Option DispatchObservationRef
publish_buffered entry prior l =
    let session = entry.fact.session_id in
    let l1 = record l { buffered = remove session l.buffered } in
    if is_none entry.epoch_run_id
      || not (opt_eq ◌==◌ (some prior.end_info.run_id) entry.epoch_run_id)
    then (l1, none)
    else (
      record l1 { pending = put session (ended entry prior.end_info) l1.pending },
      some (ref entry),
    )

unfoldable pub publish_entry : Registration → Lifecycle → Lifecycle × Option DispatchObservationRef
unfolding publish_buffered
publish_entry entry l = elim (lookup entry.fact.session_id l.buffered) [
  | none ↦ (l, none)
  | some prior ↦ publish_buffered entry prior l
]

-- The state after `pending.set`.
unfoldable pub registered : DispatchPublication → ℕ → Lifecycle → Lifecycle
unfolding sweep_buffer drop_oldest new_registration
registered fact now l = record l {
  buffered = sweep_buffer now l.buffered;
  pending =
      put fact.session_id (new_registration l fact)
        (drop_oldest l.pending pending_max fact.session_id);
  registrations = suc l.registrations;
}

unfoldable pub publish :
    DispatchPublication → ℕ → Lifecycle → Lifecycle × Option DispatchObservationRef
unfolding registered publish_entry new_registration
publish fact now l =
    if l.disposed
    then (l, none)
    else publish_entry (new_registration l fact) (registered fact now l)

unfoldable pub observed_outcome : Option ResultObservation → Outcome
observed_outcome none = unknown
observed_outcome (some observed) = observed.outcome

unfoldable pub candidate : Lifecycle → Registration → ActivationEndInfo → DispatchCandidate
unfolding attributable observed_outcome
candidate l entry end_info =
    let observed = attributable l entry in
    record {
      fact = entry.fact;
      epoch_run_id = entry.epoch_run_id;
      end_info = end_info;
      outcome = observed_outcome observed;
      failure_code = opt_bind observed (λ o. o.failure_code);
      failure_summary = opt_bind observed (λ o. o.failure_summary);
    }

-- The registration that a reference points to, where it has not been replaced.
unfoldable pub current_entry : Lifecycle → DispatchObservationRef → Option Registration
current_entry l observation =
    opt_bind (lookup observation.session_id l.pending)
      (λ entry. if nat_eq entry.registration observation.registration then some entry else none)

-- `consume` after it has waited: the test before the wait is on the state then.
unfoldable pub consume : Lifecycle → DispatchObservationRef → Option DispatchCandidate
unfolding current_entry candidate
consume l observation =
    opt_bind (current_entry l observation) (λ entry. opt_map (candidate l entry) entry.end_info)

unfoldable pub release : DispatchObservationRef → Lifecycle → Lifecycle
unfolding current_entry
release observation l = if l.disposed then l else elim (current_entry l observation) [
  | none ↦ l
  | some entry ↦ record l { pending = remove observation.session_id l.pending }
]

unfoldable pub invalidate : String → Option String → Lifecycle → Lifecycle
invalidate child_id dispatch_id l = if l.disposed then l else elim (lookup child_id l.pending) [
  | none ↦ l
  | some entry ↦
      if is_some dispatch_id && not (opt_eq ◌==◌ (some entry.fact.dispatch_id) dispatch_id)
      then l
      else record l { pending = remove child_id l.pending }
]

unfoldable pub dispose : Lifecycle → Lifecycle
dispose l = record l { disposed = true; epochs = []; pending = []; buffered = []; outcomes = [] }

-- What the host and the engine report, with the time where the code reads it.
pub data Report : Type 0 where
  start : (child_id epoch_run_id : String) → Report
  settle : (child_id : String) → (epoch : Option String) → Settlement → Report
  finish : (child_id : String) → ActivationEndInfo → ℕ → Report
  publication : DispatchPublication → ℕ → Report
  released : DispatchObservationRef → Report
  invalidation : (child_id : String) → (dispatch_id : Option String) → Report
  disposal : Report

unfoldable pub report : Report → Lifecycle → Lifecycle
unfolding note_start record_result note_end publish release invalidate dispose
report (start child_id epoch_run_id) l = note_start child_id epoch_run_id l
report (settle child_id epoch settled) l = record_result child_id epoch settled l
report (finish child_id end_info now) l = (note_end child_id end_info now l).0
report (publication fact now) l = (publish fact now l).0
report (released observation) l = release observation l
report (invalidation child_id dispatch_id) l = invalidate child_id dispatch_id l
report disposal l = dispose l

-- The reports in their order, the first one first.
unfoldable pub after : List Report → Lifecycle → Lifecycle
unfolding report
after [] l = l
after (r ∷ rs) l = after rs (report r l)
