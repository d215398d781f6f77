-- ===== src/Plugin/Lifecycle/Bounds.antt =====
-- The maps stay as small as the code promises.
use dsh_workflow_plugin.Prelude.{
  ℕ, ◌≤◌, String, is_some, is_none, opt_eq, ◌==◌, ◌&&◌, ◌||◌, not, Option, some, List, [], ◌∷◌,
  length, filter_by, Assoc, lookup, put, remove, ◌≡◌, lookup-put, eq_refl, arith, if-keeps,
  Option-cases, inl, inr,
}
use dsh_workflow_plugin.Plugin.Lifecycle.{
  Lifecycle, DispatchPublication, DispatchObservationRef, ActivationEndInfo, Registration,
  buffer_max, pending_max, drop_oldest, sweep_buffer, buffer, is_fresh, make_dispatch_lifecycle,
}
use dsh_workflow_plugin.Plugin.Lifecycle.Methods.{
  Report, start, settle, finish, publication, released, invalidation, disposal, report, after,
  note_start, record_result, note_end, note_pending_end, note_other_end, publish, publish_entry,
  publish_buffered, registered, release, invalidate, dispose, current_entry, Settlement,
  result_observation, ended, new_registration,
}
use dsh_workflow_plugin.Plugin.Lifecycle.Sizes.{
  length-put, length-remove, length-drop_excess, length-put-drop_oldest,
}

pub record IsBounded (l : Lifecycle) : Type 0 where
  pub epochs : length l.epochs ≤ pending_max
  pub pending : length l.pending ≤ pending_max
  pub buffered : length l.buffered ≤ buffer_max
  pub outcomes : length l.outcomes ≤ buffer_max

buffer-IsBounded :
    (child_id : String) (e : ActivationEndInfo) (now : ℕ) (l : Lifecycle)
    → IsBounded l
    → IsBounded (buffer child_id e now l)
unfolding buffer
buffer-IsBounded child_id e now l b = record {
  epochs = b.epochs;
  pending = b.pending;
  buffered =
      length-drop_excess
        (put child_id (record { end_info = e; at = now }) (sweep_buffer now l.buffered));
  outcomes = b.outcomes;
}

-- The registrations are the only part that changes, and there are not more of them.
pending-IsBounded :
    (l : Lifecycle) (m : Assoc Registration)
    → IsBounded l
    → length m ≤ pending_max
    → IsBounded (record l { pending = m })
pending-IsBounded l m b h = record {
  epochs = b.epochs;
  pending = h;
  buffered = b.buffered;
  outcomes = b.outcomes;
}

dropped-IsBounded :
    (k : String) (l : Lifecycle)
    → IsBounded l
    → IsBounded (record l { pending = remove k l.pending })
dropped-IsBounded k l b =
    pending-IsBounded l (remove k l.pending) b
      (ground (arith, length-remove k l.pending, b.pending))

-- An entry that is there is only written again.
ended-IsBounded :
    (k : String) (old new : Registration) (l : Lifecycle)
    → lookup k l.pending ≡ some old
    → IsBounded l
    → IsBounded (record l { pending = put k new l.pending })
ended-IsBounded k old new l there b =
    pending-IsBounded l (put k new l.pending) b
      (ground (arith, there, length-put k new l.pending, b.pending))

note_start-IsBounded :
    (child_id epoch : String) (l : Lifecycle)
    → IsBounded l
    → IsBounded (note_start child_id epoch l)
unfolding note_start
note_start-IsBounded child_id epoch l b = if-keeps IsBounded l.disposed b (record {
  epochs = length-put-drop_oldest child_id epoch l.epochs pending_max (omega arith) b.epochs;
  pending = b.pending;
  buffered = b.buffered;
  outcomes = b.outcomes;
})

record_result-IsBounded :
    (child_id : String) (epoch : Option String) (settled : Settlement) (l : Lifecycle)
    → IsBounded l
    → IsBounded (record_result child_id epoch settled l)
unfolding record_result
record_result-IsBounded child_id epoch settled l b = if-keeps IsBounded l.disposed b (record {
  epochs = b.epochs;
  pending = b.pending;
  buffered = b.buffered;
  outcomes =
      length-put-drop_oldest child_id (result_observation epoch settled) l.outcomes buffer_max
        (omega arith) b.outcomes;
})

IsBoundedPair : Lifecycle × Option DispatchObservationRef → Type 0
IsBoundedPair (l, answer) = IsBounded l

note_end-IsBounded :
    (child_id : String) (e : ActivationEndInfo) (now : ℕ) (l : Lifecycle)
    → IsBounded l
    → IsBoundedPair (note_end child_id e now l)
unfolding note_end note_pending_end note_other_end IsBoundedPair
note_end-IsBounded child_id e now l b = elim (Option-cases (lookup child_id l.pending)) [
  | inl nobody ↦
      rw (nobody, note_end)
        (if-keeps IsBoundedPair l.disposed b (buffer-IsBounded child_id e now l b))
  | inr (entry, there) ↦
      rw (there, note_end)
        (if-keeps IsBoundedPair l.disposed b (
          if-keeps IsBoundedPair
            (is_some entry.epoch_run_id && not (opt_eq ◌==◌ entry.epoch_run_id (some e.run_id)))
            (if-keeps IsBounded (opt_eq ◌==◌ (some e.run_id) (lookup child_id l.epochs))
              (buffer-IsBounded child_id e now (record l { pending = remove child_id l.pending })
                (dropped-IsBounded child_id l b))
              b)
            (ended-IsBounded child_id entry (ended entry e) l there b)))
]

registered-IsBounded :
    (fact : DispatchPublication) (now : ℕ) (l : Lifecycle)
    → IsBounded l
    → IsBounded (registered fact now l)
unfolding registered sweep_buffer
registered-IsBounded fact now l b = record {
  epochs = b.epochs;
  pending =
      length-put-drop_oldest fact.session_id (new_registration l fact) l.pending pending_max
        (omega arith) b.pending;
  buffered = length-drop_excess (filter_by (is_fresh now) l.buffered);
  outcomes = b.outcomes;
}

taken-IsBounded :
    (k : String) (l : Lifecycle)
    → IsBounded l
    → IsBounded (record l { buffered = remove k l.buffered })
taken-IsBounded k l b = record {
  epochs = b.epochs;
  pending = b.pending;
  buffered = ground (arith, length-remove k l.buffered, b.buffered);
  outcomes = b.outcomes;
}

publish_entry-IsBounded :
    (entry : Registration) (l : Lifecycle)
    → (old : Registration) → lookup entry.fact.session_id l.pending ≡ some old
    → IsBounded l
    → IsBoundedPair (publish_entry entry l)
unfolding publish_entry publish_buffered IsBoundedPair
publish_entry-IsBounded entry l old there b =
    elim (Option-cases (lookup entry.fact.session_id l.buffered)) [
      | inl nothing ↦ rw (nothing, publish_entry) b
      | inr (prior, found) ↦
          let l1 = record l { buffered = remove entry.fact.session_id l.buffered } in
          let b1 = taken-IsBounded entry.fact.session_id l b in
          rw (found, publish_entry)
            (if-keeps IsBoundedPair
              (is_none entry.epoch_run_id
                || not (opt_eq ◌==◌ (some prior.end_info.run_id) entry.epoch_run_id))
              b1
              (ended-IsBounded entry.fact.session_id old (ended entry prior.end_info) l1 there b1))
    ]

registered-lookup :
    (fact : DispatchPublication) (now : ℕ) (l : Lifecycle)
    → lookup fact.session_id (registered fact now l).pending ≡ some (new_registration l fact)
unfolding registered
registered-lookup fact now l = ground (
  arith,
  eq_refl fact.session_id,
  lookup-put fact.session_id fact.session_id (new_registration l fact)
      (drop_oldest l.pending pending_max fact.session_id),
)

publish-IsBounded :
    (fact : DispatchPublication) (now : ℕ) (l : Lifecycle)
    → IsBounded l
    → IsBoundedPair (publish fact now l)
unfolding publish IsBoundedPair new_registration
publish-IsBounded fact now l b = if-keeps IsBoundedPair l.disposed b (
    publish_entry-IsBounded (new_registration l fact) (registered fact now l)
      (new_registration l fact) (registered-lookup fact now l) (registered-IsBounded fact now l b))

release-IsBounded :
    (observation : DispatchObservationRef) (l : Lifecycle)
    → IsBounded l
    → IsBounded (release observation l)
unfolding release
release-IsBounded observation l b = elim (Option-cases (current_entry l observation)) [
  | inl replaced ↦ rw (replaced, release) (if-keeps IsBounded l.disposed b b)
  | inr (entry, there) ↦
      rw (there, release)
        (if-keeps IsBounded l.disposed b (dropped-IsBounded observation.session_id l b))
]

invalidate-IsBounded :
    (child_id : String) (dispatch_id : Option String) (l : Lifecycle)
    → IsBounded l
    → IsBounded (invalidate child_id dispatch_id l)
unfolding invalidate
invalidate-IsBounded child_id dispatch_id l b = elim (Option-cases (lookup child_id l.pending)) [
  | inl nobody ↦ rw (nobody, invalidate) (if-keeps IsBounded l.disposed b b)
  | inr (entry, there) ↦
      rw (there, invalidate)
        (if-keeps IsBounded l.disposed b (
          if-keeps IsBounded
            (is_some dispatch_id && not (opt_eq ◌==◌ (some entry.fact.dispatch_id) dispatch_id)) b
            (dropped-IsBounded child_id l b)))
]

report-IsBounded : (r : Report) (l : Lifecycle) → IsBounded l → IsBounded (report r l)
unfolding report dispose IsBoundedPair
report-IsBounded (start child_id epoch) l b = note_start-IsBounded child_id epoch l b
report-IsBounded (settle child_id epoch settled) l b =
    record_result-IsBounded child_id epoch settled l b
report-IsBounded (finish child_id e now) l b = note_end-IsBounded child_id e now l b
report-IsBounded (publication fact now) l b = publish-IsBounded fact now l b
report-IsBounded (released observation) l b = release-IsBounded observation l b
report-IsBounded (invalidation child_id dispatch_id) l b =
    invalidate-IsBounded child_id dispatch_id l b
report-IsBounded disposal l b = record {
  epochs = omega arith;
  pending = omega arith;
  buffered = omega arith;
  outcomes = omega arith;
}

after-IsBounded-from : (rs : List Report) (l : Lifecycle) → IsBounded l → IsBounded (after rs l)
unfolding after
after-IsBounded-from [] l b = b
after-IsBounded-from (r ∷ rs) l b = after-IsBounded-from rs (report r l) (report-IsBounded r l b)

-- Whatever is reported to a new lifecycle, it holds at most 512 epochs and 512 registrations, and
-- at most 64 ends that wait and 64 results.
pub after-IsBounded : (rs : List Report) → IsBounded (after rs make_dispatch_lifecycle)
after-IsBounded rs = after-IsBounded-from rs make_dispatch_lifecycle (record {
  epochs = omega arith;
  pending = omega arith;
  buffered = omega arith;
  outcomes = omega arith;
})
