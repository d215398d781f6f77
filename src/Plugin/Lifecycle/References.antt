-- ===== src/Plugin/Lifecycle/References.antt =====
-- A reference to a dispatch that has been replaced gives nothing.
use dsh_workflow_plugin.Prelude.{
  ℕ, ◌≤◌, String, true, false, ◌==◌, ◌||◌, not, nat_eq, if-keeps, if-splits, opt_eq, is_none,
  Option, none, some, List, lookup, put, remove, ◌≡◌, refl, arith, lookup-put, Option-cases, inl,
  inr,
}
use dsh_workflow_plugin.Plugin.Lifecycle.{
  Lifecycle, Registration, DispatchPublication, DispatchObservationRef, make_dispatch_lifecycle,
  drop_oldest, pending_max,
}
use dsh_workflow_plugin.Plugin.Lifecycle.Methods.{
  Report, after, publish, publish_entry, publish_buffered, registered, release, current_entry,
  ended, new_registration, consume,
}
use dsh_workflow_plugin.Plugin.Lifecycle.Epochs.{IsOwned, IsOwn, after-IsOwned, current_entry-IsOwn}

-- A reference of another number is not current.
replaced-none :
    (l : Lifecycle) (observation : DispatchObservationRef) (entry : Registration)
    → lookup observation.session_id l.pending ≡ some entry
    → nat_eq entry.registration observation.registration ≡ false
    → current_entry l observation ≡ none
unfolding current_entry
replaced-none l observation entry there other = ground (arith, there, other)

IsGone : DispatchObservationRef → Lifecycle × Option DispatchObservationRef → Type 0
IsGone observation (l, answer) = current_entry l observation ≡ none

-- A publication leaves its own registration, with or without an end.
publish_entry-IsGone :
    (entry : Registration) (l : Lifecycle) (observation : DispatchObservationRef)
    → lookup observation.session_id l.pending ≡ some entry
    → (entry.fact.session_id == observation.session_id) ≡ true
    → nat_eq entry.registration observation.registration ≡ false
    → IsGone observation (publish_entry entry l)
unfolding publish_entry publish_buffered IsGone
publish_entry-IsGone entry l observation there same other =
    elim (Option-cases (lookup entry.fact.session_id l.buffered)) [
      | inl nothing ↦ rw (nothing, publish_entry) (replaced-none l observation entry there other)
      | inr (prior, found) ↦
          let l1 = record l { buffered = remove entry.fact.session_id l.buffered } in
          let taken = ended entry prior.end_info in
          rw (found, publish_entry)
            (if-keeps (IsGone observation)
              (is_none entry.epoch_run_id
                || not (opt_eq ◌==◌ (some prior.end_info.run_id) entry.epoch_run_id))
              (replaced-none l1 observation entry there other)
              (replaced-none (record l1 { pending = put entry.fact.session_id taken l1.pending })
                observation taken
                (ground (
                  arith,
                  same,
                  lookup-put entry.fact.session_id observation.session_id taken l1.pending,
                ))
                other))
    ]

registered-there :
    (fact : DispatchPublication) (now : ℕ) (l : Lifecycle) (session : String)
    → (fact.session_id == session) ≡ true
    → lookup session (registered fact now l).pending ≡ some (new_registration l fact)
unfolding registered
registered-there fact now l session same = ground (
  arith,
  same,
  lookup-put fact.session_id session (new_registration l fact)
      (drop_oldest l.pending pending_max fact.session_id),
)

new_number :
    (l : Lifecycle) (fact : DispatchPublication) (entry : Registration) (n : ℕ)
    → entry.registration ≤ l.registrations
    → entry.registration ≡ n
    → nat_eq (new_registration l fact).registration n ≡ false
unfolding new_registration
new_number l fact entry n h same = ground (arith, h, same)

publish-IsGone :
    (l : Lifecycle) (fact : DispatchPublication) (now : ℕ) (observation : DispatchObservationRef)
    (entry : Registration)
    → IsOwned l
    → l.disposed ≡ false
    → (fact.session_id == observation.session_id) ≡ true
    → current_entry l observation ≡ some entry
    → IsGone observation (publish fact now l)
unfolding publish IsGone registered new_registration IsOwn
publish-IsGone l fact now observation entry owned on same there =
    let own = current_entry-IsOwn l observation entry owned there in
    if-splits (IsGone observation) l.disposed (λ off. ground (arith, off, on))
      (λ still.
        publish_entry-IsGone (new_registration l fact) (registered fact now l) observation
          (registered-there fact now l observation.session_id same) same
          (new_number l fact entry observation.registration own.0.2 own.1))

gone-consume :
    (l : Lifecycle) (observation : DispatchObservationRef)
    → current_entry l observation ≡ none
    → consume l observation ≡ none
unfolding consume
gone-consume l observation gone = rw (gone) refl

gone-release :
    (l : Lifecycle) (observation : DispatchObservationRef)
    → current_entry l observation ≡ none
    → release observation l ≡ l
unfolding release
gone-release l observation gone = rw (gone, release) (if-keeps (λ x. x ≡ l) l.disposed refl refl)

-- After any reports to a lifecycle that is not disposed, once a dispatch is published in a
-- session, a reference that was current in this session gives no candidate any more, and releasing
-- it changes nothing: the new registration is safe from it.
pub publish-replaces :
    (rs : List Report) (fact : DispatchPublication) (now : ℕ) (observation : DispatchObservationRef)
    (entry : Registration)
    → (after rs make_dispatch_lifecycle).disposed ≡ false
    → (fact.session_id == observation.session_id) ≡ true
    → current_entry (after rs make_dispatch_lifecycle) observation ≡ some entry
    → (consume (publish fact now (after rs make_dispatch_lifecycle)).0 observation ≡ none)
      × (release observation (publish fact now (after rs make_dispatch_lifecycle)).0
          ≡ (publish fact now (after rs make_dispatch_lifecycle)).0)
unfolding IsGone
publish-replaces rs fact now observation entry on same there =
    let l = after rs make_dispatch_lifecycle in
    let gone = publish-IsGone l fact now observation entry (after-IsOwned rs) on same there in
    (
      gone-consume (publish fact now l).0 observation gone,
      gone-release (publish fact now l).0 observation gone,
    )
