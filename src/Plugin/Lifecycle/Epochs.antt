-- ===== src/Plugin/Lifecycle/Epochs.antt =====
-- An end counts for a dispatch of its own epoch, and a reference for one registration.
use dsh_workflow_plugin.Prelude.{
  ℕ, suc, ◌≤◌, String, Bool, true, false, ◌==◌, ◌&&◌, ◌||◌, not, nat_eq, if-keeps, if-splits,
  opt_eq, is_some, is_none, Option, some, List, [], ◌∷◌, lookup, ◌≡◌, subst, arith, eq_iff, eq_refl,
  Bool-cases, Option-cases, inl, inr,
}
use dsh_workflow_plugin.Plugin.Lifecycle.{
  Lifecycle, Registration, ActivationEndInfo, DispatchPublication, DispatchObservationRef,
  BufferedEnd, pending_max, drop_oldest, buffer, make_dispatch_lifecycle,
}
use dsh_workflow_plugin.Plugin.Lifecycle.Methods.{
  Report, start, settle, finish, publication, released, invalidation, disposal, report, after,
  note_start, record_result, note_end, note_pending_end, note_other_end, publish, publish_entry,
  publish_buffered, registered, release, invalidate, dispose, current_entry, ended,
  new_registration,
}
use dsh_workflow_plugin.Plugin.Lifecycle.Entries.{
  All, All-put, All-remove, All-drop_oldest, All-lookup, All-weaken,
}

unfoldable pub ends_in : Option ActivationEndInfo → Option String → Bool
ends_in (some end_info) (some epoch) = epoch == end_info.run_id
ends_in _ _ = true

-- The end that a registration has is of its own epoch, where it knows one.
unfoldable pub own_end : Registration → Bool
own_end entry = ends_in entry.end_info entry.epoch_run_id

-- The registration is under its session, and has been numbered.
unfoldable pub IsOwn : ℕ → String → Registration → Type 0
IsOwn n k entry =
    ((k == entry.fact.session_id) ≡ true) × (own_end entry ≡ true) × (entry.registration ≤ n)

pub IsOwned : Lifecycle → Type 0
IsOwned l = All (IsOwn l.registrations) l.pending

ended-IsOwn :
    (n : ℕ) (k : String) (entry : Registration) (e : ActivationEndInfo)
    → (is_some entry.epoch_run_id && not (opt_eq ◌==◌ entry.epoch_run_id (some e.run_id))) ≡ false
    → IsOwn n k entry
    → IsOwn n k (ended entry e)
unfolding IsOwn own_end ends_in
ended-IsOwn n k entry e own a = elim (Option-cases entry.epoch_run_id) [
  | inl no_epoch ↦ (a.0, ground (arith, no_epoch), a.2)
  | inr (r, epoch) ↦ (a.0, ground (arith, epoch, own), a.2)
]

taken-IsOwn :
    (n : ℕ) (k : String) (entry : Registration) (prior : BufferedEnd)
    → (is_none entry.epoch_run_id
        || not (opt_eq ◌==◌ (some prior.end_info.run_id) entry.epoch_run_id))
      ≡ false
    → IsOwn n k entry
    → IsOwn n k (ended entry prior.end_info)
unfolding IsOwn own_end ends_in
taken-IsOwn n k entry prior own a = elim (Option-cases entry.epoch_run_id) [
  | inl no_epoch ↦ (a.0, ground (arith, no_epoch), a.2)
  | inr (r, epoch) ↦ (
    a.0,
    ground (arith, epoch, own, eq_iff r prior.end_info.run_id, eq_iff prior.end_info.run_id r),
    a.2,
  )
]

IsOwnedPair : Lifecycle × Option DispatchObservationRef → Type 0
IsOwnedPair (l, answer) = IsOwned l

note_end-IsOwned :
    (child_id : String) (e : ActivationEndInfo) (now : ℕ) (l : Lifecycle)
    → IsOwned l
    → IsOwnedPair (note_end child_id e now l)
unfolding note_end note_pending_end note_other_end IsOwnedPair IsOwned buffer
note_end-IsOwned child_id e now l a =
    let P = IsOwn l.registrations in
    elim (Option-cases (lookup child_id l.pending)) [
      | inl nobody ↦ rw (nobody, note_end) (if-keeps IsOwnedPair l.disposed a a)
      | inr (entry, there) ↦
          rw (there, note_end)
            (if-keeps IsOwnedPair l.disposed a (
              if-splits IsOwnedPair
                (is_some entry.epoch_run_id && not (opt_eq ◌==◌ entry.epoch_run_id (some e.run_id)))
                (λ other.
                  if-keeps IsOwned (opt_eq ◌==◌ (some e.run_id) (lookup child_id l.epochs))
                    (All-remove P child_id l.pending a) a)
                (λ own.
                  All-put P child_id (ended entry e) l.pending
                    (ended-IsOwn l.registrations child_id entry e own
                      (All-lookup P child_id entry l.pending there a))
                    a)))
    ]

new_registration-IsOwn :
    (l : Lifecycle) (fact : DispatchPublication)
    → IsOwn (suc l.registrations) fact.session_id (new_registration l fact)
unfolding IsOwn own_end ends_in new_registration
new_registration-IsOwn l fact = (eq_refl fact.session_id, ground arith, omega arith)

later-IsOwn : (n : ℕ) (k : String) (entry : Registration) → IsOwn n k entry → IsOwn (suc n) k entry
unfolding IsOwn
later-IsOwn n k entry a = (a.0, a.1, omega (arith, a.2))

registered-IsOwned :
    (fact : DispatchPublication) (now : ℕ) (l : Lifecycle)
    → IsOwned l
    → IsOwned (registered fact now l)
unfolding registered IsOwned
registered-IsOwned fact now l a =
    let P = IsOwn (suc l.registrations) in
    All-put P fact.session_id (new_registration l fact)
      (drop_oldest l.pending pending_max fact.session_id) (new_registration-IsOwn l fact)
      (All-drop_oldest P l.pending pending_max fact.session_id
        (All-weaken (IsOwn l.registrations) P l.pending (later-IsOwn l.registrations) a))

publish_entry-IsOwned :
    (entry : Registration) (l : Lifecycle)
    → IsOwn l.registrations entry.fact.session_id entry
    → IsOwned l
    → IsOwnedPair (publish_entry entry l)
unfolding publish_entry publish_buffered IsOwnedPair IsOwned
publish_entry-IsOwned entry l own a =
    elim (Option-cases (lookup entry.fact.session_id l.buffered)) [
      | inl nothing ↦ rw (nothing, publish_entry) a
      | inr (prior, found) ↦
          rw (found, publish_entry)
            (if-splits IsOwnedPair
              (is_none entry.epoch_run_id
                || not (opt_eq ◌==◌ (some prior.end_info.run_id) entry.epoch_run_id))
              (λ other. a)
              (λ same.
                All-put (IsOwn l.registrations) entry.fact.session_id (ended entry prior.end_info)
                  l.pending (taken-IsOwn l.registrations entry.fact.session_id entry prior same own)
                  a))
    ]

publish-IsOwned :
    (fact : DispatchPublication) (now : ℕ) (l : Lifecycle)
    → IsOwned l
    → IsOwnedPair (publish fact now l)
unfolding publish IsOwnedPair registered new_registration
publish-IsOwned fact now l a = if-keeps IsOwnedPair l.disposed a (
    publish_entry-IsOwned (new_registration l fact) (registered fact now l)
      (new_registration-IsOwn l fact) (registered-IsOwned fact now l a))

release-IsOwned :
    (observation : DispatchObservationRef) (l : Lifecycle)
    → IsOwned l
    → IsOwned (release observation l)
unfolding release IsOwned
release-IsOwned observation l a = elim (Option-cases (current_entry l observation)) [
  | inl replaced ↦ rw (replaced, release) (if-keeps IsOwned l.disposed a a)
  | inr (entry, there) ↦
      rw (there, release)
        (if-keeps IsOwned l.disposed a
          (All-remove (IsOwn l.registrations) observation.session_id l.pending a))
]

invalidate-IsOwned :
    (child_id : String) (dispatch_id : Option String) (l : Lifecycle)
    → IsOwned l
    → IsOwned (invalidate child_id dispatch_id l)
unfolding invalidate IsOwned
invalidate-IsOwned child_id dispatch_id l a = elim (Option-cases (lookup child_id l.pending)) [
  | inl nobody ↦ rw (nobody, invalidate) (if-keeps IsOwned l.disposed a a)
  | inr (entry, there) ↦
      rw (there, invalidate)
        (if-keeps IsOwned l.disposed a (
          if-keeps IsOwned
            (is_some dispatch_id && not (opt_eq ◌==◌ (some entry.fact.dispatch_id) dispatch_id)) a
            (All-remove (IsOwn l.registrations) child_id l.pending a)))
]

report-IsOwned : (r : Report) (l : Lifecycle) → IsOwned l → IsOwned (report r l)
unfolding report note_start record_result dispose IsOwnedPair IsOwned All
report-IsOwned (start child_id epoch) l a = if-keeps IsOwned l.disposed a a
report-IsOwned (settle child_id epoch settled) l a = if-keeps IsOwned l.disposed a a
report-IsOwned (finish child_id e now) l a = note_end-IsOwned child_id e now l a
report-IsOwned (publication fact now) l a = publish-IsOwned fact now l a
report-IsOwned (released observation) l a = release-IsOwned observation l a
report-IsOwned (invalidation child_id dispatch_id) l a = invalidate-IsOwned child_id dispatch_id l a
report-IsOwned disposal l a = tt

after-IsOwned-from : (rs : List Report) (l : Lifecycle) → IsOwned l → IsOwned (after rs l)
unfolding after
after-IsOwned-from [] l a = a
after-IsOwned-from (r ∷ rs) l a = after-IsOwned-from rs (report r l) (report-IsOwned r l a)

pub after-IsOwned : (rs : List Report) → IsOwned (after rs make_dispatch_lifecycle)
unfolding IsOwned All
after-IsOwned rs = after-IsOwned-from rs make_dispatch_lifecycle tt

same_number : (m n : ℕ) → nat_eq m n ≡ true → m ≡ n
same_number m n h = ground (arith, h)

current_same :
    (l : Lifecycle) (observation : DispatchObservationRef) (e entry : Registration)
    → lookup observation.session_id l.pending ≡ some e
    → nat_eq e.registration observation.registration ≡ true
    → current_entry l observation ≡ some entry
    → e ≡ entry
unfolding current_entry
current_same l observation e entry there same h = ground (arith, there, same, h)

-- A reference that has not been replaced is to an entry of its session.
pub current_entry-IsOwn :
    (l : Lifecycle) (observation : DispatchObservationRef) (entry : Registration)
    → IsOwned l
    → current_entry l observation ≡ some entry
    → IsOwn l.registrations observation.session_id entry
      × (entry.registration ≡ observation.registration)
unfolding IsOwned current_entry
current_entry-IsOwn l observation entry a h =
    elim (Option-cases (lookup observation.session_id l.pending)) [
      | inl nobody ↦ ground (arith, nobody, h)
      | inr (e, there) ↦ elim (Bool-cases (nat_eq e.registration observation.registration)) [
        | inl same ↦
            let is_entry = current_same l observation e entry there same h in
            (
              subst (IsOwn l.registrations observation.session_id) is_entry
                  (All-lookup (IsOwn l.registrations) observation.session_id e l.pending there a),
              subst (λ x. x.registration ≡ observation.registration) is_entry
                  (same_number e.registration observation.registration same),
            )
        | inr other ↦ ground (arith, there, other, h)
      ]
    ]
