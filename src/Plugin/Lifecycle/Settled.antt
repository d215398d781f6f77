-- ===== src/Plugin/Lifecycle/Settled.antt =====
-- The results that are kept are those that activations have settled with.
use dsh_workflow_plugin.Prelude.{
  ℕ, String, ◌==◌, ◌||◌, ◌&&◌, not, if-keeps, opt_eq, is_some, is_none, Option, some, List, [], ◌∷◌,
  Memᴰ, lookup, ◌≡◌, refl, Option-cases, inl, inr,
}
use dsh_workflow_plugin.Plugin.Lifecycle.{
  Lifecycle, Registration, ActivationEndInfo, DispatchPublication, DispatchObservationRef,
  ResultObservation, buffer_max, drop_oldest, buffer, make_dispatch_lifecycle,
}
use dsh_workflow_plugin.Plugin.Lifecycle.Methods.{
  Report, Settlement, start, settle, finish, publication, released, invalidation, disposal, report,
  after, note_start, record_result, result_observation, note_end, note_pending_end, note_other_end,
  publish, publish_entry, publish_buffered, registered, release, invalidate, dispose, current_entry,
  new_registration,
}
use dsh_workflow_plugin.Plugin.Lifecycle.Entries.{All, All-put, All-drop_oldest, All-lookup}

-- The result is what one of the reports says of this session and this epoch.
unfoldable pub IsSettled : List Report → String → ResultObservation → Type 0
IsSettled rs session o =
    (settled : Settlement) × Memᴰ (settle session o.epoch settled) rs
    × (o ≡ result_observation o.epoch settled)

module _ (rs : List Report) where
  IsKept : Lifecycle → Type 0
  IsKept l = All (IsSettled rs) l.outcomes

  IsKeptPair : Lifecycle × Option DispatchObservationRef → Type 0
  IsKeptPair (l, answer) = IsKept l

  note_end-IsKept :
      (child_id : String) (e : ActivationEndInfo) (now : ℕ) (l : Lifecycle)
      → IsKept l
      → IsKeptPair (note_end child_id e now l)
  unfolding note_end note_pending_end note_other_end IsKeptPair IsKept buffer
  note_end-IsKept child_id e now l a = elim (Option-cases (lookup child_id l.pending)) [
    | inl nobody ↦ rw (nobody, note_end) (if-keeps IsKeptPair l.disposed a a)
    | inr (entry, there) ↦
        rw (there, note_end)
          (if-keeps IsKeptPair l.disposed a (
            if-keeps IsKeptPair
              (is_some entry.epoch_run_id && not (opt_eq ◌==◌ entry.epoch_run_id (some e.run_id)))
              (if-keeps IsKept (opt_eq ◌==◌ (some e.run_id) (lookup child_id l.epochs)) a a) a))
  ]

  publish-IsKept :
      (fact : DispatchPublication) (now : ℕ) (l : Lifecycle)
      → IsKept l
      → IsKeptPair (publish fact now l)
  unfolding publish publish_entry publish_buffered IsKeptPair IsKept registered new_registration
  publish-IsKept fact now l a =
      if-keeps IsKeptPair l.disposed a
        (entry_kept (new_registration l fact) (registered fact now l) a)
    where
      entry_kept :
          (entry : Registration) (l : Lifecycle) → IsKept l → IsKeptPair (publish_entry entry l)
      entry_kept entry l a = elim (Option-cases (lookup entry.fact.session_id l.buffered)) [
        | inl nothing ↦ rw (nothing, publish_entry) a
        | inr (prior, found) ↦
            rw (found, publish_entry)
              (if-keeps IsKeptPair
                (is_none entry.epoch_run_id
                  || not (opt_eq ◌==◌ (some prior.end_info.run_id) entry.epoch_run_id))
                a a)
      ]

  release-IsKept :
      (observation : DispatchObservationRef) (l : Lifecycle)
      → IsKept l
      → IsKept (release observation l)
  unfolding release IsKept
  release-IsKept observation l a = elim (Option-cases (current_entry l observation)) [
    | inl replaced ↦ rw (replaced, release) (if-keeps IsKept l.disposed a a)
    | inr (entry, there) ↦ rw (there, release) (if-keeps IsKept l.disposed a a)
  ]

  invalidate-IsKept :
      (child_id : String) (dispatch_id : Option String) (l : Lifecycle)
      → IsKept l
      → IsKept (invalidate child_id dispatch_id l)
  unfolding invalidate IsKept
  invalidate-IsKept child_id dispatch_id l a = elim (Option-cases (lookup child_id l.pending)) [
    | inl nobody ↦ rw (nobody, invalidate) (if-keeps IsKept l.disposed a a)
    | inr (entry, there) ↦
        rw (there, invalidate)
          (if-keeps IsKept l.disposed a (
            if-keeps IsKept
              (is_some dispatch_id && not (opt_eq ◌==◌ (some entry.fact.dispatch_id) dispatch_id)) a
              a))
  ]

  -- Only a report that is among `rs` adds a result.
  report-IsKept : (r : Report) (l : Lifecycle) → Memᴰ r rs → IsKept l → IsKept (report r l)
  unfolding report note_start record_result dispose IsKeptPair IsKept All IsSettled
      result_observation
  report-IsKept (start child_id epoch) l seen a = if-keeps IsKept l.disposed a a
  report-IsKept (settle child_id epoch settled) l seen a = if-keeps IsKept l.disposed a (
      All-put (IsSettled rs) child_id (result_observation epoch settled)
        (drop_oldest l.outcomes buffer_max child_id) (observed child_id epoch settled seen)
        (All-drop_oldest (IsSettled rs) l.outcomes buffer_max child_id a))
    where
      observed :
          (child_id : String) (epoch : Option String) (settled : Settlement)
          → Memᴰ (settle child_id epoch settled) rs
          → IsSettled rs child_id (result_observation epoch settled)
      observed child_id epoch (Settlement.resolved reason) seen =
          (Settlement.resolved reason, seen, refl)
      observed child_id epoch (Settlement.rejected code message) seen =
          (Settlement.rejected code message, seen, refl)
  report-IsKept (finish child_id e now) l seen a = note_end-IsKept child_id e now l a
  report-IsKept (publication fact now) l seen a = publish-IsKept fact now l a
  report-IsKept (released observation) l seen a = release-IsKept observation l a
  report-IsKept (invalidation child_id dispatch_id) l seen a =
      invalidate-IsKept child_id dispatch_id l a
  report-IsKept disposal l seen a = tt

  after-IsKept :
      (later : List Report) (l : Lifecycle)
      → ((r : Report) → Memᴰ r later → Memᴰ r rs)
      → IsKept l
      → IsKept (after later l)
  unfolding after
  after-IsKept [] l all a = a
  after-IsKept (r ∷ later) l all a =
      after-IsKept later (report r l) (λ s m. all s (Memᴰ.tail m))
        (report-IsKept r l (all r (Memᴰ.head refl)) a)

-- A result that is looked up after the reports is one that they contain.
pub outcome-IsSettled :
    (rs : List Report) (session : String) (o : ResultObservation)
    → lookup session (after rs make_dispatch_lifecycle).outcomes ≡ some o
    → IsSettled rs session o
unfolding IsKept All
outcome-IsSettled rs session o there =
    let l = after rs make_dispatch_lifecycle in
    All-lookup (IsSettled rs) session o l.outcomes there
      (after-IsKept rs rs make_dispatch_lifecycle (λ r m. m) tt)
