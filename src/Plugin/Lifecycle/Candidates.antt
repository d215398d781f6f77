-- ===== src/Plugin/Lifecycle/Candidates.antt =====
-- What a reference to a dispatch gives: a candidate of its session and its epoch.
use dsh_workflow_plugin.Prelude.{
  some_inj, String, true, ◌==◌, opt_map, opt_bind, Option, none, some, List, Memᴰ, lookup, ◌≡◌,
  refl, subst, arith, eq_iff, Option-cases, inl, inr, ◌⊎◌,
}
use dsh_workflow_plugin.Plugin.Lifecycle.{
  Lifecycle, Registration, ActivationEndInfo, DispatchObservationRef, DispatchCandidate,
  ResultObservation, unknown, make_dispatch_lifecycle,
}
use dsh_workflow_plugin.Plugin.Lifecycle.Methods.{
  Report, Settlement, settle, result_observation, after, current_entry, consume, candidate,
  attributable, observed_outcome,
}
use dsh_workflow_plugin.Plugin.Lifecycle.Settled.{IsSettled, outcome-IsSettled}
use dsh_workflow_plugin.Plugin.Lifecycle.Epochs.{
  IsOwn, own_end, ends_in, after-IsOwned, current_entry-IsOwn,
}

bind_value {ℓ κ} :
    {A : Type ℓ} {B : Type κ} (o : Option A) (f : A → Option B) (x : A) (y : B)
    → o ≡ some x
    → opt_bind o f ≡ some y
    → f x ≡ some y
bind_value o f x y h k = subst (λ p. opt_bind p f ≡ some y) h k

same_session : (a b : String) → (a == b) ≡ true → b ≡ a
same_session a b h = ground (arith, h, eq_iff a b)

consumed-entry :
    (l : Lifecycle) (observation : DispatchObservationRef) (c : DispatchCandidate)
    → consume l observation ≡ some c
    → (entry : Registration) × (e : ActivationEndInfo) × (current_entry l observation ≡ some entry)
      × (entry.end_info ≡ some e)
      × (candidate l entry e ≡ c)
unfolding consume
consumed-entry l observation c h = elim (Option-cases (current_entry l observation)) [
  | inl replaced ↦ ground (arith, replaced, h)
  | inr (entry, there) ↦ elim (Option-cases entry.end_info) [
    | inl pending ↦ ground (arith, there, pending, h)
    | inr (e, over) ↦ (
      entry,
      e,
      there,
      over,
      some_inj (
          subst (λ o. opt_map (candidate l entry) o ≡ some c) over
            (bind_value (current_entry l observation) (λ x. opt_map (candidate l x) x.end_info)
              entry c there h)),
    )
  ]
]

-- The candidate tells nothing of how its epoch has gone.
abbrev IsUnknown : DispatchCandidate → Type 0
IsUnknown c = (c.outcome ≡ unknown) × (c.failure_code ≡ none) × (c.failure_summary ≡ none)

-- It tells what one of the reports has told: that this epoch of its session has settled so.
abbrev IsTold : List Report → String → DispatchCandidate → Type 0
IsTold rs epoch c =
    (settled : Settlement) × Memᴰ (settle c.fact.session_id (some epoch) settled) rs
    × (c.outcome ≡ (result_observation (some epoch) settled).outcome)
    × (c.failure_code ≡ (result_observation (some epoch) settled).failure_code)
    × (c.failure_summary ≡ (result_observation (some epoch) settled).failure_summary)

pub OfOwnEpoch : List Report → DispatchCandidate → Type 0
OfOwnEpoch rs c =
    ((epoch : String) × (c.epoch_run_id ≡ some epoch)
      × (c.end_info.run_id ≡ epoch)
      × (IsUnknown c ⊎ IsTold rs epoch c))
    ⊎ ((c.epoch_run_id ≡ none) × IsUnknown c)

module _ (l : Lifecycle) (entry : Registration) (e : ActivationEndInfo) where
  unattributed-IsUnknown : attributable l entry ≡ none → IsUnknown (candidate l entry e)
  unfolding candidate observed_outcome
  unattributed-IsUnknown nothing =
      (ground (arith, nothing), ground (arith, nothing), ground (arith, nothing))

  no_epoch-unattributed : entry.epoch_run_id ≡ none → attributable l entry ≡ none
  unfolding attributable
  no_epoch-unattributed no_epoch = elim (Option-cases (lookup entry.fact.session_id l.outcomes)) [
    | inl nothing ↦ ground (arith, nothing)
    | inr (o, found) ↦ ground (arith, found, no_epoch)
  ]

  -- What is attributed is kept for the session, under the epoch of the registration.
  attributed-kept :
      (epoch : String) (o : ResultObservation)
      → entry.epoch_run_id ≡ some epoch
      → attributable l entry ≡ some o
      → (lookup entry.fact.session_id l.outcomes ≡ some o) × (o.epoch ≡ some epoch)
  unfolding attributable
  attributed-kept epoch o known h = elim (Option-cases (lookup entry.fact.session_id l.outcomes)) [
    | inl nothing ↦ absurd (ground (arith, nothing, h))
    | inr (p, found) ↦ elim (Option-cases p.epoch) [
      | inl epochless ↦ absurd (ground (arith, found, epochless, known, h))
      | inr (q, told) ↦ (
        ground (arith, found, told, known, h),
        ground (arith, found, told, known, h, eq_iff q epoch),
      )
    ]
  ]

kept-IsTold :
    (rs : List Report) (l : Lifecycle) (entry : Registration) (e : ActivationEndInfo)
    (epoch : String) (o : ResultObservation)
    → IsSettled rs entry.fact.session_id o
    → o.epoch ≡ some epoch
    → attributable l entry ≡ some o
    → IsTold rs epoch (candidate l entry e)
unfolding candidate observed_outcome IsSettled
kept-IsTold rs l entry e epoch o (settled, there, told) of_epoch h =
    let reported = subst (λ q. Memᴰ (settle entry.fact.session_id q settled) rs) of_epoch there in
    let says = subst (λ q. o ≡ result_observation q settled) of_epoch told in
    (settled, reported, rw (h) (rw says refl), rw (h) (rw says refl), rw (h) (rw says refl))

candidate-OfOwnEpoch :
    (rs : List Report) (entry : Registration) (e : ActivationEndInfo)
    → entry.end_info ≡ some e
    → own_end entry ≡ true
    → OfOwnEpoch rs (candidate (after rs make_dispatch_lifecycle) entry e)
unfolding candidate own_end ends_in OfOwnEpoch
candidate-OfOwnEpoch rs entry e over own =
    let l = after rs make_dispatch_lifecycle in
    elim (Option-cases entry.epoch_run_id) [
      | inl no_epoch ↦
          inr
            (no_epoch, unattributed-IsUnknown l entry e (no_epoch-unattributed l entry e no_epoch))
      | inr (epoch, known) ↦ inl (
        epoch,
        known,
        ground (arith, known, over, own, eq_iff epoch e.run_id),
        elim (Option-cases (attributable l entry)) [
          | inl nothing ↦ inl (unattributed-IsUnknown l entry e nothing)
          | inr (o, attributed) ↦
              let (kept, of_epoch) = attributed-kept l entry e epoch o known attributed in
              inr (
                kept-IsTold rs l entry e epoch o (outcome-IsSettled rs entry.fact.session_id o kept)
                  of_epoch attributed)
        ],
      )
    ]

-- Whatever was reported since the lifecycle was made, and in whatever order: a candidate that a
-- reference gives is of the session of the reference. Either it knows its epoch, and then its end
-- is the end of this epoch, and its outcome, code and summary are unknown, or those of a
-- settlement that was reported of this session in this epoch. Or it knows no epoch, and then its
-- outcome, code and summary are unknown. So no result of another epoch is taken for its own.
pub consume-OfOwnEpoch :
    (rs : List Report) (observation : DispatchObservationRef) (c : DispatchCandidate)
    → consume (after rs make_dispatch_lifecycle) observation ≡ some c
    → (c.fact.session_id ≡ observation.session_id) × OfOwnEpoch rs c
unfolding IsOwn candidate
consume-OfOwnEpoch rs observation c h =
    let l = after rs make_dispatch_lifecycle in
    let (entry, e, there, over, is_c) = consumed-entry l observation c h in
    let own = (current_entry-IsOwn l observation entry (after-IsOwned rs) there).0 in
    (
      subst (λ x. x.fact.session_id ≡ observation.session_id) is_c
          (same_session observation.session_id entry.fact.session_id own.0),
      subst (OfOwnEpoch rs) is_c (candidate-OfOwnEpoch rs entry e over own.1),
    )
