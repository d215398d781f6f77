-- ===== src/Catalog/Cycles/Found.antt =====
-- A cycle is reported exactly where the references have one.
use dsh_workflow_plugin.Prelude.{
  ℕ, zero, suc, String, true, Option, some, List, [], ◌∷◌, ◌++◌, Assoc, keys, includes, length, ◌≡◌,
  ◌≢◌, refl, sym, subst, ◌==◌, eq_iff, eq_refl, arith, some_inj, opt_bind-eq-some, Bool-cases, ◌⊎◌,
  inl, inr, ◌↔◌,
}
use dsh_workflow_plugin.Catalog.Cycles.{
  Search, cycle_problem, reported, finished, children, visit_each, visit, find_cycles,
}
use dsh_workflow_plugin.Catalog.Cycles.Calls.{
  IsGrounded, grounded, Calls, once, further, no_cycle, Calls-key,
}
use dsh_workflow_plugin.Catalog.Cycles.Depth.{find_cycles-ends}

same_id : (a b : String) → (a == b) ≡ true → a ≡ b
same_id a b h = ground (arith, h, eq_iff a b)

append_one {ℓ} : {A : Type ℓ} (xs : List A) (x : A) → xs ++ x ∷ [] ≢ []
append_one [] x h = cc
append_one (y ∷ xs) x h = cc

reported_problems : (s : Search) → (reported s).problems ≢ []
reported_problems s h = append_one s.problems cycle_problem h

module _ (graph : Assoc (List String)) where
  AllGrounded : List String → Type 0
  AllGrounded ids = (v : String) → includes v ids ≡ true → IsGrounded graph v

  -- A call that reports nothing has found its workflow grounded.
  record IsSound (f : String → Search → Option Search) : Type 0 where
    clean : (id : String) (s r : Search) → f id s ≡ some r → r.problems ≡ [] → s.problems ≡ []
    ground_lem :
        (id : String) (s r : Search)
        → f id s ≡ some r
        → r.problems ≡ []
        → AllGrounded s.visited
        → AllGrounded r.visited × IsGrounded graph id

  module _ (f : String → Search → Option Search) (sound : IsSound f) where
    visit_each-clean :
        (ids : List String) (s r : Search)
        → visit_each graph f ids s ≡ some r
        → r.problems ≡ []
        → s.problems ≡ []
    unfolding visit_each
    visit_each-clean [] s r h none_left = subst (λ x. x.problems ≡ []) (sym (some_inj h)) none_left
    visit_each-clean (id ∷ ids) s r h none_left =
        let (t, first, rest) = opt_bind-eq-some (f id s) (visit_each graph f ids) h in
        sound.clean id s t first (visit_each-clean ids t r rest none_left)

    visit_each-AllGrounded :
        (ids : List String) (s r : Search)
        → visit_each graph f ids s ≡ some r
        → r.problems ≡ []
        → AllGrounded s.visited
        → AllGrounded r.visited × AllGrounded ids
    unfolding visit_each AllGrounded includes
    visit_each-AllGrounded [] s r h none_left all =
        (subst (λ x. AllGrounded x.visited) (some_inj h) all, λ v absent. cc)
    visit_each-AllGrounded (id ∷ ids) s r h none_left all =
        let (t, first, rest) = opt_bind-eq-some (f id s) (visit_each graph f ids) h in
        let (seen, here) =
          sound.ground_lem id s t first (visit_each-clean ids t r rest none_left) all in
        let (later, others) = visit_each-AllGrounded ids t r rest none_left seen in
        (
          later,
          λ v h. elim (Bool-cases (id == v)) [
            | inl same ↦ subst (IsGrounded graph) (same_id id v same) here
            | inr other ↦ others v (ground (arith, h, other))
          ],
        )

  -- What a call returns, by the tests that it makes.
  visit_cases :
      (fuel : ℕ) (visiting : List String) (id : String) (s r : Search)
      → visit graph (suc fuel) visiting id s ≡ some r
      → (includes id visiting ≡ true) × (r ≡ reported s)
        ⊎ ((includes id s.visited ≡ true) × (r ≡ s)
            ⊎ ((t : Search) × (visit_each graph
                    (visit graph fuel (id ∷ visiting))
                    (children graph id)
                    s
                  ≡ some t)
                × (r ≡ finished id t)))
  unfolding visit
  visit_cases fuel visiting id s r h = elim (Bool-cases (includes id visiting)) [
    | inl on_path ↦ inl (on_path, sym (some_inj (rw (on_path, visit) at h)))
    | inr new ↦ elim (Bool-cases (includes id s.visited)) [
      | inl old ↦ inr (inl (old, sym (some_inj (rw (new, old, visit) at h))))
      | inr fresh ↦
          let (t, all, done) =
            opt_bind-eq-some
              (visit_each graph (visit graph fuel (id ∷ visiting)) (children graph id) s)
              (λ t. some (finished id t)) (rw (new, fresh, visit) at h) in
          inr (inr (t, all, sym (some_inj done)))
    ]
  ]

  no_fuel :
      (visiting : List String) (id : String) (s r : Search)
      → visit graph zero visiting id s ≢ some r
  unfolding visit
  no_fuel visiting id s r h = cc

  finished-AllGrounded :
      (id : String) (t : Search)
      → IsGrounded graph id
      → AllGrounded t.visited
      → AllGrounded (finished id t).visited
  unfolding AllGrounded includes
  finished-AllGrounded id t here later v h = elim (Bool-cases (id == v)) [
    | inl same ↦ subst (IsGrounded graph) (same_id id v same) here
    | inr other ↦ later v (ground (arith, h, other))
  ]

  visit-IsSound : (fuel : ℕ) (visiting : List String) → IsSound (visit graph fuel visiting)
  unfolding AllGrounded includes
  visit-IsSound zero visiting = record {
    clean = λ id s r h. absurd (no_fuel visiting id s r h);
    ground_lem = λ id s r h. absurd (no_fuel visiting id s r h);
  }
  visit-IsSound (suc fuel) visiting =
      let sound = visit-IsSound fuel in
      record {
        clean = λ id s r h none_left. elim (visit_cases fuel visiting id s r h) [
          | inl (_, e) ↦ absurd (reported_problems s (subst (λ x. x.problems ≡ []) e none_left))
          | inr (inl (_, e)) ↦ subst (λ x. x.problems ≡ []) e none_left
          | inr (inr (t, all, e)) ↦
              visit_each-clean (visit graph fuel (id ∷ visiting)) (sound (id ∷ visiting))
                (children graph id) s t all (subst (λ x. x.problems ≡ []) e none_left)
        ];
        ground_lem = λ id s r h none_left all_grounded. elim (visit_cases fuel visiting id s r h) [
          | inl (_, e) ↦ absurd (reported_problems s (subst (λ x. x.problems ≡ []) e none_left))
          | inr (inl (old, e)) ↦
              (subst (λ x. AllGrounded x.visited) (sym e) all_grounded, all_grounded id old)
          | inr (inr (t, all, e)) ↦
              let (later, below) =
                visit_each-AllGrounded (visit graph fuel (id ∷ visiting)) (sound (id ∷ visiting))
                  (children graph id) s t all (subst (λ x. x.problems ≡ []) e none_left)
                  all_grounded in
              let here = grounded below in
              (
                subst (λ x. AllGrounded x.visited) (sym e) (finished-AllGrounded id t here later),
                here,
              )
        ];
      }

  -- Where something is reported, there is a cycle.
  HasReason : Search → Type 0
  HasReason s = (s.problems ≡ []) ⊎ ((c : String) × Calls graph c c)

  visit_each-HasReason :
      (f : String → Search → Option Search) (ids : List String)
      → ((id : String) (s r : Search)
          → includes id ids ≡ true
          → f id s ≡ some r
          → HasReason s
          → HasReason r)
      → (s r : Search) → visit_each graph f ids s ≡ some r
      → HasReason s
      → HasReason r
  unfolding visit_each includes
  visit_each-HasReason f [] keep s r h reason = subst HasReason (some_inj h) reason
  visit_each-HasReason f (id ∷ ids) keep s r h reason =
      let (t, first, rest) = opt_bind-eq-some (f id s) (visit_each graph f ids) h in
      visit_each-HasReason f ids (λ x s' r' m. keep x s' r' (ground (arith, m))) t r rest
        (keep id s t (ground (arith, eq_refl id)) first reason)

  visit-HasReason :
      (fuel : ℕ) (visiting : List String) (id : String) (s r : Search)
      → ((v : String) → includes v visiting ≡ true → Calls graph v id)
      → visit graph fuel visiting id s ≡ some r
      → HasReason s
      → HasReason r
  unfolding HasReason includes
  visit-HasReason zero visiting id s r path h reason = absurd (no_fuel visiting id s r h)
  visit-HasReason (suc fuel) visiting id s r path h reason =
      elim (visit_cases fuel visiting id s r h) [
        | inl (on_path, e) ↦ inr (id, path id on_path)
        | inr (inl (old, e)) ↦ subst HasReason (sym e) reason
        | inr (inr (t, all, e)) ↦ subst HasReason (sym e) (
            visit_each-HasReason (visit graph fuel (id ∷ visiting)) (children graph id)
              (λ child s' r' called. visit-HasReason fuel (id ∷ visiting) child s' r' (λ v on_path.
                elim (Bool-cases (id == v)) [
                  | inl same ↦ subst (λ x. Calls graph x child) (same_id id v same) (once called)
                  | inr other ↦ further (path v (ground (arith, on_path, other))) called
                ]))
              s t all reason)
      ]

-- For every graph of calls, the search for cycles ends within its depth, and it reports nothing
-- exactly where every workflow of the graph is grounded, that is, where every chain of calls from
-- it ends.
pub find_cycles-IsGrounded :
    (graph : Assoc (List String))
    → (r : Search) × (find_cycles graph ≡ some r)
      × ((r.problems ≡ [])
          ↔ ((id : String) → includes id (keys graph) ≡ true → IsGrounded graph id))
unfolding find_cycles AllGrounded HasReason includes
find_cycles-IsGrounded graph =
    let start : Search = record { visited = []; problems = [] } in
    let f = visit graph (suc (length graph)) [] in
    let (r, ends) = find_cycles-ends graph in
    let reason =
      visit_each-HasReason graph f (keys graph)
        (λ id s r' m. visit-HasReason graph (suc (length graph)) [] id s r' (λ v h. cc)) start r
        ends (inl refl) in
    (
      r,
      ends,
      (
        (λ none_left.
            (visit_each-AllGrounded graph f (visit-IsSound graph (suc (length graph)) [])
              (keys graph) start r ends none_left (λ v h. cc)).1),
        λ all. elim reason [
          | inl none_left ↦ none_left
          | inr (c, cycle) ↦ absurd (no_cycle graph (all c (Calls-key graph cycle)) cycle)
        ],
      ),
    )
