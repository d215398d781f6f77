-- ===== src/Catalog/Cycles/Depth.antt =====
-- The calls end: the keys on the path differ.
use dsh_workflow_plugin.Prelude.{
  ℕ, zero, suc, ◌+◌, ◌≤◌, ◌<◌, String, false, Option, some, List, [], ◌∷◌, Assoc, lookup, keys,
  includes, length, if◌then◌else◌, ◌≡◌, refl, eq_iff, arith, Bool-cases, Option-cases, inl, inr,
}
use dsh_workflow_plugin.Catalog.Cycles.{
  Search, reported, finished, children, visit_each, visit, find_cycles,
}

-- The keys that are not on the path.
free_keys : List String → Assoc (List String) → ℕ
free_keys visiting [] = 0
free_keys visiting ((id, cs) ∷ m) = (if includes id visiting then 0 else 1) + free_keys visiting m

free_keys-nil : (m : Assoc (List String)) → free_keys [] m ≡ length m
unfolding free_keys includes
free_keys-nil [] = refl
free_keys-nil ((id, cs) ∷ m) = omega (arith, free_keys-nil m)

free_keys-le :
    (id : String) (visiting : List String) (m : Assoc (List String))
    → free_keys (id ∷ visiting) m ≤ free_keys visiting m
unfolding free_keys includes
free_keys-le id visiting [] = omega arith
free_keys-le id visiting ((j, cs) ∷ m) = ground (arith, free_keys-le id visiting m)

free_keys-lt :
    (id : String) (cs : List String) (visiting : List String) (m : Assoc (List String))
    → lookup id m ≡ some cs
    → includes id visiting ≡ false
    → free_keys (id ∷ visiting) m < free_keys visiting m
unfolding free_keys includes lookup
free_keys-lt id cs visiting [] h new = cc
free_keys-lt id cs visiting ((j, ds) ∷ m) h new = ground (
  arith,
  h,
  new,
  eq_iff j id,
  eq_iff id j,
  free_keys-lt id cs visiting m,
  free_keys-le id visiting m,
)

module _ (graph : Assoc (List String)) where
  visit_each-ends :
      (f : String → Search → Option Search) (ids : List String) (s : Search)
      → ((id : String) (t : Search) → (r : Search) × (f id t ≡ some r))
      → (r : Search) × (visit_each graph f ids s ≡ some r)
  unfolding visit_each
  visit_each-ends f [] s ends = (s, refl)
  visit_each-ends f (id ∷ ids) s ends =
      let (t, e) = ends id s in let (r, es) = visit_each-ends f ids t ends in (r, rw (e) es)

  visit-ends :
      (fuel : ℕ) (visiting : List String) (id : String) (s : Search)
      → free_keys visiting graph < fuel
      → (r : Search) × (visit graph fuel visiting id s ≡ some r)
  unfolding visit children
  visit-ends zero visiting id s h = absurd (omega arith)
  visit-ends (suc fuel) visiting id s h = elim (Bool-cases (includes id visiting)) [
    | inl on_path ↦ (reported s, rw (on_path, visit))
    | inr new ↦ elim (Bool-cases (includes id s.visited)) [
      | inl old ↦ (s, rw (new, old, visit))
      | inr fresh ↦ elim (Option-cases (lookup id graph)) [
        | inl leaf ↦ (finished id s, rw (new, fresh, leaf, visit, visit_each))
        | inr (cs, known) ↦
            let (t, e) = visit_each-ends (visit graph fuel (id ∷ visiting)) cs s (λ x t.
              visit-ends fuel (id ∷ visiting) x t
                (omega (arith, free_keys-lt id cs visiting graph known new))) in
            (finished id t, rw (new, fresh, known, e, visit))
      ]
    ]
  ]

pub find_cycles-ends : (graph : Assoc (List String)) → (r : Search) × (find_cycles graph ≡ some r)
unfolding find_cycles
find_cycles-ends graph =
    visit_each-ends graph (visit graph (suc (length graph)) []) (keys graph)
      (record { visited = []; problems = [] })
      (λ id t. visit-ends graph (suc (length graph)) [] id t (omega (arith, free_keys-nil graph)))
