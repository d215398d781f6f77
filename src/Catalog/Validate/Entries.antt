-- ===== src/Catalog/Validate/Entries.antt =====
-- What an empty list of problems says of each entry, and what normalization makes of an entry.
use dsh_workflow_plugin.Prelude.{
  String, Bool, true, false, not, ◌==◌, eq_iff, some, opt_map, List, [], ◌∷◌, map, Assoc, lookup,
  values, includes, ◌≡◌, refl, arith, append-eq-nil, Bool-cases, inl, inr,
}
use dsh_workflow_plugin.Types.Graph.{ResultDef, Target, WorkflowDef}
use dsh_workflow_plugin.State.Tests.{when}
use dsh_workflow_plugin.Catalog.Targets.{valid_target, target_of}
use dsh_workflow_plugin.Catalog.Normalize.{map_values, normalized_children, normalized_workflow}
use dsh_workflow_plugin.Catalog.Problems.{each_entry, each_item, target_problem, target_problems}

pub each_entry-nil {ℓ κ} :
    {V : Type ℓ} {P : Type κ} (f : String → V → List P) (m : Assoc V) (k : String) (v : V)
    → each_entry f m ≡ []
    → lookup k m ≡ some v
    → f k v ≡ []
unfolding each_entry lookup
each_entry-nil f [] k v h there = cc
each_entry-nil f ((j, w) ∷ m) k v h there =
    let (here, rest) = append-eq-nil (f j w) (each_entry f m) h in
    elim (Bool-cases (j == k)) [
      | inl same ↦ ground (arith, same, there, here, eq_iff j k)
      | inr other ↦ each_entry-nil f m k v rest (ground (arith, other, there))
    ]

-- A test that is made of each name.
pub each_item-includes :
    (test : String → Bool) (problem : String) (names : List String) (name : String)
    → each_item (λ n. when (not (test n)) problem) names ≡ []
    → includes name names ≡ true
    → test name ≡ true
unfolding each_item includes
each_item-includes test problem [] name h m = cc
each_item-includes test problem (n ∷ ns) name h m =
    let (here, rest) =
      append-eq-nil (when (not (test n)) problem) (each_item (λ n. when (not (test n)) problem) ns)
        h in
    elim (Bool-cases (n == name)) [
      | inl same ↦ ground (arith, same, here, eq_iff n name)
      | inr other ↦ each_item-includes test problem ns name rest (ground (arith, other, m))
    ]

pub lookup-map_values {ℓ κ} :
    {A : Type ℓ} {B : Type κ} (f : A → B) (k : String) (m : Assoc A)
    → lookup k (map_values f m) ≡ opt_map f (lookup k m)
unfolding lookup map_values
lookup-map_values f k [] = refl
lookup-map_values f k ((j, v) ∷ m) = elim (Bool-cases (j == k)) [
  | inl same ↦ rw (same) refl
  | inr other ↦ rw (other) (lookup-map_values f k m)
]

same_test : (j k r : String) → (j == k) ≡ true → (k == r) ≡ false → (j == r) ≡ false
same_test j k r same other = ground (arith, same, other, eq_iff j k)

pub lookup-normalized_children :
    (root_name k : String) (m : Assoc WorkflowDef)
    → (k == root_name) ≡ false
    → lookup k (normalized_children root_name m) ≡ opt_map normalized_workflow (lookup k m)
unfolding lookup normalized_children
lookup-normalized_children root_name k [] other = refl
lookup-normalized_children root_name k ((j, v) ∷ m) other = elim (Bool-cases (j == k)) [
  | inl same ↦ let is_child = same_test j k root_name same other in rw (same, is_child) refl
  | inr new ↦ rw (new) (lookup-normalized_children root_name k m other)
]

pub target_problems-values :
    (rs : Assoc ResultDef) (def : WorkflowDef) (name : String) (r : ResultDef)
    → target_problems (map target_of (values rs)) def ≡ []
    → lookup name rs ≡ some r
    → valid_target r.target def ≡ true
unfolding target_problems each_item lookup values
target_problems-values [] def name r h there = cc
target_problems-values ((j, s) ∷ rs) def name r h there =
    let (here, rest) =
      append-eq-nil (when (not (valid_target s.target def)) (target_problem s.target))
        (target_problems (map target_of (values rs)) def) h in
    elim (Bool-cases (j == name)) [
      | inl same ↦ ground (arith, same, there, here)
      | inr other ↦ target_problems-values rs def name r rest (ground (arith, other, there))
    ]

-- The same of the targets to which a node maps the returns.
pub target_problems-mapped :
    (m : Assoc Target) (def : WorkflowDef) (name : String) (t : Target)
    → target_problems (values m) def ≡ []
    → lookup name m ≡ some t
    → valid_target t def ≡ true
unfolding target_problems each_item lookup values
target_problems-mapped [] def name t h there = cc
target_problems-mapped ((j, s) ∷ m) def name t h there =
    let (here, rest) =
      append-eq-nil (when (not (valid_target s def)) (target_problem s))
        (target_problems (values m) def) h in
    elim (Bool-cases (j == name)) [
      | inl same ↦ ground (arith, same, there, here)
      | inr other ↦ target_problems-mapped m def name t rest (ground (arith, other, there))
    ]
