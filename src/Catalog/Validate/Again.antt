-- ===== src/Catalog/Validate/Again.antt =====
-- The nodes of an accepted config have no problems when they are validated again.
use dsh_workflow_plugin.Prelude.{
  String, Text, trim, trim-trim, is_empty, Bool, true, false, Option, none, some, or_else, opt_map,
  List, [], ◌∷◌, ◌++◌, map, Assoc, lookup, keys, values, includes, ◌≡◌, refl, ◌∙◌, ◌⊎◌, arith,
  append-eq-nil, Bool-cases, Option-cases, inl, inr,
}
use dsh_workflow_plugin.Types.Routes.{RoleModel, same_model_route}
use dsh_workflow_plugin.Types.Graph.{
  RoleDefinition, Value, text, number, other, CheckerRef, NodeDef, actor_task, builtin_program,
  child_workflow, ResultDef, Target, to_node, to_return, WorkflowDef, WorkflowConfig,
}
use dsh_workflow_plugin.Catalog.Targets.{valid_target, target_of, node_targets}
use dsh_workflow_plugin.Catalog.Normalize.{
  map_values, trim_given, trim_effort, normalized_role, criteria_fit, normalized_config,
  normalized_checker, normalized_result, normalized_node, normalized_workflow, builtin_checker_ids,
}
use dsh_workflow_plugin.Catalog.Problems.{
  each_entry, each_item, is_blank_given, has_blank_effort, is_same_model, model_problems,
  role_problems, criteria_problems, config_problems, checker_problems, target_problems,
  result_problems, results_problems, actor_problems, program_problems, child_problems,
  node_problems,
}
use dsh_workflow_plugin.Catalog.Validate.Entries.{lookup-map_values}
use dsh_workflow_plugin.Catalog.Validate.Walks.{targets-normalized}

pub append-nil-nil {ℓ} : {A : Type ℓ} {xs ys : List A} → xs ≡ [] → ys ≡ [] → xs ++ ys ≡ []
append-nil-nil h k = rw (h) k

pub is_blank_given-trim : (o : Option Text) → is_blank_given (trim_given o) ≡ is_blank_given o
unfolding is_blank_given trim_given
is_blank_given-trim none = refl
is_blank_given-trim (some t) = elim (Bool-cases (is_empty (trim t))) [
  | inl blank ↦ ground (arith, blank)
  | inr solid ↦ ground (arith, solid, trim-trim t)
]

has_blank_effort-trim :
    (o : Option RoleModel) → has_blank_effort (opt_map trim_effort o) ≡ has_blank_effort o
unfolding has_blank_effort
has_blank_effort-trim none = refl
has_blank_effort-trim (some m) = is_blank_given-trim m.reasoning_effort

is_same_model-trim :
    (a b : Option RoleModel)
    → is_same_model (opt_map trim_effort a) (opt_map trim_effort b) ≡ is_same_model a b
unfolding is_same_model same_model_route
is_same_model-trim none b = refl
is_same_model-trim (some a) none = refl
is_same_model-trim (some a) (some b) = refl

pub model_problems-trim :
    (a b : Option RoleModel)
    → model_problems (opt_map trim_effort a) (opt_map trim_effort b) ≡ model_problems a b
unfolding model_problems
model_problems-trim a b =
    rw (has_blank_effort-trim a, has_blank_effort-trim b, is_same_model-trim a b) refl

pub role_problems-normalized :
    (k : String) (r : RoleDefinition) → role_problems k (normalized_role r) ≡ role_problems k r
unfolding role_problems normalized_role
role_problems-normalized k r = rw (model_problems-trim r.model r.fallback_model) refl

pub each_entry-map_values {ℓ κ} :
    {V : Type ℓ} {P : Type κ} (f : String → V → List P) (g : V → V) (m : Assoc V)
    → ((k : String) (v : V) → f k (g v) ≡ f k v)
    → each_entry f (map_values g m) ≡ each_entry f m
unfolding each_entry map_values
each_entry-map_values f g [] same = refl
each_entry-map_values f g ((k, v) ∷ m) same = rw (same k v, each_entry-map_values f g m same) refl

-- The same of entries that have no problems.
pub each_entry-again {ℓ κ} :
    {V : Type ℓ} {P : Type κ} (f f' : String → V → List P) (g : V → V) (m : Assoc V)
    → ((k : String) (v : V) → f k v ≡ [] → f' k (g v) ≡ [])
    → each_entry f m ≡ []
    → each_entry f' (map_values g m) ≡ []
unfolding each_entry map_values
each_entry-again f f' g [] again h = refl
each_entry-again f f' g ((k, v) ∷ m) again h =
    let (here, rest) = append-eq-nil (f k v) (each_entry f m) h in
    append-nil-nil (again k v here) (each_entry-again f f' g m again rest)

normalized_config-cases :
    (c : Assoc Value)
    → (normalized_config c ≡ c)
      ⊎ ((normalized_config c ≡ [])
          ⊎ ((t : Text) × (criteria_fit (trim t) ≡ true)
              × (normalized_config c ≡ ("criteria", text (trim t)) ∷ [])))
unfolding normalized_config
normalized_config-cases c = elim (Option-cases (lookup "criteria" c)) [
  | inl absent ↦ inr (inl (ground (arith, absent)))
  | inr (text t, there) ↦ elim (Bool-cases (criteria_fit (trim t))) [
    | inl fit ↦ inr (inr (t, fit, ground (arith, there, fit)))
    | inr unfit ↦ inl (ground (arith, there, unfit))
  ]
  | inr (number n, there) ↦ inl (ground (arith, there))
  | inr (other, there) ↦ inl (ground (arith, there))
]

one_criteria :
    (t : Text)
    → criteria_fit (trim t) ≡ true
    → config_problems (("criteria", text (trim t)) ∷ []) ≡ []
unfolding config_problems each_item criteria_problems lookup keys includes
one_criteria t fit = ground (arith, fit, trim-trim t)

config_problems-again :
    (c : Assoc Value) → config_problems c ≡ [] → config_problems (normalized_config c) ≡ []
unfolding config_problems each_item criteria_problems lookup keys
config_problems-again c h = elim (normalized_config-cases c) [
  | inl same ↦ rw (same) h
  | inr (inl empty) ↦ rw (empty) refl
  | inr (inr (t, fit, kept)) ↦ rw (kept) (one_criteria t fit)
]

checker_problems-again :
    (c : CheckerRef) → checker_problems c ≡ [] → checker_problems (normalized_checker c) ≡ []
unfolding checker_problems normalized_checker
checker_problems-again c h = elim (Bool-cases (includes c.checker_id builtin_checker_ids)) [
  | inl known ↦ ground (arith, known, h, config_problems-again (or_else c.config []))
  | inr unknown ↦ ground (arith, unknown, h)
]

result_problems-normalized :
    (b : Bool) (k : String) (r : ResultDef)
    → result_problems b k (normalized_result r) ≡ result_problems b k r
unfolding result_problems normalized_result
result_problems-normalized b k r = elim (Bool-cases (criteria_fit (trim r.criteria))) [
  | inl fit ↦ ground (arith, fit, trim-trim r.criteria)
  | inr unfit ↦ ground (arith, unfit)
]

valid_target-normalized :
    (t : Target) (d : WorkflowDef) → valid_target t (normalized_workflow d) ≡ valid_target t d
unfolding valid_target normalized_workflow
valid_target-normalized (to_node n) d = elim (Option-cases (lookup n d.nodes)) [
  | inl absent ↦ ground (arith, absent, lookup-map_values normalized_node n d.nodes)
  | inr (m, there) ↦ ground (arith, there, lookup-map_values normalized_node n d.nodes)
]
valid_target-normalized (to_return r) d = refl

target_problems-normalized :
    (ts : List Target) (d : WorkflowDef)
    → target_problems ts (normalized_workflow d) ≡ target_problems ts d
unfolding target_problems each_item
target_problems-normalized [] d = refl
target_problems-normalized (t ∷ ts) d =
    rw (valid_target-normalized t d, target_problems-normalized ts d) refl

results_problems-normalized :
    (b : Bool) (rs : Assoc ResultDef) (d : WorkflowDef)
    → results_problems b (map_values normalized_result rs) (normalized_workflow d)
      ≡ results_problems b rs d
unfolding results_problems map_values
results_problems-normalized b [] d = refl
results_problems-normalized b (r ∷ rs) d =
    rw
      (
        each_entry-map_values (result_problems b) normalized_result (r ∷ rs)
            (result_problems-normalized b),
        targets-normalized (r ∷ rs),
        target_problems-normalized (map target_of (values (r ∷ rs))) d,
      )
      refl

pub keys-map_values {ℓ} : {A : Type ℓ} (f : A → A) (m : Assoc A) → keys (map_values f m) ≡ keys m
unfolding keys map_values
keys-map_values f [] = refl
keys-map_values f ((k, v) ∷ m) = rw (keys-map_values f m) refl

-- A node that has no problems has none when it is normalized.
pub node_problems-again :
    (c : WorkflowConfig) (root : String) (d : WorkflowDef) (id : String) (n : NodeDef)
    → node_problems c root d id n ≡ []
    → node_problems c root (normalized_workflow d) id (normalized_node n) ≡ []
unfolding node_problems actor_problems program_problems child_problems normalized_node
node_problems-again c root d id (actor_task n) h =
    let a = append-eq-nil _ (results_problems false n.results d) h in
    let b = append-eq-nil _ (checker_problems n.checker) a.0 in
    append-nil-nil (append-nil-nil b.0 (checker_problems-again n.checker b.1))
      (results_problems-normalized false n.results d ∙ a.1)
node_problems-again c root d id (builtin_program n) h =
    rw (results_problems-normalized true n.results d, keys-map_values normalized_result n.results) h
node_problems-again c root d id (child_workflow n) h =
    rw (target_problems-normalized (node_targets (child_workflow n)) d) h
