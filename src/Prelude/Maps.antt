-- ===== src/Prelude/Maps.antt =====
-- A JavaScript object used as a map from strings (`Record<string, V>`), in its order of insertion.
use Prim.Native.String.{String}
use mathlib.Core.Path.{◌≡◌, refl}
use mathlib.Core.Option.{Option, none, some}
use mathlib.Core.List.{List, [], ◌∷◌}
use native.Mathlib.Omega.{arith}
use text.Mathlib.Text.{◌==◌}
use text.Mathlib.TextEquality.{eq_iff}
use dsh_workflow_plugin.Prelude.Tests.{if◌then◌else◌, is_some}
use dsh_workflow_plugin.Prelude.Lists.{includes}

abbrev pub Assoc {ℓ} : Type ℓ → Type ℓ
Assoc V = List (String × V)

module _ {ℓ} {V : Type ℓ} where
  -- `m[k]`.
  unfoldable pub lookup : String → Assoc V → Option V
  lookup k [] = none
  lookup k ((j, v) ∷ m) = if j == k then some v else lookup k m

  -- `m[k] = v`: a present key keeps its place.
  unfoldable pub put : String → V → Assoc V → Assoc V
  put k v [] = (k, v) ∷ []
  put k v ((j, w) ∷ m) = if j == k then (j, v) ∷ m else (j, w) ∷ put k v m

  -- `delete m[k]`.
  unfoldable pub remove : String → Assoc V → Assoc V
  remove k [] = []
  remove k ((j, w) ∷ m) = let rest = remove k m in if j == k then rest else (j, w) ∷ rest

  -- `Object.keys(m)`.
  unfoldable pub keys : Assoc V → List String
  keys [] = []
  keys ((k, v) ∷ m) = k ∷ keys m

  -- `Object.values(m)`.
  unfoldable pub values : Assoc V → List V
  values [] = []
  values ((k, v) ∷ m) = v ∷ values m

  pub lookup-put :
      (k j : String) (v : V) (m : Assoc V)
      → lookup j (put k v m) ≡ (if k == j then some v else lookup j m)
  unfolding lookup put
  lookup-put k j v [] = refl
  lookup-put k j v ((i, w) ∷ m) =
      ground (arith, eq_iff k j, eq_iff i k, eq_iff i j, lookup-put k j v m)

  pub lookup-remove :
      (k j : String) (m : Assoc V) → lookup j (remove k m) ≡ (if k == j then none else lookup j m)
  unfolding lookup remove
  lookup-remove k j [] = ground arith
  lookup-remove k j ((i, w) ∷ m) =
      ground (arith, eq_iff k j, eq_iff i k, eq_iff i j, lookup-remove k j m)

  -- `k in m` and `Object.keys(m).includes(k)` agree.
  pub includes-keys : (k : String) (m : Assoc V) → includes k (keys m) ≡ is_some (lookup k m)
  unfolding lookup keys includes
  includes-keys k [] = refl
  includes-keys k ((i, w) ∷ m) = ground (arith, includes-keys k m)

pub ruleset assoc_laws = (lookup-put, lookup-remove, includes-keys)
