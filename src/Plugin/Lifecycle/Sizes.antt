-- ===== src/Plugin/Lifecycle/Sizes.antt =====
-- The sizes of the maps under the operations that the code uses on them.
use dsh_workflow_plugin.Prelude.{
  ℕ, suc, ◌≤◌, ◌<◌, String, if◌then◌else◌, is_some, [], ◌∷◌, length, Assoc, lookup, put, remove,
  ◌≡◌, refl, arith, Bool-cases, inl, inr,
}
use dsh_workflow_plugin.Plugin.Lifecycle.{buffer_max, drop_oldest, drop_excess}

module _ {ℓ} {V : Type ℓ} where
  pub length-put :
      (k : String) (v : V) (m : Assoc V)
      → length (put k v m) ≡ (if is_some (lookup k m) then length m else suc (length m))
  unfolding put lookup
  length-put k v [] = refl
  length-put k v ((j, w) ∷ m) = ground (arith, length-put k v m)

  pub length-remove : (k : String) (m : Assoc V) → length (remove k m) ≤ length m
  unfolding remove
  length-remove k [] = omega arith
  length-remove k ((j, w) ∷ m) = ground (arith, length-remove k m)

  pub length-drop_excess : (m : Assoc V) → length (drop_excess m) ≤ buffer_max
  unfolding drop_excess
  length-drop_excess [] = omega arith
  length-drop_excess ((j, w) ∷ m) = ground (arith, length-drop_excess m)

  pub length-put-drop_oldest :
      (k : String) (v : V) (m : Assoc V) (max : ℕ)
      → 0 < max
      → length m ≤ max
      → length (put k v (drop_oldest m max k)) ≤ max
  unfolding drop_oldest
  length-put-drop_oldest k v [] max h b = ground (arith, length-put k v [], h)
  length-put-drop_oldest k v ((j, w) ∷ m) max h b =
      elim (Bool-cases (is_some (lookup k ((j, w) ∷ m)))) [
        | inl there ↦ ground (arith, there, b, length-put k v ((j, w) ∷ m))
        | inr absent ↦ ground (arith, absent, b, length-put k v ((j, w) ∷ m), length-put k v m)
      ]
