-- ===== src/Plugin/Lifecycle/Entries.antt =====
-- What holds of every entry of a map.
use dsh_workflow_plugin.Prelude.{
  ℕ, suc, String, true, false, ◌==◌, ◌||◌, ltb, if-keeps, is_some, some, [], ◌∷◌, length, Assoc,
  lookup, put, remove, ◌≡◌, sym, subst, arith, eq_iff, Bool-cases, inl, inr,
}
use dsh_workflow_plugin.Plugin.Lifecycle.{drop_oldest}

-- `P` holds of every entry.
unfoldable pub All {ℓ κ} : {V : Type ℓ} → (String → V → Type κ) → Assoc V → Type κ
All P [] = Unit
All P ((k, v) ∷ m) = P k v × All P m

same_key : (j k : String) → (j == k) ≡ true → j ≡ k
same_key j k h = ground (arith, h, eq_iff j k)

same_value {ℓ} :
    {V : Type ℓ} (j k : String) (v w : V) (m : Assoc V)
    → (j == k) ≡ true
    → lookup k ((j, w) ∷ m) ≡ some v
    → w ≡ v
unfolding lookup
same_value j k v w m same h = ground (arith, same, h)

other_value {ℓ} :
    {V : Type ℓ} (j k : String) (v w : V) (m : Assoc V)
    → (j == k) ≡ false
    → lookup k ((j, w) ∷ m) ≡ some v
    → lookup k m ≡ some v
unfolding lookup
other_value j k v w m other h = ground (arith, other, h)

module _ {ℓ κ} {V : Type ℓ} (P : String → V → Type κ) where
  pub All-put : (k : String) (v : V) (m : Assoc V) → P k v → All P m → All P (put k v m)
  unfolding All put
  All-put k v [] p a = (p, tt)
  All-put k v ((j, w) ∷ m) p a = elim (Bool-cases (j == k)) [
    | inl same ↦ rw (same) (subst (λ i. P i v) (sym (same_key j k same)) p, a.1)
    | inr other ↦ rw (other) (a.0, All-put k v m p a.1)
  ]

  pub All-remove : (k : String) (m : Assoc V) → All P m → All P (remove k m)
  unfolding All remove
  All-remove k [] a = tt
  All-remove k ((j, w) ∷ m) a =
      if-keeps (All P) (j == k) (All-remove k m a.1) (a.0, All-remove k m a.1)

  pub All-drop_oldest : (m : Assoc V) (max : ℕ) (k : String) → All P m → All P (drop_oldest m max k)
  unfolding All drop_oldest
  All-drop_oldest [] max k a = tt
  All-drop_oldest ((j, w) ∷ m) max k a =
      if-keeps (All P) (ltb (suc (length m)) max || is_some (lookup k ((j, w) ∷ m))) a a.1

  pub All-lookup : (k : String) (v : V) (m : Assoc V) → lookup k m ≡ some v → All P m → P k v
  unfolding All lookup
  All-lookup k v [] h a = cc
  All-lookup k v ((j, w) ∷ m) h a = elim (Bool-cases (j == k)) [
    | inl same ↦
        subst (λ i. P i v) (same_key j k same) (subst (P j) (same_value j k v w m same h) a.0)
    | inr other ↦ All-lookup k v m (other_value j k v w m other h) a.1
  ]

pub All-weaken {ℓ κ μ} :
    {V : Type ℓ} (P : String → V → Type κ) (Q : String → V → Type μ) (m : Assoc V)
    → ((k : String) (v : V) → P k v → Q k v)
    → All P m
    → All Q m
unfolding All
All-weaken P Q [] f a = tt
All-weaken P Q ((k, v) ∷ m) f a = (f k v a.0, All-weaken P Q m f a.1)
