-- ===== src/Prelude/Trim.antt =====
-- Trimming twice is trimming once.
use mathlib.Core.Path.{◌≡◌, refl, ◌∙◌, ap}
use mathlib.Core.Logic.{◌⊎◌, inl, inr}
use mathlib.Core.Bool.{false}
use mathlib.Core.List.{[], ◌∷◌}
use native.Mathlib.Omega.{arith}
use Prim.Native.Nat.{ℕ}
use dsh_workflow_plugin.Prelude.Tests.{Bool-cases}
use dsh_workflow_plugin.Prelude.Lists.{List-cases}
use dsh_workflow_plugin.Prelude.Texts.{
  Text, is_space, trim_start, trim_end, keep_unless_blank, trim,
}

keep-fixed :
    (c : ℕ) (s : Text) → trim_end s ≡ s → trim_end (keep_unless_blank c s) ≡ keep_unless_blank c s
unfolding trim_end keep_unless_blank
keep-fixed c [] h = elim (Bool-cases (is_space c)) [
  | inl blank ↦ ground (arith, blank)
  | inr solid ↦ ground (arith, solid)
]
keep-fixed c (d ∷ s) h = ap (keep_unless_blank c) h

trim_end-trim_end : (s : Text) → trim_end (trim_end s) ≡ trim_end s
unfolding trim_end
trim_end-trim_end [] = refl
trim_end-trim_end (c ∷ s) = keep-fixed c (trim_end s) (trim_end-trim_end s)

-- A text that starts with a solid character still does when its end is cut.
trim_start-trim_end :
    (c : ℕ) (s : Text) → is_space c ≡ false → trim_start (trim_end (c ∷ s)) ≡ trim_end (c ∷ s)
unfolding trim_end trim_start keep_unless_blank
trim_start-trim_end c s solid = elim (List-cases (trim_end s)) [
  | inl nothing ↦ ground (arith, nothing, solid)
  | inr (d, r, more) ↦ ground (arith, more, solid)
]

trim_start-solid :
    (s : Text)
    → (trim_start s ≡ []) ⊎ ((c : ℕ) × (r : Text) × (trim_start s ≡ c ∷ r) × (is_space c ≡ false))
unfolding trim_start
trim_start-solid [] = inl refl
trim_start-solid (c ∷ s) = elim (Bool-cases (is_space c)) [
  | inl blank ↦ elim (trim_start-solid s) [
    | inl nothing ↦ inl (ground (arith, blank, nothing))
    | inr (d, r, more, solid) ↦ inr (d, r, ground (arith, blank, more), solid)
  ]
  | inr solid ↦ inr (c, s, ground (arith, solid), solid)
]

pub trim-trim : (s : Text) → trim (trim s) ≡ trim s
unfolding trim
trim-trim s = elim (trim_start-solid s) [
  | inl nothing ↦ ground (arith, nothing)
  | inr (c, r, more, solid) ↦
      rw (more) (ap trim_end (trim_start-trim_end c r solid) ∙ trim_end-trim_end (c ∷ r))
]
