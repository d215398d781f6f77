-- ===== src/Prelude/Texts.antt =====
-- JavaScript strings. An identity or a name, which the code only compares, is a `String`; a free
-- text, which it trims, measures and cuts, is the list of its UTF-16 code units.
use Prim.Native.Nat.{ℕ, zero, suc, ◌+◌, ◌-◌, ◌/◌, ◌%◌, ◌≤◌}
use Prim.Native.Char.{code}
use Prim.Native.String.{String}
use mathlib.Core.Path.{◌≡◌, refl}
use mathlib.Core.Bool.{Bool, true, false, ◌&&◌, ◌||◌}
use mathlib.Core.List.{List, [], ◌∷◌}
use native.Mathlib.Omega.{arith}
use dsh_workflow_plugin.Prelude.Tests.{ltb, leb, nat_eq, if◌then◌else◌}
use dsh_workflow_plugin.Prelude.Lists.{length}

abbrev pub Text : Type 0
Text = List ℕ

-- A code point beyond the basic plane is a surrogate pair.
abbrev add_units : ℕ → Text → Text
add_units c rest =
    if ltb c 0x10000
    then c ∷ rest
    else (0xd800 + (c - 0x10000) / 0x400) ∷ (0xdc00 + (c - 0x10000) % 0x400) ∷ rest

abbrev pub codes : String → Text
codes String.[] = []
codes (String.◌∷◌ c s) = add_units (code c) (codes s)

-- `s === t`.
unfoldable pub text_eq : Text → Text → Bool
text_eq [] [] = true
text_eq [] (d ∷ t) = false
text_eq (c ∷ s) [] = false
text_eq (c ∷ s) (d ∷ t) = nat_eq c d && text_eq s t

pub text_eq_refl : (s : Text) → text_eq s s ≡ true
unfolding text_eq
text_eq_refl [] = refl
text_eq_refl (c ∷ s) = ground (arith, text_eq_refl s)

pub text_eq_sound : (s t : Text) → text_eq s t ≡ true → s ≡ t
unfolding text_eq
text_eq_sound [] [] h = refl
text_eq_sound [] (d ∷ t) h = cc
text_eq_sound (c ∷ s) [] h = cc
text_eq_sound (c ∷ s) (d ∷ t) h = ground (arith, text_eq_sound s t)

-- WhiteSpace and LineTerminator of ECMAScript, which `trim` strips.
unfoldable pub is_space : ℕ → Bool
is_space c =
    (leb 9 c && leb c 13)
    || nat_eq c 32
    || nat_eq c 0xa0
    || nat_eq c 0x1680
    || (leb 0x2000 c && leb c 0x200a)
    || nat_eq c 0x2028
    || nat_eq c 0x2029
    || nat_eq c 0x202f
    || nat_eq c 0x205f
    || nat_eq c 0x3000
    || nat_eq c 0xfeff

unfoldable pub trim_start : Text → Text
unfolding is_space
trim_start [] = []
trim_start (c ∷ s) = let rest = trim_start s in if is_space c then rest else c ∷ s

unfoldable pub keep_unless_blank : ℕ → Text → Text
unfolding is_space
keep_unless_blank c [] = if is_space c then [] else c ∷ []
keep_unless_blank c (d ∷ s) = c ∷ d ∷ s

unfoldable pub trim_end : Text → Text
unfolding keep_unless_blank
trim_end [] = []
trim_end (c ∷ s) = keep_unless_blank c (trim_end s)

-- `s.trim()`.
unfoldable pub trim : Text → Text
unfolding trim_start trim_end
trim s = trim_end (trim_start s)

-- `s.slice(0, n)`.
unfoldable pub take : ℕ → Text → Text
take zero s = []
take (suc n) [] = []
take (suc n) (c ∷ s) = c ∷ take n s

pub length-take : (n : ℕ) (s : Text) → length (take n s) ≤ n
unfolding take
length-take zero s = omega arith
length-take (suc n) [] = omega arith
length-take (suc n) (c ∷ s) = omega (arith, length-take n s)

pub take-eq_of_le : (n : ℕ) (s : Text) → length s ≤ n → take n s ≡ s
unfolding take
take-eq_of_le zero [] h = refl
take-eq_of_le zero (c ∷ s) h = absurd (omega arith)
take-eq_of_le (suc n) [] h = refl
take-eq_of_le (suc n) (c ∷ s) h = ground (arith, take-eq_of_le n s)

abbrev pub is_empty : Text → Bool
is_empty [] = true
is_empty (c ∷ s) = false

is_lower_or_dash : ℕ → Bool
is_lower_or_dash c = (leb b'a' c && leb c b'z') || (leb b'0' c && leb c b'9') || nat_eq c b'-'

all_id_chars : Text → Bool
unfolding is_lower_or_dash
all_id_chars [] = true
all_id_chars (c ∷ s) = is_lower_or_dash c && all_id_chars s

starts_id : Text → Bool
unfolding all_id_chars
starts_id [] = false
starts_id (c ∷ s) = (leb b'a' c && leb c b'z') && all_id_chars s

-- `ID_PATTERN.test(s)` for `/^[a-z][a-z0-9-]*$/`.
unfoldable pub is_id : String → Bool
unfolding starts_id
is_id s = starts_id (codes s)

-- `s.startsWith(t)`.
unfoldable pub starts_with : Text → Text → Bool
starts_with s [] = true
starts_with [] (d ∷ t) = false
starts_with (c ∷ s) (d ∷ t) = nat_eq c d && starts_with s t

-- `s.includes(t)`.
unfoldable pub contains_text : Text → Text → Bool
unfolding starts_with
contains_text [] t = is_empty t
contains_text (c ∷ s) t = starts_with (c ∷ s) t || contains_text s t
