-- ===== src/Prelude/Results.antt =====
-- Code that throws. A message stands for the error; the parts that it interpolates are left out.
use Prim.Native.String.{String}
use mathlib.Core.Bool.{Bool, true, false}
use mathlib.Core.Path.{◌≡◌, refl}
use mathlib.Core.Logic.{◌⊎◌, inl, inr}

pub data Result {ℓ} (A : Type ℓ) : Type ℓ where
  ok : A → Result A
  err : String → Result A

-- `if (test) throw new Error(message)`.
abbrev pub throw_if : (test : Bool) (message : String) → Result (Unit {0})
throw_if false message = ok tt
throw_if true message = err message

infixl 5 ◌>>=◌ ◌>>◌
-- The rest of a block runs on the value, and an error leaves the block.
abbrev pub ◌>>=◌ {μ ν} : {X : Type μ} {Y : Type ν} → Result X → (rest : X → Result Y) → Result Y
err message >>= rest = err message
ok x >>= rest = rest x

-- The same after a statement without a value.
abbrev pub ◌>>◌ {ν} : {Y : Type ν} → Result (Unit {0}) → (rest : Result Y) → Result Y
statement >> rest = statement >>= (λ _. rest)

pub Result-cases {ℓ} :
    {A : Type ℓ} (r : Result A) → ((a : A) × (r ≡ ok a)) ⊎ ((e : String) × (r ≡ err e))
Result-cases (ok a) = inl (a, refl)
Result-cases (err e) = inr (e, refl)

-- A block that returns has come through each of its statements.
pub returned->>= {μ ν} :
    {X : Type μ} {Y : Type ν} (m : Result X) (rest : X → Result Y) {y : Y}
    → m >>= rest ≡ ok y
    → (x : X) × (m ≡ ok x) × (rest x ≡ ok y)
returned->>= (err message) rest h = cc
returned->>= (ok x) rest h = (x, refl, h)

pub returned-throw_if {ν} :
    {Y : Type ν} (test : Bool) (message : String) (rest : Result Y) {y : Y}
    → throw_if test message >> rest ≡ ok y
    → (test ≡ false) × (rest ≡ ok y)
returned-throw_if true message rest h = cc
returned-throw_if false message rest h = (refl, h)

-- What holds of a value that is returned; an error is no value.
abbrev pub EachOk {ℓ κ} : {A : Type ℓ} → (A → Type κ) → Result A → Type κ
EachOk P (ok a) = P a
EachOk P (err e) = Unit

pub EachOk->>= {ℓ κ μ ν} :
    {A : Type ℓ} {B : Type κ} (P : A → Type μ) (Q : B → Type ν) (m : Result A) (f : A → Result B)
    → EachOk P m
    → ((a : A) → P a → EachOk Q (f a))
    → EachOk Q (m >>= f)
EachOk->>= P Q (ok a) f h k = k a h
EachOk->>= P Q (err e) f h k = tt
