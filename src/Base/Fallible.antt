-- ===== src/Base/Fallible.antt =====
-- A Go pair `(value, error)` in which one of the two counts. An error is known by its text.
use Prim.Native.String.{String}
use mathlib.Core.Path.{◌≡◌, subst, refl}
use mathlib.Core.Logic.{◌⊎◌, inl, inr}

abbrev pub Error : Type 0
Error = String

pub data Result {ℓ} (A : Type ℓ) : Type ℓ where
  ok : A → Result A
  err : Error → Result A

infixl 5 ◌>>=◌
abbrev pub ◌>>=◌ {ℓ κ} : {A : Type ℓ} {B : Type κ} → Result A → (A → Result B) → Result B
ok a >>= f = f a
err e >>= f = err e

-- What holds of a value, if there is one.
abbrev pub Returns {ℓ κ} : {A : Type ℓ} → (A → Type κ) → Result A → Type κ
Returns P (ok a) = P a
Returns P (err e) = Unit

module _ {ℓ κ} {A B : Type ℓ} (P : A → Type κ) (Q : B → Type κ) where
  pub Returns-bind :
      (m : Result A) (f : A → Result B)
      → Returns P m
      → ((a : A) → m ≡ ok a → P a → Returns Q (f a))
      → Returns Q (m >>= f)
  Returns-bind (ok a) f p h = h a refl p
  Returns-bind (err e) f p h = tt

module _ {ℓ κ} {A : Type ℓ} (P : A → Type κ) where
  pub Returns_value : (m : Result A) {a : A} → m ≡ ok a → Returns P m → P a
  Returns_value m e p = subst (Returns P) e p

  pub Returns-known : (m : Result A) → ((a : A) → m ≡ ok a → P a) → Returns P m
  Returns-known (ok a) h = h a refl
  Returns-known (err e) h = tt

pub Result-cases {ℓ} :
    {A : Type ℓ} (m : Result A) → ((a : A) × (m ≡ ok a)) ⊎ ((e : Error) × (m ≡ err e))
Result-cases (ok a) = inl (a, refl)
Result-cases (err e) = inr (e, refl)
