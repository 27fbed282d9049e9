-- ===== src/Base/Result.antt =====
-- A call that may raise: its value, or the exception of a type of the component's own.
use mathlib.Core.Path.{◌≡◌, refl, ap, sym, ◌∙◌}
use mathlib.Core.Logic.{◌⊎◌, inl, inr}

pub data Result {ℓ κ} (E : Type κ) (A : Type ℓ) : Type (ℓ ⊔ κ) where
  ok : A → Result E A
  err : E → Result E A

infixl 5 ◌>>=◌
abbrev pub ◌>>=◌ {ℓ κ ι} :
    {E : Type κ} {A : Type ℓ} {B : Type ι} → Result E A → (A → Result E B) → Result E B
ok a >>= f = f a
err e >>= f = err e

pub Result-cases {ℓ κ} :
    {E : Type κ} {A : Type ℓ} (r : Result E A) → ((a : A) × (r ≡ ok a)) ⊎ ((e : E) × (r ≡ err e))
Result-cases (ok a) = inl (a, refl)
Result-cases (err e) = inr (e, refl)

abbrev or_value {ℓ κ} : {E : Type κ} {A : Type ℓ} → A → Result E A → A
or_value d (ok a) = a
or_value d (err e) = d

pub ok_injective {ℓ κ} :
    {E : Type κ} {A : Type ℓ} (a b : A) (r : Result E A) → r ≡ ok a → r ≡ ok b → a ≡ b
ok_injective a b r e f = ap (or_value a) (sym e ∙ f)
