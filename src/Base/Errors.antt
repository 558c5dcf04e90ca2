-- ===== src/Base/Errors.antt =====
-- Go's pair of a value and an error, where the callers read the value only if there is no error.
use mathlib.Core.Logic.{◌⊎◌, inl, inr}
use mathlib.Core.Path.{◌≡◌, refl}

pub data Except {ℓ κ} (E : Type ℓ) (A : Type κ) : Type (ℓ ⊔ κ) where
  ok : A → Except E A
  err : E → Except E A

infixl 5 ◌>>=◌
abbrev pub ◌>>=◌ {ℓ κ ι} :
    {E : Type ℓ} {A : Type κ} {B : Type ι} → Except E A → (A → Except E B) → Except E B
err e >>= k = err e
ok a >>= k = k a

abbrev pub map_err {ℓ κ ι} :
    {E : Type ℓ} {F : Type κ} {A : Type ι} → (E → F) → Except E A → Except F A
map_err f (ok a) = ok a
map_err f (err e) = err (f e)

pub Except-cases {ℓ κ} :
    {E : Type ℓ} {A : Type κ} (m : Except E A) → ((a : A) × (m ≡ ok a)) ⊎ ((e : E) × (m ≡ err e))
Except-cases (ok a) = inl (a, refl)
Except-cases (err e) = inr (e, refl)
