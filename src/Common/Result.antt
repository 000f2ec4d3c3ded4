-- ===== src/Common/Result.antt =====
-- A Go pair `(value, error)`: a value, or an error.
use mathlib.Core.Path.{◌≡◌, refl}
use mathlib.Core.Logic.{◌⊎◌, inl, inr}

pub data Result {ℓ} (E : Type 0) (A : Type ℓ) : Type ℓ where
  ok : A → Result E A
  err : E → Result E A

pub Result-cases {ℓ} :
    {E : Type 0} {A : Type ℓ} (m : Result E A) → ((a : A) × (m ≡ ok a)) ⊎ ((e : E) × (m ≡ err e))
Result-cases (err e) = inr (e, refl)
Result-cases (ok a) = inl (a, refl)

-- `if err != nil { return err }`, and the code behind it.
infixl 5 ◌>>=◌
abbrev pub ◌>>=◌ {ℓ κ} :
    {E : Type 0} {A : Type ℓ} {B : Type κ} → Result E A → (A → Result E B) → Result E B
err failure >>= rest = err failure
ok value >>= rest = rest value

pub >>=-eq-ok {ℓ κ} :
    {E : Type 0} {A : Type ℓ} {B : Type κ} (r : Result E A) (rest : A → Result E B) {out : B}
    → (r >>= rest) ≡ ok out
    → (value : A) × (r ≡ ok value) × (rest value ≡ ok out)
>>=-eq-ok (err failure) rest none_left = cc
>>=-eq-ok (ok value) rest reached = (value, refl, reached)
