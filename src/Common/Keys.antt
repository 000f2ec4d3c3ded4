-- ===== src/Common/Keys.antt =====
-- Association lists without repeated keys.
use mathlib.Core.Path.{◌≡◌, refl, subst}
use mathlib.Core.Logic.{inl, inr}
use mathlib.Core.Bool.{Bool, false, ◌||◌}
use mathlib.Core.Option.{Option, none, some}
use mathlib.Core.List.{List, [], ◌∷◌, ◌++◌}
use native.Mathlib.Omega.{arith}
use zara_rpc.Common.Tests.{Bool-cases}
use zara_rpc.Common.Lists.{any}
use zara_rpc.Common.Strings.{Text, text_eq, text_eq_iff}
use zara_rpc.Common.Assoc.{lookup, insert}

-- Whether there is a value, and it passes the test.
abbrev pub holds {ℓ} : {V : Type ℓ} → (V → Bool) → Option V → Bool
holds p none = false
holds p (some v) = p v

pub any-append {ℓ} :
    {A : Type ℓ} (p : A → Bool) (xs ys : List A) → any p (xs ++ ys) ≡ (any p xs || any p ys)
any-append p [] ys = refl
any-append p (x ∷ xs) ys = ground (arith, any-append p xs ys)

module _ {ℓ} {V : Type ℓ} where
  abbrev pub IsFresh : Text → List (Text × V) → Type 0
  IsFresh k [] = Unit
  IsFresh k ((j, v) ∷ m) = (text_eq j k ≡ false) × IsFresh k m

  abbrev pub IsUnique : List (Text × V) → Type 0
  IsUnique [] = Unit
  IsUnique ((k, v) ∷ m) = IsFresh k m × IsUnique m

  pub lookup-IsFresh : (k : Text) (m : List (Text × V)) → IsFresh k m → lookup k m ≡ none
  lookup-IsFresh k [] h = refl
  lookup-IsFresh k ((j, v) ∷ m) h = ground (arith, lookup-IsFresh k m)

  insert-IsFresh :
      (k j : Text) (v : V) (m : List (Text × V))
      → text_eq k j ≡ false
      → IsFresh j m
      → IsFresh j (insert k v m)
  insert-IsFresh k j v [] e h = (e, tt)
  insert-IsFresh k j v ((i, w) ∷ m) e (h, hs) = elim (Bool-cases (text_eq i k)) [
    | inl same ↦ rw same (e, hs)
    | inr other ↦ rw other (h, insert-IsFresh k j v m e hs)
  ]

  pub insert-IsUnique :
      (k : Text) (v : V) (m : List (Text × V)) → IsUnique m → IsUnique (insert k v m)
  insert-IsUnique k v [] h = (tt, tt)
  insert-IsUnique k v ((i, w) ∷ m) (h, hs) = elim (Bool-cases (text_eq i k)) [
    | inl same ↦ rw same (subst (λ t. IsFresh t m) ((text_eq_iff i k).0 same) h, hs)
    | inr other ↦ rw other (
      insert-IsFresh k i v m (ground (arith, text_eq_iff k i, text_eq_iff i k)) h,
      insert-IsUnique k v m hs,
    )
  ]
