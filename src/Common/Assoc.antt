-- ===== src/Common/Assoc.antt =====
-- A Go map with text keys, as an association list without repeated keys.
use mathlib.Core.Path.{◌≡◌, refl}
use mathlib.Core.Option.{Option, none, some}
use mathlib.Core.List.{List, [], ◌∷◌}
use native.Mathlib.Omega.{arith}
use zara_rpc.Common.Lists.{All}
use mathlib.Core.Path.{subst}
use mathlib.Core.Logic.{inl, inr}
use zara_rpc.Common.Tests.{Bool-cases, if◌then◌else◌}
use zara_rpc.Common.Strings.{Text, text_eq, text_eq_iff, text_eq_refl}

module _ {ℓ} {V : Type ℓ} where
  abbrev pub lookup : Text → List (Text × V) → Option V
  lookup k [] = none
  lookup k ((j, v) ∷ m) = if text_eq j k then some v else lookup k m

  abbrev pub insert : Text → V → List (Text × V) → List (Text × V)
  insert k v [] = (k, v) ∷ []
  insert k v ((j, w) ∷ m) = if text_eq j k then (k, v) ∷ m else (j, w) ∷ insert k v m

  abbrev pub delete : Text → List (Text × V) → List (Text × V)
  delete k [] = []
  delete k ((j, w) ∷ m) = if text_eq j k then m else (j, w) ∷ delete k m

  pub lookup-insert :
      (k j : Text) (v : V) (m : List (Text × V))
      → lookup j (insert k v m) ≡ (if text_eq k j then some v else lookup j m)
  lookup-insert k j v [] = refl
  lookup-insert k j v ((i, w) ∷ m) =
      ground (arith, text_eq_iff k j, text_eq_iff i k, text_eq_iff i j, lookup-insert k j v m)

  pub delete-insert :
      (k : Text) (v : V) (m : List (Text × V)) → lookup k m ≡ none → delete k (insert k v m) ≡ m
  delete-insert k v [] h = ground (arith, text_eq_refl k)
  delete-insert k v ((j, w) ∷ m) h = ground (arith, delete-insert k v m)

-- What a lookup returns is an entry of the map, at the key asked for.
pub lookup-All {ℓ} :
    {V : Type ℓ} (P : Text → V → Type 0) (k : Text) (m : List (Text × V)) {v : V}
    → All (λ e. P e.0 e.1) m
    → lookup k m ≡ some v
    → P k v
lookup-All P k [] all e = cc
lookup-All P k ((j, w) ∷ m) {v} (here, there) e = elim (Bool-cases (text_eq j k)) [
  | inl same ↦
      let q : w ≡ v = cc (rw same at e) in
      subst (λ t. P t v) ((text_eq_iff j k).0 same) (subst (λ t. P j t) q here)
  | inr other ↦ lookup-All P k m there (rw other at e)
]
