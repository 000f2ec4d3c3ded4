-- ===== src/Generator.antt =====
-- protoc-gen-zararpc/validate.go: the checks of HTTP rules before code is generated.
pub mod Fields
use zara_rpc.Common.{
  ◌≡◌, refl, ap, ◌∙◌, ℕ, suc, Bool, true, false, not, ◌&&◌, ◌||◌, Option, none, some, List, [], ◌∷◌,
  ◌++◌, Text, contains_byte, is_empty, take, drop, length, last_index_byte, lookup, insert, ltb,
  if◌then◌else◌, ◌==◌, ℤ, pos, incr, decr, ◌==ℤ◌, arith, Bool-cases, inl, inr, holds, ==_iff,
  ==_refl, subst, and-eq-true_iff,
}
use zara_rpc.Common.Result.{Result, ok, err}
use zara_rpc.Routing.Pattern.Parse.{split_verb, is_verb}

abbrev depth_after : ℕ → ℤ → ℤ
depth_after c depth = if c == b'{' then incr depth else if c == b'}' then decr depth else depth

abbrev next_index : Option ℕ → Option ℕ
next_index none = none
next_index (some i) = some (suc i)

-- The loop of `findVerbColon`.
unfoldable pub find_colon_from : ℤ → Text → Option ℕ
find_colon_from depth [] = none
find_colon_from depth (c ∷ path) =
    let rest = find_colon_from (depth_after c depth) path in
    if c == b':' && depth ==ℤ pos 0 then some 0 else next_index rest

-- `findVerbColon`, `none` for -1
unfoldable pub find_verb_colon : Text → Option ℕ
unfolding find_colon_from
find_verb_colon path = find_colon_from (pos 0) path

pub data RuleError : Type 0 where
  verb_not_final empty_verb many_verbs braces_in_verb unknown_field duplicate : RuleError

-- The checks of `validateVerbPlacement` on what follows the colon.
unfoldable pub check_verb : Text → Result RuleError (Unit {0})
check_verb verb =
    if contains_byte verb b'/'
    then err verb_not_final
    else if is_empty verb
    then err empty_verb
    else if contains_byte verb b':'
    then err many_verbs
    else if contains_byte verb b'{' || contains_byte verb b'}'
    then err braces_in_verb
    else ok tt

-- `validateVerbPlacement`
unfoldable pub validate_verb_placement : Text → Result RuleError (Unit {0})
unfolding find_verb_colon check_verb
validate_verb_placement path = elim (find_verb_colon path) [
  | none ↦ ok tt
  | some colon ↦ check_verb (drop (suc colon) path)
]

-- `httpRule`
pub record HttpRule : Type 0 where
  pub method : Text
  pub path : Text
  pub response_body : Text

abbrev pub rule_key : HttpRule → Text
rule_key rule = rule.method ++ (b' ' ∷ rule.path)

-- The loop of `validateHTTPRules` over the rules of a method; `resolve` tells the fields of its
-- response.
unfoldable pub validate_rules :
    (Text → Bool) → List (Text × Unit {0}) → List HttpRule → Result RuleError (Unit {0})
unfolding validate_verb_placement
validate_rules resolve seen [] = ok tt
validate_rules resolve seen (rule ∷ rules) =
    let rest = validate_rules resolve (insert (rule_key rule) tt seen) rules in
    elim (validate_verb_placement rule.path) [
      | err e ↦ err e
      | ok _ ↦
          if not (is_empty rule.response_body) && not (resolve rule.response_body)
          then err unknown_field
          else if holds (λ _. true) (lookup (rule_key rule) seen)
          then err duplicate
          else rest
    ]

-- The colon that is found, with what stands before it and behind it.
abbrev Splits : Text → Option ℕ → Type 0
Splits path none = Unit
Splits path (some i) =
    (path ≡ take i path ++ (b':' ∷ drop (suc i) path)) × (length (take i path) ≡ i)

Splits-next_index :
    (c : ℕ) (path : Text) (o : Option ℕ) → Splits path o → Splits (c ∷ path) (next_index o)
Splits-next_index c path none h = tt
Splits-next_index c path (some i) (whole, size) = (ap (◌∷◌ c) whole, ap suc size)

find_colon_from-Splits : (depth : ℤ) (path : Text) → Splits path (find_colon_from depth path)
unfolding find_colon_from
find_colon_from-Splits depth [] = tt
find_colon_from-Splits depth (c ∷ path) =
    let rest = find_colon_from-Splits (depth_after c depth) path in
    elim (Bool-cases (c == b':' && depth ==ℤ pos 0)) [
      | inl here ↦ rw here (
        ap (λ (d : ℕ). d ∷ path)
            ((==_iff c b':').0 ((and-eq-true_iff (c == b':') (depth ==ℤ pos 0)).0 here).0),
        refl,
      )
      | inr later ↦ rw later (Splits-next_index c path _ rest)
    ]

last_index_byte_absent :
    (verb : Text) (c : ℕ) → contains_byte verb c ≡ false → last_index_byte verb c ≡ none
last_index_byte_absent [] c h = refl
last_index_byte_absent (d ∷ verb) c h = ground (arith, last_index_byte_absent verb c)

last_index_byte_last :
    (front verb : Text) (c : ℕ)
    → contains_byte verb c ≡ false
    → last_index_byte (front ++ (c ∷ verb)) c ≡ some (length front)
last_index_byte_last [] verb c h = rw (last_index_byte_absent verb c h, ==_refl c) refl
last_index_byte_last (d ∷ front) verb c h = rw (last_index_byte_last front verb c h) refl

check_verb-ok :
    (verb : Text)
    → check_verb verb ≡ ok tt
    → (contains_byte verb b':' ≡ false) × (is_verb verb ≡ true)
unfolding check_verb
check_verb-ok verb e = ground arith

-- A verb that the generator accepts, not at the start of the path, is the one that the runtime's
-- parser splits off, although the generator looks for the first colon outside braces and the parser
-- for the last colon.
pub split_verb-validate_verb_placement :
    (path : Text) (i : ℕ)
    → find_verb_colon path ≡ some (suc i)
    → validate_verb_placement path ≡ ok tt
    → split_verb path ≡ (take (suc i) path, drop (suc (suc i)) path)
unfolding find_verb_colon validate_verb_placement split_verb
split_verb-validate_verb_placement path i found valid =
    let (whole, size) : Splits path (some (suc i)) =
      subst (Splits path) found (find_colon_from-Splits (pos 0) path) in
    let (single, verb) =
      check_verb-ok (drop (suc (suc i)) path) (rw (validate_verb_placement, found) at valid) in
    let positive : ltb 0 (suc i) ≡ true = ground arith in
    let last : last_index_byte path b':' ≡ some (suc i) =
      ap (λ t. last_index_byte t b':') whole
      ∙ last_index_byte_last (take (suc i) path) (drop (suc (suc i)) path) b':' single
      ∙ ap some size in
    rw (last, verb, positive) refl
