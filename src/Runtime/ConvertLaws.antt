-- ===== src/Runtime/ConvertLaws.antt =====
-- runtime/pathconvert.go and runtime/populate.go: the two ways in which a text becomes an integer
-- field, compared.
use zara_rpc.Common.{
  ◌≡◌, refl, ap, ℕ, zero, suc, ◌^◌, ◌<◌, ◌≤◌, Bool, true, false, Option, none, some, Text, ℤ, pos,
  negsuc, arith, Option-cases, inl, inr, ◌⊎◌,
}
use zara_rpc.Metadata.Decimal.{parse_uint}
use zara_rpc.Runtime.Convert.{
  in_range, sign_of, parse_int_bits, path_int, store_int, int_kind, int, Formats, set_string_value,
}

-- The three cases: the number has 32 bits; it has 64 bits, and its low 32 bits are another number;
-- it has not even 64 bits.
abbrev Cases : Option ℤ → Option ℤ → Type 0
Cases narrow wide =
    ((x : ℤ) × (narrow ≡ some x) × (wide ≡ some x) × (store_int 32 x ≡ x))
    ⊎ ((narrow ≡ none) × (wide ≡ none))
    ⊎ ((x : ℤ) × (narrow ≡ none) × (wide ≡ some x) × (¬ (store_int 32 x ≡ x)))

magnitude : (n : ℕ) → (n < 2 ^ 31) ⊎ (2 ^ 63 ≤ n) ⊎ ((2 ^ 31 ≤ n) × (n < 2 ^ 63))
magnitude n = omega arith

Cases-pos : (n : ℕ) → Cases (in_range 32 false n) (in_range 64 false n)
Cases-pos n = elim (magnitude n) [
  | inl small ↦ inl (pos n, ground arith, ground arith, ground arith)
  | inr (inl beyond) ↦ inr (inl (ground arith, ground arith))
  | inr (inr (large, fits)) ↦ inr (inr (pos n, ground arith, ground arith, ground arith))
]

Cases-neg : (n : ℕ) → Cases (in_range 32 true (suc n)) (in_range 64 true (suc n))
Cases-neg n = elim (magnitude n) [
  | inl small ↦ inl (negsuc n, ground arith, ground arith, ground arith)
  | inr (inl beyond) ↦ inr (inl (ground arith, ground arith))
  | inr (inr (large, fits)) ↦ inr (inr (negsuc n, ground arith, ground arith, ground arith))
]

Cases-in_range : (negative : Bool) (n : ℕ) → Cases (in_range 32 negative n) (in_range 64 negative n)
Cases-in_range false n = Cases-pos n
Cases-in_range true zero = inl (pos 0, refl, refl, refl)
Cases-in_range true (suc n) = Cases-neg n

Cases-parse : (val : Text) → Cases (parse_int_bits 32 val) (parse_int_bits 64 val)
unfolding parse_int_bits
Cases-parse val = elim (Option-cases (parse_uint (sign_of val).1)) [
  | inl no_digits ↦ rw (parse_int_bits, no_digits) (inr (inl (refl, refl)))
  | inr (n, digits) ↦ rw (parse_int_bits, digits) (Cases-in_range (sign_of val).0 n)
]

-- An int32 field, set by reflection, against `PathInt32` of the generated code, on any text: either
-- both give the same number; or both fail, and so does `PathInt64`; or `PathInt32` fails and
-- `PathInt64` gives a number, and the field is set to the low 32 bits of it, another number.
pub set_string_value-path_int :
    {F D : Type 0} (X : Formats F D) (val : Text)
    → ((n : ℤ) × (path_int 32 val ≡ some n) × (set_string_value X (int_kind 32) val ≡ some (int n)))
      ⊎ ((path_int 32 val ≡ none)
          × (path_int 64 val ≡ none)
          × (set_string_value X (int_kind 32) val ≡ none))
      ⊎ ((n : ℤ) × (path_int 32 val ≡ none)
          × (path_int 64 val ≡ some n)
          × (set_string_value X (int_kind 32) val ≡ some (int (store_int 32 n)))
          × (¬ (store_int 32 n ≡ n)))
unfolding path_int set_string_value
set_string_value-path_int X val = elim (Cases-parse val) [
  | inl (n, narrow, wide, kept) ↦
      inl (n, narrow, rw (set_string_value, wide) (ap (λ (x : ℤ). some (int x)) kept))
  | inr (inl (narrow, wide)) ↦ inr (inl (narrow, wide, rw (set_string_value, wide) refl))
  | inr (inr (n, narrow, wide, lost)) ↦
      inr (inr (n, narrow, wide, rw (set_string_value, wide) refl, lost))
]
