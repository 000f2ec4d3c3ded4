-- ===== src/Runtime/Query/Numbers.antt =====
-- Integers in the query of runtime/substitute.go: what strconv prints, it parses.
use zara_rpc.Common.{
  ◌%◌, ◌+◌, ◌-◌, ◌/◌, ◌==◌, ◌≡◌, refl, ap, ◌∙◌, ℕ, zero, suc, ◌<◌, ◌^◌, ◌&&◌, Bool, true, false,
  not, some, [], ◌∷◌, ◌++◌, Text, arith, ℤ, pos, negsuc,
}
use zara_rpc.Metadata.Decimal.{digits_from, format_int, parse_uint, parse_uint-format_int}
use zara_rpc.Runtime.Convert.{parse_int_bits, parse_uint_bits, sign_of, in_range, store_int}
use zara_rpc.Runtime.Query.{format_integer}

-- A text that does not start with a sign.
abbrev is_unsigned : Text → Bool
is_unsigned [] = false
is_unsigned (c ∷ s) = not (c == b'-') && not (c == b'+')

is_unsigned-append : (s t : Text) → is_unsigned s ≡ true → is_unsigned (s ++ t) ≡ true
is_unsigned-append [] t h = absurd cc
is_unsigned-append (c ∷ s) t h = h

digits_from-is_unsigned : (f n : ℕ) → is_unsigned (digits_from (suc f) n) ≡ true
unfolding digits_from
digits_from-is_unsigned zero n = ground arith
digits_from-is_unsigned (suc f) n = ground (
  arith,
  digits_from-is_unsigned f (n / 10),
  is_unsigned-append (digits_from (suc f) (n / 10)) ((b'0' + n % 10) ∷ []),
)

sign_of-unsigned : (s : Text) → is_unsigned s ≡ true → sign_of s ≡ (false, s)
sign_of-unsigned [] h = refl
sign_of-unsigned (c ∷ s) h = ground arith

sign_of-format_int : (n : ℕ) → sign_of (format_int n) ≡ (false, format_int n)
unfolding format_int
sign_of-format_int n = sign_of-unsigned (digits_from 20 n) (digits_from-is_unsigned 19 n)

-- A number of `bits` bits.
abbrev pub Fits : ℕ → ℤ → Type 0
Fits bits (pos n) = n < 2 ^ (bits - 1)
Fits bits (negsuc n) = n < 2 ^ (bits - 1)

pub parse_int_bits-sign_of :
    (bits : ℕ) (s digits : Text) (negative : Bool) (n : ℕ)
    → sign_of s ≡ (negative, digits)
    → parse_uint digits ≡ some n
    → parse_int_bits bits s ≡ in_range bits negative n
unfolding parse_int_bits
parse_int_bits-sign_of bits s digits negative n e p =
    rw (parse_int_bits, e, p) (ap (λ (r : Bool × Text). in_range bits r.0 n) e)

pub parse_int_bits-format_integer :
    (x : ℤ) → Fits 64 x → parse_int_bits 64 (format_integer x) ≡ some x
unfolding format_integer
parse_int_bits-format_integer (pos n) h =
    parse_int_bits-sign_of 64 (format_int n) (format_int n) false n (sign_of-format_int n)
      (parse_uint-format_int n (omega arith))
    ∙ ground arith
parse_int_bits-format_integer (negsuc n) h =
    parse_int_bits-sign_of 64 (b'-' ∷ format_int (suc n)) (format_int (suc n)) true (suc n) refl
      (parse_uint-format_int (suc n) (omega arith))
    ∙ ground arith

pub store_int-Fits : (x : ℤ) → Fits 64 x → store_int 64 x ≡ x
store_int-Fits (pos n) h = ground arith
store_int-Fits (negsuc n) h = ground arith

pub store_int-Fits_32 : (x : ℤ) → Fits 32 x → store_int 32 x ≡ x
store_int-Fits_32 (pos n) h = ground arith
store_int-Fits_32 (negsuc n) h = ground arith

pub Fits-64 : (x : ℤ) → Fits 32 x → Fits 64 x
Fits-64 (pos n) h = omega arith
Fits-64 (negsuc n) h = omega arith

pub parse_uint_bits-format_int : (n : ℕ) → n < 2 ^ 64 → parse_uint_bits 64 (format_int n) ≡ some n
unfolding parse_uint_bits
parse_uint_bits-format_int n h =
    rw (parse_uint_bits, parse_uint-format_int n (omega arith)) (ground arith)
