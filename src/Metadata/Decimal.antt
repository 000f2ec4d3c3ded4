-- ===== src/Metadata/Decimal.antt =====
-- strconv.FormatInt(v, 10) on a natural number, and strconv.ParseUint(s, 10, 64).
use native.Mathlib.Nat.{pow-suc}
use zara_rpc.Common.{
  ℕ, zero, suc, ◌+◌, ◌-◌, ◌*◌, ◌/◌, ◌%◌, ◌^◌, ◌<◌, ◌≤◌, ◌≡◌, refl, ◌∙◌, Bool, false, ◌&&◌, Option,
  none, some, [], ◌∷◌, ◌++◌, arith, Text, is_empty, length, length-append, ltb, leb, if◌then◌else◌,
  Bool-cases, inl, inr,
}

-- The digits of `n`, most significant first; `f` digits at most.
unfoldable pub digits_from : ℕ → ℕ → Text
digits_from zero n = []
digits_from (suc f) n =
    let front = digits_from f (n / 10) in
    if ltb n 10 then (b'0' + n) ∷ [] else front ++ ((b'0' + n % 10) ∷ [])

-- Twenty digits hold every 64-bit number.
unfoldable pub format_int : ℕ → Text
unfolding digits_from
format_int n = digits_from 20 n

abbrev pub is_digit : ℕ → Bool
is_digit c = leb b'0' c && leb c b'9'

-- `none` for a byte that is no digit and for a number that does not fit in 64 bits.
unfoldable pub parse_from : ℕ → Text → Option ℕ
parse_from acc [] = some acc
parse_from acc (c ∷ s) =
    if is_digit c && ltb (acc * 10 + (c - b'0')) (2 ^ 64)
    then parse_from (acc * 10 + (c - b'0')) s
    else none

unfoldable pub parse_uint : Text → Option ℕ
unfolding parse_from
parse_uint s = if is_empty s then none else parse_from 0 s

parse_from-append :
    (acc : ℕ) (s : Text) (c : ℕ) (n : ℕ)
    → parse_from acc s ≡ some n
    → parse_from acc (s ++ (c ∷ [])) ≡ parse_from n (c ∷ [])
unfolding parse_from
parse_from-append acc [] c n h = ground arith
parse_from-append acc (d ∷ s) c n h =
    ground (arith, parse_from-append (acc * 10 + (d - b'0')) s c n)

-- Parsing the digits of a number gives it back, if the digits suffice and it fits in 64 bits.
parse_from-digits_from :
    (f n : ℕ) → n < 10 ^ f → n < 2 ^ 64 → parse_from 0 (digits_from f n) ≡ some n
unfolding parse_from digits_from
parse_from-digits_from zero n h fits = ground arith
parse_from-digits_from (suc f) n h fits = elim (Bool-cases (ltb n 10)) [
  | inl e ↦ rw e (ground arith)
  | inr e ↦
      let below : n / 10 < 10 ^ f = omega (arith, pow-suc 10 f) in
      let ih = parse_from-digits_from f (n / 10) below (omega arith) in
      rw e (parse_from-append 0 (digits_from f (n / 10)) (b'0' + n % 10) (n / 10) ih ∙ ground arith)
]

is_empty-last : (s : Text) (c : ℕ) → is_empty (s ++ (c ∷ [])) ≡ false
is_empty-last [] c = refl
is_empty-last (d ∷ s) c = refl

digits_from-ne-nil : (f n : ℕ) → is_empty (digits_from (suc f) n) ≡ false
unfolding digits_from
digits_from-ne-nil f n = ground (arith, is_empty-last (digits_from f (n / 10)) (b'0' + n % 10))

pub parse_uint-format_int : (n : ℕ) → n < 2 ^ 64 → parse_uint (format_int n) ≡ some n
unfolding parse_uint format_int
parse_uint-format_int n h =
    rw (digits_from-ne-nil 19 n) (parse_from-digits_from 20 n (omega arith) h)

length-digits_from : (f n k : ℕ) → n < 10 ^ suc k → length (digits_from f n) ≤ suc k
unfolding digits_from
length-digits_from zero n k h = omega arith
length-digits_from (suc f) n zero h = ground arith
length-digits_from (suc f) n (suc k) h = ground (
  arith,
  length-digits_from f (n / 10) k (omega (arith, pow-suc 10 (suc k))),
  length-append (digits_from f (n / 10)) ((b'0' + n % 10) ∷ []),
)

pub length-format_int : (n k : ℕ) → n < 10 ^ suc k → length (format_int n) ≤ suc k
unfolding format_int
length-format_int n k h = length-digits_from 20 n k h

pub format_int-ne-nil : (n : ℕ) → is_empty (format_int n) ≡ false
unfolding format_int
format_int-ne-nil n = digits_from-ne-nil 19 n

digit_bound : (n acc e p : ℕ) → e ≤ 9 → n < (acc * 10 + e + 1) * p → n < (acc + 1) * (p * 10)
digit_bound n acc e p h lt = let m : e * p ≤ 9 * p = grind arith in omega arith

parse_from-lt :
    (acc : ℕ) (s : Text) (n : ℕ) → parse_from acc s ≡ some n → n < (acc + 1) * 10 ^ length s
unfolding parse_from
parse_from-lt acc [] n h = ground arith
parse_from-lt acc (c ∷ s) n h = rw (pow-suc 10 (length s)) (
    ground (
      arith,
      parse_from-lt (acc * 10 + (c - b'0')) s n,
      digit_bound n acc (c - b'0') (10 ^ length s),
    ))

pub parse_uint-lt : (s : Text) (n : ℕ) → parse_uint s ≡ some n → n < 10 ^ length s
unfolding parse_uint
parse_uint-lt s n h = ground (arith, parse_from-lt 0 s n)
