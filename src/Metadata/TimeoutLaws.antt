-- ===== src/Metadata/TimeoutLaws.antt =====
-- Bounds and round trip of the gRPC timeout header.
use zara_rpc.Common.{
  ℕ, zero, suc, ◌+◌, ◌-◌, ◌*◌, ◌/◌, ◌%◌, ◌≤◌, ◌<◌, ◌≡◌, refl, ap, ◌∙◌, ◌⊎◌, inl, inr, false, ◌||◌,
  Option, none, some, List, [], ◌∷◌, ◌++◌, arith, Text, length, length-append, length-take-le,
  take-append, ltb, leb, if◌then◌else◌, ℤ, pos, ◌>>=◌, drop_last, Bool-cases, Option-cases,
  is_empty,
}
use zara_rpc.Metadata.Decimal.{
  format_int, parse_uint, parse_uint-format_int, parse_uint-lt, length-format_int,
  format_int-ne-nil,
}
use zara_rpc.Metadata.Timeout.{
  hour, max_timeout_value, max_int64, timeout_unit, div_up, format_units, units,
  format_grpc_timeout, last_byte, scale_timeout, parse_grpc_timeout,
}
use Prim.Native.Nat.{min}
use native.Mathlib.Nat.{le_trans, pow-le-pow_right, div-add-mod, mod-lt, mul-le-mul_left}

-- The units that the header knows.
abbrev IsUnit : ℕ → Type 0
IsUnit u =
    (u ≡ hour)
    ⊎ (u ≡ 60_000_000_000)
    ⊎ (u ≡ 1_000_000_000)
    ⊎ (u ≡ 1_000_000)
    ⊎ (u ≡ 1_000)
    ⊎ (u ≡ 1)

timeout_unit-IsUnit : (c u : ℕ) → timeout_unit c ≡ some u → IsUnit u
unfolding timeout_unit
timeout_unit-IsUnit c u h = ground arith

-- On eight digits the clamp for hours makes the product saturate, and no unit wraps around.
scale_timeout-min :
    (u t : ℕ) → IsUnit u → t < 100_000_000 → scale_timeout u t ≡ pos (min (u * t) max_int64)
unfolding scale_timeout
scale_timeout-min u t (inl e) lt = rw e (ground arith)
scale_timeout-min u t (inr (inl e)) lt = rw e (ground arith)
scale_timeout-min u t (inr (inr (inl e))) lt = rw e (ground arith)
scale_timeout-min u t (inr (inr (inr (inl e)))) lt = rw e (ground arith)
scale_timeout-min u t (inr (inr (inr (inr (inl e))))) lt = rw e (ground arith)
scale_timeout-min u t (inr (inr (inr (inr (inr e))))) lt = rw e (ground arith)

drop_last-append : (s : Text) (c : ℕ) → drop_last 1 (s ++ (c ∷ [])) ≡ s
drop_last-append s c =
    let e : length (s ++ (c ∷ [])) - 1 ≡ length s = omega (arith, length-append s (c ∷ [])) in
    rw e (take-append s (c ∷ []))

last_byte-append : (s : Text) (c : ℕ) → last_byte (s ++ (c ∷ [])) ≡ c
last_byte-append [] c = refl
last_byte-append (d ∷ []) c = refl
last_byte-append (d ∷ e ∷ s) c = last_byte-append (e ∷ s) c

-- `ParseGrpcTimeout`, with a product that stops at the largest int64 in place of the clamp and of
-- the multiplication modulo 2 ^ 64.
pub saturating_timeout : Text → Option ℤ
saturating_timeout v =
    if ltb (length v) 2 || ltb 9 (length v)
    then none
    else (timeout_unit (last_byte v) >>= λ unit.
        parse_uint (drop_last 1 v) >>= λ t. some (pos (min (unit * t) max_int64)))

parse_uint-eight :
    (v : Text) (t : ℕ) → length v ≤ 9 → parse_uint (drop_last 1 v) ≡ some t → t < 100_000_000
parse_uint-eight v t h e =
    let short : length (drop_last 1 v) ≤ 8 = omega (arith, length-take-le (length v - 1) v) in
    let lt = parse_uint-lt (drop_last 1 v) t e in le_trans lt (pow-le-pow_right (omega arith) short)

-- Parsing a timeout header never overflows: a timeout that does not fit in a duration gives the
-- longest duration, and every other one is the exact product of its digits and its unit.
pub parse_grpc_timeout-saturating_timeout : (v : Text) → parse_grpc_timeout v ≡ saturating_timeout v
unfolding parse_grpc_timeout saturating_timeout
parse_grpc_timeout-saturating_timeout v = elim (Bool-cases (ltb (length v) 2 || ltb 9 (length v))) [
  | inl e ↦ rw e
  | inr e ↦ elim (Option-cases (timeout_unit (last_byte v))) [
    | inl no_unit ↦ rw (e, no_unit)
    | inr (u, unit) ↦ elim (Option-cases (parse_uint (drop_last 1 v))) [
      | inl no_number ↦ rw (e, unit, no_number)
      | inr (t, number) ↦
          rw (e, unit, number)
            (ap some (
              scale_timeout-min u t (timeout_unit-IsUnit (last_byte v) u unit)
                (parse_uint-eight v t (ground (arith, e)) number)))
    ]
  ]
]

length-append_one : (s : Text) (c : ℕ) → length (s ++ (c ∷ [])) ≡ length s + 1
length-append_one s c = omega (arith, length-append s (c ∷ []))

pos_length : (s : Text) → is_empty s ≡ false → 1 ≤ length s
pos_length [] h = cc
pos_length (c ∷ s) h = omega arith

-- A header of `t` units is parsed as that many units.
parse-format :
    (t u c : ℕ)
    → t < 100_000_000
    → timeout_unit c ≡ some u
    → parse_grpc_timeout (format_int t ++ (c ∷ [])) ≡ some (pos (min (u * t) max_int64))
unfolding saturating_timeout
parse-format t u c lt unit =
    let long = length-format_int t 7 (omega arith) in
    let some_digit = pos_length (format_int t) (format_int-ne-nil t) in
    let size : (ltb (length (format_int t) + 1) 2 || ltb 9 (length (format_int t) + 1)) ≡ false =
      ground arith in
    parse_grpc_timeout-saturating_timeout (format_int t ++ (c ∷ []))
    ∙ rw (drop_last-append (format_int t) c) (
        rw (length-append_one (format_int t) c) (
          rw (size, last_byte-append (format_int t) c)
            (rw (unit, parse_uint-format_int t (omega arith)) refl)))

rounded_bounds :
    (d u q r : ℕ) → u * q + r ≡ d → r < u → 0 < r → (d ≤ u * (q + 1)) × (u * (q + 1) < d + u)
rounded_bounds d u q r e lt h = omega arith

div_up_bounds : (d u : ℕ) → 0 < u → (d ≤ u * div_up d u) × (u * div_up d u < d + u)
div_up_bounds d u h =
    let e = div-add-mod d u in
    let lt = mod-lt d h in
    elim (Bool-cases (ltb 0 (d % u))) [
      | inl p ↦ let z : 0 < d % u = ground arith in rw p (rounded_bounds d u (d / u) (d % u) e lt z)
      | inr p ↦ let z : d % u ≡ 0 = ground arith in rw p (omega arith, omega arith)
    ]

-- `m` stands for the duration `d`: not shorter, and longer by at most one part in 99999.
abbrev pub IsClose : ℕ → ℕ → Type 0
IsClose d m = (d ≤ m) × ((m - d) * 99_999 ≤ d) × (m ≤ max_int64)

-- A unit in the list of `FormatGrpcTimeout`, after the unit `previous`.
abbrev Chain : ℕ → List (ℕ × ℕ) → Type 0
Chain previous [] = hour ≤ previous
Chain previous ((u, c) ∷ us) =
    (timeout_unit c ≡ some u) × (0 < u) × (u ≤ 1_000 * previous + 1) × Chain u us

IsClose-of_unit :
    (d u previous : ℕ)
    → d ≤ max_int64
    → 0 < u
    → u ≤ 1_000 * previous + 1
    → 99_999_999 * previous < d
    → IsClose d (min (u * div_up d u) max_int64)
IsClose-of_unit d u previous fits positive chain far =
    let (lo, hi) = div_up_bounds d u positive in (omega arith, omega arith, omega arith)

far_of_unfit : (d u : ℕ) → 0 < u → leb (div_up d u) max_timeout_value ≡ false → 99_999_999 * u < d
far_of_unfit d u positive h =
    let (lo, hi) = div_up_bounds d u positive in
    let big : 100_000_000 ≤ div_up d u = ground arith in
    let m : u * 100_000_000 ≤ u * div_up d u = mul-le-mul_left u big in omega arith

format_units-IsClose :
    (d : ℕ) (us : List (ℕ × ℕ)) (previous : ℕ)
    → d ≤ max_int64
    → Chain previous us
    → 99_999_999 * previous < d
    → (m : ℕ) × (parse_grpc_timeout (format_units d us) ≡ some (pos m)) × IsClose d m
unfolding format_units
format_units-IsClose d [] previous fits chain far = absurd (omega arith)
format_units-IsClose d ((u, c) ∷ us) previous fits (unit, positive, step, chain) far =
    elim (Bool-cases (leb (div_up d u) max_timeout_value)) [
      | inl e ↦ rw e (
        min (u * div_up d u) max_int64,
        parse-format (div_up d u) u c (ground (arith, e)) unit,
        IsClose-of_unit d u previous fits positive step far,
      )
      | inr e ↦ rw e (format_units-IsClose d us u fits chain (far_of_unfit d u positive e))
    ]

units-Chain : Chain 0 units
unfolding timeout_unit
units-Chain = (
  refl,
  omega arith,
  omega arith,
  (
    refl,
    omega arith,
    omega arith,
    (
      refl,
      omega arith,
      omega arith,
      (
        refl,
        omega arith,
        omega arith,
        (refl, omega arith, omega arith, (refl, omega arith, omega arith, omega arith)),
      ),
    ),
  ),
)

-- A positive duration, up to the largest int64, survives the header: what is parsed from its own
-- encoding is never shorter, is longer by at most one part in 99999, and is a duration again.
pub parse_grpc_timeout-format_grpc_timeout :
    (d : ℕ)
    → 0 < d
    → d ≤ max_int64
    → (m : ℕ) × (parse_grpc_timeout (format_grpc_timeout (pos d)) ≡ some (pos m)) × IsClose d m
unfolding format_grpc_timeout
parse_grpc_timeout-format_grpc_timeout zero h fits = absurd (omega arith)
parse_grpc_timeout-format_grpc_timeout (suc d) h fits =
    format_units-IsClose (suc d) units 0 fits units-Chain (omega arith)
