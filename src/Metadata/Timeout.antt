-- ===== src/Metadata/Timeout.antt =====
-- `FormatGrpcTimeout` and `ParseGrpcTimeout` of metadata/metadata.go. A time.Duration is an int64
-- of nanoseconds.
use zara_rpc.Common.{
  ℕ, zero, suc, ◌+◌, ◌-◌, ◌*◌, ◌/◌, ◌%◌, ◌^◌, ◌&&◌, ◌||◌, Option, none, some, List, [], ◌∷◌, ◌++◌,
  Text, codes, length, ltb, leb, ◌==◌, if◌then◌else◌, ℤ, pos, negsuc, wrap_int64, ◌>>=◌, drop_last,
}
use zara_rpc.Metadata.Decimal.{format_int, parse_uint}

abbrev pub hour : ℕ
hour = 3_600_000_000_000

abbrev pub max_timeout_value : ℕ
max_timeout_value = 100_000_000 - 1

abbrev pub max_int64 : ℕ
max_int64 = 2 ^ 63 - 1

-- `timeoutUnits`
unfoldable pub timeout_unit : ℕ → Option ℕ
timeout_unit c =
    if c == b'H'
    then some hour
    else if c == b'M'
    then some 60_000_000_000
    else if c == b'S'
    then some 1_000_000_000
    else if c == b'm'
    then some 1_000_000
    else if c == b'u'
    then some 1_000
    else if c == b'n'
    then some 1
    else none

-- The closure `div`, which rounds up; both numbers are positive there.
abbrev pub div_up : ℕ → ℕ → ℕ
div_up d r = if ltb 0 (d % r) then d / r + 1 else d / r

-- The loop of `FormatGrpcTimeout` over the units, and the line behind it.
unfoldable pub format_units : ℕ → List (ℕ × ℕ) → Text
format_units d [] = format_int (div_up d hour) ++ (b'H' ∷ [])
format_units d ((unit, suffix) ∷ units) =
    if leb (div_up d unit) max_timeout_value
    then format_int (div_up d unit) ++ (suffix ∷ [])
    else format_units d units

abbrev pub units : List (ℕ × ℕ)
units =
    (1, b'n')
    ∷ (1_000, b'u')
    ∷ (1_000_000, b'm')
    ∷ (1_000_000_000, b'S')
    ∷ (60_000_000_000, b'M')
    ∷ (hour, b'H')
    ∷ []

unfoldable pub format_grpc_timeout : ℤ → Text
unfolding format_units
format_grpc_timeout (pos zero) = codes "0n"
format_grpc_timeout (pos (suc d)) = format_units (suc d) units
format_grpc_timeout (negsuc d) = codes "0n"

-- v[size-1], the suffix of a text that is not empty
abbrev pub last_byte : Text → ℕ
last_byte [] = 0
last_byte (c ∷ []) = c
last_byte (c ∷ d ∷ s) = last_byte (d ∷ s)

abbrev pub max_hours : ℕ
max_hours = max_int64 / hour

-- `t` has eight digits at most, so that `int64(t)` is `t`.
unfoldable pub scale_timeout : ℕ → ℕ → ℤ
scale_timeout unit t =
    if unit == hour && ltb max_hours t then pos max_int64 else wrap_int64 (unit * t)

unfoldable pub parse_grpc_timeout : Text → Option ℤ
unfolding timeout_unit scale_timeout
parse_grpc_timeout v =
    if ltb (length v) 2 || ltb 9 (length v)
    then none
    else (timeout_unit (last_byte v) >>= λ unit.
        parse_uint (drop_last 1 v) >>= λ t. some (scale_timeout unit t))
