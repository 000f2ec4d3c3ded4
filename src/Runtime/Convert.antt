-- ===== src/Runtime/Convert.antt =====
-- runtime/pathconvert.go, and `setStringValue` of runtime/populate.go: texts as values of fields.
-- An error is `none`; its code is that of an invalid argument. Floats, times and base64 are
-- parameters.
use zara_rpc.Common.{
  ℕ, zero, suc, ◌-◌, ◌%◌, ◌^◌, Bool, true, false, ◌||◌, Option, none, some, List, [], ◌∷◌, Text,
  codes, text_eq, trim_space, split_byte, ltb, ◌==◌, if◌then◌else◌, ℤ, pos, negsuc,
}
use zara_rpc.Metadata.Decimal.{parse_uint}
use zara_rpc.Status.Wire.{to_uint64}

-- strconv.ParseUint(s, 10, bits)
unfoldable pub parse_uint_bits : ℕ → Text → Option ℕ
unfolding parse_uint
parse_uint_bits bits s = elim (parse_uint s) [
  | none ↦ none
  | some n ↦ if ltb n (2 ^ bits) then some n else none
]

-- A magnitude with its sign, in the range of `bits` bits.
abbrev pub in_range : ℕ → Bool → ℕ → Option ℤ
in_range bits false n = if ltb n (2 ^ (bits - 1)) then some (pos n) else none
in_range bits true zero = some (pos 0)
in_range bits true (suc n) = if ltb n (2 ^ (bits - 1)) then some (negsuc n) else none

abbrev pub sign_of : Text → Bool × Text
sign_of [] = (false, [])
sign_of (c ∷ s) = if c == b'-' then (true, s) else if c == b'+' then (false, s) else (false, c ∷ s)

-- strconv.ParseInt(s, 10, bits)
unfoldable pub parse_int_bits : ℕ → Text → Option ℤ
unfolding parse_uint
parse_int_bits bits s =
    let (negative, digits) = sign_of s in
    elim (parse_uint digits) [ none ↦ none | some n ↦ in_range bits negative n ]

abbrev pub text_in : Text → List Text → Bool
text_in s [] = false
text_in s (t ∷ ts) = text_eq s t || text_in s ts

-- strconv.ParseBool
unfoldable pub parse_bool : Text → Option Bool
parse_bool s =
    if text_in s
      (codes "1" ∷ codes "t" ∷ codes "T" ∷ codes "true" ∷ codes "TRUE" ∷ codes "True" ∷ [])
    then some true
    else if text_in s
        (codes "0" ∷ codes "f" ∷ codes "F" ∷ codes "false" ∷ codes "FALSE" ∷ codes "False" ∷ [])
    then some false
    else none

-- `PathInt32`, `PathInt64`, `PathUint32` and `PathUint64`: the width is 32 or 64.
unfoldable pub path_int : ℕ → Text → Option ℤ
unfolding parse_int_bits
path_int bits val = parse_int_bits bits val

unfoldable pub path_uint : ℕ → Text → Option ℕ
unfolding parse_uint_bits
path_uint bits val = parse_uint_bits bits val

-- `PathBool`
unfoldable pub path_bool : Text → Option Bool
unfolding parse_bool
path_bool val = parse_bool val

-- `PathBytes`, given base64.RawURLEncoding and base64.StdEncoding.
unfoldable pub path_bytes : (Text → Option Text) → (Text → Option Text) → Text → Option Text
path_bytes raw_url std val = elim (raw_url val) [ some b ↦ some b | none ↦ std val ]

-- `PathStringSlice`
unfoldable pub path_string_slice : Text → List Text
path_string_slice val = split_byte b',' val

-- The loop of `PathInt64Slice`
unfoldable pub parse_int64s : List Text → Option (List ℤ)
unfolding parse_int_bits
parse_int64s [] = some []
parse_int64s (p ∷ ps) =
    let rest = parse_int64s ps in
    elim (parse_int_bits 64 (trim_space p)) [
      | none ↦ none
      | some n ↦ elim rest [ none ↦ none | some ns ↦ some (n ∷ ns) ]
    ]

-- `PathInt64Slice`
unfoldable pub path_int64_slice : Text → Option (List ℤ)
unfolding parse_int64s
path_int64_slice val = parse_int64s (split_byte b',' val)

-- What `SetInt` and `SetUint` store in a field of `bits` bits: the low bits.
abbrev pub store_int : ℕ → ℤ → ℤ
store_int bits x =
    if ltb (to_uint64 x % 2 ^ bits) (2 ^ (bits - 1))
    then pos (to_uint64 x % 2 ^ bits)
    else negsuc (2 ^ bits - 1 - to_uint64 x % 2 ^ bits)

-- The kinds of fields that `setStringValue` tells apart, but for pointers and structs; a []byte is
-- of `bytes_kind`, and the others are `unsupported`.
pub data Kind : Type 0 where
  text_kind bool_kind float_kind bytes_kind time_kind unsupported : Kind
  int_kind uint_kind : ℕ → Kind

-- Values of fields; a float and a time are of the types `F` and `D`.
pub data Scalar (F D : Type 0) : Type 0 where
  text : Text → Scalar F D
  bool : Bool → Scalar F D
  float : F → Scalar F D
  bytes : Text → Scalar F D
  time : D → Scalar F D
  int : ℤ → Scalar F D
  uint : ℕ → Scalar F D

-- strconv.ParseFloat, time.Parse of RFC3339, a time's Unix seconds and nanoseconds, and
-- base64.StdEncoding.
pub record Formats (F D : Type 0) : Type 0 where
  pub parse_float : Text → Option F
  pub parse_time : Text → Option D
  pub unix : D → ℤ
  pub nanosecond : D → ℕ
  pub decode64 : Text → Option Text

-- `setStringValue` on a field of a kind that no pointer is; what it stores.
unfoldable pub set_string_value : {F D : Type 0} → Formats F D → Kind → Text → Option (Scalar F D)
unfolding parse_int_bits parse_uint_bits parse_bool
set_string_value X text_kind s = some (text s)
set_string_value X (int_kind bits) s = elim (parse_int_bits 64 s) [
  | none ↦ none
  | some n ↦ some (int (store_int bits n))
]
set_string_value X (uint_kind bits) s = elim (parse_uint_bits 64 s) [
  | none ↦ none
  | some n ↦ some (uint (n % 2 ^ bits))
]
set_string_value X float_kind s = elim (X.parse_float s) [ none ↦ none | some x ↦ some (float x) ]
set_string_value X bool_kind s = elim (parse_bool s) [ none ↦ none | some b ↦ some (bool b) ]
set_string_value X bytes_kind s = elim (X.decode64 s) [ none ↦ none | some b ↦ some (bytes b) ]
set_string_value X time_kind s = elim (X.parse_time s) [ none ↦ none | some t ↦ some (time t) ]
set_string_value X unsupported s = none
