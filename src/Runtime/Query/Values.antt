-- ===== src/Runtime/Query/Values.antt =====
-- One field of runtime/substitute.go and runtime/populate.go: the text of a value, read back.
use zara_rpc.Common.{
  ◌⊎◌, ◌≡◌, refl, ap, ℕ, ◌<◌, ◌^◌, Bool, true, false, some, List, [], ◌∷◌, Text, arith, map, ℤ, All,
  inl, inr,
}
use zara_rpc.Metadata.Decimal.{format_int}
use zara_rpc.Runtime.Convert.{
  Kind, text_kind, bool_kind, float_kind, bytes_kind, int_kind, uint_kind, Scalar, text, bool,
  float, bytes, int, uint, Formats, set_string_value, parse_uint_bits, parse_bool,
}
use zara_rpc.Runtime.Populate.{
  Value, scalar, slice, nil, ptr, set_value, set_values, set_elements, set_bytes,
}
use zara_rpc.Runtime.Query.{
  Printers, Queried, absent, one, many, scalar_text, value_text, plain_values, field_values,
}
use zara_rpc.Runtime.Query.Numbers.{
  store_int-Fits, store_int-Fits_32, Fits-64, parse_int_bits-format_integer,
  parse_uint_bits-format_int, Fits,
}

abbrev pub texts : Queried → List Text
texts absent = []
texts (one s) = s ∷ []
texts (many ss) = ss

-- The values that a field of a kind holds in a generated message, where the parser of floats reads
-- back what their printer writes.
module _ {F D : Type 0} (X : Formats F D) (W : Printers F D) where
  pub data Holds : Kind → Scalar F D → Type 0 where
    text_holds : {s : Text} → Holds text_kind (text s)
    bool_holds : {b : Bool} → Holds bool_kind (bool b)
    int32_holds : {x : ℤ} → Fits 32 x → Holds (int_kind 32) (int x)
    int64_holds : {x : ℤ} → Fits 64 x → Holds (int_kind 64) (int x)
    uint32_holds : {n : ℕ} → n < 2 ^ 32 → Holds (uint_kind 32) (uint n)
    uint64_holds : {n : ℕ} → n < 2 ^ 64 → Holds (uint_kind 64) (uint n)
    float_holds : {x : F} → X.parse_float (W.format_float x) ≡ some x → Holds float_kind (float x)

  set_string_value-scalar_text :
      {k : Kind} {x : Scalar F D} → Holds k x → set_string_value X k (scalar_text W x) ≡ some x
  unfolding set_string_value scalar_text parse_uint_bits parse_bool
  set_string_value-scalar_text text_holds = refl
  set_string_value-scalar_text (bool_holds {b = false}) = refl
  set_string_value-scalar_text (bool_holds {b = true}) = refl
  set_string_value-scalar_text (int32_holds {x} h) =
      rw (set_string_value, parse_int_bits-format_integer x (Fits-64 x h))
        (ap (λ (y : ℤ). some (int y)) (store_int-Fits_32 x h))
  set_string_value-scalar_text (int64_holds {x} h) =
      rw (set_string_value, parse_int_bits-format_integer x h)
        (ap (λ (y : ℤ). some (int y)) (store_int-Fits x h))
  set_string_value-scalar_text (uint32_holds {n} h) =
      rw (set_string_value, parse_uint_bits-format_int n (omega arith)) (ground arith)
  set_string_value-scalar_text (uint64_holds {n} h) =
      rw (set_string_value, parse_uint_bits-format_int n (omega arith)) (ground arith)
  set_string_value-scalar_text (float_holds h) = rw (set_string_value, h) refl

  -- A field of the message, and the field that the server has before: the zero value, where the
  -- query has nothing for it, and any value else.
  pub data Reads : Value (Scalar F D) → Value (Scalar F D) → Type 0 where
    unset : {v : Value (Scalar F D)} → Reads (nil v) (nil v)
    plain : {k : Kind} {x y : Scalar F D} → Holds k x → Reads (scalar k x) (scalar k y)
    optional :
        {k : Kind} {x y : Scalar F D} → Holds k x → Reads (ptr (scalar k x)) (nil (scalar k y))
    no_elements : {k : Kind} → Reads (slice k []) (slice k [])
    elements :
        {k : Kind} {x : Scalar F D} {xs ys : List (Scalar F D)}
        → All (Holds k) (x ∷ xs)
        → Reads (slice k (x ∷ xs)) (slice k ys)
    no_bytes : Reads (scalar bytes_kind (bytes [])) (scalar bytes_kind (bytes []))
    some_bytes :
        {b : ℕ} {bs : Text} {y : Scalar F D}
        → All (λ c. c < 256) (b ∷ bs)
        → Reads (scalar bytes_kind (bytes (b ∷ bs))) (scalar bytes_kind y)

  set_value-scalar :
      {k : Kind} {x : Scalar F D} (y : Scalar F D)
      → Holds k x
      → set_value X (scalar_text W x) (scalar k y) ≡ some (scalar k x)
  unfolding set_value
  set_value-scalar y h = rw (set_value, set_string_value-scalar_text h) refl

  set_values-scalar :
      {k : Kind} {x : Scalar F D} (y : Scalar F D)
      → Holds k x
      → set_values X (scalar_text W x) [] (scalar k y) ≡ some (scalar k x)
  unfolding set_values
  set_values-scalar y text_holds = set_value-scalar y text_holds
  set_values-scalar y (bool_holds {b}) = set_value-scalar y (bool_holds {b = b})
  set_values-scalar y (int32_holds h) = set_value-scalar y (int32_holds h)
  set_values-scalar y (int64_holds h) = set_value-scalar y (int64_holds h)
  set_values-scalar y (uint32_holds h) = set_value-scalar y (uint32_holds h)
  set_values-scalar y (uint64_holds h) = set_value-scalar y (uint64_holds h)
  set_values-scalar y (float_holds h) = set_value-scalar y (float_holds h)

  set_value-optional :
      {k : Kind} {x : Scalar F D} (y : Scalar F D)
      → Holds k x
      → set_values X (scalar_text W x) [] (nil (scalar k y)) ≡ some (ptr (scalar k x))
  unfolding set_values set_value
  set_value-optional y h =
      rw (set_values, set_value, set_value, set_string_value-scalar_text h) refl

  set_elements-map :
      (k : Kind) (xs : List (Scalar F D))
      → All (Holds k) xs
      → set_elements X k (map (scalar_text W) xs) ≡ some xs
  unfolding set_elements
  set_elements-map k [] h = refl
  set_elements-map k (x ∷ xs) (h, hs) =
      rw (set_elements, set_string_value-scalar_text h, set_elements-map k xs hs) refl

  set_bytes-map : (bs : Text) → All (λ c. c < 256) bs → set_bytes X (map format_int bs) ≡ some bs
  unfolding set_bytes parse_uint_bits
  set_bytes-map [] h = refl
  set_bytes-map (b ∷ bs) (h, hs) =
      rw (set_bytes, parse_uint_bits-format_int b (omega arith), set_bytes-map bs hs) (ground arith)

  field_values-scalar :
      {k : Kind} {x : Scalar F D} → Holds k x → plain_values W (scalar k x) ≡ one (scalar_text W x)
  unfolding plain_values value_text
  field_values-scalar text_holds = refl
  field_values-scalar bool_holds = refl
  field_values-scalar (int32_holds h) = refl
  field_values-scalar (int64_holds h) = refl
  field_values-scalar (uint32_holds h) = refl
  field_values-scalar (uint64_holds h) = refl
  field_values-scalar (float_holds h) = refl

  -- Where the query has nothing for a field, the server has its value; else it sets it to that.
  pub set_values-Reads :
      {v w : Value (Scalar F D)}
      → Reads v w
      → ((texts (field_values W v) ≡ []) × (v ≡ w))
        ⊎ ((s : Text) × (ss : List Text) × (texts (field_values W v) ≡ s ∷ ss)
            × (set_values X s ss w ≡ some v))
  unfolding set_values field_values plain_values
  set_values-Reads unset = inl (refl, refl)
  set_values-Reads (plain {k} {x} {y} h) =
      inr (scalar_text W x, [], ap texts (field_values-scalar h), set_values-scalar y h)
  set_values-Reads (optional {k} {x} {y} h) =
      inr (scalar_text W x, [], ap texts (field_values-scalar h), set_value-optional y h)
  set_values-Reads no_elements = inl (refl, refl)
  set_values-Reads (elements {k} {x} {xs} h) = inr (
    scalar_text W x,
    map (scalar_text W) xs,
    refl,
    rw (set_values, set_elements-map k (x ∷ xs) h) refl,
  )
  set_values-Reads no_bytes = inl (refl, refl)
  set_values-Reads (some_bytes {b} {bs} h) =
      inr (format_int b, map format_int bs, refl, rw (set_values, set_bytes-map (b ∷ bs) h) refl)
