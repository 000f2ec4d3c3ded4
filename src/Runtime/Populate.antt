-- ===== src/Runtime/Populate.antt =====
-- runtime/populate.go: the fields of a message, from the path, the body and the query. A message
-- is a tree of settable values; unexported fields are there, and are never found. The codec is a
-- parameter. Maps are lists in the order in which the loops meet their keys.
use zara_rpc.Common.{
  ◌≡◌, refl, ℕ, ◌%◌, Bool, true, false, ◌&&◌, ◌||◌, Option, none, some, List, [], ◌∷◌, Text, codes,
  text_eq, equal_fold, is_empty, index_byte, take, split_byte, lookup, if◌then◌else◌, pos, ◌==◌,
  holds, any, ◌^◌,
}
use zara_rpc.Common.Result.{Result, ok, err, ◌>>=◌}
use zara_rpc.Codes.{Code, code_invalid_argument}
use zara_rpc.Runtime.Convert.{
  Kind, int_kind, bytes_kind, Scalar, int, bytes, Formats, set_string_value, parse_uint_bits,
}

-- A reflect.StructField.
pub record FieldInfo : Type 0 where
  pub name : Text
  pub tag : Text
  pub is_exported : Bool

-- Values, where a slice has scalars for its elements and a nil pointer comes with the zero value
-- that reflect.New makes for it.
mutual
  pub data Value (S : Type 0) : Type 0 where
    scalar : Kind → S → Value S
    slice : Kind → List S → Value S
    struct : Fields S → Value S
    nil : Value S → Value S
    ptr : Value S → Value S

  pub data Fields (S : Type 0) : Type 0 where
    no_fields : Fields S
    field : FieldInfo → Value S → Fields S → Fields S

-- The json tag up to its first comma.
abbrev pub tag_name : Text → Text
tag_name tag = elim (index_byte tag b',') [ none ↦ tag | some j ↦ take j tag ]

-- The test in the scan of `FindField`.
abbrev pub is_field : FieldInfo → Text → Bool
is_field f name =
    f.is_exported
    && (text_eq (tag_name f.tag) name || (is_empty (tag_name f.tag) && equal_fold f.name name))

-- What became of a change to a field: the value with it, or an error; or no such field, and the
-- value with the pointers that were allocated on the way.
pub data Found (A : Type 0) : Type 0 where
  changed : Option A → Found A
  missing : A → Found A

abbrev pub through : {A B : Type 0} → (A → B) → Found A → Found B
through f (changed none) = changed none
through f (changed (some a)) = changed (some (f a))
through f (missing a) = missing (f a)

module _ {S : Type 0} where
  -- `findFieldPath` and `FindField`, with what is done to the field that they find.
  unfoldable mutual
    pub at_path : List Text → (Value S → Option (Value S)) → Value S → Found (Value S)
    at_path [] f v = changed (f v)
    at_path (p ∷ ps) f (scalar k x) = missing (scalar k x)
    at_path (p ∷ ps) f (slice k xs) = missing (slice k xs)
    at_path (p ∷ ps) f (struct fs) = through struct (at_fields p ps f fs)
    at_path (p ∷ ps) f (nil zero_value) = through ptr (at_path (p ∷ ps) f zero_value)
    at_path (p ∷ ps) f (ptr v) = through ptr (at_path (p ∷ ps) f v)

    pub at_fields : Text → List Text → (Value S → Option (Value S)) → Fields S → Found (Fields S)
    at_fields p ps f no_fields = missing no_fields
    at_fields p ps f (field i v fs) =
        let inside = at_path ps f v in
        let behind = at_fields p ps f fs in
        if is_field i p then through (λ v'. field i v' fs) inside else through (field i v) behind

  -- `f.FieldByName(name)`, with what is done to it.
  abbrev pub by_name : Text → (Value S → Value S) → Fields S → Fields S
  by_name name f no_fields = no_fields
  by_name name f (field i v fs) =
      if text_eq i.name name then field i (f v) fs else field i v (by_name name f fs)

  abbrev pub has_int : Text → ℕ → Fields S → Bool
  has_int name bits no_fields = false
  has_int name bits (field i (scalar (int_kind w) x) fs) =
      if text_eq i.name name then w == bits else has_int name bits fs
  has_int name bits (field i v fs) = if text_eq i.name name then false else has_int name bits fs

  -- `isProtoTimestamp`
  abbrev pub is_proto_timestamp : Fields S → Bool
  is_proto_timestamp fs = has_int (codes "Seconds") 64 fs && has_int (codes "Nanos") 32 fs

module _ {F D : Type 0} (X : Formats F D) where
  abbrev pub Message : Type 0
  Message = Value (Scalar F D)

  abbrev pub replace : Scalar F D → Message → Message
  replace x (scalar k old) = scalar k x
  replace x v = v

  abbrev pub set_time : D → Fields (Scalar F D) → Fields (Scalar F D)
  set_time t fs =
      by_name (codes "Nanos") (replace (int (pos (X.nanosecond t))))
        (by_name (codes "Seconds") (replace (int (X.unix t))) fs)

  -- `setStringValue`
  unfoldable pub set_value : Text → Message → Option Message
  unfolding set_string_value
  set_value s (ptr v) = elim (set_value s v) [ none ↦ none | some w ↦ some (ptr w) ]
  set_value s (nil v) = elim (set_value s v) [ none ↦ none | some w ↦ some (ptr w) ]
  set_value s (scalar k old) = elim (set_string_value X k s) [
    | none ↦ none
    | some x ↦ some (scalar k x)
  ]
  set_value s (slice k xs) = none
  set_value s (struct fs) =
      if is_proto_timestamp fs
      then elim (X.parse_time s) [ none ↦ none | some t ↦ some (struct (set_time t fs)) ]
      else none

  -- The loop over the values of a slice.
  unfoldable pub set_elements : Kind → List Text → Option (List (Scalar F D))
  unfolding set_string_value
  set_elements k [] = some []
  set_elements k (s ∷ ss) =
      let rest = set_elements k ss in
      elim (set_string_value X k s) [
        | none ↦ none
        | some x ↦ elim rest [ none ↦ none | some xs ↦ some (x ∷ xs) ]
      ]

  -- The same loop where the slice is a []byte: its elements are of the kind uint8.
  unfoldable pub set_bytes : List Text → Option Text
  unfolding parse_uint_bits
  set_bytes [] = some []
  set_bytes (s ∷ ss) =
      let rest = set_bytes ss in
      elim (parse_uint_bits 64 s) [
        | none ↦ none
        | some n ↦ elim rest [ none ↦ none | some ns ↦ some (n % 2 ^ 8 ∷ ns) ]
      ]

  abbrev pub last_of : Text → List Text → Text
  last_of s [] = s
  last_of s (t ∷ ts) = last_of t ts

  -- `setFieldStrings` on the field, for the values `s ∷ ss`.
  unfoldable pub set_values : Text → List Text → Message → Option Message
  unfolding set_value set_elements set_bytes
  set_values s ss (slice k xs) = elim (set_elements k (s ∷ ss)) [
    | none ↦ none
    | some ys ↦ some (slice k ys)
  ]
  set_values s ss (scalar bytes_kind old) = elim (set_bytes (s ∷ ss)) [
    | none ↦ none
    | some b ↦ some (scalar bytes_kind (bytes b))
  ]
  set_values s ss v = set_value (last_of s ss) v

  -- A field that is missing is an error if `strict`.
  abbrev pub settle : Bool → Found Message → Result Code Message
  settle strict (changed none) = err code_invalid_argument
  settle strict (changed (some v)) = ok v
  settle strict (missing v) = if strict then err code_invalid_argument else ok v

  -- `setFieldString`
  unfoldable pub set_field_string : Text → Text → Bool → Message → Result Code Message
  unfolding at_path set_value
  set_field_string name value strict root =
      settle strict (at_path (split_byte b'.' name) (set_value value) root)

  -- `setFieldStrings`
  unfoldable pub set_field_strings : Text → List Text → Bool → Message → Result Code Message
  unfolding at_path set_values
  set_field_strings name [] strict root = ok root
  set_field_strings name (s ∷ ss) strict root =
      settle strict (at_path (split_byte b'.' name) (set_values s ss) root)

  -- The loop over the path parameters.
  unfoldable pub set_params : List (Text × Text) → Message → Result Code Message
  unfolding set_field_string
  set_params [] v = ok v
  set_params ((name, value) ∷ params) v = set_field_string name value true v >>= set_params params

  -- The loop over the query; `skip` tells the names that are bound already.
  unfoldable pub set_query : (Text → Bool) → List (Text × List Text) → Message → Result Code Message
  unfolding set_field_strings
  set_query skip [] v = ok v
  set_query skip ((name, values) ∷ query) v =
      (if skip name then ok v else set_field_strings name values false v) >>= set_query skip query

  -- `PopulateQuery`
  unfoldable pub populate_query :
      List Text → List (Text × List Text) → Message → Result Code Message
  unfolding set_query
  populate_query bound query v = set_query (λ name. any (text_eq name) bound) query v

  -- What the codec decodes into: a pointer that is nil is allocated.
  abbrev pub decode_into : (Message → Option Message) → Message → Option Message
  decode_into unmarshal (nil v) = elim (unmarshal v) [ none ↦ none | some w ↦ some (ptr w) ]
  decode_into unmarshal (ptr v) = elim (unmarshal v) [ none ↦ none | some w ↦ some (ptr w) ]
  decode_into unmarshal v = unmarshal v

  -- `SetFieldFromBody`, for the codec's `Unmarshal` of the body.
  unfoldable pub set_field_from_body :
      (Message → Option Message) → Text → Message → Result Code Message
  unfolding at_path
  set_field_from_body unmarshal name v = settle true (at_path (name ∷ []) (decode_into unmarshal) v)

  abbrev pub is_bound : List (Text × Text) → Text → Text → Bool
  is_bound params body_field name =
      holds (λ v. true) (lookup name params) || text_eq name body_field

  -- `PopulateMessage` behind its check of the pointer.
  unfoldable pub populate_message :
      (Message → Option Message)
      → List (Text × Text)
      → List (Text × List Text)
      → Text
      → Message
      → Result Code Message
  unfolding set_params set_query set_field_from_body
  populate_message unmarshal params query body_field v = set_params params v >>= λ v1.
      if text_eq body_field (codes "*")
      then elim (unmarshal v1) [ none ↦ err code_invalid_argument | some w ↦ ok w ]
      else ((if is_empty body_field then ok v1 else set_field_from_body unmarshal body_field v1)
          >>= set_query (is_bound params body_field) query)

  -- A query parameter under the very name of a path parameter, or of the body field, changes
  -- nothing.
  pub set_query_bound :
      (params : List (Text × Text)) (body_field name : Text) (values : List Text)
      (query : List (Text × List Text)) (v : Message)
      → is_bound params body_field name ≡ true
      → set_query (is_bound params body_field) ((name, values) ∷ query) v
        ≡ set_query (is_bound params body_field) query v
  unfolding set_query
  set_query_bound params body_field name values query v bound = rw (set_query, bound) refl
