-- ===== src/Runtime/Query.antt =====
-- runtime/substitute.go: a request message as query parameters, `MessageToQuery`, and the one field
-- of it that is the body, `ExtractFieldValue`. Messages are those of runtime/populate.go; url.Values
-- is a map like that of a header. strconv.FormatFloat and fmt.Sprintf are parameters.
pub mod Numbers
pub mod Values
pub mod Entries
pub mod RoundTrip
use zara_rpc.Common.{
  ℕ, suc, Bool, true, false, not, ◌||◌, ◌&&◌, Option, none, some, List, [], ◌∷◌, map, Text, codes,
  text_eq, any, if◌then◌else◌, ℤ, pos, negsuc,
}
use zara_rpc.Metadata.Decimal.{format_int}
use zara_rpc.Status.Headers.{Header, set, add_values}
use zara_rpc.Runtime.Convert.{Scalar, text, bool, float, bytes, time, int, uint}
use zara_rpc.Runtime.Populate.{
  FieldInfo, Value, scalar, slice, struct, nil, ptr, Fields, no_fields, field,
}
use zara_rpc.Runtime.Substitute.{Field, proto_name}

-- strconv.FormatFloat with the shortest digits, and fmt.Sprintf("%v") for the other kinds.
pub record Printers (F D : Type 0) : Type 0 where
  pub format_float : F → Text
  pub sprint : Value (Scalar F D) → Text
  pub sprint_time : D → Text
  pub sprint_bytes : Text → Text

-- strconv.FormatInt(x, 10)
unfoldable pub format_integer : ℤ → Text
unfolding format_int
format_integer (pos n) = format_int n
format_integer (negsuc n) = b'-' ∷ format_int (suc n)

-- strconv.FormatBool
abbrev pub format_bool : Bool → Text
format_bool true = codes "true"
format_bool false = codes "false"

-- What the values of a field become: nothing, one value that is set, or values that are added.
pub data Queried : Type 0 where
  absent : Queried
  one : Text → Queried
  many : List Text → Queried

-- One field's part in the query.
unfoldable pub put : Text → Queried → Header → Header
unfolding set add_values
put name absent q = q
put name (one s) q = set name s q
put name (many ss) q = add_values name ss q

-- A field that goes into the query: exported, and not in the path.
unfoldable pub is_sent : List Text → FieldInfo → Bool
unfolding proto_name
is_sent bound i = i.is_exported && not (any (text_eq (proto_name i.name i.tag)) bound)

module _ {F D : Type 0} (W : Printers F D) where
  -- `reflectValueToString` and the branch for texts in front of its calls.
  unfoldable pub scalar_text : Scalar F D → Text
  unfolding format_integer format_int
  scalar_text (text s) = s
  scalar_text (bool b) = format_bool b
  scalar_text (int x) = format_integer x
  scalar_text (uint n) = format_int n
  scalar_text (float x) = W.format_float x
  scalar_text (time t) = W.sprint_time t
  scalar_text (bytes b) = W.sprint_bytes b

  unfoldable pub value_text : Value (Scalar F D) → Text
  unfolding scalar_text
  value_text (scalar k x) = scalar_text x
  value_text v = W.sprint v

  -- The values of a field that is no pointer.
  unfoldable pub plain_values : Value (Scalar F D) → Queried
  unfolding scalar_text value_text format_int
  plain_values (slice k xs) = many (map scalar_text xs)
  plain_values (scalar k (bytes b)) = many (map format_int b)
  plain_values v = one (value_text v)

  unfoldable pub field_values : Value (Scalar F D) → Queried
  unfolding plain_values
  field_values (nil v) = absent
  field_values (ptr v) = plain_values v
  field_values v = plain_values v

  -- The loop of `MessageToQuery`
  unfoldable pub fields_to_query : List Text → Fields (Scalar F D) → Header → Header
  unfolding put is_sent field_values proto_name
  fields_to_query bound no_fields q = q
  fields_to_query bound (field i v fs) q =
      fields_to_query bound fs
        (if is_sent bound i then put (proto_name i.name i.tag) (field_values v) q else q)

  -- `MessageToQuery`
  unfoldable pub message_to_query : List Text → Value (Scalar F D) → Header
  unfolding fields_to_query
  message_to_query bound (ptr (struct fs)) = fields_to_query bound fs []
  message_to_query bound (struct fs) = fields_to_query bound fs []
  message_to_query bound v = []

  -- The fields as the substitution into the path reads them: a pointer is not followed.
  unfoldable pub path_fields : Fields (Scalar F D) → List Field
  unfolding value_text
  path_fields no_fields = []
  path_fields (field i v fs) =
      record { name = i.name; json_tag = i.tag; is_exported = i.is_exported; text = value_text v }
      ∷ path_fields fs

module _ {S : Type 0} where
  -- The loop of `ExtractFieldValue`
  unfoldable pub find_value : Text → Fields S → Option (Value S)
  unfolding proto_name
  find_value name no_fields = none
  find_value name (field i v fs) =
      let rest = find_value name fs in
      if i.is_exported && (text_eq (proto_name i.name i.tag) name || text_eq i.name name)
      then some v
      else rest

  -- `ExtractFieldValue`; the code panics on a value that is no struct, which is `none` here, as is
  -- a field that is not found.
  unfoldable pub extract_field_value : Value S → Text → Option (Value S)
  unfolding find_value
  extract_field_value (ptr (struct fs)) name = find_value name fs
  extract_field_value (struct fs) name = find_value name fs
  extract_field_value v name = none
