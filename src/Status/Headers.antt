-- ===== src/Status/Headers.antt =====
-- net/http's Header: a map from keys to their values in order.
use zara_rpc.Common.{
  ℕ, ◌+◌, ◌-◌, Bool, true, not, ◌&&◌, ◌||◌, ◌==◌, leb, all, contains_byte, codes, if◌then◌else◌,
  Option, none, some, List, [], ◌∷◌, ◌++◌, Text, lookup, insert,
}

abbrev pub Header : Type 0
Header = List (Text × List Text)

-- `Get`, for a key in canonical form: the first value, or "".
abbrev pub first_value : Option (List Text) → Text
first_value none = []
first_value (some []) = []
first_value (some (v ∷ vs)) = v

unfoldable pub get : Text → Header → Text
get k h = first_value (lookup k h)

-- `Set`
unfoldable pub set : Text → Text → Header → Header
set k v h = insert k (v ∷ []) h

abbrev pub values : Option (List Text) → List Text
values none = []
values (some vs) = vs

-- `Add` of url.Values, and of http.Header for a key in canonical form.
unfoldable pub add : Text → Text → Header → Header
add k v h = insert k (values (lookup k h) ++ (v ∷ [])) h

-- `for _, v := range vs { Add(k, v) }`
unfoldable pub add_values : Text → List Text → Header → Header
unfolding add
add_values k [] h = h
add_values k (v ∷ vs) h = add_values k vs (add k v h)

-- The bytes of a token, of which the names of headers consist.
abbrev is_token_byte : ℕ → Bool
is_token_byte c =
    (leb b'a' c && leb c b'z')
    || (leb b'A' c && leb c b'Z')
    || (leb b'0' c && leb c b'9')
    || contains_byte (codes "!#$%&'*+-.^_`|~") c

-- The letters of a name that are first or behind a dash become upper case, the others lower case.
abbrev canonical_from : Bool → Text → Text
canonical_from upper [] = []
canonical_from upper (c ∷ s) =
    (if upper && (leb b'a' c && leb c b'z')
      then c - 32
      else if not upper && (leb b'A' c && leb c b'Z')
      then c + 32
      else c)
    ∷ canonical_from (c == b'-') s

-- textproto.CanonicalMIMEHeaderKey: a key with another byte stays as it is.
abbrev pub canonical_key : Text → Text
canonical_key k = if all is_token_byte k then canonical_from true k else k

-- `Add` of http.Header
unfoldable pub add_header : Text → Text → Header → Header
unfolding add
add_header k v h = add (canonical_key k) v h

-- The copy of a header into another with `Add`, key by key.
unfoldable pub add_all : Header → Header → Header
unfolding add_values
add_all [] h = h
add_all ((k, vs) ∷ meta) h = add_all meta (add_values (canonical_key k) vs h)
