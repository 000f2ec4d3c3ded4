-- ===== src/Auth/Jwt.antt =====
-- auth/jwt: where a token is found (jwt.go), and the claims that are no registered ones
-- (claims.go). json.Unmarshal of one value is a parameter.
pub mod Laws
pub mod Keys
use zara_rpc.Common.{
  ℕ, ◌+◌, Bool, true, false, ◌&&◌, Option, none, some, List, [], ◌∷◌, Text, codes, text_eq,
  has_prefix, drop, length, ltb, is_empty, any, lookup, if◌then◌else◌,
}
use zara_rpc.Auth.Rbac.{Claims, ClaimValue}

-- What the extractor reads of a request: `Header().Get("Authorization")`, `Query().Get("token")`,
-- and the value of the cookie "session", `none` for an error.
pub record TokenSource : Type 0 where
  pub authorization : Text
  pub query_token : Text
  pub session : Option Text

abbrev pub from_session : Option Text → Option Text
from_session none = none
from_session (some v) = if is_empty v then none else some v

-- `DefaultTokenExtractor`
unfoldable pub default_token_extractor : TokenSource → Option Text
default_token_extractor r =
    if ltb 7 (length r.authorization) && has_prefix r.authorization (codes "Bearer ")
    then some (drop 7 r.authorization)
    else if is_empty r.query_token
    then from_session r.session
    else some r.query_token

abbrev pub registered_claims : List Text
registered_claims =
    codes "exp"
    ∷ codes "nbf"
    ∷ codes "iat"
    ∷ codes "iss"
    ∷ codes "aud"
    ∷ codes "sub"
    ∷ codes "jti"
    ∷ []

-- `isRegisteredClaim`
unfoldable pub is_registered_claim : Text → Bool
is_registered_claim name = any (λ c. text_eq c name) registered_claims

abbrev pub with_claim :
    Text → Option ClaimValue → Option (List (Text × ClaimValue)) → Option (List (Text × ClaimValue))
with_claim k none rest = none
with_claim k (some v) none = none
with_claim k (some v) (some m) = some ((k, v) ∷ m)

-- The loop of `UnmarshalJSON` over the raw claims; `none` is an error.
unfoldable pub custom_claims :
    (Text → Option ClaimValue) → List (Text × Text) → Option (List (Text × ClaimValue))
custom_claims decode [] = some []
custom_claims decode ((k, raw) ∷ m) =
    let rest = custom_claims decode m in
    if is_registered_claim k then rest else with_claim k (decode raw) rest

abbrev pub strings_of : List (Option Text) → List Text
strings_of [] = []
strings_of (none ∷ xs) = strings_of xs
strings_of (some s ∷ xs) = s ∷ strings_of xs

abbrev pub roles_of : Option ClaimValue → List Text
roles_of none = []
roles_of (some (ClaimValue.string t)) = t ∷ []
roles_of (some (ClaimValue.array xs)) = strings_of xs
roles_of (some ClaimValue.other) = []

-- `Roles`
unfoldable pub roles : Claims → List Text
roles claims = roles_of (lookup (codes "role") claims.custom)

-- `HasRole`
unfoldable pub has_role : Claims → Text → Bool
unfolding roles
has_role claims role = any (λ r. text_eq r role) (roles claims)
