-- ===== src/Auth/Jwt/Keys.antt =====
-- auth/jwt/jwt.go and auth/jwt/issuer.go: how validators and issuers are built, which key a token is
-- checked with, and which claims are signed. An RSA or ECDSA key is opaque, a duration is a signed
-- number of nanoseconds, and the claims that json encodes are a parameter.
pub mod Laws
use zara_rpc.Common.{
  ◌⊎◌, subst, ◌≡◌, refl, sym, ap, ◌∙◌, ℕ, Bool, true, false, Option, none, some, List, [], ◌∷◌,
  Text, codes, text_eq, is_empty, insert, lookup, lookup-insert, if◌then◌else◌, ℤ, pos, Bool-cases,
  inl, inr, IsUnique, lookup-IsFresh, text_eq_iff, IsFresh, ◌≢◌,
}
use zara_rpc.Common.Result.{Result, ok, err}

-- The types that the code leaves to others.
pub record Opaque : Type 1 where
  pub RsaKey : Type 0
  pub EcdsaKey : Type 0
  pub OtherKey : Type 0
  pub Extractor : Type 0

-- The keys that are told apart by their types, and the signing methods.
pub data Key (K : Opaque) : Type 0 where
  secret : Text → Key K
  rsa : K.RsaKey → Key K
  ecdsa : K.EcdsaKey → Key K
  other_key : K.OtherKey → Key K

pub data SigningMethod : Type 0 where
  hs256 rs256 es256 unknown_method : SigningMethod

abbrev pub method_eq : SigningMethod → SigningMethod → Bool
method_eq hs256 hs256 = true
method_eq rs256 rs256 = true
method_eq es256 es256 = true
method_eq unknown_method unknown_method = true
method_eq _ _ = false

pub data BuildError : Type 0 where
  empty_secret unsupported_key : BuildError

-- `JWTValidator`
pub record Validator (K : Opaque) : Type 0 where
  pub key : Key K
  pub method : SigningMethod
  pub issuer : Text
  pub audience : Text
  pub leeway : ℤ
  pub extract : K.Extractor

-- `JWTOption`
pub data JwtOption (K : Opaque) : Type 0 where
  with_issuer with_audience : Text → JwtOption K
  with_leeway : ℤ → JwtOption K
  with_token_extractor : K.Extractor → JwtOption K

module _ {K : Opaque} where
  unfoldable pub apply_option : JwtOption K → Validator K → Validator K
  apply_option (with_issuer iss) v = record v { issuer = iss }
  apply_option (with_audience aud) v = record v { audience = aud }
  apply_option (with_leeway d) v = record v { leeway = d }
  apply_option (with_token_extractor fn) v = record v { extract = fn }

  unfoldable pub apply_jwt_options : List (JwtOption K) → Validator K → Validator K
  unfolding apply_option
  apply_jwt_options [] v = v
  apply_jwt_options (o ∷ os) v = apply_jwt_options os (apply_option o v)

  abbrev pub bare_validator : Key K → SigningMethod → K.Extractor → Validator K
  bare_validator key method extract = record {
    key = key;
    method = method;
    issuer = [];
    audience = [];
    leeway = pos 0;
    extract = extract;
  }

  -- `NewJWTValidator`, given the default extractor.
  unfoldable pub new_jwt_validator :
      K.Extractor → Text → List (JwtOption K) → Result BuildError (Validator K)
  unfolding apply_jwt_options
  new_jwt_validator extract s opts =
      if is_empty s
      then err empty_secret
      else ok (apply_jwt_options opts (bare_validator (secret s) hs256 extract))

  -- `NewJWTValidatorWithKey`
  unfoldable pub new_jwt_validator_with_key :
      K.Extractor → Key K → List (JwtOption K) → Result BuildError (Validator K)
  unfolding apply_jwt_options
  new_jwt_validator_with_key extract (rsa k) opts =
      ok (apply_jwt_options opts (bare_validator (rsa k) rs256 extract))
  new_jwt_validator_with_key extract (ecdsa k) opts =
      ok (apply_jwt_options opts (bare_validator (ecdsa k) es256 extract))
  new_jwt_validator_with_key extract (secret s) opts = err unsupported_key
  new_jwt_validator_with_key extract (other_key k) opts = err unsupported_key

  -- The key function of `Validate`: the key for a token that is signed with a method.
  unfoldable pub key_for : Validator K → SigningMethod → Option (Key K)
  key_for v m = if method_eq m v.method then some v.key else none

-- The claims of `Issue`, as the map that is signed: the custom claims are written last. A value is
-- a text or a number.
abbrev pub write_claims : {J : Type 0} → List (Text × J) → List (Text × J) → List (Text × J)
write_claims [] claims = claims
write_claims ((k, v) ∷ custom) claims = write_claims custom (insert k v claims)

unfoldable pub issue_claims :
    {J : Type 0} → (Text → J) → (ℤ → J) → Text → Text → ℤ → ℤ → List (Text × J) → List (Text × J)
issue_claims string number issuer subject expires now custom =
    let registered =
      (codes "sub", string subject)
      ∷ (codes "exp", number expires)
      ∷ (codes "iat", number now)
      ∷ [] in
    write_claims custom
      (if is_empty issuer then registered else insert (codes "iss") (string issuer) registered)
