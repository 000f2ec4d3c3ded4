-- ===== src/Examples/Tokens.antt =====
-- Validators of tokens at concrete inputs.
use zara_rpc.Common.{refl, pos, [], ◌∷◌, codes, inr}
use zara_rpc.Auth.Jwt.Keys.{
  Opaque, rsa, rs256, Validator, with_issuer, with_leeway, new_jwt_validator_with_key,
  apply_jwt_options, apply_option, key_for,
}
use zara_rpc.Auth.Jwt.Keys.Laws.{Fits, key_for-built}

abbrev units : Opaque
units = record { RsaKey = Unit {0}; EcdsaKey = Unit {0}; OtherKey = Unit {0}; Extractor = Unit {0} }

abbrev rsa_validator : Validator units
rsa_validator = record {
  key = rsa tt;
  method = rs256;
  issuer = codes "zara";
  audience = [];
  leeway = pos 5;
  extract = tt;
}

key_for-built_example : Fits {K = units} rs256 (rsa tt)
unfolding new_jwt_validator_with_key apply_jwt_options apply_option key_for
key_for-built_example =
    key_for-built tt (with_issuer (codes "zara") ∷ with_leeway (pos 5) ∷ []) rsa_validator
      (inr (rsa tt, refl)) rs256 (rsa tt) refl
