-- ===== src/Auth/Jwt/Keys/Laws.antt =====
-- auth/jwt/jwt.go and auth/jwt/issuer.go: keys and signing methods go together, and which claims an
-- issued token has.
use zara_rpc.Common.{
  ◌⊎◌, subst, ◌≡◌, refl, sym, ◌∙◌, true, false, some, List, [], ◌∷◌, Text, text_eq, is_empty,
  insert, lookup, lookup-insert, ℤ, Bool-cases, inl, inr, IsUnique, text_eq_iff, IsFresh,
}
use zara_rpc.Common.Result.{ok}
use zara_rpc.Auth.Jwt.Keys.{
  Opaque, Key, secret, rsa, ecdsa, other_key, SigningMethod, hs256, rs256, es256, unknown_method,
  method_eq, Validator, JwtOption, with_issuer, with_audience, with_leeway, with_token_extractor,
  apply_option, apply_jwt_options, bare_validator, new_jwt_validator, new_jwt_validator_with_key,
  key_for, write_claims, issue_claims,
}

method_eq_sound : (m n : SigningMethod) → method_eq m n ≡ true → m ≡ n
method_eq_sound hs256 hs256 h = refl
method_eq_sound rs256 rs256 h = refl
method_eq_sound es256 es256 h = refl
method_eq_sound unknown_method unknown_method h = refl
method_eq_sound hs256 rs256 h = absurd cc
method_eq_sound hs256 es256 h = absurd cc
method_eq_sound hs256 unknown_method h = absurd cc
method_eq_sound rs256 hs256 h = absurd cc
method_eq_sound rs256 es256 h = absurd cc
method_eq_sound rs256 unknown_method h = absurd cc
method_eq_sound es256 hs256 h = absurd cc
method_eq_sound es256 rs256 h = absurd cc
method_eq_sound es256 unknown_method h = absurd cc
method_eq_sound unknown_method hs256 h = absurd cc
method_eq_sound unknown_method rs256 h = absurd cc
method_eq_sound unknown_method es256 h = absurd cc

module _ {K : Opaque} where
  -- The keys that a signing method is made for; a secret is not empty.
  abbrev pub Fits : SigningMethod → Key K → Type 0
  Fits hs256 (secret s) = is_empty s ≡ false
  Fits rs256 (rsa k) = Unit
  Fits es256 (ecdsa k) = Unit
  Fits _ _ = ⊥

  apply_option-kept :
      (o : JwtOption K) (v : Validator K)
      → ((apply_option o v).key ≡ v.key) × ((apply_option o v).method ≡ v.method)
  unfolding apply_option
  apply_option-kept (with_issuer iss) v = (refl, refl)
  apply_option-kept (with_audience aud) v = (refl, refl)
  apply_option-kept (with_leeway d) v = (refl, refl)
  apply_option-kept (with_token_extractor fn) v = (refl, refl)

  apply_jwt_options-kept :
      (os : List (JwtOption K)) (v : Validator K)
      → ((apply_jwt_options os v).key ≡ v.key) × ((apply_jwt_options os v).method ≡ v.method)
  unfolding apply_jwt_options
  apply_jwt_options-kept [] v = (refl, refl)
  apply_jwt_options-kept (o ∷ os) v =
      let (k, m) = apply_jwt_options-kept os (apply_option o v) in
      let (k', m') = apply_option-kept o v in (k ∙ k', m ∙ m')

  Fits-kept :
      (os : List (JwtOption K)) (v : Validator K)
      → Fits v.method v.key
      → Fits (apply_jwt_options os v).method (apply_jwt_options os v).key
  Fits-kept os v h =
      let (k, m) = apply_jwt_options-kept os v in
      subst (λ n. Fits n (apply_jwt_options os v).key) (sym m) (subst (Fits v.method) (sym k) h)

  key_for-Fits :
      (v : Validator K) (m : SigningMethod) (k : Key K)
      → Fits v.method v.key
      → key_for v m ≡ some k
      → Fits m k
  unfolding key_for
  key_for-Fits v m k fit h = elim (Bool-cases (method_eq m v.method)) [
    | inl same ↦
        let e : v.key ≡ k = cc (rw same at h) in
        subst (λ n. Fits n k) (sym (method_eq_sound m v.method same)) (subst (Fits v.method) e fit)
    | inr other ↦ absurd (cc (rw other at h))
  ]

  new_jwt_validator-Fits :
      (extract : K.Extractor) (s : Text) (opts : List (JwtOption K)) (v : Validator K)
      → new_jwt_validator extract s opts ≡ ok v
      → Fits v.method v.key
  unfolding new_jwt_validator
  new_jwt_validator-Fits extract s opts v h = elim (Bool-cases (is_empty s)) [
    | inl empty ↦ absurd (cc (rw empty at h))
    | inr filled ↦
        let e : apply_jwt_options opts (bare_validator (secret s) hs256 extract) ≡ v =
          cc (rw filled at h) in
        subst (λ (u : Validator K). Fits u.method u.key) e
          (Fits-kept opts (bare_validator (secret s) hs256 extract) filled)
  ]

  new_jwt_validator_with_key-Fits :
      (extract : K.Extractor) (key : Key K) (opts : List (JwtOption K)) (v : Validator K)
      → new_jwt_validator_with_key extract key opts ≡ ok v
      → Fits v.method v.key
  unfolding new_jwt_validator_with_key
  new_jwt_validator_with_key-Fits extract (secret s) opts v h = absurd cc
  new_jwt_validator_with_key-Fits extract (other_key k) opts v h = absurd cc
  new_jwt_validator_with_key-Fits extract (rsa k) opts v h =
      let e : apply_jwt_options opts (bare_validator (rsa k) rs256 extract) ≡ v = cc in
      subst (λ (u : Validator K). Fits u.method u.key) e
        (Fits-kept opts (bare_validator (rsa k) rs256 extract) tt)
  new_jwt_validator_with_key-Fits extract (ecdsa k) opts v h =
      let e : apply_jwt_options opts (bare_validator (ecdsa k) es256 extract) ≡ v = cc in
      subst (λ (u : Validator K). Fits u.method u.key) e
        (Fits-kept opts (bare_validator (ecdsa k) es256 extract) tt)

  -- Whatever the options, a validator that is built gives a token only a key that the token's
  -- signing method is made for: a token that names HMAC is never checked with a public key as its
  -- secret, and a secret is not empty.
  pub key_for-built :
      (extract : K.Extractor) (opts : List (JwtOption K)) (v : Validator K)
      → (((s : Text) × (new_jwt_validator extract s opts ≡ ok v))
          ⊎ ((key : Key K) × (new_jwt_validator_with_key extract key opts ≡ ok v)))
      → (m : SigningMethod) (k : Key K) → key_for v m ≡ some k
      → Fits m k
  key_for-built extract opts v (inl (s, h)) m k e =
      key_for-Fits v m k (new_jwt_validator-Fits extract s opts v h) e
  key_for-built extract opts v (inr (key, h)) m k e =
      key_for-Fits v m k (new_jwt_validator_with_key-Fits extract key opts v h) e

write_claims-other :
    {J : Type 0} (custom claims : List (Text × J)) (k : Text)
    → IsFresh k custom
    → lookup k (write_claims custom claims) ≡ lookup k claims
write_claims-other [] claims k h = refl
write_claims-other ((j, v) ∷ custom) claims k (h, hs) =
    write_claims-other custom (insert j v claims) k hs ∙ rw (lookup-insert j k v claims, h) refl

write_claims-custom :
    {J : Type 0} (custom claims : List (Text × J)) (k : Text) (v : J)
    → IsUnique custom
    → lookup k custom ≡ some v
    → lookup k (write_claims custom claims) ≡ some v
write_claims-custom [] claims k v u h = absurd cc
write_claims-custom ((j, w) ∷ custom) claims k v (fresh, u) h = elim (Bool-cases (text_eq j k)) [
  | inl same ↦
      let at : j ≡ k = (text_eq_iff j k).0 same in
      write_claims-other custom (insert j w claims) k (subst (λ i. IsFresh i custom) at fresh)
      ∙ rw (lookup-insert j k w claims, same) (rw same at h)
  | inr other ↦ write_claims-custom custom (insert j w claims) k v u (rw other at h)
]

-- A custom claim is signed whatever its name: it replaces a registered claim.
pub issue_claims-custom :
    {J : Type 0} (string : Text → J) (number : ℤ → J) (issuer subject : Text) (expires now : ℤ)
    (custom : List (Text × J)) (k : Text) (v : J)
    → IsUnique custom
    → lookup k custom ≡ some v
    → lookup k (issue_claims string number issuer subject expires now custom) ≡ some v
unfolding issue_claims
issue_claims-custom string number issuer subject expires now custom k v u h =
    write_claims-custom custom _ k v u h
