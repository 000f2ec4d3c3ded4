-- ===== src/Auth/Jwt/Laws.antt =====
-- The laws of tokens and claims of auth/jwt.
use zara_rpc.Common.{
  ltb_iff, subst, ◌<◌, ◌≡◌, ◌≢◌, refl, ap, ◌∙◌, true, false, Option, none, some, List, [], ◌∷◌,
  Text, codes, text_eq, text_eq_iff, is_empty, any, lookup, drop, length, length-drop, ltb,
  has_prefix, arith, Bool-cases, inl, inr, if◌then◌else◌, ◌>>=◌, ◌&&◌,
}
use zara_rpc.Auth.Rbac.{Claims, ClaimValue, claim_equals, claim_is, string_is}
use zara_rpc.Auth.Jwt.{
  TokenSource, from_session, default_token_extractor, is_registered_claim, with_claim,
  custom_claims, strings_of, roles_of, has_role,
}

strings_of-string_is :
    (xs : List (Option Text)) (role : Text)
    → any (λ r. text_eq r role) (strings_of xs) ≡ any (string_is role) xs
strings_of-string_is [] role = refl
strings_of-string_is (none ∷ xs) role = strings_of-string_is xs role
strings_of-string_is (some s ∷ xs) role = ground (arith, strings_of-string_is xs role)

roles_of-claim_is :
    (o : Option ClaimValue) (role : Text) → any (λ r. text_eq r role) (roles_of o) ≡ claim_is role o
roles_of-claim_is none role = refl
roles_of-claim_is (some (ClaimValue.string t)) role = ground arith
roles_of-claim_is (some (ClaimValue.array xs)) role = strings_of-string_is xs role
roles_of-claim_is (some ClaimValue.other) role = refl

-- A caller has a role exactly if a policy that asks for this value of the claim "role" matches.
pub has_role-claim_equals :
    (claims : Claims) (role : Text) → has_role claims role ≡ claim_equals claims (codes "role") role
unfolding has_role claim_equals
has_role-claim_equals claims role = roles_of-claim_is (lookup (codes "role") claims.custom) role

from_session-filled : (o : Option Text) (t : Text) → from_session o ≡ some t → t ≢ []
from_session-filled none t h e = cc
from_session-filled (some []) t h e = cc
from_session-filled (some (c ∷ v)) t h e = cc (h, e)

query-filled : (q t : Text) → is_empty q ≡ false → some q ≡ some t → t ≢ []
query-filled [] t e h z = cc
query-filled (c ∷ q) t e h z = cc (h, z)

bearer-filled : (a t : Text) → ltb 7 (length a) ≡ true → some (drop 7 a) ≡ some t → t ≢ []
bearer-filled a t long h e =
    let same : drop 7 a ≡ t = ground arith in
    let none_left : length (drop 7 a) ≡ 0 = ap length (same ∙ e) in
    let lt : 7 < length a = (ltb_iff 7 (length a)).0 long in
    omega (arith, none_left, length-drop 7 a, lt)

-- A token that is extracted is not empty.
pub default_token_extractor-filled :
    (r : TokenSource) (t : Text) → default_token_extractor r ≡ some t → t ≢ []
unfolding default_token_extractor
default_token_extractor-filled r t h =
    elim (Bool-cases
      (ltb 7 (length r.authorization) && has_prefix r.authorization (codes "Bearer "))) [
        | inl bearer ↦
            bearer-filled r.authorization t (ground (arith, bearer))
              (rw (default_token_extractor, bearer) at h)
        | inr other ↦ elim (Bool-cases (is_empty r.query_token)) [
          | inl no_query ↦
              from_session-filled r.session t (rw (default_token_extractor, other, no_query) at h)
          | inr query ↦
              query-filled r.query_token t query (rw (default_token_extractor, other, query) at h)
        ]
      ]

with_claim-eq-some :
    (k : Text) (o : Option ClaimValue) (rest : Option (List (Text × ClaimValue)))
    (custom : List (Text × ClaimValue))
    → with_claim k o rest ≡ some custom
    → (v : ClaimValue) × (c : List (Text × ClaimValue)) × (o ≡ some v)
      × (rest ≡ some c)
      × (custom ≡ (k, v) ∷ c)
with_claim-eq-some k none rest custom h = absurd cc
with_claim-eq-some k (some v) none custom h = absurd cc
with_claim-eq-some k (some v) (some c) custom h = (v, c, refl, refl, ground arith)

-- What a lookup of a claim must give.
wanted : (Text → Option ClaimValue) → List (Text × Text) → Text → Option ClaimValue
wanted decode m name =
    if is_registered_claim name then none else (lookup name m >>= λ raw. decode raw)

lookup-with_claim :
    (decode : Text → Option ClaimValue) (k name raw : Text) (v : ClaimValue)
    (m : List (Text × Text)) (c : List (Text × ClaimValue))
    → is_registered_claim k ≡ false
    → decode raw ≡ some v
    → lookup name c ≡ wanted decode m name
    → lookup name ((k, v) ∷ c) ≡ wanted decode ((k, raw) ∷ m) name
unfolding wanted
lookup-with_claim decode k name raw v m c e d ih = elim (Bool-cases (text_eq k name)) [
  | inl same ↦
      let r : is_registered_claim name ≡ false =
        subst (λ t. is_registered_claim t ≡ false) ((text_eq_iff k name).0 same) e in
      rw (same, r, d) refl
  | inr other ↦ rw other ih
]

-- The custom claims are exactly the decoded values of the names that are not registered: a token
-- cannot shadow a registered claim.
pub lookup-custom_claims :
    (decode : Text → Option ClaimValue) (m : List (Text × Text)) (custom : List (Text × ClaimValue))
    (name : Text)
    → custom_claims decode m ≡ some custom
    → lookup name custom
      ≡ (if is_registered_claim name then none else (lookup name m >>= λ raw. decode raw))
unfolding custom_claims wanted
lookup-custom_claims decode [] custom name h =
    let empty : [] ≡ custom = ground arith in rw (← empty) (ground arith)
lookup-custom_claims decode ((k, raw) ∷ m) custom name h =
    elim (Bool-cases (is_registered_claim k)) [
      | inl registered ↦
          let ih =
            lookup-custom_claims decode m custom name (rw (custom_claims, registered) at h) in
          elim (Bool-cases (text_eq k name)) [
            | inl same ↦
                let r : is_registered_claim name ≡ true =
                  subst (λ t. is_registered_claim t ≡ true) ((text_eq_iff k name).0 same)
                    registered in
                rw r (ih ∙ rw r refl)
            | inr other ↦ rw other ih
          ]
      | inr custom_name ↦
          let (v, c, decoded, rest, whole) =
            with_claim-eq-some k (decode raw) (custom_claims decode m) custom
              (rw (custom_claims, custom_name) at h) in
          rw whole (
            lookup-with_claim decode k name raw v m c custom_name decoded
              (lookup-custom_claims decode m c name rest))
    ]
