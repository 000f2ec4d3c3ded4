-- ===== src/Auth/Interceptor.antt =====
-- auth/interceptor: the interceptors that mark calls as public, authenticate and authorize them,
-- for unary calls and for streams. An error is its code. A handler is a function from the
-- call and the request to its result.
pub mod Laws
use zara_rpc.Common.{
  ℕ, Bool, true, false, not, ◌&&◌, ◌||◌, Option, none, some, List, [], ◌∷◌, Text, text_eq, is_empty,
  any, if◌then◌else◌,
}
use zara_rpc.Common.Result.{Result, ok, err}
use zara_rpc.Codes.{Code, code_unauthenticated, code_permission_denied}
use zara_rpc.Auth.Rbac.{Claims, Ctx}

-- A `runtime.Ctx` with its values: the claims in `ctx`, and the mark of `publicKey`.
pub record Call : Type 0 where
  pub ctx : Ctx
  pub is_public : Bool

-- `Claims` with the registered claims that `Validate` reads.
pub record TokenClaims : Type 0 where
  pub claims : Claims
  pub issuer : Text
  pub audience : List Text

-- `JWTValidator`. `parse` is jwt.ParseWithClaims with the key and the method of the validator: the
-- claims, and whether the token is valid.
pub record JwtValidator : Type 0 where
  pub parse : Text → Option (TokenClaims × Bool)
  pub issuer : Text
  pub audience : Text
  pub extract : Call → Option Text

abbrev pub audience_contains : List Text → Text → Bool
audience_contains aud want = any (λ a. text_eq a want) aud

unfoldable pub check_claims : JwtValidator → TokenClaims → Bool → Option Claims
check_claims v t valid =
    if not valid
    then none
    else if not (is_empty v.issuer) && not (text_eq t.issuer v.issuer)
    then none
    else if not (is_empty v.audience) && not (audience_contains t.audience v.audience)
    then none
    else some t.claims

-- `Validate`
unfoldable pub validate : JwtValidator → Text → Option Claims
unfolding check_claims
validate v token = elim (v.parse token) [ none ↦ none | some (t, valid) ↦ check_claims v t valid ]

-- `ctx.WithValue(publicKey{}, true)`
abbrev pub mark_public : Call → Call
mark_public call = record { ctx = call.ctx; is_public = true }

abbrev pub with_claims : Call → Claims → Call
with_claims call claims = record {
  ctx = record {
    claims = some claims;
    peer_addr = call.ctx.peer_addr;
    header = call.ctx.header;
    procedure = call.ctx.procedure;
  };
  is_public = call.is_public;
}

abbrev pub UnaryFunc : Type 0 → Type 0 → Type 0
UnaryFunc Req Resp = Call → Req → Result Code Resp

module _ {Req Resp : Type 0} where
  -- `Public`
  unfoldable pub public_unary : (Call → Bool) → UnaryFunc Req Resp → UnaryFunc Req Resp
  public_unary is_public next call req =
      next (if is_public call then mark_public call else call) req

  -- `JWT`
  unfoldable pub jwt_unary : JwtValidator → UnaryFunc Req Resp → UnaryFunc Req Resp
  jwt_unary v next call req = if call.is_public then next call req else elim (v.extract call) [
    | none ↦ err code_unauthenticated
    | some token ↦ elim (validate v token) [
      | none ↦ err code_unauthenticated
      | some claims ↦ next (with_claims call claims) req
    ]
  ]

  -- `RBAC`, for an authorizer given by its `IsAuthorized`.
  unfoldable pub rbac_unary : (Ctx → Bool) → UnaryFunc Req Resp → UnaryFunc Req Resp
  rbac_unary is_authorized next call req =
      if call.is_public
      then next call req
      else if not (is_authorized call.ctx)
      then err code_permission_denied
      else next call req

-- The streams: the transport's own, `publicStream` and `claimsStream`, which replace the context,
-- and `errorStream`.
pub data Stream : Type 0 where
  transport : Call → Stream
  public_stream : Stream → Call → Stream
  claims_stream : Stream → Call → Stream
  error_stream : Call → Code → Stream

-- `Context`
unfoldable pub context : Stream → Call
context (transport call) = call
context (public_stream s call) = call
context (claims_stream s call) = call
context (error_stream call e) = call

-- The error with which `Send` and `Receive` fail before they reach the transport.
unfoldable pub failure : Stream → Option Code
failure (transport call) = none
failure (public_stream s call) = failure s
failure (claims_stream s call) = failure s
failure (error_stream call e) = some e

-- `PublicStream`
unfoldable pub wrap_public : (Call → Bool) → Stream → Stream
unfolding context
wrap_public is_public next =
    if is_public (context next) then public_stream next (mark_public (context next)) else next

-- `JWTStream`
unfoldable pub wrap_jwt : JwtValidator → Stream → Stream
unfolding context
wrap_jwt v next = if (context next).is_public then next else elim (v.extract (context next)) [
  | none ↦ error_stream (context next) code_unauthenticated
  | some token ↦ elim (validate v token) [
    | none ↦ error_stream (context next) code_unauthenticated
    | some claims ↦ claims_stream next (with_claims (context next) claims)
  ]
]

-- `RBACStream`
unfoldable pub wrap_rbac : (Ctx → Bool) → Stream → Stream
unfolding context
wrap_rbac is_authorized next =
    if (context next).is_public
    then next
    else if not (is_authorized (context next).ctx)
    then error_stream (context next) code_permission_denied
    else next
