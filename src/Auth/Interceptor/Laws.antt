-- ===== src/Auth/Interceptor/Laws.antt =====
-- Chains of the interceptors of auth/interceptor: who reaches the handler, and who the transport.
use zara_rpc.Common.{
  ◌≡◌, refl, Bool, false, Option, none, some, [], ◌∷◌, arith, Bool-cases, Option-cases, inl, inr,
  if◌then◌else◌,
}
use zara_rpc.Common.Result.{Result, ok, err}
use zara_rpc.Codes.{Code, code_unauthenticated, code_permission_denied}
use zara_rpc.Middleware.{chain_interceptors}
use zara_rpc.Auth.Rbac.{Ctx}
use zara_rpc.Auth.Interceptor.{
  Call, JwtValidator, validate, mark_public, with_claims, UnaryFunc, public_unary, jwt_unary,
  rbac_unary, transport, context, failure, wrap_jwt, wrap_rbac,
}

-- The call with the claims of its token, if it has a valid one.
unfoldable pub authenticate : JwtValidator → Call → Option Call
authenticate v call = elim (v.extract call) [
  | none ↦ none
  | some token ↦ elim (validate v token) [
    | none ↦ none
    | some claims ↦ some (with_claims call claims)
  ]
]

-- The policy for a call: the call that the handler gets, or the code of the rejection.
unfoldable pub admit : (Call → Bool) → JwtValidator → (Ctx → Bool) → Call → Result Code Call
unfolding authenticate
admit is_public v is_authorized call =
    if is_public call
    then ok (mark_public call)
    else if call.is_public
    then ok call
    else elim (authenticate v call) [
      | none ↦ err code_unauthenticated
      | some call' ↦ if is_authorized call'.ctx then ok call' else err code_permission_denied
    ]

module _ {Req Resp : Type 0} where
  -- The handler behind an admission.
  abbrev pub handle : UnaryFunc Req Resp → Req → Result Code Call → Result Code Resp
  handle next req (ok call) = next call req
  handle next req (err e) = err e

  -- The chain of Public, JWT and RBAC admits a call exactly as the policy says: public calls reach
  -- the handler as they are, marked; others only with a valid token and if the authorizer accepts
  -- them with the claims of the token; all else fails, unauthenticated or denied, and the handler
  -- is not called.
  pub chain_interceptors-admit :
      (is_public : Call → Bool) (v : JwtValidator) (is_authorized : Ctx → Bool)
      (next : UnaryFunc Req Resp) (call : Call) (req : Req)
      → chain_interceptors
          (public_unary is_public ∷ jwt_unary v ∷ rbac_unary is_authorized ∷ [])
          next
          call
          req
        ≡ handle next req (admit is_public v is_authorized call)
  unfolding chain_interceptors public_unary jwt_unary rbac_unary admit authenticate
  chain_interceptors-admit is_public v is_authorized next call req =
      elim (Bool-cases (is_public call)) [
        | inl public ↦ rw public refl
        | inr other ↦ elim (Bool-cases call.is_public) [
          | inl public ↦ ground arith
          | inr private ↦ elim (Option-cases (v.extract call)) [
            | inl no_token ↦ ground arith
            | inr (token, e) ↦ elim (Option-cases (validate v token)) [
              | inl invalid ↦ ground arith
              | inr (claims, valid) ↦ ground arith
            ]
          ]
        ]
      ]

-- For a call that is not public and has a valid token: in a stream chain with the interceptor for
-- tokens in front of the one for policies, the
-- authorizer sees the context of the transport, without the claims of the token, so a valid token
-- changes no decision.
pub chain_interceptors-wrap_jwt :
    (v : JwtValidator) (is_authorized : Ctx → Bool) (call call' : Call)
    → call.is_public ≡ false
    → authenticate v call ≡ some call'
    → failure (chain_interceptors (wrap_jwt v ∷ wrap_rbac is_authorized ∷ []) (transport call))
      ≡ (if is_authorized call.ctx then none else some code_permission_denied)
unfolding chain_interceptors wrap_jwt wrap_rbac failure context authenticate
chain_interceptors-wrap_jwt v is_authorized call call' private e =
    elim (Option-cases (v.extract call)) [
      | inl no_token ↦ ground arith
      | inr (token, t) ↦ elim (Option-cases (validate v token)) [
        | inl invalid ↦ ground arith
        | inr (claims, valid) ↦ ground arith
      ]
    ]

-- What stops a stream of a call.
unfoldable pub stream_failure : JwtValidator → (Ctx → Bool) → Call → Option Code
unfolding authenticate
stream_failure v is_authorized call = if call.is_public then none else elim (authenticate v call) [
  | none ↦ some (if is_authorized call.ctx then code_unauthenticated else code_permission_denied)
  | some call' ↦ if is_authorized call'.ctx then none else some code_permission_denied
]

-- In the opposite order the authorizer decides by the claims of the token. A stream without a valid
-- token fails: as unauthenticated, or as denied if the authorizer rejects its bare context.
pub chain_interceptors-wrap_rbac :
    (v : JwtValidator) (is_authorized : Ctx → Bool) (call : Call)
    → failure (chain_interceptors (wrap_rbac is_authorized ∷ wrap_jwt v ∷ []) (transport call))
      ≡ stream_failure v is_authorized call
unfolding chain_interceptors wrap_jwt wrap_rbac failure context authenticate stream_failure
chain_interceptors-wrap_rbac v is_authorized call = elim (Bool-cases call.is_public) [
  | inl public ↦ ground arith
  | inr private ↦ elim (Option-cases (v.extract call)) [
    | inl no_token ↦ ground arith
    | inr (token, e) ↦ elim (Option-cases (validate v token)) [
      | inl invalid ↦ ground arith
      | inr (claims, valid) ↦ ground arith
    ]
  ]
]
