-- ===== src/Kernel/ServeLaws.antt =====
-- kernel/handler.go: a request that an interceptor denies gets an error, and no handler runs for it.
use zara_rpc.Common.{◌≡◌, refl, ◌∙◌, Option, none, some, List, [], ◌∷◌, ◌⊎◌, inl, inr}
use zara_rpc.Common.Result.{Result, ok, err, Result-cases}
use zara_rpc.Middleware.{chain_interceptors}
use zara_rpc.Kernel.Operation.{
  StreamType, unary_type, server_type, client_type, bidi_type, Types, UnaryFunc, Operation,
  new_request,
}
use zara_rpc.Kernel.Serve.{
  Library, Exchange, Served, wrote_error, unary_chain, authorize_stream, serve_unary, guarded,
  body_error, serve_as, serve,
}

module _ (T : Types) where
  -- The interceptor denies the context: whatever comes behind it and whatever the request is.
  abbrev pub Denies : T.Ctx → (UnaryFunc T → UnaryFunc T) → Type 0
  Denies ctx i = (e : T.Error) × ((next : UnaryFunc T) (req : T.Request) → i next ctx req ≡ err e)

  -- The interceptor hands the call on, with another context or the same.
  abbrev pub HandsOn : T.Ctx → (UnaryFunc T → UnaryFunc T) → T.Ctx → Type 0
  HandsOn ctx i out = (next : UnaryFunc T) (req : T.Request) → i next ctx req ≡ next out req

  -- One interceptor denies the context that those in front of it hand on.
  abbrev pub Denied : T.Ctx → List (UnaryFunc T → UnaryFunc T) → Type 0
  Denied ctx [] = ⊥
  Denied ctx (i ∷ is) = Denies ctx i ⊎ ((out : T.Ctx) × HandsOn ctx i out × Denied out is)

  -- A denied call fails the same way whatever the handler.
  chain_interceptors-Denied :
      (ctx : T.Ctx) (is : List (UnaryFunc T → UnaryFunc T))
      → Denied ctx is
      → (e : T.Error) × ((next : UnaryFunc T) (req : T.Request)
          → chain_interceptors is next ctx req ≡ err e)
  unfolding chain_interceptors
  chain_interceptors-Denied ctx [] h = absurd h
  chain_interceptors-Denied ctx (i ∷ is) (inl (e, denies)) =
      (e, λ next req. denies (chain_interceptors is next) req)
  chain_interceptors-Denied ctx (i ∷ is) (inr (out, on, h)) =
      let (e, rest) = chain_interceptors-Denied out is h in
      (e, λ next req. on (chain_interceptors is next) req ∙ rest next req)

  -- The handlers of an operation.
  pub record Handlers : Type 0 where
    pub unary : UnaryFunc T
    pub server : T.Ctx → T.Request → T.Stream → Option T.Error
    pub client : T.Ctx → T.Stream → Result T.Error T.Response
    pub bidi : T.Ctx → T.Stream → Option T.Error

  -- The operation with these handlers.
  abbrev pub with_handlers : Operation T → Handlers → Operation T
  with_handlers op h = record op {
    unary = some h.unary;
    server_stream = some h.server;
    client_stream = some h.client;
    bidi_stream = some h.bidi;
  }

module _ {T : Types} (R : Library T) where
  authorize_stream-Denied :
      (ctx : T.Ctx) (is : List (UnaryFunc T → UnaryFunc T))
      → Denied T ctx is
      → (e : T.Error) × (authorize_stream R is ctx ≡ some e)
  unfolding authorize_stream
  authorize_stream-Denied ctx [] h = absurd h
  authorize_stream-Denied ctx (i ∷ is) h =
      let (e, fails) = chain_interceptors-Denied T ctx (i ∷ is) h in
      (e, rw (authorize_stream, fails (λ c r. ok R.no_response) R.no_request) refl)

  -- The same error whatever the handlers.
  abbrev pub AlwaysFails : (Handlers T → Served T) → Type 0
  AlwaysFails f = (e : T.Error) × ((h : Handlers T) → f h ≡ wrote_error e)

  guarded_fails :
      (o : Option T.Error) (f : Handlers T → Served T)
      → AlwaysFails f
      → AlwaysFails (λ h. guarded R o (f h))
  guarded_fails none f fails = fails
  guarded_fails (some e) f fails = (e, λ h. refl)

  guarded_denied :
      (o : Option T.Error) (f : Handlers T → Served T) (e : T.Error)
      → o ≡ some e
      → AlwaysFails (λ h. guarded R o (f h))
  guarded_denied none f e denied = cc
  guarded_denied (some d) f e denied = (d, λ h. refl)

  serve_unary-Denied :
      (op : Operation T) (ctx : T.Ctx)
      → ((req : T.Request) → Denied T (R.set_request ctx req) op.interceptors)
      → AlwaysFails (λ h. serve_unary R (with_handlers T op h) ctx)
  unfolding serve_unary unary_chain new_request
  serve_unary-Denied op ctx denied =
      elim (Result-cases (new_request R.populate R.with_meta op ctx)) [
        | inl (req, made) ↦
            let (e, fails) =
              chain_interceptors-Denied T (R.set_request ctx req) op.interceptors (denied req) in
            (e, λ h. rw (serve_unary, made) (rw (unary_chain, fails h.unary req) refl))
        | inr (e, broken) ↦ (e, λ h. rw (serve_unary, broken) refl)
      ]

  serve_as-Denied :
      (t : StreamType) (op : Operation T) (x : Exchange T) (ctx : T.Ctx)
      → Denied T ctx op.interceptors
      → ((req : T.Request) → Denied T (R.set_request ctx req) op.interceptors)
      → AlwaysFails (λ h. serve_as R t op.interceptors (with_handlers T op h) x ctx)
  unfolding serve_as
  serve_as-Denied unary_type op x ctx denied still =
      guarded_fails (body_error R x) _ (serve_unary-Denied op ctx still)
  serve_as-Denied server_type op x ctx denied still =
      let (e, auth) = authorize_stream-Denied ctx op.interceptors denied in
      guarded_fails (body_error R x) _ (guarded_denied _ _ e auth)
  serve_as-Denied client_type op x ctx denied still =
      let (e, auth) = authorize_stream-Denied ctx op.interceptors denied in
      guarded_denied _ _ e auth
  serve_as-Denied bidi_type op x ctx denied still =
      let (e, auth) = authorize_stream-Denied ctx op.interceptors denied in
      guarded_denied _ _ e auth

  -- A request that an interceptor of the operation denies, with its own context and with the request
  -- attached, is answered with an error response whatever the streaming mode, and with the same one
  -- whatever the handlers of the operation are.
  pub serve-Denied :
      (op : Operation T) (x : Exchange T) (ctx : T.Ctx)
      → Denied T ctx op.interceptors
      → ((req : T.Request) → Denied T (R.set_request ctx req) op.interceptors)
      → (e : T.Error) × ((h : Handlers T) → serve R (with_handlers T op h) x ctx ≡ wrote_error e)
  unfolding serve
  serve-Denied op x ctx denied still = serve_as-Denied op.stream_type op x ctx denied still
