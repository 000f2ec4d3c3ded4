-- ===== src/Runtime/Requests.antt =====
-- runtime/request.go, runtime/response.go, runtime/handler_router.go, and the accessors of
-- metadata/metadata.go: what a handler reads of a request, and which handler a listener calls. A
-- context is the request metadata that were attached to it, last first; its other values and
-- net/http's handlers are opaque.
use zara_rpc.Common.{
  ◌≡◌, refl, ℕ, Bool, true, false, ◌&&◌, Option, none, some, List, [], ◌∷◌, Text, codes, has_prefix,
  lookup, if◌then◌else◌, ◌==◌,
}
use zara_rpc.Status.Headers.{Header, get}
use zara_rpc.Kernel.Operation.{Spec}
use zara_rpc.Runtime.Ctx.{RequestMeta, empty_meta, empty_spec}

-- `WithRequestMeta` and `RequestMetaFromContext` of package metadata.
abbrev pub MetaContext : Type 0
MetaContext = List RequestMeta

unfoldable pub meta_from_context : MetaContext → RequestMeta
meta_from_context [] = empty_meta
meta_from_context (meta ∷ ctx) = meta

abbrev pub or_new : Option Header → Header
or_new none = []
or_new (some h) = h

-- `HeaderFromContext`, `QueryFromContext` and `CookieFromContext`
unfoldable pub header_from_context : MetaContext → Header
unfolding meta_from_context
header_from_context ctx = or_new (meta_from_context ctx).header

unfoldable pub query_from_context : MetaContext → Header
unfolding meta_from_context
query_from_context ctx = or_new (meta_from_context ctx).query

unfoldable pub cookie_from_context : MetaContext → Text → Option Text
unfolding meta_from_context
cookie_from_context ctx name = lookup name (meta_from_context ctx).cookies

-- `Request`; a peer is its address and its protocol.
pub record Request (M : Type 0) : Type 0 where
  pub msg : M
  pub header : Header
  pub spec : Spec
  pub peer : Text × Text
  pub meta : RequestMeta

module _ {M : Type 0} where
  -- `NewRequest`
  unfoldable pub new_request : M → Request M
  new_request m = record {
    msg = m;
    header = [];
    spec = empty_spec;
    peer = ([], []);
    meta = empty_meta;
  }

  -- `NewRequestWithMeta`, whose metadata are the header alone.
  unfoldable pub new_request_with_meta : M → Header → Spec → Text × Text → Request M
  new_request_with_meta m h spec peer = record {
    msg = m;
    header = h;
    spec = spec;
    peer = peer;
    meta = empty_meta;
  }

  -- `Request.WithRequestMeta`
  unfoldable pub with_request_meta : Request M → RequestMeta → Request M
  with_request_meta r meta = record r { meta = meta }

  -- `Request.Cookie`
  unfoldable pub request_cookie : Request M → Text → Option Text
  request_cookie r name = lookup name r.meta.cookies

  -- A request that a generated builder makes has no cookie, whatever the request had that came in:
  -- it has one only if `WithRequestMeta` is called on it, and then those of the context.
  pub request_cookie-built :
      (m : M) (h : Header) (spec : Spec) (peer : Text × Text) (ctx : MetaContext) (name : Text)
      → (request_cookie (new_request_with_meta m h spec peer) name ≡ none)
        × (request_cookie
              (with_request_meta (new_request_with_meta m h spec peer) (meta_from_context ctx))
              name
            ≡ cookie_from_context ctx name)
  unfolding request_cookie new_request_with_meta with_request_meta cookie_from_context
  request_cookie-built m h spec peer ctx name = (refl, refl)

-- `Response`, whose maps are made when they are first asked for.
pub record Response (M : Type 0) : Type 0 where
  pub msg : M
  pub header : Option Header
  pub trailer : Option Header

-- `Header`, with what is written to the map it returns; and `HeaderSet`.
unfoldable pub write_header : {M : Type 0} → (Header → Header) → Response M → Response M
write_header f r = record r { header = some (f (or_new r.header)) }

unfoldable pub header_set : {M : Type 0} → Response M → Bool
header_set r = elim r.header [ none ↦ false | some h ↦ true ]

-- `HandlerRouter`; `none` is a nil handler.
pub record HandlerRouter (H : Type 0) : Type 0 where
  pub grpc : Option H
  pub mux : H

-- `NewHandlerRouter` with the handlers of its `WithGRPC` options.
unfoldable pub new_handler_router : {H : Type 0} → H → List H → HandlerRouter H
new_handler_router mux [] = record { grpc = none; mux = mux }
new_handler_router mux (h ∷ []) = record { grpc = some h; mux = mux }
new_handler_router mux (h ∷ i ∷ hs) = new_handler_router mux (i ∷ hs)

-- `HandlerRouter.ServeHTTP`: the handler that serves a request of a protocol's major version.
unfoldable pub serve_router : {H : Type 0} → HandlerRouter H → ℕ → Header → H
unfolding get
serve_router r major header = elim r.grpc [
  | none ↦ r.mux
  | some h ↦
      if major == 2 && has_prefix (get (codes "Content-Type") header) (codes "application/grpc")
      then h
      else r.mux
]
