-- ===== src/Runtime/Ctx.antt =====
-- runtime/ctx.go: the contexts of handlers. Copies of a `Ctx` share their state, which is in a store
-- under its address; a nil state is `none`. The wrapped context.Context is opaque.
use zara_rpc.Common.{
  ◌≡◌, refl, ℕ, suc, Bool, Option, none, some, List, [], ◌∷◌, Text, codes, text_eq, is_empty,
  lookup, if◌then◌else◌, ◌==◌, ==_refl,
}
use zara_rpc.Status.Headers.{Header}
use zara_rpc.Encoding.{Codec, codec_name}
use zara_rpc.Kernel.Operation.{Spec}

-- metadata.RequestMeta; a cookie is its name and its value, a nil map is `none`.
pub record RequestMeta : Type 0 where
  pub header : Option Header
  pub query : Option Header
  pub body : Text
  pub cookies : List (Text × Text)
  pub params : List (Text × Text)

-- `ctxState`; `A` is the type of payloads, and a peer is its address.
pub record CtxState (A : Type 0) : Type 0 where
  pub meta : RequestMeta
  pub codec : Option Codec
  pub protocol : Text
  pub spec : Spec
  pub peer : Text
  pub req : Option A
  pub resp : Option A

-- `Ctx`, over contexts of the type `K`.
pub record Ctx (K : Type 0) : Type 0 where
  pub ctx : K
  pub state : Option ℕ

pub record States (A : Type 0) : Type 0 where
  pub next : ℕ
  pub at : ℕ → CtxState A

abbrev pub empty_spec : Spec
empty_spec = record { procedure = []; method = []; path = []; rpc = [] }

abbrev pub empty_meta : RequestMeta
empty_meta = record { header = none; query = none; body = []; cookies = []; params = [] }

module _ {A : Type 0} where
  -- What a nil state reads as.
  abbrev pub empty_state : CtxState A
  empty_state = record {
    meta = empty_meta;
    codec = none;
    protocol = [];
    spec = empty_spec;
    peer = [];
    req = none;
    resp = none;
  }

  -- `NewCtx`
  unfoldable pub new_ctx :
      {K : Type 0} → K → RequestMeta → Option Codec → States A → Ctx K × States A
  new_ctx k meta codec s =
      let fresh : CtxState A = record {
        meta = meta;
        codec = codec;
        protocol = [];
        spec = empty_spec;
        peer = [];
        req = none;
        resp = none;
      } in
      (
        record { ctx = k; state = some s.next },
        record { next = suc s.next; at = λ q. if q == s.next then fresh else s.at q },
      )

-- `Header` and `Query`, with a new map for nil.
abbrev pub or_empty : Option Header → Header
or_empty none = []
or_empty (some h) = h

-- `Cookie`, `none` for http.ErrNoCookie
abbrev pub cookie : Text → List (Text × Text) → Option (Text × Text)
cookie name [] = none
cookie name ((n, v) ∷ cs) = if text_eq n name then some (n, v) else cookie name cs

-- `WithContext`, and `WithValue` for the context that context.WithValue makes
abbrev pub with_context : {K : Type 0} → K → Ctx K → Ctx K
with_context k c = record { ctx = k; state = c.state }

module _ {A K : Type 0} where
  -- The state behind a context.
  unfoldable pub state_of : States A → Ctx K → CtxState A
  state_of s c = elim c.state [ none ↦ empty_state | some p ↦ s.at p ]

  abbrev pub header_of : States A → Ctx K → Header
  header_of s c = or_empty (state_of s c).meta.header

  abbrev pub query_of : States A → Ctx K → Header
  query_of s c = or_empty (state_of s c).meta.query

  -- `Param`
  abbrev pub param_of : States A → Ctx K → Text → Option Text
  param_of s c name = lookup name (state_of s c).meta.params

  -- `CodecName`
  abbrev pub codec_name_of : States A → Ctx K → Text
  codec_name_of s c = elim (state_of s c).codec [ none ↦ [] | some codec ↦ codec_name codec ]

  abbrev pub is_json_codec : States A → Ctx K → Bool
  is_json_codec s c = text_eq (codec_name_of s c) (codes "application/json")

  abbrev pub is_protobuf_codec : States A → Ctx K → Bool
  is_protobuf_codec s c = text_eq (codec_name_of s c) (codes "application/protobuf")

  abbrev pub is_xml_codec : States A → Ctx K → Bool
  is_xml_codec s c = text_eq (codec_name_of s c) (codes "application/xml")

  -- `Protocol`
  abbrev pub protocol_of : States A → Ctx K → Text
  protocol_of s c =
      if is_empty (state_of s c).protocol then codes "unknown" else (state_of s c).protocol

  abbrev pub is_grpc : States A → Ctx K → Bool
  is_grpc s c = text_eq (protocol_of s c) (codes "grpc")

  -- A change of the shared state; nothing happens to a nil state.
  unfoldable pub update : (CtxState A → CtxState A) → Ctx K → States A → States A
  update f c s = elim c.state [
    | none ↦ s
    | some p ↦ record { next = s.next; at = λ q. if q == p then f (s.at p) else s.at q }
  ]

  -- `SetRequest` and `SetResponse`
  unfoldable pub set_request : A → Ctx K → States A → States A
  unfolding update
  set_request req = update (λ x. record x { req = some req })

  unfoldable pub set_response : A → Ctx K → States A → States A
  unfolding update
  set_response resp = update (λ x. record x { resp = some resp })

  -- `WithCodec`, `WithProtocol`, `WithSpec` and `WithPeer`: the context is the same one.
  abbrev pub with_codec : Codec → Ctx K → States A → States A
  with_codec codec = update (λ x. record x { codec = some codec })

  abbrev pub with_protocol : Text → Ctx K → States A → States A
  with_protocol protocol = update (λ x. record x { protocol = protocol })

  abbrev pub with_spec : Spec → Ctx K → States A → States A
  with_spec spec = update (λ x. record x { spec = spec })

  abbrev pub with_peer : Text → Ctx K → States A → States A
  with_peer peer = update (λ x. record x { peer = peer })

  -- A change through any copy with a state shows in all of them, whatever contexts they wrap.
  pub state_of-update :
      (f : CtxState A → CtxState A) (c : Ctx K) (k : K) (p : ℕ) (s : States A)
      → let shared : Ctx K = record { ctx = k; state = some p } in
        state_of (update f shared s) (with_context c.ctx shared) ≡ f (state_of s shared)
  unfolding state_of update
  state_of-update f c k p s = rw (==_refl p) refl
