-- ===== src/Kernel/Operation.antt =====
-- kernel/kernel.go and kernel/prepare.go: operations. The types that the code leaves to others
-- are those of `Types`.
use zara_rpc.Common.{
  not, ◌&&◌, Option, none, some, List, ◌++◌, Text, codes, is_empty, if◌then◌else◌,
}
use zara_rpc.Common.Result.{Result, ok, err}

-- runtime.StreamType
pub data StreamType : Type 0 where
  unary_type server_type client_type bidi_type : StreamType

-- runtime.Spec
pub record Spec : Type 0 where
  pub procedure : Text
  pub method : Text
  pub path : Text
  pub rpc : Text

-- Contexts, requests, responses, errors, streams, codecs and message types.
pub record Types : Type 1 where
  pub Ctx : Type 0
  pub Request : Type 0
  pub Response : Type 0
  pub Error : Type 0
  pub Stream : Type 0
  pub Codec : Type 0
  pub MessageType : Type 0

-- middleware.UnaryFunc
abbrev pub UnaryFunc : Types → Type 0
UnaryFunc T = T.Ctx → T.Request → Result T.Error T.Response

-- `RequestBuilder`; the HTTP request, the parameters and the codec are those of the context.
abbrev pub RequestBuilder : Types → Type 0
RequestBuilder T = T.Ctx → Spec → Result T.Error T.Request

-- `Operation`. A handler that is nil is `none`; the closure `newRequest` is the function
-- `new_request` of the operation.
pub record Operation (T : Types) : Type 0 where
  pub method : Text
  pub path : Text
  pub procedure : Text
  pub rpc : Text
  pub body : Text
  pub response_body : Text
  pub codec : Option T.Codec
  pub interceptors : List (UnaryFunc T → UnaryFunc T)
  pub stream_interceptors : List (T.Stream → T.Stream)
  pub unary : Option (UnaryFunc T)
  pub server_stream : Option (T.Ctx → T.Request → T.Stream → Option T.Error)
  pub client_stream : Option (T.Ctx → T.Stream → Result T.Error T.Response)
  pub bidi_stream : Option (T.Ctx → T.Stream → Option T.Error)
  pub request_builder : Option (RequestBuilder T)
  pub req_type : Option T.MessageType
  pub res_type : Option T.MessageType
  pub stream_type : StreamType
  pub spec_cache : Spec

-- The procedure, or one of the service's and the RPC's names.
abbrev pub qualified : Text → Text → Text → Text
qualified service procedure rpc =
    if not (is_empty procedure)
    then procedure
    else if not (is_empty service) && not (is_empty rpc)
    then codes "/" ++ (service ++ (codes "/" ++ rpc))
    else if not (is_empty rpc)
    then codes "/" ++ rpc
    else procedure

module _ {T : Types} where
  -- `computeSpec`
  unfoldable pub compute_spec : Operation T → Spec
  compute_spec e = record {
    procedure = if is_empty e.procedure then codes "/" ++ e.rpc else e.procedure;
    method = e.method;
    path = e.path;
    rpc = e.rpc;
  }

  -- `if e.codec == nil { e.codec = codec }`
  abbrev pub default_codec : T.Codec → Operation T → Operation T
  default_codec codec e = elim e.codec [ none ↦ record e { codec = some codec } | some c ↦ e ]

  -- `PrepareOperation`
  unfoldable pub prepare_operation :
      Operation T
      → Text
      → T.Codec
      → List (UnaryFunc T → UnaryFunc T)
      → List (T.Stream → T.Stream)
      → Text
      → Operation T
  unfolding compute_spec
  prepare_operation e0 service codec unary stream path =
      let e1 : Operation T = default_codec codec e0 in
      let e2 : Operation T = record e1 {
        procedure = qualified service e1.procedure e1.rpc;
        path = path;
      } in
      record e2 {
        spec_cache = compute_spec e2;
        interceptors = unary ++ e2.interceptors;
        stream_interceptors = stream;
      }

  -- `newRequest`, the closure of `SetUnaryHandler` and `SetServerStreamHandler`: the builder of the
  -- operation, or `PopulateMessage` with its body mapping, and the metadata of the context.
  unfoldable pub new_request :
      (T.Ctx → Text → Spec → Result T.Error T.Request)
      → (T.Ctx → T.Request → T.Request)
      → Operation T
      → T.Ctx
      → Result T.Error T.Request
  new_request populate with_meta op ctx =
      let built : Result T.Error T.Request = elim op.request_builder [
        | some build ↦ build ctx op.spec_cache
        | none ↦ populate ctx op.body op.spec_cache
      ] in
      elim built [ err e ↦ err e | ok req ↦ ok (with_meta ctx req) ]
