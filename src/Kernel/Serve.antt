-- ===== src/Kernel/Serve.antt =====
-- kernel/handler.go: how the handler of an operation serves a request. What a request brings, and
-- what the transports and the runtime do with it, is a parameter.
use zara_rpc.Common.{ℕ, Bool, not, Option, none, some, List, [], ◌∷◌, Text, if◌then◌else◌}
use zara_rpc.Common.Result.{Result, ok, err}
use zara_rpc.Codes.{Code, code_internal, code_invalid_argument}
use zara_rpc.Middleware.{chain_interceptors}
use zara_rpc.Kernel.Operation.{
  StreamType, unary_type, server_type, client_type, bidi_type, Spec, Types, UnaryFunc, Operation,
  new_request,
}

-- The runtime: `status.NewErrorf` of a code, the nil request and response, `SetRequest` and
-- `SetResponse`, `Stream.Context`, `PopulateMessage` with `NewRequestWithMeta`, `WithRequestMeta`,
-- and `decodeRequest`.
pub record Library (T : Types) : Type 0 where
  pub error : Code → T.Error
  pub no_request : T.Request
  pub no_response : T.Response
  pub set_request : T.Ctx → T.Request → T.Ctx
  pub set_response : T.Ctx → T.Response → T.Ctx
  pub context : T.Stream → T.Ctx
  pub populate : T.Ctx → Text → Spec → Result T.Error T.Request
  pub with_meta : T.Ctx → T.Request → T.Request
  pub decode_request : Text → Result T.Error T.Request

-- One exchange: whether reading the body fails, whether the request asks for a WebSocket and
-- whether `Accept` makes one, its first frame, whether the writer can flush, and the transports'
-- streams for a context.
pub record Exchange (T : Types) : Type 0 where
  pub body_fails : Bool
  pub upgrade : Bool
  pub accepted : Bool
  pub first_frame : Option Text
  pub can_flush : Bool
  pub sse_stream : T.Ctx → T.Stream
  pub websocket_stream : T.Ctx → T.Stream
  pub ndjson_stream : T.Ctx → T.Stream
  pub bidi_websocket : T.Ctx → T.Stream

-- What the client gets: an error response, a response, a stream of events that the handler wrote
-- with its result, or a WebSocket closed with a code. A stream's handler has run if there is a
-- result.
pub data Served (T : Types) : Type 0 where
  wrote_error : T.Error → Served T
  wrote_response : T.Response → T.Ctx → Served T
  streamed : Option T.Error → Served T
  closed : ℕ → Served T

module _ {T : Types} where
  -- `h.unary`; a handler that is nil would fail when it is called.
  unfoldable pub unary_chain : UnaryFunc T → Operation T → UnaryFunc T
  unfolding chain_interceptors
  unary_chain missing op =
      chain_interceptors op.interceptors (elim op.unary [ none ↦ missing | some f ↦ f ])

  -- `wrapStream`
  unfoldable pub wrap_stream : Operation T → T.Stream → T.Stream
  unfolding chain_interceptors
  wrap_stream op s = chain_interceptors op.stream_interceptors s

module _ {T : Types} (R : Library T) where
  -- `streamAuth` and `authorizeStream`: the error of the chain around a handler that does nothing.
  unfoldable pub authorize_stream : List (UnaryFunc T → UnaryFunc T) → T.Ctx → Option T.Error
  unfolding chain_interceptors
  authorize_stream [] ctx = none
  authorize_stream (i ∷ is) ctx =
      elim (chain_interceptors (i ∷ is) (λ c r. ok R.no_response) ctx R.no_request) [
        | ok resp ↦ none
        | err e ↦ some e
      ]

  abbrev pub missing_unary : UnaryFunc T
  missing_unary ctx req = err (R.error code_internal)

  -- `serveUnary`
  unfoldable pub serve_unary : Operation T → T.Ctx → Served T
  unfolding unary_chain new_request
  serve_unary op ctx = elim (new_request R.populate R.with_meta op ctx) [
    | err e ↦ wrote_error e
    | ok req ↦ elim (unary_chain missing_unary op (R.set_request ctx req) req) [
      | err e ↦ wrote_error e
      | ok resp ↦ wrote_response resp (R.set_response (R.set_request ctx req) resp)
    ]
  ]

  abbrev pub run_server : Operation T → T.Request → T.Stream → Option T.Error
  run_server op req s = elim op.server_stream [
    | none ↦ some (R.error code_internal)
    | some f ↦ f (R.context s) req s
  ]

  abbrev pub close_code : Option T.Error → ℕ
  close_code none = 1000
  close_code (some e) = 1011

  -- `serveServerStreamWS`
  unfoldable pub serve_server_stream_ws : Operation T → Exchange T → T.Ctx → Served T
  unfolding wrap_stream
  serve_server_stream_ws op x ctx =
      if not x.accepted then wrote_error (R.error code_internal) else elim x.first_frame [
        | none ↦ closed 1011
        | some frame ↦ elim (R.decode_request frame) [
          | err e ↦ closed 1011
          | ok req ↦
              closed (close_code (run_server op req (wrap_stream op (x.websocket_stream ctx))))
        ]
      ]

  -- `serveServerStream` behind its authorization
  unfoldable pub stream_events : Operation T → Exchange T → T.Ctx → Served T
  unfolding new_request serve_server_stream_ws wrap_stream
  stream_events op x ctx = elim (new_request R.populate R.with_meta op ctx) [
    | err e ↦ wrote_error e
    | ok req ↦
        if x.upgrade
        then serve_server_stream_ws op x (R.set_request ctx req)
        else if not x.can_flush
        then wrote_error (R.error code_internal)
        else streamed (run_server op req (wrap_stream op (x.sse_stream (R.set_request ctx req))))
  ]

  -- `serveClientStream` behind its authorization
  unfoldable pub collect_stream : Operation T → Exchange T → T.Ctx → Served T
  unfolding wrap_stream
  collect_stream op x ctx =
      let s = wrap_stream op (x.ndjson_stream ctx) in
      elim op.client_stream [
        | none ↦ wrote_error (R.error code_internal)
        | some f ↦ elim (f (R.context s) s) [
          | err e ↦ wrote_error e
          | ok resp ↦ wrote_response resp (R.set_response ctx resp)
        ]
      ]

  -- `serveBidiStream` behind its authorization
  unfoldable pub exchange_stream : Operation T → Exchange T → T.Ctx → Served T
  unfolding wrap_stream
  exchange_stream op x ctx =
      let s = wrap_stream op (x.bidi_websocket ctx) in
      if not x.accepted then wrote_error (R.error code_internal) else elim op.bidi_stream [
        | none ↦ closed 1011
        | some f ↦ closed (close_code (f (R.context s) s))
      ]

  -- `if err != nil { writeError(w, err); return }`
  abbrev pub guarded : Option T.Error → Served T → Served T
  guarded none next = next
  guarded (some e) next = wrote_error e

  -- Reading the body of a single message.
  abbrev pub body_error : Exchange T → Option T.Error
  body_error x = if x.body_fails then some (R.error code_invalid_argument) else none

  -- `ServeHTTPWithParams`, once the context is made: its switch, with what the streams skip. The
  -- interceptors of the operation are given.
  unfoldable pub serve_as :
      StreamType → List (UnaryFunc T → UnaryFunc T) → Operation T → Exchange T → T.Ctx → Served T
  unfolding serve_unary authorize_stream stream_events collect_stream exchange_stream
  serve_as unary_type is op x ctx = guarded (body_error x) (serve_unary op ctx)
  serve_as server_type is op x ctx =
      guarded (body_error x) (guarded (authorize_stream is ctx) (stream_events op x ctx))
  serve_as client_type is op x ctx = guarded (authorize_stream is ctx) (collect_stream op x ctx)
  serve_as bidi_type is op x ctx = guarded (authorize_stream is ctx) (exchange_stream op x ctx)

  unfoldable pub serve : Operation T → Exchange T → T.Ctx → Served T
  unfolding serve_as
  serve op x ctx = serve_as op.stream_type op.interceptors op x ctx
