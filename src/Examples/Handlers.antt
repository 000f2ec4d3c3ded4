-- ===== src/Examples/Handlers.antt =====
-- A denied stream at a concrete input.
use zara_rpc.Common.{suc, ◌≡◌, refl, ℕ, true, false, none, [], ◌∷◌, Text, codes, inl, inr}
use zara_rpc.Common.Result.{ok, err}
use zara_rpc.Codes.{Code, code_unauthenticated}
use zara_rpc.Kernel.Operation.{Types, UnaryFunc, Operation}
use zara_rpc.Kernel.Build.{new_server_stream_operation, set_interceptors}
use zara_rpc.Kernel.Serve.{Library, Exchange, wrote_error, serve}
use zara_rpc.Common.{some, text_eq, if◌then◌else◌, arith}
use zara_rpc.Transport.WebSocket.{send, ws_url}
use zara_rpc.Client.Streams.Opening.{do_server_stream_ws}
use zara_rpc.Kernel.Serve.{closed}
use zara_rpc.Kernel.FirstFrame.{RawRequest, serve_reading}
use zara_rpc.Kernel.FirstFrame.Laws.{do_server_stream_ws-serve_reading}
use zara_rpc.Examples.Sockets.{plain, queue, queue_order, queue_delivers, plain-IsRead, plain-Fits}
use zara_rpc.Kernel.ServeLaws.{Handlers, with_handlers, serve-Denied}

-- A context is the number of requests attached to it; errors are codes.
abbrev types : Types
types = record {
  Ctx = ℕ;
  Request = Text;
  Response = Text;
  Error = Code;
  Stream = ℕ;
  Codec = Text;
  MessageType = Text;
}

abbrev library : Library types
library = record {
  error = λ c. c;
  no_request = [];
  no_response = [];
  set_request = λ ctx req. suc ctx;
  set_response = λ ctx resp. ctx;
  context = λ s. s;
  populate = λ ctx body spec. ok (codes "populated");
  with_meta = λ ctx req. req;
  decode_request = λ frame. ok frame;
}

abbrev exchange : Exchange types
exchange = record {
  body_fails = false;
  upgrade = false;
  accepted = true;
  first_frame = none;
  can_flush = true;
  sse_stream = λ ctx. ctx;
  websocket_stream = λ ctx. ctx;
  ndjson_stream = λ ctx. ctx;
  bidi_websocket = λ ctx. ctx;
}

-- The first interceptor hands on another context, the second denies it.
abbrev mark : UnaryFunc types → UnaryFunc types
mark next ctx req = next (suc ctx) req

abbrev deny : UnaryFunc types → UnaryFunc types
deny next ctx req = err code_unauthenticated

abbrev ticks : Operation types
ticks =
    new_server_stream_operation (codes "json") (codes "GET") (codes "/ticks") (codes "Req")
      (codes "Res") (λ ctx req s. none) (set_interceptors (mark ∷ deny ∷ []) ∷ [])

serve-Denied_example :
    (e : Code) × ((h : Handlers types)
      → serve library (with_handlers types ticks h) exchange 0 ≡ wrote_error e)
unfolding new_server_stream_operation
serve-Denied_example =
    serve-Denied library ticks exchange 0
      (inr (1, λ next req. refl, inl (code_unauthenticated, λ next req. refl)))
      (λ req. inr (2, λ next req. refl, inl (code_unauthenticated, λ next req. refl)))

-- A request is its message.
abbrev request_text : RawRequest Text → Text
request_text r = r.msg

abbrev echo : Operation types
echo =
    new_server_stream_operation (codes "json") (codes "GET") (codes "/echo") (codes "Req")
      (codes "Res")
      (λ ctx req s. if text_eq req (codes "request") then none else some code_unauthenticated) []

do_server_stream_ws-serve_reading_example :
    serve_reading library plain request_text echo exchange 0
      (queue.read (record { typ = 1; content = codes "request" } ∷ [])).0
    ≡ some (closed 1000)
unfolding new_server_stream_operation do_server_stream_ws send ws_url
do_server_stream_ws-serve_reading_example =
    do_server_stream_ws-serve_reading library plain request_text queue queue_order queue_delivers
      plain-IsRead (λ t. t) (λ url h. ok []) (λ url h s e. cc) (codes "http://host") (codes "/v1")
      (codes "json") [] (codes "request") (record { typ = 1; content = codes "request" } ∷ []) refl
      tt (plain-Fits (codes "request") (omega arith)) echo exchange 0
