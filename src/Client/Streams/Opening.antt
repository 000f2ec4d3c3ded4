-- ===== src/Client/Streams/Opening.antt =====
-- client/streams.go and client/websocket.go: how the stream of a server is opened, over HTTP or over
-- a WebSocket. The context, net/http and the dialing of package coder/websocket are parameters.
use zara_rpc.Common.{ℕ, not, Option, none, some, Text, if◌then◌else◌, ◌==◌}
use zara_rpc.Common.Result.{Result, ok, err}
use zara_rpc.Codes.{Code, code_internal}
use zara_rpc.Status.Headers.{Header}
use zara_rpc.Transport.Framing.{Codec}
use zara_rpc.Transport.WebSocket.{Wire, send, ws_url}
use zara_rpc.Client.Request.{Request, server_stream_request}

-- What net/http does with a request: an error, or the status code and the body of a response.
pub record HttpClient (E B : Type 0) : Type 0 where
  pub new_request : Request → Option E
  pub round_trip : Request → Result E (ℕ × B)

-- The outcome of opening a stream over HTTP; the body of a response that is refused is closed.
pub data Opened (E A : Type 0) : Type 0 where
  opened : A → Opened E A
  not_sent : E → Opened E A
  refused : E → Opened E A

module _ {E B A : Type 0} (error : Code → E) (H : HttpClient E B) (from_http : ℕ → B → E)
    (stream_of : B → A) where
  -- The request is sent, and its response becomes the stream.
  unfoldable pub open_http : Request → Opened E A
  open_http r = elim (H.new_request r) [
    | some e ↦ not_sent e
    | none ↦ elim (H.round_trip r) [
      | err e ↦ not_sent e
      | ok (status, body) ↦
          if not (status == 200) then refused (from_http status body) else opened (stream_of body)
    ]
  ]

  -- `DoServerStream` over HTTP behind the substitution into the path, for a request message that is
  -- not nil.
  unfoldable pub do_server_stream :
      {M : Type 0} → (M → Option Text) → Text → Text → Text → Text → Header → M → Opened E A
  unfolding open_http server_stream_request
  do_server_stream marshal codec_name base_url method path headers req = elim (marshal req) [
    | none ↦ not_sent (error code_internal)
    | some bytes ↦
        open_http (server_stream_request codec_name base_url method path (some bytes) headers)
  ]

-- The outcome of opening a stream over a WebSocket, with the state of the connection: none; a
-- connection that the client has closed; or the connection.
pub data Dialed (E S : Type 0) : Type 0 where
  no_connection : E → Dialed E S
  hung_up : E → S → Dialed E S
  connected : S → Dialed E S

module _ {M E S : Type 0} (C : Codec M) (error : Code → E) (N : Wire E S) where
  -- The outcome of the first frame.
  abbrev pub first_frame : Option E × S → Dialed E S
  first_frame (some e, s) = hung_up e s
  first_frame (none, s) = connected s

  -- `doServerStreamWS`: the request is the first frame.
  unfoldable pub do_server_stream_ws :
      (Text → Text) → (Text → Header → Result E S) → Text → Text → Text → Header → M → Dialed E S
  unfolding ws_url send
  do_server_stream_ws query_escape dial base_url path codec_name headers req =
      elim (dial (ws_url query_escape base_url path codec_name) headers) [
        | err e ↦ no_connection e
        | ok s ↦ first_frame (send C error N req s)
      ]
