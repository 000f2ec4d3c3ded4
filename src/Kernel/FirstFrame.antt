-- ===== src/Kernel/FirstFrame.antt =====
-- kernel/handler.go, kernel/kernel.go and transport/websocket/websocket.go: the request of a server's
-- stream over a WebSocket, which is its first frame.
pub mod Laws
use zara_rpc.Common.{ℕ, Bool, true, Option, none, some, [], Text, codes, ◌||◌, ◌==◌, if◌then◌else◌}
use zara_rpc.Common.Result.{Result, ok, err}
use zara_rpc.Codes.{Code, code_invalid_argument}
use zara_rpc.Status.Headers.{Header}
use zara_rpc.Transport.Framing.{Codec}
use zara_rpc.Transport.WebSocket.{Frame, Reading, arrived, broken, waiting, Wire}
use zara_rpc.Kernel.Operation.{Spec, Types, Operation}
use zara_rpc.Kernel.Serve.{Library, Exchange, Served, serve_server_stream_ws}

-- `rawRequest`, of whose peer the protocol alone is set.
pub record RawRequest (M : Type 0) : Type 0 where
  pub msg : M
  pub spec : Spec
  pub protocol : Text
  pub header : Header

-- `wsAdapter.Read`, when it has returned: the data of a frame of one of the two types.
unfoldable pub frame_data : {E : Type 0} → (Code → E) → Frame → Result E Text
frame_data error f =
    if f.typ == 1 || f.typ == 2 then ok f.content else err (error code_invalid_argument)

-- The request that `decodeRequest` builds over a message.
abbrev pub raw_request : {M : Type 0} → Spec → M → RawRequest M
raw_request spec m = record { msg = m; spec = spec; protocol = codes "websocket"; header = [] }

-- `decodeRequest`
unfoldable pub decode_request :
    {E M Q : Type 0} → (Code → E) → Codec M → (RawRequest M → Q) → Spec → Text → Result E Q
decode_request error C request_of spec bytes = elim (C.unmarshal bytes) [
  | none ↦ err (error code_invalid_argument)
  | some m ↦ ok (request_of (raw_request spec m))
]

module _ {T : Types} {M : Type 0} (R : Library T) (C : Codec M)
    (request_of : RawRequest M → T.Request) where
  -- `serveServerStreamWS` on a connection that `Accept` has made, with the data of its first frame,
  -- or none after an error.
  unfoldable pub serve_first : Operation T → Exchange T → T.Ctx → Option Text → Served T
  unfolding decode_request serve_server_stream_ws
  serve_first op x ctx bytes =
      serve_server_stream_ws
        (record R { decode_request = decode_request R.error C request_of op.spec_cache }) op
        (record x { accepted = true; first_frame = bytes }) ctx

  -- The same from what the connection reads: nothing is served while the read waits.
  unfoldable pub serve_reading :
      Operation T → Exchange T → T.Ctx → Reading T.Error → Option (Served T)
  unfolding serve_first frame_data
  serve_reading op x ctx waiting = none
  serve_reading op x ctx (broken e) = some (serve_first op x ctx none)
  serve_reading op x ctx (arrived f) = elim (frame_data R.error f) [
    | err e ↦ some (serve_first op x ctx none)
    | ok bytes ↦ some (serve_first op x ctx (some bytes))
  ]
