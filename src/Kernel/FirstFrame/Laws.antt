-- ===== src/Kernel/FirstFrame/Laws.antt =====
-- client/websocket.go and kernel/handler.go: a server's stream that a client opens over a WebSocket is
-- served for the client's request.
use zara_rpc.Common.{
  ◌≤◌, length, if◌then◌else◌, ◌≡◌, refl, sym, ap, ◌∙◌, Option, none, some, [], ◌∷◌, ◌++◌, Text, inl,
  inr, Bool-cases,
}
use zara_rpc.Common.Result.{Result-cases, Result, ok}
use zara_rpc.Status.Headers.{Header}
use zara_rpc.Transport.Framing.{Codec}
use zara_rpc.Transport.WebSocket.{Frame, arrived, Wire, IsOrdered, send, ws_url}
use zara_rpc.Transport.WebSocket.Laws.{IsRead, send-pending}
use zara_rpc.Transport.WebSocket.Delivery.{read_limit, Delivers, Fits}
use zara_rpc.Client.Streams.Opening.{connected, first_frame, do_server_stream_ws}
use zara_rpc.Kernel.Operation.{Types, Operation}
use zara_rpc.Kernel.Serve.{
  Library, Exchange, closed, close_code, run_server, wrap_stream, serve_server_stream_ws,
}
use zara_rpc.Kernel.FirstFrame.{
  raw_request, Code, RawRequest, frame_data, decode_request, serve_first, serve_reading,
}

first_frame-connected :
    {M E S : Type 0} (C : Codec M) (error : Code → E) (N : Wire E S) (r : Option E × S) (s : S)
    → first_frame C error N r ≡ connected s
    → (r.0 ≡ none) × (r.1 ≡ s)
first_frame-connected C error N (some e, t) s h = absurd cc
first_frame-connected C error N (none, t) s h = (refl, cc)

-- The only frame on its way is what an open connection reads.
read-only :
    {E S : Type 0} (N : Wire E S) (O : IsOrdered N) (V : Delivers N O) (s : S) (f : Frame)
    → V.IsOpen s
    → O.pending s ≡ f ∷ []
    → length f.content ≤ read_limit
    → (N.read s).0 ≡ arrived f
read-only N O V s f is_open one fits = elim (O.read_pending s) [
  | inl (g, reads, first) ↦ reads ∙ ap arrived cc
  | inr (idle, kept) ↦ absurd (cc (sym idle ∙ V.read_arrived s f [] is_open one fits))
]

module _ {T : Types} {M : Type 0} (R : Library T) (C : Codec M)
    (request_of : RawRequest M → T.Request) where
  serve_reading-frame :
      (f : Frame) (m : M) (op : Operation T) (x : Exchange T) (ctx : T.Ctx)
      → C.unmarshal f.content ≡ some m
      → f.typ ≡ (if C.is_binary then 2 else 1)
      → serve_reading R C request_of op x ctx (arrived f)
        ≡ some (
            closed (
              close_code R (
                run_server R op
                  (request_of (raw_request op.spec_cache m))
                  (wrap_stream op (x.websocket_stream ctx)))))
  unfolding serve_reading frame_data serve_first decode_request serve_server_stream_ws
  serve_reading-frame f m op x ctx read typ = elim (Bool-cases C.is_binary) [
    | inl binary ↦ rw (serve_reading, frame_data, typ, binary, read) refl
    | inr plain ↦ rw (serve_reading, frame_data, typ, plain, read) refl
  ]

  module _ {S : Type 0} (N : Wire T.Error S) (O : IsOrdered N) (V : Delivers N O)
      (L : IsRead C) where
    -- When a client has opened a server's stream over a new WebSocket connection, with a request that
    -- encodes within the documented read limit of 32768 bytes, and the connection is open, then
    -- `serveServerStreamWS` reads its first frame and closes the connection with 1000, or 1011 after
    -- an error, by what the operation's handler returns for a request that has the client's message,
    -- the operation's spec, the protocol websocket and no headers. Both ends have the same codec, for
    -- the same type of messages, which reads what it writes. The connection keeps the order of its
    -- frames, has none on their way when it is new, and while it is open a frame within the limit
    -- arrives at the next read.
    pub do_server_stream_ws-serve_reading :
        (query_escape : Text → Text) (dial : Text → Header → Result T.Error S)
        → ((url : Text) (h : Header) (s : S) → dial url h ≡ ok s → O.pending s ≡ [])
        → (base_url path codec_name : Text) (headers : Header) (req : M) (s : S)
        → do_server_stream_ws C R.error N query_escape dial base_url path codec_name headers req
          ≡ connected s
        → V.IsOpen s
        → Fits C req
        → (op : Operation T) (x : Exchange T) (ctx : T.Ctx)
        → serve_reading R C request_of op x ctx (N.read s).0
          ≡ some (
              closed (
                close_code R (
                  run_server R op
                    (request_of (raw_request op.spec_cache req))
                    (wrap_stream op (x.websocket_stream ctx)))))
    unfolding do_server_stream_ws
    do_server_stream_ws-serve_reading query_escape dial fresh base_url path codec_name headers req s
          h is_open fits op x ctx =
        let url : Text = ws_url query_escape base_url path codec_name in
        elim (Result-cases (dial url headers)) [
          | inl (t, dialed) ↦
              let (sent, same) =
                first_frame-connected C R.error N (send C R.error N req t) s
                  (rw (do_server_stream_ws, dialed) at h) in
              elim (send-pending C R.error N O req t) [
                | inl (e, failed, kept) ↦ absurd (cc (sym sent ∙ failed))
                | inr (f, done, longer, raw, typ) ↦
                    let one : O.pending s ≡ f ∷ [] =
                      ap (λ u. O.pending u) (sym same)
                      ∙ longer
                      ∙ ap (λ fs. fs ++ (f ∷ [])) (fresh url headers t dialed) in
                    ap (serve_reading R C request_of op x ctx)
                      (read-only N O V s f is_open one (fits f.content raw))
                    ∙ serve_reading-frame f req op x ctx (L req f.content raw) typ
              ]
          | inr (e, failed) ↦ absurd (cc (rw (do_server_stream_ws, failed) at h))
        ]
