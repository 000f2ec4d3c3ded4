-- ===== src/Client/Streams.antt =====
-- client/streams.go, streaming/stream.go and kernel/stream.go: streams as records of functions that
-- pass the state of the transport on, with the adapters from one interface to another. A value of
-- the type `any` is of the type `V`; an assertion to a type is a parameter.
pub mod Laws
pub mod Opening
use zara_rpc.Common.{
  ◌≡◌, refl, ℕ, Bool, true, false, not, Option, none, some, List, [], ◌∷◌, Text, if◌then◌else◌,
  ◌==◌,
}
use zara_rpc.Common.Result.{Result, ok, err}
use zara_rpc.Codes.{Code, code_internal}
use zara_rpc.Middleware.{chain_interceptors}

-- `middleware.Stream`, which is `runtime.Stream`.
pub record Stream (V E S X : Type 0) : Type 0 where
  pub context : X
  pub send : V → S → Option E × S
  pub receive : S → Result E V × S

-- `ServerStreamClient`, `ClientStreamClient` and `BidiStreamClient`.
pub record ServerStreamClient (V E S : Type 0) : Type 0 where
  pub receive : S → Result E V × S
  pub close : S → Option E × S

pub record ClientStreamClient (V E S : Type 0) : Type 0 where
  pub send : V → S → Option E × S
  pub close_and_receive : S → Result E V × S
  pub close : S → Option E × S

pub record BidiStreamClient (V E S : Type 0) : Type 0 where
  pub send : V → S → Option E × S
  pub receive : S → Result E V × S
  pub close : S → Option E × S

module _ {V E S X : Type 0} (error : Code → E) where
  -- `serverStreamReceiver`: it cannot send.
  unfoldable pub server_stream_receiver : X → ServerStreamClient V E S → Stream V E S X
  server_stream_receiver ctx inner = record {
    context = ctx;
    send = λ v s. (some (error code_internal), s);
    receive = inner.receive;
  }

  -- `clientStreamSender`: it cannot receive.
  unfoldable pub client_stream_sender : X → ClientStreamClient V E S → Stream V E S X
  client_stream_sender ctx inner = record {
    context = ctx;
    send = inner.send;
    receive = λ s. (err (error code_internal), s);
  }

  -- `bidiStreamBoth`
  unfoldable pub bidi_stream_both : X → BidiStreamClient V E S → Stream V E S X
  bidi_stream_both ctx inner = record { context = ctx; send = inner.send; receive = inner.receive }

  -- `interceptedServerStream`, around the interceptors at the end of `DoServerStream` and of
  -- `doServerStreamWS`.
  unfoldable pub intercept_server_stream :
      X
      → List (Stream V E S X → Stream V E S X)
      → ServerStreamClient V E S
      → ServerStreamClient V E S
  unfolding server_stream_receiver chain_interceptors
  intercept_server_stream ctx [] inner = inner
  intercept_server_stream ctx (i ∷ is) inner = record {
    receive = (chain_interceptors (i ∷ is) (server_stream_receiver ctx inner)).receive;
    close = inner.close;
  }

  -- `interceptedClientStream`, at the end of `DoClientStream`: the answer does not pass the
  -- interceptors.
  unfoldable pub intercept_client_stream :
      X
      → List (Stream V E S X → Stream V E S X)
      → ClientStreamClient V E S
      → ClientStreamClient V E S
  unfolding client_stream_sender chain_interceptors
  intercept_client_stream ctx [] inner = inner
  intercept_client_stream ctx (i ∷ is) inner = record {
    send = (chain_interceptors (i ∷ is) (client_stream_sender ctx inner)).send;
    close_and_receive = inner.close_and_receive;
    close = inner.close;
  }

  -- `interceptedBidiStream`, at the end of `DialWebSocket`.
  unfoldable pub intercept_bidi_stream :
      X → List (Stream V E S X → Stream V E S X) → BidiStreamClient V E S → BidiStreamClient V E S
  unfolding bidi_stream_both chain_interceptors
  intercept_bidi_stream ctx [] inner = inner
  intercept_bidi_stream ctx (i ∷ is) inner = record {
    send = (chain_interceptors (i ∷ is) (bidi_stream_both ctx inner)).send;
    receive = (chain_interceptors (i ∷ is) (bidi_stream_both ctx inner)).receive;
    close = inner.close;
  }

  -- `streamServerAdapter` and `streamClientAdapter` of streaming/stream.go, on the one function of
  -- the transport that there is, and `streamBidiAdapter`.
  unfoldable pub stream_server_adapter : X → (V → S → Option E × S) → Stream V E S X
  stream_server_adapter ctx send = record {
    context = ctx;
    send = send;
    receive = λ s. (err (error code_internal), s);
  }

  unfoldable pub stream_client_adapter : X → (S → Result E V × S) → Stream V E S X
  stream_client_adapter ctx receive = record {
    context = ctx;
    send = λ v s. (some (error code_internal), s);
    receive = receive;
  }

  unfoldable pub stream_bidi_adapter :
      X → (V → S → Option E × S) → (S → Result E V × S) → Stream V E S X
  stream_bidi_adapter ctx send receive = record { context = ctx; send = send; receive = receive }

module _ {V E T : Type 0} (error : Code → E) (as_type : V → Option T) where
  abbrev pub assert_type : Result E V → Result E T
  assert_type (err e) = err e
  assert_type (ok v) = elim (as_type v) [ none ↦ err (error code_internal) | some t ↦ ok t ]

  -- `receiveTyped` of kernel/stream.go, and `Receive` and `CloseAndReceive` of the typed wrappers of
  -- client/streams.go, on the raw function.
  unfoldable pub receive_typed : {S : Type 0} → (S → Result E V × S) → S → Result E T × S
  receive_typed receive s = let (r, s') = receive s in (assert_type r, s')

-- `Send` of the typed wrappers: the message becomes an `any`.
unfoldable pub send_typed :
    {V E S T : Type 0} → (T → V) → (V → S → Option E × S) → T → S → Option E × S
send_typed as_any send t s = send (as_any t) s
