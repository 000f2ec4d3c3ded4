-- ===== src/Client/Streams/Laws.antt =====
-- client/streams.go: what the interceptors of a stream stand between.
use zara_rpc.Common.{◌≡◌, refl, ap, ◌∙◌, Option, List, [], ◌∷◌, All}
use zara_rpc.Common.Result.{Result}
use zara_rpc.Codes.{Code}
use zara_rpc.Middleware.{chain_interceptors}
use zara_rpc.Client.Streams.{
  Stream, ServerStreamClient, ClientStreamClient, server_stream_receiver, client_stream_sender,
  intercept_server_stream, intercept_client_stream,
}

abbrev the_server_stream :
    {V E S : Type 0} → (S → Result E V × S) → (S → Option E × S) → ServerStreamClient V E S
the_server_stream receive close = record { receive = receive; close = close }

abbrev the_client_stream :
    {V E S : Type 0}
    → (V → S → Option E × S)
    → (S → Result E V × S)
    → (S → Option E × S)
    → ClientStreamClient V E S
the_client_stream send answer close = record {
  send = send;
  close_and_receive = answer;
  close = close;
}

module _ {F R : Type 0} (observe : F → R) where
  chain_interceptors-observed :
      (is : List (F → F)) (next : F)
      → All (λ (i : F → F). (s : F) → observe (i s) ≡ observe s) is
      → observe (chain_interceptors is next) ≡ observe next
  unfolding chain_interceptors
  chain_interceptors-observed [] next h = refl
  chain_interceptors-observed (i ∷ is) next (here, there) =
      here (chain_interceptors is next) ∙ chain_interceptors-observed is next there

module _ {V E S X : Type 0} (error : Code → E) (ctx : X) where
  abbrev pub KeepSend : (Stream V E S X → Stream V E S X) → Type 0
  KeepSend i = (s : Stream V E S X) → (i s).send ≡ s.send

  abbrev pub KeepReceive : (Stream V E S X → Stream V E S X) → Type 0
  KeepReceive i = (s : Stream V E S X) → (i s).receive ≡ s.receive

  -- A server's stream is only changed by what its interceptors do to `Receive`.
  pub intercept_server_stream-unused :
      (is : List (Stream V E S X → Stream V E S X)) (inner : ServerStreamClient V E S)
      → All KeepReceive is
      → intercept_server_stream error ctx is inner ≡ inner
  unfolding intercept_server_stream server_stream_receiver
  intercept_server_stream-unused [] inner h = refl
  intercept_server_stream-unused (i ∷ is) inner h =
      ap (λ (receive : S → Result E V × S). the_server_stream receive inner.close)
        (chain_interceptors-observed (λ (s : Stream V E S X). s.receive) (i ∷ is)
          (server_stream_receiver error ctx inner) h)

  -- A client's stream is only changed by what they do to `Send`: its answer passes none of them.
  pub intercept_client_stream-unused :
      (is : List (Stream V E S X → Stream V E S X)) (inner : ClientStreamClient V E S)
      → All KeepSend is
      → intercept_client_stream error ctx is inner ≡ inner
  unfolding intercept_client_stream client_stream_sender
  intercept_client_stream-unused [] inner h = refl
  intercept_client_stream-unused (i ∷ is) inner h =
      ap
        (λ (send : V → S → Option E × S).
          the_client_stream send inner.close_and_receive inner.close)
        (chain_interceptors-observed (λ (s : Stream V E S X). s.send) (i ∷ is)
          (client_stream_sender error ctx inner) h)
