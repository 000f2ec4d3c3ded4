-- ===== src/Transport/SseRoundTrip.antt =====
-- transport/sse/sse.go and client/streams.go: the events that the handler sends, at the client.
use zara_rpc.Common.{
  ◌≡◌, refl, ap, ◌∙◌, ℕ, zero, suc, ◌≤◌, some, List, [], ◌∷◌, ◌++◌, Text, codes, is_empty,
  if◌then◌else◌, All, length, append_assoc, arith, Bool-cases, inl, inr,
}
use zara_rpc.Codes.{code_internal}
use zara_rpc.Transport.Framing.{Codec, message, encode, IsCodec, encode-IsLine, decode-encode}
use zara_rpc.Transport.Sse.{Outgoing, payload_of, fields_of, send, send_events, receive}
use zara_rpc.Transport.SseLaws.{
  receive_data, receive-fields_of, IsFramed, next, received, Encodes, payload, filled,
  received-blank,
}

module _ {M : Type 0} (C : Codec M) (L : IsCodec C) where
  receive_decoded :
      (m : M) (b rest : Text)
      → encode C m ≡ some b
      → receive C (codes "data: " ++ (b ++ (b'\n' ∷ b'\n' ∷ rest)))
        ≡ (if is_empty b then receive C rest else (message m, b'\n' ∷ rest))
  receive_decoded m [] rest e = receive_data C [] rest (encode-IsLine C L m [] e)
  receive_decoded m (c ∷ b) rest e =
      receive_data C (c ∷ b) rest (encode-IsLine C L m (c ∷ b) e)
      ∙ ap (λ r. (r, b'\n' ∷ rest)) (decode-encode C L code_internal m (c ∷ b) e)

  -- The client's `Receive` on what a `Send` wrote.
  receive_first :
      (out : Outgoing M) (outs : List (Outgoing M)) (b : Text)
      → IsFramed C out
      → encode C (payload_of out) ≡ some b
      → receive C (send_events C (out ∷ outs)) ≡ (
          if is_empty b
          then receive C (send_events C outs)
          else (message (payload_of out), b'\n' ∷ send_events C outs))
  unfolding send_events send
  receive_first out outs b framed e =
      let rest = send_events C outs in
      rw (send_events, send, e)
        (ap (receive C) (
            append_assoc (fields_of out) (codes "data: " ++ (b ++ (b'\n' ∷ b'\n' ∷ []))) rest
            ∙ ap (λ t. fields_of out ++ (codes "data: " ++ t))
                (append_assoc b (b'\n' ∷ b'\n' ∷ []) rest))
          ∙ receive-fields_of C out _ framed
          ∙ receive_decoded (payload_of out) b rest e)

  -- Of the messages that the handler sends, by themselves or in events, the client's calls of
  -- `Receive`, up to the first that gives no message, give exactly those whose payload is not empty,
  -- in their order. Every message can be encoded, the name and the id of an event have no newline,
  -- there are calls enough, and the codec and base64 are as documented.
  pub received-send_events :
      (n : ℕ) (outs : List (Outgoing M))
      → length outs ≤ n
      → All (IsFramed C) outs
      → All (Encodes C) outs
      → received C n (send_events C outs) ≡ filled C outs
  unfolding received filled
  received-send_events zero [] enough framed h = refl
  received-send_events (suc n) [] enough framed h = unfold send_events receive in refl
  received-send_events zero (out ∷ outs) enough framed h = absurd (omega arith)
  received-send_events (suc n) (out ∷ outs) enough (f, fs) ((b, e), hs) =
      let same : payload C out ≡ b = rw (payload, e) refl in
      ap (next C (received C n)) (receive_first out outs b f e)
      ∙ rw (filled, same)
          (elim (Bool-cases (is_empty b)) [
            | inl empty ↦ rw empty (received-send_events (suc n) outs (omega arith) fs hs)
            | inr some_bytes ↦ rw some_bytes (
                ap (◌∷◌ (payload_of out)) (
                  received-blank C n (send_events C outs)
                  ∙ received-send_events n outs (omega arith) fs hs))
          ])
