-- ===== src/Transport/Sse.antt =====
-- transport/sse/sse.go, event/event.go and client/streams.go: a server's stream of events.
use zara_rpc.Common.{
  ℕ, zero, suc, Option, none, some, List, [], ◌∷◌, ◌++◌, Text, codes, trim_space, cut_line,
  is_empty, if◌then◌else◌, has_prefix, drop, ℤ, pos, negsuc, length,
}
use zara_rpc.Codes.{code_internal}
use zara_rpc.Metadata.Decimal.{format_int}
use zara_rpc.Transport.Framing.{Codec, Received, end_of_stream, encode, decode}

-- `Event`, its `Data` of type `M`
pub record Event (M : Type 0) : Type 0 where
  pub name : Text
  pub id : Text
  pub retry : ℤ
  pub payload : M

-- What a handler sends: an event, or a message by itself.
pub data Outgoing (M : Type 0) : Type 0 where
  plain : M → Outgoing M
  event : Event M → Outgoing M

abbrev pub text_field : Text → Text → Text
text_field name value = if is_empty value then [] else name ++ (value ++ (b'\n' ∷ []))

abbrev pub retry_field : ℤ → Text
retry_field (pos zero) = []
retry_field (pos (suc n)) = codes "retry: " ++ (format_int (suc n) ++ (b'\n' ∷ []))
retry_field (negsuc n) = []

abbrev pub payload_of : {M : Type 0} → Outgoing M → M
payload_of (plain m) = m
payload_of (event e) = e.payload

-- The fields in front of the data.
abbrev pub fields_of : {M : Type 0} → Outgoing M → Text
fields_of (plain m) = []
fields_of (event e) =
    text_field (codes "event: ") e.name ++ (text_field (codes "id: ") e.id ++ retry_field e.retry)

-- A trimmed line in the loop of `Receive`: the payload of a data field that is not empty.
unfoldable pub data_of : Text → Text
data_of line = if has_prefix line (codes "data:") then trim_space (drop 5 line) else []

module _ {M : Type 0} (C : Codec M) where
  -- `ServerStream.Send`: what it writes, or `none` if the message cannot be encoded.
  unfoldable pub send : Outgoing M → Option Text
  unfolding encode
  send out = elim (encode C (payload_of out)) [
    | none ↦ none
    | some b ↦ some (fields_of out ++ (codes "data: " ++ (b ++ (b'\n' ∷ b'\n' ∷ []))))
  ]

  -- What the handler's calls of `Send` write.
  unfoldable pub send_events : List (Outgoing M) → Text
  unfolding send
  send_events [] = []
  send_events (out ∷ outs) = elim (send out) [
    | none ↦ send_events outs
    | some t ↦ t ++ send_events outs
  ]

  -- What a round of the loop returns for the data of its line, `later` what the loop goes on to.
  abbrev pub round : Received M × Text → Text → Text → Received M × Text
  round later rest [] = later
  round later rest (c ∷ b) = (decode C code_internal (c ∷ b), rest)

  -- `sseClientStream.Receive`: the result, and the input that is left. The loop reads a line in each
  -- round, so the length of the input is fuel enough; at the end of the input the error is io.EOF.
  unfoldable pub receive_from : ℕ → Text → Received M × Text
  unfolding data_of decode
  receive_from zero input = (end_of_stream, input)
  receive_from (suc fuel) input = elim (cut_line input) [
    | none ↦ (end_of_stream, [])
    | some (line, rest) ↦
        let later = receive_from fuel rest in round later rest (data_of (trim_space line))
  ]

  unfoldable pub receive : Text → Received M × Text
  unfolding receive_from
  receive input = receive_from (suc (length input)) input
