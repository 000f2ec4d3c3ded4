-- ===== src/Examples/Streams.antt =====
-- Streams of messages, and converted fields, at concrete inputs.
use zara_rpc.Common.{
  All, ◌≡◌, refl, ap, ap₂, ℕ, ◌+◌, ◌-◌, Bool, true, false, Option, none, some, List, [], ◌∷◌, Text,
  codes, map, arith, pos, contains_byte, trim_right, starts, ◌⊎◌, ℤ,
}
use zara_rpc.Codes.{Code}
use zara_rpc.Transport.Framing.{Codec, IsCodec, encode}
use zara_rpc.Transport.NdjsonLaws.{awaiting, received-send_all}
use zara_rpc.Transport.NdjsonLaws
use zara_rpc.Transport.SseLaws
use zara_rpc.Transport.Ndjson.{send_all}
use zara_rpc.Metadata.Decimal.{parse_uint}
use zara_rpc.Transport.Sse.{send_events, Outgoing, plain, event}
use zara_rpc.Transport.SseRoundTrip.{received-send_events}
use zara_rpc.Runtime.Convert.{
  parse_int_bits, Formats, int, int_kind, set_string_value, path_int, store_int,
}
use zara_rpc.Runtime.ConvertLaws.{set_string_value-path_int}

-- A binary codec whose message `false` is no byte, and base64 as letters.
abbrev marshal : Bool → Option Text
marshal true = some (1 ∷ 2 ∷ [])
marshal false = some []

abbrev unmarshal : Text → Option Bool
unmarshal [] = some false
unmarshal (c ∷ b) = some true

abbrev encode64 : Text → Text
encode64 b = map (λ c. c + 33) b

abbrev decode64 : Text → Text
decode64 b = map (λ c. c - 33) b

abbrev flags : Codec Bool
flags = record {
  is_binary = true;
  marshal = marshal;
  unmarshal = unmarshal;
  encode64 = encode64;
  decode64 = λ b. some (decode64 b);
}

decode64-encode64 : (b : Text) → decode64 (encode64 b) ≡ b
decode64-encode64 [] = refl
decode64-encode64 (c ∷ b) = ap₂ ◌∷◌ (omega arith) (decode64-encode64 b)

encode64-no_newline : (b : Text) → contains_byte (encode64 b) b'\n' ≡ false
encode64-no_newline [] = refl
encode64-no_newline (c ∷ b) = ground (arith, encode64-no_newline b)

encode64_solid : (b : Text) → trim_right (encode64 b) ≡ encode64 b
encode64_solid [] = refl
encode64_solid (c ∷ b) = ground (arith, encode64_solid b)

encode64_starts : (b : Text) → starts (encode64 b) ≡ true
encode64_starts [] = refl
encode64_starts (c ∷ b) = ground arith

message_read : (m : Bool) (raw : Text) → marshal m ≡ some raw → unmarshal raw ≡ some m
message_read true raw e = ground arith
message_read false raw e = ground arith

flags-IsCodec : IsCodec flags
flags-IsCodec = record {
  message_read = message_read;
  bytes_read = λ raw. ap (λ (b : Text). some b) (decode64-encode64 raw);
  text_line = λ m raw plain h. absurd (cc plain);
  base64_line = λ raw. (encode64-no_newline raw, (encode64_starts raw, encode64_solid raw));
}

abbrev error : Code → Code
error c = c

abbrev from_http : ℕ → Text → Code
from_http status body = pos status

abbrev three : List Bool
three = true ∷ false ∷ true ∷ []

abbrev events : List (Outgoing Bool)
events =
    plain true
    ∷ event (record { name = codes "tick"; id = codes "1"; retry = pos 5; payload = false })
    ∷ plain true
    ∷ []

three_encoded : All (NdjsonLaws.Encodes flags) three
unfolding encode
three_encoded = ((encode64 (1 ∷ 2 ∷ []), refl), (([], refl), ((encode64 (1 ∷ 2 ∷ []), refl), tt)))

events_encoded : All (SseLaws.Encodes flags) events
unfolding encode
events_encoded = ((encode64 (1 ∷ 2 ∷ []), refl), (([], refl), ((encode64 (1 ∷ 2 ∷ []), refl), tt)))

-- The message without bytes ends the stream of requests, and is left out of the stream of events.
received-send_all_example :
    NdjsonLaws.received flags 3 (send_all flags error from_http (awaiting []) three).written
    ≡ true ∷ []
unfolding NdjsonLaws.before_empty encode
received-send_all_example =
    received-send_all flags error from_http flags-IsCodec 3 three (omega arith) three_encoded

received-send_events_example :
    SseLaws.received flags 3 (send_events flags events) ≡ true ∷ true ∷ []
unfolding SseLaws.filled encode
received-send_events_example =
    received-send_events flags flags-IsCodec 3 events (omega arith) (tt, ((refl, refl), (tt, tt)))
      events_encoded

abbrev formats : Formats Unit Unit
formats = record {
  parse_float = λ s. none;
  parse_time = λ s. none;
  unix = λ d. pos 0;
  nanosecond = λ d. 0;
  decode64 = λ s. some s;
}

-- 2 ^ 32 + 1 becomes 1.
set_string_value-path_int_example :
    ((n : ℤ) × (path_int 32 (codes "4294967297") ≡ some n)
      × (set_string_value formats (int_kind 32) (codes "4294967297") ≡ some (int n)))
    ⊎ ((path_int 32 (codes "4294967297") ≡ none)
        × (path_int 64 (codes "4294967297") ≡ none)
        × (set_string_value formats (int_kind 32) (codes "4294967297") ≡ none))
    ⊎ ((n : ℤ) × (path_int 32 (codes "4294967297") ≡ none)
        × (path_int 64 (codes "4294967297") ≡ some n)
        × (set_string_value formats (int_kind 32) (codes "4294967297")
            ≡ some (int (store_int 32 n)))
        × (¬ (store_int 32 n ≡ n)))
set_string_value-path_int_example = set_string_value-path_int formats (codes "4294967297")

wraps : set_string_value formats (int_kind 32) (codes "4294967297") ≡ some (int (pos 1))
unfolding set_string_value parse_int_bits parse_uint
wraps = refl
