-- ===== src/Examples/Statuses.antt =====
-- Statuses on the wire and errors over HTTP at concrete inputs.
use zara_rpc.Common.{
  ◌≡◌, ◌≢◌, refl, ap, ap₂, ℕ, suc, ◌≤◌, Option, none, some, List, [], ◌∷◌, ◌++◌, Text, codes,
  length, take, drop, take-append, drop-append, arith, negsuc, ◌==◌, if◌then◌else◌,
}
use zara_rpc.Codes.{code_not_found}
use zara_rpc.Status.{RpcError, Link, other, rpc, message, from_error}
use zara_rpc.Status.Headers.{get, add_all}
use zara_rpc.Status.Wire.{Status, Protowire, done, stuck, marshal_status, unmarshal_status}
use zara_rpc.Status.WireEnds.{unmarshal_status-ne-stuck}
use zara_rpc.Status.WireLaws.{IsProtowire, unmarshal_status-marshal_status}
use zara_rpc.Status.Http.{Encodings, HttpResponse, from_http}
use zara_rpc.Kernel.Errors.{write_error}
use zara_rpc.Kernel.ErrorsLaws.{IsEncodings, from_http-write_error}

-- A wire of numbers: a tag is two of them, a varint one, and bytes follow their length.
abbrev consume_tag : Text → Option (ℕ × ℕ × ℕ)
consume_tag (num ∷ typ ∷ rest) = some (num, typ, 2)
consume_tag _ = none

abbrev consume_varint : Text → Option (ℕ × ℕ)
consume_varint [] = none
consume_varint (v ∷ rest) = some (v, 1)

abbrev consume_bytes : Text → Option (Text × ℕ)
consume_bytes [] = none
consume_bytes (n ∷ rest) = some (take n rest, suc n)

abbrev consume_field_value : ℕ → ℕ → Text → Option ℕ
consume_field_value num typ [] = none
consume_field_value num typ (n ∷ rest) = if typ == 2 then some (suc n) else some 1

abbrev unmarshal : Text → Option ℕ
unmarshal [] = none
unmarshal (d ∷ rest) = some d

abbrev wire : Protowire ℕ
wire = record {
  append_tag = λ b num typ. b ++ (num ∷ typ ∷ []);
  append_varint = λ b v. b ++ (v ∷ []);
  append_bytes = λ b v. b ++ (length v ∷ v);
  consume_tag = consume_tag;
  consume_varint = consume_varint;
  consume_bytes = consume_bytes;
  consume_field_value = consume_field_value;
  marshal = λ d. some (d ∷ []);
  unmarshal = unmarshal;
}

tag_takes :
    (b : Text) (num typ n : ℕ) → consume_tag b ≡ some (num, typ, n) → (1 ≤ n) × (n ≤ length b)
tag_takes [] num typ n e = cc
tag_takes (x ∷ []) num typ n e = cc
tag_takes (x ∷ y ∷ rest) num typ n e = ground arith

message_read : (d : ℕ) (b : Text) → some (d ∷ []) ≡ some b → unmarshal b ≡ some d
message_read d b e = ground arith

wire-IsProtowire : IsProtowire wire
wire-IsProtowire = record {
  tag_appended = λ b num typ. refl;
  varint_appended = λ b v. refl;
  bytes_appended = λ b v. refl;
  tag_read = λ num typ rest lo hi ht. refl;
  varint_read = λ v rest h. refl;
  bytes_read = λ v rest. ap (λ (t : Text). some (t, suc (length v))) (take-append v rest);
  message_read = message_read;
  tag_takes = tag_takes;
}

abbrev decode_body : Text → Option (Text × Text)
decode_body [] = none
decode_body (n ∷ rest) = some (take n rest, drop n rest)

abbrev encodings : Encodings
encodings = record {
  encode_body = λ n m. length n ∷ (n ++ m);
  decode_body = decode_body;
  encode64 = λ b. b;
  decode64 = λ b. some b;
}

encodings-IsEncodings : IsEncodings encodings (λ s. Unit)
encodings-IsEncodings = record {
  ascii = λ s h. tt;
  body_read = λ n m hn hm. ap₂ (λ (s t : Text). some (s, t)) (take-append n m) (drop-append n m);
  bytes_read = λ b. refl;
  bytes_filled = λ b h. h;
}

-- A negative code and two details.
abbrev lost : Status ℕ
lost = record { code = negsuc 4; message = codes "lost"; details = 7 ∷ 8 ∷ [] }

unmarshal_status-marshal_status_example :
    unmarshal_status wire (
      1 ∷ 0 ∷ 18446744073709551611 ∷ 2 ∷ 2 ∷ 4 ∷ 108 ∷ 111 ∷ 115 ∷ 116 ∷ 3 ∷ 2 ∷ 1 ∷ 7 ∷ 3 ∷ 2 ∷ 1
      ∷ 8 ∷ [])
    ≡ done lost
unfolding marshal_status
unmarshal_status-marshal_status_example =
    unmarshal_status-marshal_status wire wire-IsProtowire lost _ (omega arith) refl

unmarshal_status-ne-stuck_example : unmarshal_status wire (9 ∷ 2 ∷ 200 ∷ 1 ∷ []) ≢ stuck
unmarshal_status-ne-stuck_example =
    unmarshal_status-ne-stuck wire wire-IsProtowire (9 ∷ 2 ∷ 200 ∷ 1 ∷ [])

abbrev missing : RpcError ℕ
missing = record {
  code = code_not_found;
  message = codes "no user";
  meta = (codes "X-Trace", codes "a" ∷ []) ∷ [];
  details = 7 ∷ [];
}

-- The error as a handler returns it, wrapped once.
abbrev missing_chain : List (Link ℕ)
missing_chain = other (codes "load: no user") ∷ rpc missing ∷ []

abbrev missing_response : HttpResponse
missing_response = record {
  status = codes "404 Not Found";
  header = (write_error wire encodings [] missing_chain).header;
  body = (write_error wire encodings [] missing_chain).body;
}

from_http-write_error_example :
    ((write_error wire encodings [] missing_chain).status_code ≢ 200)
    × (from_http wire encodings missing_response ≡ record {
      code = code_not_found;
      message = codes "no user";
      meta = missing_response.header;
      details = 7 ∷ [];
    })
unfolding from_error message get add_all
from_http-write_error_example =
    from_http-write_error wire wire-IsProtowire encodings encodings-IsEncodings [] missing_chain []
      missing missing_response refl (omega arith) (λ h. absurd (ground arith)) tt refl
      ((7 ∷ [], refl), tt) refl refl refl
