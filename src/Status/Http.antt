-- ===== src/Status/Http.antt =====
-- status/status.go: the error that a client makes of a response. Packages encoding/json and
-- encoding/base64 are parameters.
use zara_rpc.Common.{
  not, Option, none, some, List, [], Text, codes, is_empty, if◌then◌else◌, pos, ◌==ℤ◌,
}
use zara_rpc.Codes.{Code, code_from_string, code_unknown}
use zara_rpc.Status.{RpcError}
use zara_rpc.Status.Headers.{Header, get}
use zara_rpc.Status.Wire.{
  Status, Protowire, done, failed, stuck, to_int32, to_uint64, unmarshal_status, marshal_status,
}

-- `json.Marshal` of the code and the message, and the decoder of the two, where a missing field is
-- "". `decode64` fails on what is no base64.
pub record Encodings : Type 0 where
  pub encode_body : Text → Text → Text
  pub decode_body : Text → Option (Text × Text)
  pub encode64 : Text → Text
  pub decode64 : Text → Option Text

-- The parts of an http.Response that the code reads; `status` is such as "404 Not Found".
pub record HttpResponse : Type 0 where
  pub status : Text
  pub header : Header
  pub body : Text

-- metadata.HeaderGrpcStatusDetails
abbrev pub details_key : Text
details_key = codes "Grpc-Status-Details-Bin"

module _ {A : Type 0} (W : Protowire A) where
  -- `MarshalStatus`
  unfoldable pub marshal_error : Code → Text → List A → Option Text
  unfolding marshal_status
  marshal_error code text details =
      marshal_status W
        (record { code = to_int32 (to_uint64 code); message = text; details = details })

module _ (E : Encodings) where
  -- The code and the message of the body, over those given.
  unfoldable pub read_body : Text → Code → Text → Code × Text
  read_body body code text = elim (E.decode_body body) [
    | none ↦ (code, text)
    | some (name, m) ↦ (
      elim (code_from_string name) [ none ↦ code | some c ↦ c ],
      if not (is_empty m) then m else text,
    )
  ]

abbrev pub override : {A : Type 0} → RpcError A → Status A → RpcError A
override e st = record {
  code = if not (st.code ==ℤ pos 0) then st.code else e.code;
  message = if not (is_empty st.message) then st.message else e.message;
  meta = e.meta;
  details = st.details;
}

module _ {A : Type 0} (W : Protowire A) (E : Encodings) where
  -- The header over the body.
  unfoldable pub read_details : Text → RpcError A → RpcError A
  unfolding unmarshal_status
  read_details v e =
      if not (is_empty v)
      then elim (E.decode64 v) [
        | none ↦ e
        | some b ↦ elim (unmarshal_status W b) [ done st ↦ override e st | failed ↦ e | stuck ↦ e ]
      ]
      else e

  -- `FromHTTP`
  unfoldable pub from_http : HttpResponse → RpcError A
  unfolding read_body read_details
  from_http resp =
      let (code, text) = read_body E resp.body code_unknown resp.status in
      read_details (get details_key resp.header)
        (record { code = code; message = text; meta = resp.header; details = [] })
