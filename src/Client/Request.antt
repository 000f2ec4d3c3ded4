-- ===== src/Client/Request.antt =====
-- client/unary.go and client/streams.go: the HTTP request that a call makes. A request message is a
-- message of runtime/populate.go, which the generated clients pass as a pointer of its type and so
-- never as the nil interface; the codec, url.Values.Encode and http.NewRequestWithContext are
-- parameters.
pub mod Laws
use zara_rpc.Common.{
  ◌≡◌, ℕ, suc, Bool, true, false, Option, none, some, List, [], ◌∷◌, ◌++◌, Text, codes, text_eq,
  is_empty, if◌then◌else◌, length,
}
use zara_rpc.Common.Result.{Result, ok, err, ◌>>=◌}
use zara_rpc.Codes.{Code, code_internal, code_invalid_argument}
use zara_rpc.Status.Headers.{Header, set, add_all}
use zara_rpc.Runtime.Convert.{Scalar}
use zara_rpc.Runtime.Populate.{Value, struct, nil, ptr, Fields}
use zara_rpc.Runtime.Substitute.{Field, SubstituteError, substitute_path_params_bound}
use zara_rpc.Runtime.Query.{Printers, path_fields, message_to_query, extract_field_value}
use zara_rpc.Client.Calls.{Parts, Config, Store, ClientOption, apply_options, allocate}

-- What is sent: the method, the URL, the header and the body, `none` for a nil reader.
pub record Request : Type 0 where
  pub method : Text
  pub url : Text
  pub header : Header
  pub body : Option Text

-- A codec on messages and their fields, by its name.
pub record MessageCodec (F D : Type 0) : Type 0 where
  pub name : Text
  pub marshal : Value (Scalar F D) → Option Text

module _ {F D : Type 0} (W : Printers F D) where
  -- The fields of a request that is a struct or a pointer to one; `none` for nil.
  unfoldable pub substituted_fields : Value (Scalar F D) → Option (List Field)
  unfolding path_fields
  substituted_fields (ptr (struct fs)) = some (path_fields W fs)
  substituted_fields (struct fs) = some (path_fields W fs)
  substituted_fields v = none

  -- `SubstitutePathParamsBound` on it: its errors have the code of an invalid argument.
  unfoldable pub substitute_request : Text → Value (Scalar F D) → Result Code (Text × List Text)
  unfolding substitute_path_params_bound substituted_fields
  substitute_request path req = elim (substitute_path_params_bound path (substituted_fields req)) [
    | err e ↦ err code_invalid_argument
    | ok found ↦ ok found
  ]

  module _ (C : MessageCodec F D) (encode_query : Header → Text) where
    -- The body of the message or of its field.
    unfoldable pub marshal_body : Value (Scalar F D) → Result Code (Option Text)
    marshal_body v = elim (C.marshal v) [ none ↦ err code_internal | some bytes ↦ ok (some bytes) ]

    -- The query behind a path.
    unfoldable pub with_query : Text → Header → Text
    with_query path [] = path
    with_query path (e ∷ q) = path ++ (codes "?" ++ encode_query (e ∷ q))

    -- The switch of `DoUnary` over the body mapping: the path with its query, and the body.
    unfoldable pub encode_request :
        Text → List Text → Text → Value (Scalar F D) → Result Code (Text × Option Text)
    unfolding marshal_body with_query message_to_query extract_field_value
    encode_request path bound body v =
        if text_eq body (codes "*")
        then marshal_body v >>= (λ b. ok (path, b))
        else if is_empty body
        then ok (with_query path (message_to_query W bound v), none)
        else elim (extract_field_value v body) [
          | none ↦ err code_invalid_argument
          | some f ↦ marshal_body f >>= (λ b. ok (path, b))
        ]

    -- `DoUnary` up to the deadline: the path with its parameters and its query, and the body.
    unfoldable pub prepare_unary :
        Text → Text → Value (Scalar F D) → Result Code (Text × Option Text)
    unfolding substitute_request encode_request
    prepare_unary path body req =
        substitute_request path req
        >>= (λ (found : Text × List Text). encode_request found.0 found.1 body req)

-- The request of an attempt, `invokeUnary`.
unfoldable pub unary_request : Text → Text → Text → Text → Option Text → Header → Request
unfolding add_all set
unary_request codec_name base_url method path body headers =
    let copied = add_all headers [] in
    record {
      method = method;
      url = base_url ++ path;
      header =
          set (codes "Accept") codec_name
            (elim body [ none ↦ copied | some b ↦ set (codes "Content-Type") codec_name copied ]);
      body = body;
    }

-- The request of `DoServerStream`: it accepts an event stream, and a message is its body.
unfoldable pub server_stream_request : Text → Text → Text → Text → Option Text → Header → Request
unfolding add_all set
server_stream_request codec_name base_url method path body headers =
    let copied = add_all headers [] in
    record {
      method = method;
      url = base_url ++ path;
      header =
          set (codes "Accept") (codes "text/event-stream")
            (elim body [ none ↦ copied | some b ↦ set (codes "Content-Type") codec_name copied ]);
      body = body;
    }

-- The header of the request of `DoClientStream`, whose body is a pipe and whose path is the
-- template.
unfoldable pub client_stream_header : Text → Header → Header
unfolding add_all set
client_stream_header codec_name headers =
    set (codes "Accept") codec_name (set (codes "Content-Type") codec_name (add_all headers []))

module _ {P : Parts} where
  -- The configuration of a stream, whose header map is always a copy.
  unfoldable pub stream_config : Config P → List (ClientOption P) → Store → Config P × Store
  unfolding apply_options
  stream_config base opts s =
      apply_options opts (record base { headers = s.next }) (allocate (s.maps base.headers) s)
