-- ===== src/Kernel/Build.antt =====
-- kernel/builder.go, kernel/options.go, kernel/kernel.go and kernel/registry.go: how operations and
-- services are put together. Setters change the operation in place and return it.
use zara_rpc.Common.{◌≡◌, refl, Option, none, some, List, [], ◌∷◌, ◌++◌, Text}
use zara_rpc.Common.Result.{Result}
use zara_rpc.Kernel.Operation.{
  StreamType, unary_type, server_type, client_type, bidi_type, Types, UnaryFunc, RequestBuilder,
  Operation, compute_spec, default_codec,
}

module _ {T : Types} where
  -- The zero `Operation`.
  abbrev pub zero_operation : Operation T
  zero_operation = record {
    method = [];
    path = [];
    procedure = [];
    rpc = [];
    body = [];
    response_body = [];
    codec = none;
    interceptors = [];
    stream_interceptors = [];
    unary = none;
    server_stream = none;
    client_stream = none;
    bidi_stream = none;
    request_builder = none;
    req_type = none;
    res_type = none;
    stream_type = unary_type;
    spec_cache = record { procedure = []; method = []; path = []; rpc = [] };
  }

  abbrev pub set_method : Text → Operation T → Operation T
  set_method method b = record b { method = method }

  abbrev pub set_path : Text → Operation T → Operation T
  set_path path b = record b { path = path }

  abbrev pub set_procedure : Text → Operation T → Operation T
  set_procedure procedure b = record b { procedure = procedure }

  abbrev pub set_rpc : Text → Operation T → Operation T
  set_rpc rpc b = record b { rpc = rpc }

  abbrev pub set_body : Text → Operation T → Operation T
  set_body body b = record b { body = body }

  abbrev pub set_response_body : Text → Operation T → Operation T
  set_response_body field b = record b { response_body = field }

  abbrev pub set_codec : T.Codec → Operation T → Operation T
  set_codec codec b = record b { codec = some codec }

  abbrev pub set_interceptors : List (UnaryFunc T → UnaryFunc T) → Operation T → Operation T
  set_interceptors interceptors b = record b { interceptors = b.interceptors ++ interceptors }

  abbrev pub set_stream_interceptors : List (T.Stream → T.Stream) → Operation T → Operation T
  set_stream_interceptors interceptors b = record b {
    stream_interceptors = b.stream_interceptors ++ interceptors;
  }

  abbrev pub set_request_builder : RequestBuilder T → Operation T → Operation T
  set_request_builder build b = record b { request_builder = some build }

  abbrev pub set_stream_type : StreamType → Operation T → Operation T
  set_stream_type t b = record b { stream_type = t }

  -- The handler setters, with the message types of the request and the response.
  abbrev pub set_unary_handler :
      T.MessageType → T.MessageType → UnaryFunc T → Operation T → Operation T
  set_unary_handler req res handler b = record b {
    req_type = some req;
    res_type = some res;
    unary = some handler;
  }

  abbrev pub set_server_stream_handler :
      T.MessageType
      → T.MessageType
      → (T.Ctx → T.Request → T.Stream → Option T.Error)
      → Operation T
      → Operation T
  set_server_stream_handler req res handler b = record b {
    req_type = some req;
    res_type = some res;
    stream_type = server_type;
    server_stream = some handler;
  }

  abbrev pub set_client_stream_handler :
      T.MessageType
      → T.MessageType
      → (T.Ctx → T.Stream → Result T.Error T.Response)
      → Operation T
      → Operation T
  set_client_stream_handler req res handler b = record b {
    req_type = some req;
    res_type = some res;
    stream_type = client_type;
    client_stream = some handler;
  }

  abbrev pub set_bidi_stream_handler :
      T.MessageType
      → T.MessageType
      → (T.Ctx → T.Stream → Option T.Error)
      → Operation T
      → Operation T
  set_bidi_stream_handler req res handler b = record b {
    req_type = some req;
    res_type = some res;
    stream_type = bidi_type;
    bidi_stream = some handler;
  }

  -- `Build`, given JSONCodec
  unfoldable pub build : T.Codec → Operation T → Operation T
  unfolding compute_spec
  build json b =
      let op : Operation T = default_codec json b in record op { spec_cache = compute_spec op }

  -- The options, one after the other.
  abbrev pub apply_options : List (Operation T → Operation T) → Operation T → Operation T
  apply_options [] b = b
  apply_options (opt ∷ opts) b = apply_options opts (opt b)

  -- `NewOperation`
  unfoldable pub new_operation :
      T.Codec
      → Text
      → Text
      → T.MessageType
      → T.MessageType
      → UnaryFunc T
      → List (Operation T → Operation T)
      → Operation T
  unfolding build
  new_operation json method path req res handler opts = build json (
      apply_options opts
        (set_unary_handler req res handler (set_path path (set_method method zero_operation))))

  -- `NewServerStreamOperation`
  unfoldable pub new_server_stream_operation :
      T.Codec
      → Text
      → Text
      → T.MessageType
      → T.MessageType
      → (T.Ctx → T.Request → T.Stream → Option T.Error)
      → List (Operation T → Operation T)
      → Operation T
  unfolding build
  new_server_stream_operation json method path req res handler opts = build json (
      apply_options opts (
        set_server_stream_handler req res handler
          (set_path path (set_method method zero_operation))))

  -- `NewClientStreamOperation`
  unfoldable pub new_client_stream_operation :
      T.Codec
      → Text
      → Text
      → T.MessageType
      → T.MessageType
      → (T.Ctx → T.Stream → Result T.Error T.Response)
      → List (Operation T → Operation T)
      → Operation T
  unfolding build
  new_client_stream_operation json method path req res handler opts = build json (
      apply_options opts (
        set_client_stream_handler req res handler
          (set_path path (set_method method zero_operation))))

  -- `NewBidiStreamOperation`
  unfoldable pub new_bidi_stream_operation :
      T.Codec
      → Text
      → Text
      → T.MessageType
      → T.MessageType
      → (T.Ctx → T.Stream → Option T.Error)
      → List (Operation T → Operation T)
      → Operation T
  unfolding build
  new_bidi_stream_operation json method path req res handler opts = build json (
      apply_options opts (
        set_bidi_stream_handler req res handler (set_path path (set_method method zero_operation))))

  -- Whatever the options, a built operation has a codec, and its cached spec is its spec.
  pub build-spec_cache :
      (json : T.Codec) (b : Operation T) → (build json b).spec_cache ≡ compute_spec (build json b)
  unfolding build compute_spec
  build-spec_cache json b = refl

-- `Service`
pub record Service (T : Types) : Type 0 where
  pub name : Text
  pub prefix : Text
  pub operations : List (Operation T)

module _ {T : Types} where
  abbrev pub set_name : Text → Service T → Service T
  set_name name b = record b { name = name }

  abbrev pub set_prefix : Text → Service T → Service T
  set_prefix prefix b = record b { prefix = prefix }

  abbrev pub add_operations : List (Operation T) → Service T → Service T
  add_operations ops b = record b { operations = b.operations ++ ops }

  abbrev pub new_service : Text → List (Operation T) → Service T
  new_service name ops =
      add_operations ops (set_name name (record { name = []; prefix = []; operations = [] }))
