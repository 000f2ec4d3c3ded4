-- ===== src/Client/Calls.antt =====
-- client/client.go and client/unary.go: the configuration of a client and of a call, with the header
-- maps as a store: a configuration is copied with the address of its map.
pub mod Laws
use zara_rpc.Common.{
  ◌≡◌, ℕ, suc, ◌+◌, Bool, true, false, not, Option, none, some, List, [], ◌∷◌, ◌++◌, Text, codes, ℤ,
  pos, ltℤ, if◌then◌else◌, ◌==◌, reverse,
}
use zara_rpc.Common.Result.{Result, ok, err}
use zara_rpc.Codes.{Code, code_deadline_exceeded, code_canceled, code_internal}
use zara_rpc.Metadata.Timeout.{format_grpc_timeout}
use zara_rpc.Middleware.{chain_interceptors}
use zara_rpc.Status.Headers.{add, Header, set, add_header}
use zara_rpc.Client.Retry.{RetryPolicy, normalize}

-- The types that the code leaves to others.
pub record Parts : Type 1 where
  pub Codec : Type 0
  pub HttpClient : Type 0
  pub StreamInterceptor : Type 0
  pub Invoker : Type 0

-- `clientConfig`; `headers` is the address of the map, a deadline is its text in RFC3339, and none
-- is the zero time.
pub record Config (P : Parts) : Type 0 where
  pub codec : P.Codec
  pub http_client : P.HttpClient
  pub headers : ℕ
  pub is_websocket : Bool
  pub stream_interceptors : List P.StreamInterceptor
  pub unary_interceptors : List (P.Invoker → P.Invoker)
  pub retry_policy : Option RetryPolicy
  pub timeout : ℤ
  pub deadline : Option Text

-- The maps by their addresses, and the address of the next one.
pub record Store : Type 0 where
  pub next : ℕ
  pub maps : ℕ → Header

abbrev pub write : ℕ → Header → Store → Store
write p h s = record { next = s.next; maps = λ q. if q == p then h else s.maps q }

-- A new map, at the address `next`.
abbrev pub allocate : Header → Store → Store
allocate h s = record { next = suc s.next; maps = λ q. if q == s.next then h else s.maps q }

-- The options of client.go.
pub data ClientOption (P : Parts) : Type 0 where
  with_codec : P.Codec → ClientOption P
  with_http_client : P.HttpClient → ClientOption P
  with_header : Text → Text → ClientOption P
  with_server_stream_transport : Bool → ClientOption P
  with_stream_interceptors : List P.StreamInterceptor → ClientOption P
  with_unary_interceptors : List (P.Invoker → P.Invoker) → ClientOption P
  with_retry_policy : RetryPolicy → ClientOption P
  with_timeout : ℤ → ClientOption P
  with_deadline : Option Text → ClientOption P

-- strings.TrimLeft(s, "/"); TrimRight goes through the reversed text.
abbrev pub drop_slashes : Text → Text
drop_slashes [] = []
drop_slashes (c ∷ s) = if c == b'/' then drop_slashes s else c ∷ s

module _ {P : Parts} where
  -- What an option does to the configuration.
  unfoldable pub configure : ClientOption P → Config P → Config P
  unfolding normalize
  configure (with_codec c) cfg = record cfg { codec = c }
  configure (with_http_client hc) cfg = record cfg { http_client = hc }
  configure (with_header k v) cfg = cfg
  configure (with_server_stream_transport t) cfg = record cfg { is_websocket = t }
  configure (with_stream_interceptors is) cfg = record cfg {
    stream_interceptors = cfg.stream_interceptors ++ is;
  }
  configure (with_unary_interceptors is) cfg = record cfg {
    unary_interceptors = cfg.unary_interceptors ++ is;
  }
  configure (with_retry_policy p) cfg = record cfg { retry_policy = some (normalize p) }
  configure (with_timeout d) cfg = record cfg { timeout = d }
  configure (with_deadline t) cfg = record cfg { deadline = t }

  -- What it does to the map at an address.
  unfoldable pub configure_headers : ClientOption P → ℕ → Store → Store
  unfolding add_header
  configure_headers (with_header k v) p s = write p (add_header k v (s.maps p)) s
  configure_headers _ p s = s

  unfoldable pub apply_options : List (ClientOption P) → Config P → Store → Config P × Store
  unfolding configure configure_headers
  apply_options [] cfg s = (cfg, s)
  apply_options (opt ∷ opts) cfg s =
      apply_options opts (configure opt cfg) (configure_headers opt cfg.headers s)

  -- `defaultClientConfig`, given JSONCodec and http.DefaultClient, with its new map.
  abbrev pub default_client_config : P.Codec → P.HttpClient → ℕ → Config P
  default_client_config json hc p = record {
    codec = json;
    http_client = hc;
    headers = p;
    is_websocket = false;
    stream_interceptors = [];
    unary_interceptors = [];
    retry_policy = none;
    timeout = pos 0;
    deadline = none;
  }

  -- `NewClientBase`
  unfoldable pub new_client_base :
      P.Codec → P.HttpClient → Text → List (ClientOption P) → Store → Text × Config P × Store
  unfolding apply_options
  new_client_base json hc base_url opts s =
      let (cfg, s') = apply_options opts (default_client_config json hc s.next) (allocate [] s) in
      (reverse (drop_slashes (reverse base_url)), cfg, s')

  -- The deadline header of a configuration, in a header.
  unfoldable pub set_deadline : Config P → Header → Header
  unfolding set format_grpc_timeout
  set_deadline cfg h =
      if ltℤ (pos 0) cfg.timeout
      then set (codes "Grpc-Timeout") (format_grpc_timeout cfg.timeout) h
      else elim cfg.deadline [ none ↦ h | some t ↦ set (codes "Grpc-Deadline") t h ]

  -- `applyDeadline`, what it does to the maps.
  unfoldable pub apply_deadline : Config P → Store → Store
  unfolding set_deadline
  apply_deadline cfg s = write cfg.headers (set_deadline cfg (s.maps cfg.headers)) s

  -- The head of `DoUnary`: the configuration of the call.
  unfoldable pub call_config : Config P → List (ClientOption P) → Store → Config P × Store
  unfolding apply_options
  call_config base [] s = (base, s)
  call_config base (opt ∷ opts) s =
      apply_options (opt ∷ opts) (record base { headers = s.next })
        (allocate (s.maps base.headers) s)

  -- `DoUnary` up to its invoker, where the request is encoded without an error: the errors in between
  -- are those of Client.Request.
  unfoldable pub prepare_call : Config P → List (ClientOption P) → Store → Config P × Store
  unfolding call_config apply_deadline
  prepare_call base opts s = let (cfg, s') = call_config base opts s in (cfg, apply_deadline cfg s')

  -- `buildInvoker`, for the retry loop of a policy.
  unfoldable pub build_invoker :
      (RetryPolicy → P.Invoker → P.Invoker) → P.Invoker → Config P → P.Invoker
  unfolding chain_interceptors
  build_invoker retry invoke cfg =
      let chained = chain_interceptors cfg.unary_interceptors invoke in
      elim cfg.retry_policy [ none ↦ chained | some p ↦ retry p chained ]

-- How an attempt ends: the client fails with an error, and the context may have expired or been
-- canceled; or there is a response with its status code, and what is read of its body.
pub data Attempt (F : Type 0) : Type 0 where
  broken : Bool → Bool → F → Attempt F
  answered : ℕ → F → Option Text → Attempt F

-- `invokeUnary` behind the request: the length of the body and the message, or an error. The
-- errors are those of a code, of `FromHTTP`, and of the HTTP client.
unfoldable pub invoke_unary :
    {F M : Type 0} → (Code → F) → (Text → Option M) → Attempt F → Result F (Text × M)
invoke_unary error unmarshal (broken expired canceled e) =
    if expired
    then err (error code_deadline_exceeded)
    else if canceled
    then err (error code_canceled)
    else err e
invoke_unary error unmarshal (answered status from_http body) =
    if not (status == 200) then err from_http else elim body [
      | none ↦ err (error code_internal)
      | some b ↦ elim (unmarshal b) [ none ↦ err (error code_internal) | some m ↦ ok (b, m) ]
    ]
