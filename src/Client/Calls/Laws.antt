-- ===== src/Client/Calls/Laws.antt =====
-- client/client.go and client/unary.go: which header map a call writes to, and what the server makes
-- of its deadline.
use zara_rpc.Common.{
  ◌≡◌, ◌≢◌, refl, ap, ◌∙◌, ℕ, ◌<◌, ◌≤◌, false, some, List, [], ◌∷◌, Text, codes, ℤ, pos, ==_refl,
  ltb_iff, arith, is_empty,
}
use zara_rpc.Metadata.Deadline.{Clock}
use zara_rpc.Metadata.Timeout.{format_grpc_timeout, parse_grpc_timeout, max_int64}
use zara_rpc.Metadata.TimeoutLaws.{IsClose, parse_grpc_timeout-format_grpc_timeout}
use zara_rpc.Status.Headers.{Header, set}
use zara_rpc.Kernel.Negotiate.{deadline_from_request}
use zara_rpc.Kernel.ErrorsLaws.{get-set}
use zara_rpc.Client.Calls.{
  Parts, Config, Store, write, allocate, ClientOption, with_codec, with_http_client, with_header,
  with_server_stream_transport, with_stream_interceptors, with_unary_interceptors,
  with_retry_policy, with_timeout, with_deadline, configure, configure_headers, apply_options,
  set_deadline, apply_deadline, call_config, prepare_call,
}

write-other : (p q : ℕ) (h : Header) (s : Store) → q ≢ p → (write p h s).maps q ≡ s.maps q
write-other p q h s other = ground arith

write-same : (p : ℕ) (h : Header) (s : Store) → (write p h s).maps p ≡ h
write-same p h s = rw (==_refl p) refl

parsed_filled : (v : Text) (n : ℤ) → parse_grpc_timeout v ≡ some n → is_empty v ≡ false
unfolding parse_grpc_timeout
parsed_filled [] n e = cc
parsed_filled (c ∷ v) n e = refl

-- The server reads the timeout header first.
deadline_of :
    (h : Header) (v : Text) (m : ℕ) {D : Type 0} (clock : Clock D)
    → parse_grpc_timeout v ≡ some (pos m)
    → deadline_from_request clock (set (codes "Grpc-Timeout") v h) ≡ some (pos m)
unfolding deadline_from_request
deadline_of h v m clock parsed =
    rw
      (
        deadline_from_request,
        get-set (codes "Grpc-Timeout") v h,
        parsed_filled v (pos m) parsed,
        parsed,
      )
      refl

module _ {P : Parts} where
  configure-headers :
      (opt : ClientOption P) (cfg : Config P) → (configure opt cfg).headers ≡ cfg.headers
  unfolding configure
  configure-headers (with_codec c) cfg = refl
  configure-headers (with_http_client hc) cfg = refl
  configure-headers (with_header k v) cfg = refl
  configure-headers (with_server_stream_transport t) cfg = refl
  configure-headers (with_stream_interceptors is) cfg = refl
  configure-headers (with_unary_interceptors is) cfg = refl
  configure-headers (with_retry_policy p) cfg = refl
  configure-headers (with_timeout d) cfg = refl
  configure-headers (with_deadline t) cfg = refl

  configure_headers-other :
      (opt : ClientOption P) (p q : ℕ) (s : Store)
      → q ≢ p
      → (configure_headers opt p s).maps q ≡ s.maps q
  unfolding configure_headers
  configure_headers-other (with_codec c) p q s other = refl
  configure_headers-other (with_http_client hc) p q s other = refl
  configure_headers-other (with_header k v) p q s other = write-other p q _ s other
  configure_headers-other (with_server_stream_transport t) p q s other = refl
  configure_headers-other (with_stream_interceptors is) p q s other = refl
  configure_headers-other (with_unary_interceptors is) p q s other = refl
  configure_headers-other (with_retry_policy r) p q s other = refl
  configure_headers-other (with_timeout d) p q s other = refl
  configure_headers-other (with_deadline t) p q s other = refl

  -- Options write to the map of their configuration only.
  apply_options-other :
      (opts : List (ClientOption P)) (cfg : Config P) (s : Store) (q : ℕ)
      → q ≢ cfg.headers
      → ((apply_options opts cfg s).0.headers ≡ cfg.headers)
        × ((apply_options opts cfg s).1.maps q ≡ s.maps q)
  unfolding apply_options
  apply_options-other [] cfg s q other = (refl, refl)
  apply_options-other (opt ∷ opts) cfg s q other =
      let same = configure-headers opt cfg in
      let (at, untouched) =
        apply_options-other opts (configure opt cfg) (configure_headers opt cfg.headers s) q
          (λ e. other (e ∙ same)) in
      (at ∙ same, untouched ∙ configure_headers-other opt cfg.headers q s other)

  -- A call with options of its own leaves the header map of the client, one of the maps in the
  -- store, as it is. A call without them shares that map: the header of the client's timeout or
  -- deadline is written to it.
  pub prepare_call-headers :
      (base : Config P) (opts : List (ClientOption P)) (s : Store)
      → base.headers < s.next
      → (prepare_call base opts s).1.maps base.headers ≡ (elim opts [
        | [] ↦ set_deadline base (s.maps base.headers)
        | opt ∷ rest ↦ s.maps base.headers
      ])
  unfolding prepare_call call_config apply_deadline
  prepare_call-headers base [] s below = write-same base.headers _ s
  prepare_call-headers base (opt ∷ opts) s below =
      let other : base.headers ≢ s.next = λ e. omega (arith, e) in
      let cfg : Config P = record base { headers = s.next } in
      let s' : Store = allocate (s.maps base.headers) s in
      let done : Config P × Store = apply_options (opt ∷ opts) cfg s' in
      let (at, untouched) = apply_options-other (opt ∷ opts) cfg s' base.headers other in
      write-other done.0.headers base.headers (set_deadline done.0 (done.1.maps done.0.headers))
        done.1 (λ e. other (e ∙ at))
      ∙ untouched
      ∙ write-other s.next base.headers (s.maps base.headers) s other

  set_deadline-timeout :
      (cfg : Config P) (h : Header) (d : ℕ)
      → cfg.timeout ≡ pos d
      → 0 < d
      → set_deadline cfg h ≡ set (codes "Grpc-Timeout") (format_grpc_timeout (pos d)) h
  unfolding set_deadline
  set_deadline-timeout cfg h d at positive = rw (set_deadline, at, (ltb_iff 0 d).1 positive) refl

  -- The timeout of a client, a positive duration, is the deadline that the server derives from the
  -- header that the client sets, whatever other headers there are: never shorter, and longer by at
  -- most one part in 99999.
  pub deadline_from_request-set_deadline :
      (cfg : Config P) (h : Header) {D : Type 0} (clock : Clock D) (d : ℕ)
      → cfg.timeout ≡ pos d
      → 0 < d
      → d ≤ max_int64
      → (m : ℕ) × (deadline_from_request clock (set_deadline cfg h) ≡ some (pos m)) × IsClose d m
  deadline_from_request-set_deadline cfg h clock d at positive fits =
      let (m, parsed, close) = parse_grpc_timeout-format_grpc_timeout d positive fits in
      (
        m,
        ap (deadline_from_request clock) (set_deadline-timeout cfg h d at positive)
            ∙ deadline_of h (format_grpc_timeout (pos d)) m clock parsed,
        close,
      )
