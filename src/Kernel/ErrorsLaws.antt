-- ===== src/Kernel/ErrorsLaws.antt =====
-- kernel/handler.go and status/status.go: the error that a handler returns is the one that the
-- client gets.
use zara_rpc.Common.{
  ◌≢◌, ap₂, subst, ◌≡◌, refl, sym, ap, ◌∙◌, ◌<◌, false, some, List, [], ◌∷◌, Text, codes, is_empty,
  All, pos, negsuc, arith, lookup-insert, text_eq_refl, text_eq,
}
use zara_rpc.Codes.{code_ok, Code, string, code_unknown, http_status}
use zara_rpc.Codes.Laws.{string_ascii, IsCode, code_from_string-string}
use zara_rpc.Status.{RpcError, Link, message, from_error, code_of_error}
use zara_rpc.Status.Headers.{Header, get, set, add_all}
use zara_rpc.Status.Wire.{
  read_fields, Status, Protowire, done, to_int32, to_uint64, unmarshal_status, marshal_status,
  append_details,
}
use zara_rpc.Status.WireLaws.{
  IsInt32, IsProtowire, to_int32-to_uint64, unmarshal_status-marshal_status,
}
use zara_rpc.Status.Http.{
  Encodings, HttpResponse, details_key, read_body, override, read_details, from_http, marshal_error,
}
use zara_rpc.Kernel.Errors.{content_type_key, set_details, as_rpc_error, write_error}

-- The documented behaviour of the packages: valid UTF-8 survives JSON, and every code's name is
-- valid; any bytes survive base64, which makes something of something.
pub record IsEncodings (E : Encodings) (IsUtf8 : Text → Type 0) : Type 0 where
  pub ascii : (s : Text) → All (λ c. c < 128) s → IsUtf8 s
  pub body_read :
      (n m : Text) → IsUtf8 n → IsUtf8 m → E.decode_body (E.encode_body n m) ≡ some (n, m)
  pub bytes_read : (b : Text) → E.decode64 (E.encode64 b) ≡ some b
  pub bytes_filled : (b : Text) → is_empty b ≡ false → is_empty (E.encode64 b) ≡ false

pub get-set : (k v : Text) (h : Header) → get k (set k v h) ≡ v
unfolding get set
get-set k v h = rw (lookup-insert k k (v ∷ []) h, text_eq_refl k) refl

get-set_other : (k j v : Text) (h : Header) → text_eq j k ≡ false → get k (set j v h) ≡ get k h
unfolding get set
get-set_other k j v h other = rw (lookup-insert j k (v ∷ []) h, other) refl

IsInt32-code : (c : Code) → IsCode c → IsInt32 c
IsInt32-code (pos n) h = omega arith
IsInt32-code (negsuc n) h = absurd h

module _ {A : Type 0} (W : Protowire A) (L : IsProtowire W) where
  -- A detail that proto.Marshal accepts.
  abbrev pub Marshals : A → Type 0
  Marshals d = (b : Text) × (W.marshal d ≡ some b)

  append_details-some :
      (b : Text) (ds : List A) → All Marshals ds → (out : Text) × (append_details W b ds ≡ some out)
  unfolding append_details
  append_details-some b [] h = (b, refl)
  append_details-some b (d ∷ ds) ((v, e), hs) =
      let (out, rest) = append_details-some (W.append_bytes (W.append_tag b 3 2) v) ds hs in
      (out, rw (append_details, e) rest)

  filled :
      (out : Text) (c : Code) (m : Text) (d : A) (ds : List A)
      → unmarshal_status W out ≡ done (record { code = c; message = m; details = d ∷ ds })
      → is_empty out ≡ false
  unfolding unmarshal_status read_fields
  filled [] c m d ds back = cc
  filled (x ∷ out) c m d ds back = refl

  -- The message of an error with a detail is not empty, and reads back as the error.
  marshal_error-some :
      (c : Code) (m : Text) (d : A) (ds : List A)
      → IsCode c
      → All Marshals (d ∷ ds)
      → (out : Text) × (marshal_error W c m (d ∷ ds) ≡ some out)
        × (is_empty out ≡ false)
        × (unmarshal_status W out ≡ done (record { code = c; message = m; details = d ∷ ds }))
  unfolding marshal_error marshal_status
  marshal_error-some c m d ds known h =
      let same : to_int32 (to_uint64 c) ≡ c = to_int32-to_uint64 c (IsInt32-code c known) in
      let st : Status A = record { code = to_int32 (to_uint64 c); message = m; details = d ∷ ds } in
      let (out, e) =
        append_details-some
          (W.append_bytes
            (W.append_tag (W.append_varint (W.append_tag [] 1 0) (to_uint64 st.code)) 2 2) m)
          (d ∷ ds) h in
      let read : unmarshal_status W out ≡ done st =
        unmarshal_status-marshal_status W L st out (subst IsInt32 (sym same) (IsInt32-code c known))
          e in
      let back : unmarshal_status W out
          ≡ done (record { code = c; message = m; details = d ∷ ds }) =
        read ∙ ap (λ (x : Code). done (record { code = x; message = m; details = d ∷ ds })) same in
      (out, e, filled out c m d ds back, back)

module _ {A : Type 0} (W : Protowire A) (L : IsProtowire W) (E : Encodings) {IsUtf8 : Text → Type 0}
    (I : IsEncodings E IsUtf8) where
  read_details-encode64 :
      (b : Text) (e : RpcError A) (st : Status A)
      → is_empty b ≡ false
      → unmarshal_status W b ≡ done st
      → read_details W E (E.encode64 b) e ≡ override e st
  unfolding read_details
  read_details-encode64 b e st some_bytes h =
      rw (read_details, I.bytes_filled b some_bytes, I.bytes_read b, h) refl

  override_same :
      (c : Code) (m : Text) (meta : Header) (ds : List A)
      → override
          (record { code = c; message = m; meta = meta; details = [] })
          (record { code = c; message = m; details = ds })
        ≡ record { code = c; message = m; meta = meta; details = ds }
  override_same c m meta ds = ground arith

  -- What the client makes of the details header.
  read_details-set_details :
      (c : Code) (m : Text) (ds : List A) (h meta : Header)
      → IsCode c
      → All (Marshals W L) ds
      → get details_key h ≡ []
      → read_details W E
          (get details_key (set_details W E c m ds h))
          (record { code = c; message = m; meta = meta; details = [] })
        ≡ record { code = c; message = m; meta = meta; details = ds }
  unfolding set_details
  read_details-set_details c m [] h meta known marshals none_yet =
      rw none_yet (unfold read_details in refl)
  read_details-set_details c m (d ∷ ds) h meta known marshals none_yet =
      let (b, e, some_bytes, back) = marshal_error-some W L c m d ds known marshals in
      rw (set_details, e)
        (rw (get-set details_key (E.encode64 b) h)
          (read_details-encode64 b _ _ some_bytes back ∙ override_same c m meta (d ∷ ds)))

  read_body-encode_body :
      (c : Code) (m status : Text)
      → IsCode c
      → IsUtf8 m
      → is_empty m ≡ false
      → read_body E (E.encode_body (string c) m) code_unknown status ≡ (c, m)
  unfolding read_body
  read_body-encode_body c m status known valid some_text =
      rw
        (
          read_body,
          I.body_read (string c) m (I.ascii (string c) (string_ascii c known)) valid,
          code_from_string-string c known,
          some_text,
        )
        refl

  -- What is written for a status in a chain.
  write_error_found :
      (h : Header) (chain below : List (Link A)) (e : RpcError A)
      → from_error chain ≡ some (e, below)
      → write_error W E h chain ≡ record {
        status_code = http_status e.code;
        header =
            set_details W E e.code
              (message e below)
              e.details
              (set content_type_key (codes "application/json") (add_all e.meta h));
        body = E.encode_body (string e.code) (message e below);
      }
  unfolding write_error as_rpc_error code_of_error
  write_error_found h chain below e found =
      rw (write_error, as_rpc_error, code_of_error, found) refl

  -- Of the seventeen codes, ok alone is written with status 200.
  http_status-ne-200 : (c : Code) → IsCode c → c ≢ code_ok → http_status c ≢ 200
  unfolding http_status
  http_status-ne-200 c known fails = ground arith

  -- The error that a handler returns is the one that the client gets: the response does not have
  -- status 200, with which a client reads no error, and the client makes of it the code, the message
  -- and the details of the first status in the chain of the error, with the header of the response
  -- for its metadata. The code is one of the seventeen but ok, the message some text of valid UTF-8,
  -- every detail can be marshalled, and neither the metadata of the error, in any spelling of its
  -- keys, nor the header of the writer brings a details header of its own. The response has the body
  -- and the details header that were written, and the packages of the encodings are as documented.
  pub from_http-write_error :
      (h : Header) (chain below : List (Link A)) (e : RpcError A) (resp : HttpResponse)
      → from_error chain ≡ some (e, below)
      → IsCode e.code
      → e.code ≢ code_ok
      → IsUtf8 (message e below)
      → is_empty (message e below) ≡ false
      → All (Marshals W L) e.details
      → get details_key (add_all e.meta h) ≡ []
      → resp.body ≡ (write_error W E h chain).body
      → get details_key resp.header ≡ get details_key (write_error W E h chain).header
      → ((write_error W E h chain).status_code ≢ 200)
        × (from_http W E resp ≡ record {
          code = e.code;
          message = message e below;
          meta = resp.header;
          details = e.details;
        })
  unfolding from_http
  from_http-write_error h chain below e resp found known fails valid some_text marshals none_yet
        body header =
      let written = write_error_found h chain below e found in
      let parts : read_body E resp.body code_unknown resp.status ≡ (e.code, message e below) =
        ap (λ b. read_body E b code_unknown resp.status) (body ∙ ap (λ w. w.body) written)
        ∙ read_body-encode_body e.code (message e below) resp.status known valid some_text in
      (
        λ is_ok.
            http_status-ne-200 e.code known fails (sym (ap (λ w. w.status_code) written) ∙ is_ok),
        ap₂
              (λ (p : Code × Text) v.
                read_details W E v
                  (record { code = p.0; message = p.1; meta = resp.header; details = [] }))
              parts (header ∙ ap (λ w. get details_key w.header) written)
            ∙ read_details-set_details e.code (message e below) e.details _ resp.header known
                marshals
                (get-set_other details_key content_type_key _ (add_all e.meta h) refl ∙ none_yet),
      )
