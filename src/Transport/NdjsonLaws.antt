-- ===== src/Transport/NdjsonLaws.antt =====
-- transport/ndjson/ndjson.go and client/ndjson.go: what the client sends, the server receives.
use zara_rpc.Common.{
  append-nil, Bool-cases, ◌≡◌, refl, sym, ap, ◌∙◌, ℕ, zero, suc, ◌≤◌, false, none, some, List, [],
  ◌∷◌, ◌++◌, Text, trim_space, trim_right, cut_line-append, trim_right-newline, trim_left-starts,
  is_empty, if◌then◌else◌, All, length, inl, inr, Bool-cases, append_assoc, append-nil, arith,
}
use zara_rpc.Common.Result.{Result, ok}
use zara_rpc.Codes.{Code, code_invalid_argument}
use zara_rpc.Transport.Framing.{
  Codec, Received, message, end_of_stream, failed, encode, IsCodec, IsLine, encode-IsLine,
  decode-encode,
}
use zara_rpc.Transport.Ndjson.{receive, receive_line, WriteStream, take_result, send, send_all}

-- A payload with its newline is trimmed to the payload.
trim_space-IsLine : (b : Text) → IsLine b → trim_space (b ++ (b'\n' ∷ [])) ≡ b
trim_space-IsLine [] h = refl
trim_space-IsLine (c ∷ b) (one, (first, last)) =
    ap trim_right (trim_left-starts c (b ++ (b'\n' ∷ [])) first) ∙ trim_right-newline (c ∷ b) ∙ last

module _ {M : Type 0} (C : Codec M) where
  -- A message with its payload.
  abbrev pub Encodes : M → Type 0
  Encodes m = (b : Text) × (encode C m ≡ some b)

  abbrev pub payload : M → Text
  payload m = elim (encode C m) [ none ↦ [] | some b ↦ b ]

  -- The messages before the first one whose payload is empty.
  unfoldable pub before_empty : List M → List M
  before_empty [] = []
  before_empty (m ∷ ms) =
      let rest = before_empty ms in if is_empty (payload m) then [] else m ∷ rest

  abbrev next : (Text → List M) → Received M × Text → List M
  next more (message m, rest) = m ∷ more rest
  next more (end_of_stream, rest) = []
  next more (failed code, rest) = []

  -- The messages that `n` calls of `Receive` give, up to the first other result.
  unfoldable pub received : ℕ → Text → List M
  received zero input = []
  received (suc n) input = next (received n) (receive C input)

  abbrev lines : List M → Text
  lines [] = []
  lines (m ∷ ms) = payload m ++ (b'\n' ∷ lines ms)

  payload-some : (m : M) (b : Text) → encode C m ≡ some b → payload m ≡ b
  payload-some m b e = rw (payload, e) refl

module _ {M : Type 0} (C : Codec M) (L : IsCodec C) where
  receive_line-encode :
      (m : M) (b : Text)
      → encode C m ≡ some b
      → receive_line C b ≡ (if is_empty b then end_of_stream else message m)
  receive_line-encode m [] e = refl
  receive_line-encode m (c ∷ b) e = decode-encode C L code_invalid_argument m (c ∷ b) e

  -- The server's `Receive` on a line of the client.
  receive_first :
      (m : M) (b rest : Text)
      → encode C m ≡ some b
      → receive C (b ++ (b'\n' ∷ rest)) ≡ ((if is_empty b then end_of_stream else message m), rest)
  unfolding receive
  receive_first m b rest e =
      let line = encode-IsLine C L m b e in
      rw (receive, cut_line-append b rest line.0)
        (ap (λ t. (t, rest))
          (ap (receive_line C) (trim_space-IsLine b line) ∙ receive_line-encode m b e))

  received-lines :
      (n : ℕ) (ms : List M)
      → length ms ≤ n
      → All (Encodes C) ms
      → received C n (lines C ms) ≡ before_empty C ms
  unfolding received before_empty receive
  received-lines zero [] enough h = refl
  received-lines (suc n) [] enough h = refl
  received-lines zero (m ∷ ms) enough h = absurd (omega arith)
  received-lines (suc n) (m ∷ ms) enough ((b, e), hs) =
      let same = payload-some C m b e in
      ap (λ t. received C (suc n) (t ++ (b'\n' ∷ lines C ms))) same
      ∙ ap (next C (received C n)) (receive_first m b (lines C ms) e)
      ∙ rw (before_empty, same)
          (elim (Bool-cases (is_empty b)) [
            | inl empty ↦ rw empty refl
            | inr filled ↦ rw filled (ap (◌∷◌ m) (received-lines n ms (omega arith) hs))
          ])

module _ {F : Type 0} where
  -- A stream without a result, and none waits.
  abbrev pub awaiting : Text → WriteStream F
  awaiting written = record { channel = none; result = none; written = written; closed = false }

module _ {M F : Type 0} (C : Codec M) (error : Code → F) (from_http : ℕ → Text → F) where
  -- One `Send` appends the payload and a newline.
  send-awaiting :
      (w : Text) (m : M) (b : Text)
      → encode C m ≡ some b
      → send C error from_http (awaiting w) m ≡ (ok tt, awaiting (w ++ (b ++ (b'\n' ∷ []))))
  unfolding send take_result
  send-awaiting w m b e = rw (send, e) refl

  send_all-awaiting :
      (w : Text) (ms : List M)
      → All (Encodes C) ms
      → send_all C error from_http (awaiting w) ms ≡ awaiting (w ++ lines C ms)
  unfolding send_all
  send_all-awaiting w [] h = ap awaiting (sym (append-nil w))
  send_all-awaiting w (m ∷ ms) ((b, e), hs) =
      ap (λ (r : Result F (Unit {0}) × WriteStream F). send_all C error from_http r.1 ms)
        (send-awaiting w m b e)
      ∙ send_all-awaiting (w ++ (b ++ (b'\n' ∷ []))) ms hs
      ∙ ap awaiting (rw (payload-some C m b e, append_assoc w, append_assoc b) refl)

  -- Of the messages that a client sends before the server answers, the server's calls of `Receive`,
  -- up to the first that gives no message, give exactly those in front of the first message whose
  -- payload is empty, in their order. Every message can be encoded, there are calls enough, and the
  -- codec and base64 are as documented.
  pub received-send_all :
      IsCodec C
      → (n : ℕ) (ms : List M) → length ms ≤ n
      → All (Encodes C) ms
      → received C n (send_all C error from_http (awaiting []) ms).written ≡ before_empty C ms
  received-send_all L n ms enough h =
      ap (λ s. received C n s.written) (send_all-awaiting [] ms h)
      ∙ received-lines C L n ms enough h
