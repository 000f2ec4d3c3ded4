-- ===== src/Transport/SseLaws.antt =====
-- transport/sse/sse.go and client/streams.go: what the server sends, the client receives.
use zara_rpc.Common.{
  ◌≡◌, refl, sym, ap, ◌∙◌, ℕ, zero, suc, ◌+◌, ◌<◌, ◌/◌, ◌%◌, false, none, some, List, [], ◌∷◌, ◌++◌,
  Text, codes, trim_space, trim_right, cut_line, cut_line-append, trim_right-newline,
  trim_left-starts, is_empty, if◌then◌else◌, length, append_assoc, arith, contains_byte, ℤ, pos,
  negsuc, is_space, ◌==◌, Option-cases, inl, inr,
}
use zara_rpc.Codes.{code_internal}
use zara_rpc.Metadata.Decimal.{format_int, digits_from}
use zara_rpc.Transport.Framing.{
  Codec, Received, message, end_of_stream, failed, encode, decode, IsLine,
}
use zara_rpc.Transport.Sse.{
  Outgoing, plain, event, text_field, retry_field, payload_of, fields_of, data_of, receive_from,
  receive, round,
}

-- Lines.
cut_line-length :
    (input line rest : Text) → cut_line input ≡ some (line, rest) → length rest < length input
cut_line-length [] line rest e = cc
cut_line-length (c ∷ input) line rest e = elim (Option-cases (cut_line input)) [
  | inl none_left ↦ ground arith
  | inr ((l, r), h) ↦ ground (arith, cut_line-length input l r h)
]

contains_byte-append :
    (s t : Text) (c : ℕ)
    → contains_byte s c ≡ false
    → contains_byte t c ≡ false
    → contains_byte (s ++ t) c ≡ false
contains_byte-append [] t c hs ht = ht
contains_byte-append (d ∷ s) t c hs ht = ground (arith, contains_byte-append s t c)

digits_from-no_newline : (f n : ℕ) → contains_byte (digits_from f n) b'\n' ≡ false
unfolding digits_from
digits_from-no_newline zero n = refl
digits_from-no_newline (suc f) n = ground (
  arith,
  digits_from-no_newline f (n / 10),
  contains_byte-append (digits_from f (n / 10)) ((b'0' + n % 10) ∷ []) b'\n',
)

trim_right-append :
    (p s t : Text) (c : ℕ) → trim_right s ≡ c ∷ t → trim_right (p ++ s) ≡ p ++ (c ∷ t)
trim_right-append [] s t c h = h
trim_right-append (d ∷ p) s t c h = ground (arith, trim_right-append p s t c h, filled p)
  where
    filled : (p : Text) → is_empty (p ++ (c ∷ t)) ≡ false
    filled [] = refl
    filled (x ∷ p) = refl

trim_right-solid : (c : ℕ) (s : Text) → is_space c ≡ false → trim_right (c ∷ s) ≡ c ∷ trim_right s
trim_right-solid c s solid = ground arith

-- The line of a field is no data.
data_of-field :
    (c : ℕ) (s : Text)
    → is_space c ≡ false
    → (c == b'd') ≡ false
    → data_of (trim_space (c ∷ s)) ≡ []
unfolding data_of
data_of-field c s solid other =
    ap (λ t. data_of (trim_right t)) (trim_left-starts c s (ground arith))
    ∙ ap data_of (trim_right-solid c s solid)
    ∙ rw (data_of, other) refl

-- The line of a payload is the payload.
data_of-payload :
    (b : Text) → IsLine b → data_of (trim_space (codes "data: " ++ (b ++ (b'\n' ∷ [])))) ≡ b
unfolding data_of
data_of-payload [] h = refl
data_of-payload (c ∷ b) (one, (first, last)) =
    ap data_of (
      trim_right-append (codes "data: ") ((c ∷ b) ++ (b'\n' ∷ [])) b c
        (trim_right-newline (c ∷ b) ∙ last))
    ∙ ap trim_right (trim_left-starts c b first)
    ∙ last

module _ {M : Type 0} (C : Codec M) where
  -- More fuel than bytes changes nothing.
  receive_from-fuel :
      (f g : ℕ) (input : Text)
      → length input < f
      → length input < g
      → receive_from C f input ≡ receive_from C g input
  unfolding receive_from
  receive_from-fuel zero g input hf hg = absurd (omega arith)
  receive_from-fuel (suc f) zero input hf hg = absurd (omega arith)
  receive_from-fuel (suc f) (suc g) input hf hg = elim (Option-cases (cut_line input)) [
    | inl none_left ↦ rw (receive_from, none_left) refl
    | inr ((line, rest), h) ↦
        let shorter = cut_line-length input line rest h in
        rw (receive_from, h)
          (ap (λ later. round C later rest (data_of (trim_space line)))
            (receive_from-fuel f g rest (omega arith) (omega arith)))
  ]

  -- A line without data is skipped.
  receive_skip :
      (line rest : Text)
      → contains_byte line b'\n' ≡ false
      → data_of (trim_space (line ++ (b'\n' ∷ []))) ≡ []
      → receive C (line ++ (b'\n' ∷ rest)) ≡ receive C rest
  unfolding receive receive_from
  receive_skip line rest one skipped =
      let cut = cut_line-append line rest one in
      rw (receive_from, cut, skipped)
        (receive_from-fuel (length (line ++ (b'\n' ∷ rest))) (suc (length rest)) rest
          (cut_line-length _ _ rest cut) (omega arith))

  -- The data line of a payload, with the blank line behind it.
  pub receive_data :
      (b rest : Text)
      → IsLine b
      → receive C (codes "data: " ++ (b ++ (b'\n' ∷ b'\n' ∷ rest)))
        ≡ (if is_empty b then receive C rest else (decode C code_internal b, b'\n' ∷ rest))
  unfolding data_of receive receive_from
  receive_data [] rest h =
      receive_skip (codes "data: ") (b'\n' ∷ rest) refl refl ∙ receive_skip [] rest refl refl
  receive_data (c ∷ b) rest (one, ends) =
      let line : Text = codes "data: " ++ (c ∷ b) in
      rw
        (
          receive,
          receive_from,
          cut_line-append line (b'\n' ∷ rest)
              (contains_byte-append (codes "data: ") (c ∷ b) b'\n' refl one),
        )
        (ap (round C _ (b'\n' ∷ rest)) (data_of-payload (c ∷ b) (one, ends)))

  -- A field in front of the data is skipped.
  receive-text_field :
      (c : ℕ) (name value rest : Text)
      → is_space c ≡ false
      → (c == b'd') ≡ false
      → contains_byte (c ∷ name) b'\n' ≡ false
      → contains_byte value b'\n' ≡ false
      → receive C (text_field (c ∷ name) value ++ rest) ≡ receive C rest
  receive-text_field c name [] rest solid other hn hv = refl
  receive-text_field c name (v ∷ value) rest solid other hn hv =
      let line : Text = (c ∷ name) ++ (v ∷ value) in
      ap (λ t. receive C (c ∷ t))
        (append_assoc name ((v ∷ value) ++ (b'\n' ∷ [])) rest
          ∙ ap (λ t. name ++ (v ∷ t)) (append_assoc value (b'\n' ∷ []) rest)
          ∙ sym (append_assoc name (v ∷ value) (b'\n' ∷ rest)))
      ∙ receive_skip line rest (contains_byte-append (c ∷ name) (v ∷ value) b'\n' hn hv)
          (data_of-field c ((name ++ (v ∷ value)) ++ (b'\n' ∷ [])) solid other)

  receive-retry_field : (n : ℤ) (rest : Text) → receive C (retry_field n ++ rest) ≡ receive C rest
  unfolding format_int
  receive-retry_field (pos zero) rest = refl
  receive-retry_field (negsuc n) rest = refl
  receive-retry_field (pos (suc n)) rest =
      ap (λ t. receive C (codes "retry: " ++ t))
        (append_assoc (format_int (suc n)) (b'\n' ∷ []) rest)
      ∙ receive_skip (codes "retry: " ++ format_int (suc n)) rest
          (contains_byte-append (codes "retry: ") (format_int (suc n)) b'\n' refl
            (digits_from-no_newline 20 (suc n)))
          (data_of-field b'r' ((codes "etry: " ++ format_int (suc n)) ++ (b'\n' ∷ [])) refl refl)

  -- The name and the id of an event are on one line each.
  abbrev pub IsFramed : Outgoing M → Type 0
  IsFramed (plain m) = Unit
  IsFramed (event e) = (contains_byte e.name b'\n' ≡ false) × (contains_byte e.id b'\n' ≡ false)

  pub receive-fields_of :
      (out : Outgoing M) (rest : Text)
      → IsFramed out
      → receive C (fields_of out ++ rest) ≡ receive C rest
  receive-fields_of (plain m) rest h = refl
  receive-fields_of (event e) rest (hn, hi) =
      let name : Text = text_field (codes "event: ") e.name in
      let id : Text = text_field (codes "id: ") e.id in
      ap (receive C) (
        append_assoc name (id ++ retry_field e.retry) rest
        ∙ ap (λ t. name ++ t) (append_assoc id (retry_field e.retry) rest))
      ∙ receive-text_field b'e' (codes "vent: ") e.name _ refl refl refl hn
      ∙ receive-text_field b'i' (codes "d: ") e.id _ refl refl refl hi
      ∙ receive-retry_field e.retry rest

  abbrev pub next : (Text → List M) → Received M × Text → List M
  next more (message m, rest) = m ∷ more rest
  next more (end_of_stream, rest) = []
  next more (failed code, rest) = []

  -- The messages that `n` calls of `Receive` give, up to the first other result.
  unfoldable pub received : ℕ → Text → List M
  received zero input = []
  received (suc n) input = next (received n) (receive C input)

  abbrev pub Encodes : Outgoing M → Type 0
  Encodes out = (b : Text) × (encode C (payload_of out) ≡ some b)

  abbrev pub payload : Outgoing M → Text
  payload out = elim (encode C (payload_of out)) [ none ↦ [] | some b ↦ b ]

  -- The messages whose payload is not empty.
  unfoldable pub filled : List (Outgoing M) → List M
  filled [] = []
  filled (out ∷ outs) =
      let rest = filled outs in if is_empty (payload out) then rest else payload_of out ∷ rest

  pub received-blank : (n : ℕ) (input : Text) → received n (b'\n' ∷ input) ≡ received n input
  unfolding received
  received-blank zero input = refl
  received-blank (suc n) input =
      ap (next (received n)) (receive_skip [] input refl (unfold data_of in refl))
