-- ===== src/Transport/Framing.antt =====
-- encoding/codec.go: what the text framings ask of a `Codec`, and the payload of a line.
use zara_rpc.Common.{
  subst, ◌≡◌, refl, Bool, false, Option, none, some, Text, contains_byte, IsTrimmed, if◌then◌else◌,
  Bool-cases, inl, inr, Option-cases, sym, ap, ◌∙◌,
}
use zara_rpc.Codes.{Code}

-- `Codec` for messages of one type, with base64.StdEncoding. `none` is an error.
pub record Codec (M : Type 0) : Type 0 where
  pub is_binary : Bool
  pub marshal : M → Option Text
  pub unmarshal : Text → Option M
  pub encode64 : Text → Text
  pub decode64 : Text → Option Text

-- What a stream's `Receive` returns: a message, io.EOF, or an error with its code.
pub data Received (M : Type 0) : Type 0 where
  message : M → Received M
  end_of_stream : Received M
  failed : Code → Received M

module _ {M : Type 0} (C : Codec M) where
  -- What a `Send` puts between its delimiters.
  unfoldable pub encode : M → Option Text
  encode m = elim (C.marshal m) [
    | none ↦ none
    | some raw ↦ some (if C.is_binary then C.encode64 raw else raw)
  ]

  -- What a `Receive` makes of a payload that is not empty, or the code of its error.
  unfoldable pub decode : Code → Text → Received M
  decode code line = elim (if C.is_binary then C.decode64 line else some line) [
    | none ↦ failed code
    | some raw ↦ elim (C.unmarshal raw) [ none ↦ failed code | some m ↦ message m ]
  ]

abbrev pub IsLine : Text → Type 0
IsLine s = (contains_byte s b'\n' ≡ false) × IsTrimmed s

-- The documented behaviour of a codec and of base64. What a text codec writes, and base64, has no
-- newline and no space at its ends.
pub record IsCodec {M : Type 0} (C : Codec M) : Type 0 where
  pub message_read : (m : M) (raw : Text) → C.marshal m ≡ some raw → C.unmarshal raw ≡ some m
  pub bytes_read : (raw : Text) → C.decode64 (C.encode64 raw) ≡ some raw
  pub text_line : (m : M) (raw : Text) → C.is_binary ≡ false → C.marshal m ≡ some raw → IsLine raw
  pub base64_line : (raw : Text) → IsLine (C.encode64 raw)

module _ {M : Type 0} (C : Codec M) (L : IsCodec C) where
  encode-eq-some :
      (m : M) (b : Text)
      → encode C m ≡ some b
      → (raw : Text) × (C.marshal m ≡ some raw)
        × (b ≡ (if C.is_binary then C.encode64 raw else raw))
  unfolding encode
  encode-eq-some m b e = elim (Option-cases (C.marshal m)) [
    | inl none_left ↦ absurd (cc (rw (encode, none_left) at e))
    | inr (raw, h) ↦ (raw, h, cc (rw (encode, h) at e))
  ]

  -- A payload is one line.
  pub encode-IsLine : (m : M) (b : Text) → encode C m ≡ some b → IsLine b
  encode-IsLine m b e =
      let (raw, h, same) = encode-eq-some m b e in
      elim (Bool-cases C.is_binary) [
        | inl binary ↦
            subst IsLine (sym (same ∙ ap (λ x. if x then C.encode64 raw else raw) binary))
              (L.base64_line raw)
        | inr plain ↦
            subst IsLine (sym (same ∙ ap (λ x. if x then C.encode64 raw else raw) plain))
              (L.text_line m raw plain h)
      ]

  -- What a `Send` wrote, a `Receive` reads.
  pub decode-encode :
      (code : Code) (m : M) (b : Text) → encode C m ≡ some b → decode C code b ≡ message m
  unfolding decode
  decode-encode code m b e =
      let (raw, h, same) = encode-eq-some m b e in
      rw (decode, same)
        (elim (Bool-cases C.is_binary) [
          | inl binary ↦ rw (binary, L.bytes_read raw, L.message_read m raw h) refl
          | inr plain ↦ rw (plain, L.message_read m raw h) refl
        ])
