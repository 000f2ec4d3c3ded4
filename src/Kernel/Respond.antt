-- ===== src/Kernel/Respond.antt =====
-- kernel/handler.go: responses, whole or one field of them. A message is a tree of
-- Runtime.Populate behind a pointer, so that a nil pointer on the way to a field is allocated.
use zara_rpc.Common.{
  ◌≡◌, refl, Option, none, some, List, [], ◌∷◌, Text, is_empty, split_byte, if◌then◌else◌, ◌⊎◌, inl,
  inr,
}
use zara_rpc.Codes.{http_status, code_internal}
use zara_rpc.Status.{from_error, code_of_error, new_errorf}
use zara_rpc.Status.Headers.{Header, set, add_all}
use zara_rpc.Status.Wire.{Protowire}
use zara_rpc.Status.Http.{Encodings}
use zara_rpc.Kernel.Errors.{as_rpc_error, Written, content_type_key, write_error}
use zara_rpc.Runtime.Populate.{
  Value, Fields, scalar, slice, struct, nil, ptr, no_fields, field, is_field,
}

-- The loop of `extractField` over the parts of the name.
module _ {S : Type 0} where
  unfoldable mutual
    pub value_at : List Text → Value S → Option (Value S)
    value_at [] v = some v
    value_at (p ∷ ps) (scalar k x) = none
    value_at (p ∷ ps) (slice k xs) = none
    value_at (p ∷ ps) (struct fs) = value_in p ps fs
    value_at (p ∷ ps) (nil v) = value_at (p ∷ ps) v
    value_at (p ∷ ps) (ptr v) = value_at (p ∷ ps) v

    pub value_in : Text → List Text → Fields S → Option (Value S)
    value_in p ps no_fields = none
    value_in p ps (field i v fs) =
        let inside = value_at ps v in
        let behind = value_in p ps fs in if is_field i p then inside else behind

  -- `extractField`
  unfoldable pub extract_field : Value S → Text → Option (Value S)
  unfolding value_at
  extract_field msg name = value_at (split_byte b'.' name) msg

-- What `writeResponse` reads of a response: its headers, if they are set, and its message.
pub record Reply (S : Type 0) : Type 0 where
  pub header : Option Header
  pub message : Value S

-- The header of a response: its own headers if they are set, and its content type.
abbrev pub reply_header : Text → Option Header → Header → Header
reply_header codec none h = set content_type_key codec h
reply_header codec (some meta) h = set content_type_key codec (add_all meta h)

module _ {A : Type 0} (W : Protowire A) (E : Encodings) where
  -- An error of the code internal, with a text that the code formats.
  abbrev pub write_internal : Header → Text → Written
  write_internal h text = write_error W E h (new_errorf code_internal text)

  -- What is written for the encoding of the body.
  abbrev pub write_body : Header → Text → Option Text → Written
  write_body h no_encoding none = write_internal h no_encoding
  write_body h no_encoding (some b) = record { status_code = 200; header = h; body = b }

  -- `writeResponse` behind the header, for the codec's `Marshal` and the texts of the two errors.
  unfoldable pub write_value :
      {S : Type 0} → (Value S → Option Text) → Text → Text → Header → Option (Value S) → Written
  unfolding write_error
  write_value marshal no_field no_encoding h none = write_internal h no_field
  write_value marshal no_field no_encoding h (some v) = write_body h no_encoding (marshal v)

  -- `writeResponse` on a writer with the header `h`, for a codec with its name.
  unfoldable pub write_response :
      {S : Type 0}
      → Text
      → (Value S → Option Text)
      → Text
      → Text
      → Text
      → Reply S
      → Header
      → Written
  unfolding extract_field write_value
  write_response codec marshal no_field no_encoding response_body reply h =
      write_value marshal no_field no_encoding (reply_header codec reply.header h) (
        if is_empty response_body
        then some reply.message
        else extract_field reply.message response_body)

  write_internal-status : (h : Header) (text : Text) → (write_internal h text).status_code ≡ 500
  unfolding write_error as_rpc_error code_of_error from_error http_status
  write_internal-status h text = refl

  write_body-status :
      (h : Header) (no_encoding : Text) (o : Option Text)
      → ((write_body h no_encoding o).status_code ≡ 200)
        ⊎ ((write_body h no_encoding o).status_code ≡ 500)
  write_body-status h no_encoding none = inr (write_internal-status h no_encoding)
  write_body-status h no_encoding (some b) = inl refl

  -- The body is answered with 200 or, if its field is missing or cannot be encoded, with 500.
  pub write_value-status :
      {S : Type 0} (marshal : Value S → Option Text) (no_field no_encoding : Text) (h : Header)
      (o : Option (Value S))
      → ((write_value marshal no_field no_encoding h o).status_code ≡ 200)
        ⊎ ((write_value marshal no_field no_encoding h o).status_code ≡ 500)
  unfolding write_value
  write_value-status marshal no_field no_encoding h none = inr (write_internal-status h no_field)
  write_value-status marshal no_field no_encoding h (some v) =
      write_body-status h no_encoding (marshal v)
