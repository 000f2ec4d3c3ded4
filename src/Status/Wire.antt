-- ===== src/Status/Wire.antt =====
-- status/status.go: the google.rpc.Status message. The package protowire, and proto.Marshal and
-- proto.Unmarshal on an Any, are parameters.
use zara_rpc.Common.{
  zero, suc, ◌-◌, ◌%◌, ◌^◌, ℕ, ◌&&◌, Option, none, some, List, [], ◌∷◌, ◌++◌, Text, length, drop,
  ltb, ◌==◌, if◌then◌else◌, ℤ, pos, negsuc,
}

-- `Status`; `code` is an int32.
pub record Status (A : Type 0) : Type 0 where
  pub code : ℤ
  pub message : Text
  pub details : List A

abbrev pub empty_status : {A : Type 0} → Status A
empty_status = record { code = pos 0; message = []; details = [] }

-- `uint64(x)` of a signed number, and `int32(x)` of an unsigned one.
abbrev pub to_uint64 : ℤ → ℕ
to_uint64 (pos n) = n % 2 ^ 64
to_uint64 (negsuc n) = 2 ^ 64 - 1 - n % 2 ^ 64

abbrev pub to_int32 : ℕ → ℤ
to_int32 v =
    if ltb (v % 2 ^ 32) (2 ^ 31) then pos (v % 2 ^ 32) else negsuc (2 ^ 32 - 1 - v % 2 ^ 32)

-- The wire types by their numbers, and the operations. A consumer gives how many bytes it took,
-- and `none` is a negative number.
abbrev pub varint_type : ℕ
varint_type = 0

abbrev pub bytes_type : ℕ
bytes_type = 2

pub record Protowire (A : Type 0) : Type 0 where
  pub append_tag : Text → ℕ → ℕ → Text
  pub append_varint : Text → ℕ → Text
  pub append_bytes : Text → Text → Text
  pub consume_tag : Text → Option (ℕ × ℕ × ℕ)
  pub consume_varint : Text → Option (ℕ × ℕ)
  pub consume_bytes : Text → Option (Text × ℕ)
  pub consume_field_value : ℕ → ℕ → Text → Option ℕ
  pub marshal : A → Option Text
  pub unmarshal : Text → Option A

-- What a call came to: a value, an error, or no Go value, for a loop that ran out of fuel.
pub data Parsed (A : Type 0) : Type 0 where
  done : A → Parsed A
  failed : Parsed A
  stuck : Parsed A

module _ {A : Type 0} (W : Protowire A) where
  -- The loop over the details of `marshalStatus`.
  unfoldable pub append_details : Text → List A → Option Text
  append_details b [] = some b
  append_details b (d ∷ ds) = elim (W.marshal d) [
    | none ↦ none
    | some bytes ↦ append_details (W.append_bytes (W.append_tag b 3 bytes_type) bytes) ds
  ]

  -- `marshalStatus`
  unfoldable pub marshal_status : Status A → Option Text
  unfolding append_details
  marshal_status st =
      let b = W.append_varint (W.append_tag [] 1 varint_type) (to_uint64 st.code) in
      append_details (W.append_bytes (W.append_tag b 2 bytes_type) st.message) st.details

  -- The switch of `unmarshalStatus`: the bytes behind the field, and the status with it.
  unfoldable pub read_value : ℕ → ℕ → Text → Status A → Option (Text × Status A)
  read_value num typ bytes st =
      if num == 1 && typ == varint_type
      then elim (W.consume_varint bytes) [
        | none ↦ none
        | some (v, n) ↦ some (drop n bytes, record st { code = to_int32 v })
      ]
      else if num == 2 && typ == bytes_type
      then elim (W.consume_bytes bytes) [
        | none ↦ none
        | some (v, n) ↦ some (drop n bytes, record st { message = v })
      ]
      else if num == 3 && typ == bytes_type
      then elim (W.consume_bytes bytes) [
        | none ↦ none
        | some (v, n) ↦ elim (W.unmarshal v) [
          | none ↦ none
          | some d ↦ some (drop n bytes, record st { details = st.details ++ (d ∷ []) })
        ]
      ]
      else elim (W.consume_field_value num typ bytes) [
        | none ↦ none
        | some n ↦ some (drop n bytes, st)
      ]

  -- One round of the loop.
  unfoldable pub read_field : Text → Status A → Option (Text × Status A)
  unfolding read_value
  read_field bytes st = elim (W.consume_tag bytes) [
    | none ↦ none
    | some (num, typ, n) ↦ read_value num typ (drop n bytes) st
  ]

  unfoldable pub read_fields : ℕ → Text → Status A → Parsed (Status A)
  unfolding read_field
  read_fields fuel [] st = done st
  read_fields zero (c ∷ bytes) st = stuck
  read_fields (suc fuel) (c ∷ bytes) st = elim (read_field (c ∷ bytes) st) [
    | none ↦ failed
    | some (rest, st') ↦ read_fields fuel rest st'
  ]

  -- `unmarshalStatus`; each round takes the bytes of a tag at least.
  unfoldable pub unmarshal_status : Text → Parsed (Status A)
  unfolding read_fields
  unmarshal_status bytes = read_fields (length bytes) bytes empty_status
