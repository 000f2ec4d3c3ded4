-- ===== src/Status/WireLaws.antt =====
-- status/status.go: what `marshalStatus` writes, `unmarshalStatus` reads, and it ends on any input.
use zara_rpc.Common.{
  zero, suc, ◌^◌, ◌≤◌, ◌<◌, ◌≡◌, refl, sym, ap, ap₂, ◌∙◌, ℕ, some, List, [], ◌∷◌, ◌++◌, Text,
  length, drop-append, length-append, ℤ, pos, negsuc, arith, append_assoc, append-nil, Option-cases,
  inl, inr,
}
use zara_rpc.Status.Wire.{
  Status, empty_status, to_uint64, to_int32, varint_type, bytes_type, Protowire, done,
  append_details, marshal_status, read_value, read_field, read_fields, unmarshal_status,
}

abbrev pub IsInt32 : ℤ → Type 0
IsInt32 (pos n) = n < 2 ^ 31
IsInt32 (negsuc n) = n < 2 ^ 31

-- The documented behaviour of protowire and of package proto. An appending function appends; a
-- consumer reads what its appending function wrote, and takes at least one byte of a tag.
pub record IsProtowire {A : Type 0} (W : Protowire A) : Type 0 where
  pub tag_appended :
      (b : Text) (num typ : ℕ) → W.append_tag b num typ ≡ b ++ W.append_tag [] num typ
  pub varint_appended : (b : Text) (v : ℕ) → W.append_varint b v ≡ b ++ W.append_varint [] v
  pub bytes_appended : (b v : Text) → W.append_bytes b v ≡ b ++ W.append_bytes [] v
  pub tag_read :
      (num typ : ℕ) (rest : Text)
      → 1 ≤ num
      → num < 2 ^ 29
      → typ < 6
      → W.consume_tag (W.append_tag [] num typ ++ rest)
        ≡ some (num, typ, length (W.append_tag [] num typ))
  pub varint_read :
      (v : ℕ) (rest : Text)
      → v < 2 ^ 64
      → W.consume_varint (W.append_varint [] v ++ rest) ≡ some (v, length (W.append_varint [] v))
  pub bytes_read :
      (v rest : Text)
      → W.consume_bytes (W.append_bytes [] v ++ rest) ≡ some (v, length (W.append_bytes [] v))
  pub message_read : (d : A) (b : Text) → W.marshal d ≡ some b → W.unmarshal b ≡ some d
  pub tag_takes :
      (b : Text) (num typ n : ℕ) → W.consume_tag b ≡ some (num, typ, n) → (1 ≤ n) × (n ≤ length b)

to_uint64-lt : (c : ℤ) → to_uint64 c < 2 ^ 64
to_uint64-lt (pos n) = omega arith
to_uint64-lt (negsuc n) = omega arith

pub to_int32-to_uint64 : (c : ℤ) → IsInt32 c → to_int32 (to_uint64 c) ≡ c
to_int32-to_uint64 (pos n) h = ground arith
to_int32-to_uint64 (negsuc n) h = ground arith

module _ {A : Type 0} (W : Protowire A) (L : IsProtowire W) where
  abbrev tag : ℕ → ℕ → Text
  tag num typ = W.append_tag [] num typ

  -- A tag in front of a value is taken off.
  read_field-tag :
      (num typ : ℕ) (rest : Text) (st : Status A)
      → 1 ≤ num
      → num < 4
      → typ < 6
      → read_field W (tag num typ ++ rest) st ≡ read_value W num typ rest st
  unfolding read_field
  read_field-tag num typ rest st lo hi ht =
      rw (read_field, L.tag_read num typ rest lo (omega arith) ht)
        (ap (λ t. read_value W num typ t st) (drop-append (tag num typ) rest))

  read_code :
      (c : ℤ) (rest : Text) (st : Status A)
      → IsInt32 c
      → read_field W (tag 1 varint_type ++ (W.append_varint [] (to_uint64 c) ++ rest)) st
        ≡ some (rest, record st { code = c })
  unfolding read_value
  read_code c rest st h =
      read_field-tag 1 0 _ st (omega arith) (omega arith) (omega arith)
      ∙ rw (read_value, L.varint_read (to_uint64 c) rest (to_uint64-lt c))
          (ap₂ (λ (t : Text) (c : ℤ). some (t, record st { code = c }))
            (drop-append (W.append_varint [] (to_uint64 c)) rest) (to_int32-to_uint64 c h))

  read_message :
      (v rest : Text) (st : Status A)
      → read_field W (tag 2 bytes_type ++ (W.append_bytes [] v ++ rest)) st
        ≡ some (rest, record st { message = v })
  unfolding read_value
  read_message v rest st =
      read_field-tag 2 2 _ st (omega arith) (omega arith) (omega arith)
      ∙ rw (read_value, L.bytes_read v rest)
          (ap (λ t. some (t, record st { message = v })) (drop-append (W.append_bytes [] v) rest))

  read_detail :
      (d : A) (v rest : Text) (st : Status A)
      → W.marshal d ≡ some v
      → read_field W (tag 3 bytes_type ++ (W.append_bytes [] v ++ rest)) st
        ≡ some (rest, record st { details = st.details ++ (d ∷ []) })
  unfolding read_value
  read_detail d v rest st h =
      read_field-tag 3 2 _ st (omega arith) (omega arith) (omega arith)
      ∙ rw (read_value, L.bytes_read v rest, L.message_read d v h)
          (ap (λ t. some (t, record st { details = st.details ++ (d ∷ []) }))
            (drop-append (W.append_bytes [] v) rest))

  tag_filled : (num typ : ℕ) → 1 ≤ num → num < 4 → typ < 6 → 1 ≤ length (tag num typ)
  tag_filled num typ lo hi ht =
      (L.tag_takes (tag num typ ++ []) num typ _ (L.tag_read num typ [] lo (omega arith) ht)).0

  -- A field takes one round, and what follows it is shorter.
  round :
      (fuel : ℕ) (b rest : Text) (st st' : Status A)
      → read_field W b st ≡ some (rest, st')
      → length rest < length b
      → length b ≤ fuel
      → (less : ℕ) × (length rest ≤ less) × (read_fields W fuel b st ≡ read_fields W less rest st')
  unfolding read_fields
  round fuel [] rest st st' e shorter enough = absurd (omega arith)
  round zero (c ∷ b) rest st st' e shorter enough = absurd (omega arith)
  round (suc fuel) (c ∷ b) rest st st' e shorter enough =
      (fuel, omega arith, rw (read_fields, e) refl)

  shorter :
      (num typ : ℕ) (v rest : Text)
      → 1 ≤ num
      → num < 4
      → typ < 6
      → length rest < length (tag num typ ++ (v ++ rest))
  shorter num typ v rest lo hi ht = omega (
    arith,
    length-append (tag num typ) (v ++ rest),
    length-append v rest,
    tag_filled num typ lo hi ht,
  )

  -- What the rest of the input reads as, on any fuel that is enough.
  abbrev ReadsAs : Text → Status A → Status A → Type 0
  ReadsAs b st out = (fuel : ℕ) → length b ≤ fuel → read_fields W fuel b st ≡ done out

  ReadsAs-round :
      (b rest : Text) (st st' out : Status A)
      → read_field W b st ≡ some (rest, st')
      → length rest < length b
      → ReadsAs rest st' out
      → ReadsAs b st out
  ReadsAs-round b rest st st' out e lt h fuel enough =
      let (less, still, same) = round fuel b rest st st' e lt enough in same ∙ h less still

  appended :
      (b : Text) (typ num : ℕ) (v : Text) (t : Text)
      → W.append_bytes (W.append_tag b num typ) v ++ t
        ≡ b ++ (tag num typ ++ (W.append_bytes [] v ++ t))
  appended b typ num v t =
      rw
        (
          L.bytes_appended (W.append_tag b num typ) v,
          L.tag_appended b num typ,
          append_assoc b (tag num typ) (W.append_bytes [] v),
          append_assoc b (tag num typ ++ W.append_bytes [] v) t,
          append_assoc (tag num typ) (W.append_bytes [] v) t,
        )
        refl

  append_details-ReadsAs :
      (b : Text) (ds : List A) (out : Text)
      → append_details W b ds ≡ some out
      → (t : Text) × (out ≡ b ++ t)
        × ((st : Status A) → ReadsAs t st (record st { details = st.details ++ ds }))
  unfolding append_details
  append_details-ReadsAs b [] out e =
      ([], rw append-nil cc, λ st fuel enough. unfold read_fields in rw append-nil refl)
  append_details-ReadsAs b (d ∷ ds) out e = elim (Option-cases (W.marshal d)) [
    | inl none_left ↦ absurd (cc (rw (append_details, none_left) at e))
    | inr (v, h) ↦
        let (t, same, reads) =
          append_details-ReadsAs (W.append_bytes (W.append_tag b 3 bytes_type) v) ds out
            (rw (append_details, h) at e) in
        (
          tag 3 bytes_type ++ (W.append_bytes [] v ++ t),
          same ∙ appended b bytes_type 3 v t,
          λ st.
              ReadsAs-round _ t st _ _ (read_detail d v t st h)
                (shorter 3 2 _ t (omega arith) (omega arith) (omega arith))
                (rw (sym (append_assoc st.details (d ∷ []) ds))
                  (reads (record st { details = st.details ++ (d ∷ []) }))),
        )
  ]

  -- What `marshalStatus` writes for a status, its code an int32, `unmarshalStatus` reads back: the
  -- same code, message and details. The packages protowire and proto are as documented.
  pub unmarshal_status-marshal_status :
      (st : Status A) (out : Text)
      → IsInt32 st.code
      → marshal_status W st ≡ some out
      → unmarshal_status W out ≡ done st
  unfolding marshal_status unmarshal_status
  unmarshal_status-marshal_status st out h e =
      let (t, same, reads) = append_details-ReadsAs _ st.details out e in
      let start =
        tag 1 varint_type
        ++ (W.append_varint [] (to_uint64 st.code)
            ++ (tag 2 bytes_type ++ (W.append_bytes [] st.message ++ t))) in
      let whole : out ≡ start =
        same
        ∙ appended _ bytes_type 2 st.message t
        ∙ rw (L.varint_appended (tag 1 varint_type) (to_uint64 st.code), append_assoc) refl in
      rw whole (
        ReadsAs-round start _ empty_status _ st (read_code st.code _ empty_status h)
          (shorter 1 0 _ _ (omega arith) (omega arith) (omega arith))
          (ReadsAs-round _ t _ _ st (read_message st.message t _)
            (shorter 2 2 _ t (omega arith) (omega arith) (omega arith)) (reads _))
          (length start) (omega arith))
