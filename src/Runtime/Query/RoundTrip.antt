-- ===== src/Runtime/Query/RoundTrip.antt =====
-- What the server reads from the query that the client writes: `PopulateQuery` after
-- `MessageToQuery`.
use zara_rpc.Common.{
  All-append, IsFresh, ◌≡◌, refl, sym, ap, ◌∙◌, Bool, true, false, Option, none, some, List, [],
  ◌∷◌, ◌++◌, Text, text_eq, contains_byte, any, arith, if◌then◌else◌, append_assoc, append-nil,
  Bool-cases, inl, inr,
}
use zara_rpc.Codes.{Code}
use zara_rpc.Common.Result.{◌>>=◌, Result, ok}
use zara_rpc.Status.Headers.{Header}
use zara_rpc.Runtime.Convert.{Scalar, Formats}
use zara_rpc.Runtime.Populate.{
  FieldInfo, Value, struct, ptr, Fields, no_fields, field, is_field, at_path, set_values,
  set_field_strings, settle, set_query, populate_query, through, changed, missing, Found, at_fields,
  Message,
}
use zara_rpc.Runtime.Substitute.{proto_name}
use zara_rpc.Runtime.Query.{Printers, is_sent, field_values, fields_to_query, message_to_query}
use zara_rpc.Runtime.Query.Values.{texts, Reads, set_values-Reads}
use zara_rpc.Runtime.Query.Entries.{
  split_byte-plain, AreElsewhere-part, is_field_apart, AreElsewhere, IsFresh-part, put_fresh, part,
  key,
}

module _ {F D : Type 0} (bound : List Text) where
  -- No field that goes into the query has a name by which the server finds the field `i`.
  unfoldable pub Misses : FieldInfo → Fields (Scalar F D) → Type 0
  unfolding is_sent proto_name
  Misses i no_fields = Unit
  Misses i (field j v fs) =
      (is_sent bound j ≡ true → is_field i (proto_name j.name j.tag) ≡ false) × Misses i fs

  -- The names of the fields that go into the query are no keys of it yet.
  Apart : Header → Fields (Scalar F D) → Type 0
  Apart q no_fields = Unit
  Apart q (field j v fs) = (is_sent bound j ≡ true → IsFresh (key j) q) × Apart q fs

  Apart-nil : (fs : Fields (Scalar F D)) → Apart [] fs
  unfolding Apart
  Apart-nil no_fields = tt
  Apart-nil (field j v fs) = (λ sent. tt, Apart-nil fs)

  Apart-part :
      (i : FieldInfo) (vs : List Text) (q : Header) (fs : Fields (Scalar F D))
      → is_field i (key i) ≡ true
      → Misses i fs
      → Apart q fs
      → Apart (q ++ part (key i) vs) fs
  unfolding Apart Misses
  Apart-part i vs q no_fields found m a = tt
  Apart-part i vs q (field j v fs) found (m, ms) (a, rest) = (
    λ sent.
        IsFresh-part (key j) (key i) vs q (is_field_apart i (key i) (key j) found (m sent))
          (a sent),
    Apart-part i vs q fs found ms rest,
  )

  module _ (W : Printers F D) where
    entries : Fields (Scalar F D) → Header
    entries no_fields = []
    entries (field i v fs) =
        (if is_sent bound i then part (key i) (texts (field_values W v)) else []) ++ entries fs

  -- The fields of a message, and of the message that the server has before: those that go into the
  -- query are found under their names, alone, and read back; the others are there already.
  module _ (X : Formats F D) (W : Printers F D) where
    pub data Sends : Fields (Scalar F D) → Fields (Scalar F D) → Type 0 where
      done : Sends no_fields no_fields
      kept :
          {i : FieldInfo} {v : Value (Scalar F D)} {fs gs : Fields (Scalar F D)}
          → is_sent bound i ≡ false
          → Misses i fs
          → Sends fs gs
          → Sends (field i v fs) (field i v gs)
      sent :
          {i : FieldInfo} {v w : Value (Scalar F D)} {fs gs : Fields (Scalar F D)}
          → is_sent bound i ≡ true
          → is_field i (proto_name i.name i.tag) ≡ true
          → contains_byte (proto_name i.name i.tag) b'.' ≡ false
          → Misses i fs
          → Reads X W v w
          → Sends fs gs
          → Sends (field i v fs) (field i w gs)

    fields_to_query-entries :
        (q : Header) {fs gs : Fields (Scalar F D)}
        → Sends fs gs
        → Apart q fs
        → fields_to_query W bound fs q ≡ q ++ entries W fs
    unfolding fields_to_query entries Apart
    fields_to_query-entries q done a = sym (append-nil q)
    fields_to_query-entries q (kept skip m h) (a, rest) = rw skip (fields_to_query-entries q h rest)
    fields_to_query-entries q (sent {i} {v} {fs = fs} is_in found dots m r h) (a, rest) = rw is_in (
        ap (fields_to_query W bound fs) (put_fresh (key i) (field_values W v) q (a is_in))
        ∙ fields_to_query-entries (q ++ part (key i) (texts (field_values W v))) h
            (Apart-part i (texts (field_values W v)) q fs found m rest)
        ∙ append_assoc q (part (key i) (texts (field_values W v))) (entries W fs))

    entries-AreElsewhere :
        (i : FieldInfo) {fs gs : Fields (Scalar F D)}
        → Sends fs gs
        → Misses i fs
        → AreElsewhere i (entries W fs)
    unfolding entries Misses
    entries-AreElsewhere i done m = tt
    entries-AreElsewhere i (kept skip m h) (here, there) = rw skip (entries-AreElsewhere i h there)
    entries-AreElsewhere i (sent {i = j} {v} is_in found dots m r h) (here, there) = rw is_in (
        All-append _ _ _ (AreElsewhere-part i (key j) (texts (field_values W v)) (here is_in) dots)
          (entries-AreElsewhere i h there))

    found_struct : Found (Fields (Scalar F D)) → Result Code (Message X)
    found_struct r = settle X false (through ptr (through struct r))

    set_field_strings-struct :
        (name s : Text) (ss : List Text) (fs : Fields (Scalar F D))
        → contains_byte name b'.' ≡ false
        → set_field_strings X name (s ∷ ss) false (ptr (struct fs))
          ≡ found_struct (at_fields name [] (set_values X s ss) fs)
    unfolding set_field_strings found_struct at_path at_fields
    set_field_strings-struct name s ss fs h =
        rw (set_field_strings, split_byte-plain b'.' name h) refl

    module _ (skip : Text → Bool) (i : FieldInfo) (v : Message X) (q : Header) where
      -- Behind a change of the other fields.
      Elsewhere : Type 0
      Elsewhere =
          (fs gs : Fields (Scalar F D))
          → set_query X skip q (ptr (struct fs)) ≡ ok (ptr (struct gs))
          → set_query X skip q (ptr (struct (field i v fs))) ≡ ok (ptr (struct (field i v gs)))

      found_struct-elsewhere :
          Elsewhere
          → (r : Found (Fields (Scalar F D))) (gs : Fields (Scalar F D))
          → (found_struct r >>= set_query X skip q) ≡ ok (ptr (struct gs))
          → (found_struct (through (field i v) r) >>= set_query X skip q)
            ≡ ok (ptr (struct (field i v gs)))
      unfolding found_struct Elsewhere
      found_struct-elsewhere later (changed none) gs h = absurd cc
      found_struct-elsewhere later (changed (some fs)) gs h = later fs gs h
      found_struct-elsewhere later (missing fs) gs h = later fs gs h

    at_fields-elsewhere :
        (name : Text) (f : Message X → Option (Message X)) (i : FieldInfo) (v : Message X)
        (fs : Fields (Scalar F D))
        → is_field i name ≡ false
        → at_fields name [] f (field i v fs) ≡ through (field i v) (at_fields name [] f fs)
    unfolding at_fields at_path
    at_fields-elsewhere name f i v fs h = rw h refl

    set_query-elsewhere :
        (skip : Text → Bool) (i : FieldInfo) (v : Message X) (q : Header)
        → AreElsewhere i q
        → (fs gs : Fields (Scalar F D))
        → set_query X skip q (ptr (struct fs)) ≡ ok (ptr (struct gs))
        → set_query X skip q (ptr (struct (field i v fs))) ≡ ok (ptr (struct (field i v gs)))
    unfolding set_query set_field_strings Elsewhere
    set_query-elsewhere skip i v [] a fs gs h =
        let e : fs ≡ gs = cc in
        ap (λ (xs : Fields (Scalar F D)). ok (ptr (struct (field i v xs)))) e
    set_query-elsewhere skip i v ((name, []) ∷ q) (here, there) fs gs h =
        elim (Bool-cases (skip name)) [
          | inl skipped ↦ rw skipped (set_query-elsewhere skip i v q there fs gs (rw skipped at h))
          | inr taken ↦ rw taken (set_query-elsewhere skip i v q there fs gs (rw taken at h))
        ]
    set_query-elsewhere skip i v ((name, s ∷ ss) ∷ q) ((here, dots), there) fs gs h =
        elim (Bool-cases (skip name)) [
          | inl skipped ↦ rw skipped (set_query-elsewhere skip i v q there fs gs (rw skipped at h))
          | inr taken ↦ rw taken (
              ap (λ r. r >>= set_query X skip q)
                (set_field_strings-struct name s ss (field i v fs) dots
                  ∙ ap found_struct (at_fields-elsewhere name (set_values X s ss) i v fs here))
              ∙ found_struct-elsewhere skip i v q (set_query-elsewhere skip i v q there)
                  (at_fields name [] (set_values X s ss) fs) gs
                  (ap (λ r. r >>= set_query X skip q)
                      (sym (set_field_strings-struct name s ss fs dots))
                    ∙ rw taken at h))
        ]

    at_fields-here :
        (name : Text) (f : Message X → Option (Message X)) (i : FieldInfo) (v w : Message X)
        (fs : Fields (Scalar F D))
        → is_field i name ≡ true
        → f w ≡ some v
        → at_fields name [] f (field i w fs) ≡ changed (some (field i v fs))
    unfolding at_fields at_path
    at_fields-here name f i v w fs h e = rw (h, e) refl

    is_sent-bound : (i : FieldInfo) → is_sent bound i ≡ true → any (text_eq (key i)) bound ≡ false
    unfolding is_sent
    is_sent-bound i h = ground arith

    set_query-entries :
        {fs gs : Fields (Scalar F D)}
        → Sends fs gs
        → set_query X (λ name. any (text_eq name) bound) (entries W fs) (ptr (struct gs))
          ≡ ok (ptr (struct fs))
    unfolding set_query entries found_struct
    set_query-entries done = refl
    set_query-entries (kept {i} {v} {fs} {gs} skip m h) = rw skip (
        set_query-elsewhere _ i v (entries W fs) (entries-AreElsewhere i h m) gs fs
          (set_query-entries h))
    set_query-entries (sent {i} {v} {w} {fs} {gs} is_in found dots m r h) =
        let later =
          set_query-elsewhere (λ name. any (text_eq name) bound) i v (entries W fs)
            (entries-AreElsewhere i h m) gs fs (set_query-entries h) in
        rw is_in (elim (set_values-Reads X W r) [
          | inl (nothing, same) ↦ rw nothing (rw (← same) later)
          | inr (s, ss, some_text, reads) ↦ rw some_text (
              rw (is_sent-bound i is_in) (
                ap (λ o. o >>= set_query X (λ name. any (text_eq name) bound) (entries W fs))
                  (set_field_strings-struct (key i) s ss (field i w gs) dots
                    ∙ ap found_struct
                        (at_fields-here (key i) (set_values X s ss) i v w gs found reads))
                ∙ later))
        ])

    -- Of a message with scalar, optional and repeated fields, sent as the query of a call, the
    -- server reads the same message: where it has the fields that the path binds, and the zero
    -- value or any other in the rest, `PopulateQuery` gives the message of the client. Each name
    -- finds its own field alone, and floats are read back from their text.
    pub populate_query-message_to_query :
        {fs gs : Fields (Scalar F D)}
        → Sends fs gs
        → populate_query X bound (message_to_query W bound (ptr (struct fs))) (ptr (struct gs))
          ≡ ok (ptr (struct fs))
    unfolding populate_query message_to_query
    populate_query-message_to_query {fs} {gs} h =
        ap (λ q. set_query X (λ name. any (text_eq name) bound) q (ptr (struct gs)))
          (fields_to_query-entries [] h (Apart-nil fs))
        ∙ set_query-entries h
