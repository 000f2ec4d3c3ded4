-- ===== src/Kernel/Negotiate.antt =====
-- kernel/handler.go: the codec of a request, its deadline, and whether it asks for a WebSocket.
use zara_rpc.Common.{
  ◌≡◌, refl, ap, ◌∙◌, sym, length-drop, ◌⊎◌, ℕ, zero, suc, ◌≤◌, Bool, true, false, not, ◌&&◌,
  Option, none, some, List, [], ◌∷◌, Text, codes, text_eq, take, drop, length, index_byte,
  trim_space, equal_fold, is_empty, any, split_byte, if◌then◌else◌, arith, ℤ, pos, ltℤ, lookup,
  Option-cases, inl, inr, ◌==◌, Bool-cases,
}
use zara_rpc.Encoding.{Codec, json, codec_for_content_type, codec_for_request}
use zara_rpc.Metadata.Deadline.{Clock, parse_grpc_deadline}
use zara_rpc.Metadata.Timeout.{parse_grpc_timeout}
use zara_rpc.Status.Headers.{Header, get, first_value}

-- A round of the loop of `headerContainsFold`, given the first comma and the rounds that follow.
abbrev pub fold_round : (Text → Bool) → Text → Text → Option ℕ → Bool
fold_round later token v none = equal_fold (trim_space v) token
fold_round later token v (some i) =
    if equal_fold (trim_space (take i v)) token then true else later (drop (suc i) v)

-- Each round takes a byte at least.
unfoldable pub contains_fold_from : ℕ → Text → Text → Bool
contains_fold_from fuel token [] = false
contains_fold_from zero token (c ∷ v) = false
contains_fold_from (suc fuel) token (c ∷ v) =
    fold_round (contains_fold_from fuel token) token (c ∷ v) (index_byte (c ∷ v) b',')

-- `headerContainsFold`
unfoldable pub header_contains_fold : Text → Text → Bool
unfolding contains_fold_from
header_contains_fold v token = contains_fold_from (length v) token v

-- `isWebSocketUpgrade`
unfoldable pub is_websocket_upgrade : Header → Bool
unfolding header_contains_fold get
is_websocket_upgrade h =
    equal_fold (get (codes "Upgrade") h) (codes "websocket")
    && header_contains_fold (get (codes "Connection") h) (codes "upgrade")

-- The codec by the headers: the values of Content-Type if it is there, the first of them, and
-- Accept.
unfoldable pub codec_by_headers : Option (List Text) → Text → Text → Codec
unfolding codec_for_content_type
codec_by_headers (some vs) ct accept = codec_for_content_type ct
codec_by_headers none ct accept =
    if not (is_empty accept) && not (text_eq accept (codes "*/*"))
    then codec_for_content_type accept
    else json

-- `codecFromRequest`; the query is nil if there is none.
unfoldable pub codec_from_request : Header → Option Header → Codec
unfolding codec_by_headers get
codec_from_request h query =
    let enc : Text = elim query [ none ↦ [] | some q ↦ get (codes "encoding") q ] in
    if not (is_empty enc)
    then codec_for_content_type enc
    else codec_by_headers (lookup (codes "Content-Type") h) (get (codes "Content-Type") h)
        (get (codes "Accept") h)

-- `deadlineFromRequest`, in nanoseconds.
unfoldable pub deadline_from_request : {D : Type 0} → Clock D → Header → Option ℤ
unfolding get parse_grpc_timeout parse_grpc_deadline
deadline_from_request clock h =
    let later : Option ℤ =
      if is_empty (get (codes "Grpc-Deadline") h)
      then none
      else elim (parse_grpc_deadline clock (get (codes "Grpc-Deadline") h)) [
        | none ↦ none
        | some t ↦ some (if ltℤ (pos 0) (clock.until t) then clock.until t else pos 0)
      ] in
    if is_empty (get (codes "Grpc-Timeout") h)
    then later
    else elim (parse_grpc_timeout (get (codes "Grpc-Timeout") h)) [ none ↦ later | some d ↦ some d ]

-- The first part of a text and the others.
abbrev parts_from : ℕ → Text → Option ℕ → List Text
parts_from c s none = s ∷ []
parts_from c s (some i) = take i s ∷ split_byte c (drop (suc i) s)

split_byte-index : (c : ℕ) (s : Text) → split_byte c s ≡ parts_from c s (index_byte s c)
split_byte-index c [] = refl
split_byte-index c (d ∷ s) = elim (Bool-cases (d == c)) [
  | inl same ↦ rw same refl
  | inr other ↦
      let rest = split_byte-index c s in
      elim (Option-cases (index_byte s c)) [
        | inl absent ↦ rw (other, absent, (rest ∙ ap (parts_from c s) absent)) refl
        | inr (i, found) ↦ rw (other, found, (rest ∙ ap (parts_from c s) found)) refl
      ]
]

-- `headerContainsFold` finds a token that is not empty exactly if it is, with the space around it
-- trimmed and in any case, one of the parts between the commas.
abbrev pub is_token : Text → Text → Bool
is_token token part = equal_fold (trim_space part) token

fold_round-parts_from :
    (later : Text → Bool) (token v : Text) (o : Option ℕ)
    → ((i : ℕ) → later (drop (suc i) v) ≡ any (is_token token) (split_byte b',' (drop (suc i) v)))
    → fold_round later token v o ≡ any (is_token token) (parts_from b',' v o)
fold_round-parts_from later token v none h = ground arith
fold_round-parts_from later token v (some i) h = ground (arith, h i)

contains_fold_from-split_byte :
    (fuel : ℕ) (token v : Text)
    → length v ≤ fuel
    → is_empty token ≡ false
    → contains_fold_from fuel token v ≡ any (is_token token) (split_byte b',' v)
unfolding contains_fold_from
contains_fold_from-split_byte fuel [] [] enough some_token = cc
contains_fold_from-split_byte fuel (t ∷ token) [] enough some_token = refl
contains_fold_from-split_byte zero token (c ∷ v) enough some_token = absurd (omega arith)
contains_fold_from-split_byte (suc fuel) token (c ∷ v) enough some_token =
    fold_round-parts_from (contains_fold_from fuel token) token (c ∷ v) (index_byte (c ∷ v) b',')
      (λ i.
        contains_fold_from-split_byte fuel token (drop i v) (omega (arith, length-drop i v))
          some_token)
    ∙ ap (any (is_token token)) (sym (split_byte-index b',' (c ∷ v)))

-- `headerContainsFold` finds a token that is not empty exactly if it is, in any case, one of the
-- parts between the commas, without the space around the part.
pub header_contains_fold-split_byte :
    (v token : Text)
    → is_empty token ≡ false
    → header_contains_fold v token ≡ any (is_token token) (split_byte b',' v)
unfolding header_contains_fold
header_contains_fold-split_byte v token some_token =
    contains_fold_from-split_byte (length v) token v (omega arith) some_token

codec_by_headers-codec_for_request :
    (o : Option (List Text)) (accept : Text)
    → ((o ≡ none) ⊎ (is_empty (first_value o) ≡ false))
    → codec_by_headers o (first_value o) accept ≡ codec_for_request (first_value o) accept
unfolding codec_by_headers codec_for_request
codec_by_headers-codec_for_request none accept c = refl
codec_by_headers-codec_for_request (some vs) accept (inl absent) = cc
codec_by_headers-codec_for_request (some []) accept (inr filled) = cc
codec_by_headers-codec_for_request (some (v ∷ vs)) accept (inr filled) =
    rw (codec_for_request, filled) refl

-- Without an "encoding" parameter, `codecFromRequest` chooses as `CodecForRequest` does, unless a
-- Content-Type header is there and empty.
pub codec_from_request-codec_for_request :
    (h : Header)
    → ((lookup (codes "Content-Type") h ≡ none) ⊎ (is_empty (get (codes "Content-Type") h) ≡ false))
    → codec_from_request h none
      ≡ codec_for_request (get (codes "Content-Type") h) (get (codes "Accept") h)
unfolding codec_from_request get
codec_from_request-codec_for_request h c =
    codec_by_headers-codec_for_request (lookup (codes "Content-Type") h) (get (codes "Accept") h) c
