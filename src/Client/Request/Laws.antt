-- ===== src/Client/Request/Laws.antt =====
-- client/unary.go: what the server finds in the request of a call.
use zara_rpc.Common.{
  All, ◌≡◌, refl, sym, ap, ◌∙◌, Option, none, some, List, [], ◌∷◌, ◌++◌, Text, codes, text_eq,
  text_eq_iff, if◌then◌else◌, lookup, lookup-insert, arith, Bool-cases, inl, inr, IsUnique,
  lookup-IsFresh, append_assoc, append-nil,
}
use zara_rpc.Common.Result.{◌>>=◌, Result, ok}
use zara_rpc.Codes.{Code}
use zara_rpc.Status.Headers.{canonical_key, Header, values, set, add, add_values, add_all}
use zara_rpc.Runtime.Convert.{Scalar, Formats}
use zara_rpc.Runtime.Populate.{struct, ptr, Fields, populate_query}
use zara_rpc.Runtime.Substitute.{substitute_path_params_bound, path_params_for}
use zara_rpc.Runtime.Substitute.Laws.{substitute_path_params_bound-path_params_for}
use zara_rpc.Runtime.Query.{Printers, path_fields, message_to_query}
use zara_rpc.Runtime.Query.RoundTrip.{Sends, populate_query-message_to_query}
use zara_rpc.Client.Request.{
  MessageCodec, substituted_fields, substitute_request, with_query, encode_request, prepare_unary,
  unary_request,
}

module _ {F D : Type 0} (X : Formats F D) (W : Printers F D) (C : MessageCodec F D)
    (encode_query : Header → Text) where
  substitute_request-fields :
      (path sub : Text) (bound : List Text) (fs : Fields (Scalar F D))
      → substitute_path_params_bound path (some (path_fields W fs)) ≡ ok (sub, bound)
      → substitute_request W path (ptr (struct fs)) ≡ ok (sub, bound)
  unfolding substitute_request substituted_fields
  substitute_request-fields path sub bound fs h = rw (substitute_request, h) refl

  prepare_unary-substituted :
      (path sub : Text) (bound : List Text) (fs : Fields (Scalar F D))
      → substitute_path_params_bound path (some (path_fields W fs)) ≡ ok (sub, bound)
      → prepare_unary W C encode_query path [] (ptr (struct fs))
        ≡ ok (with_query W C encode_query sub (message_to_query W bound (ptr (struct fs))), none)
  unfolding prepare_unary encode_request
  prepare_unary-substituted path sub bound fs h =
      ap
        (λ (r : Result Code (Text × List Text)). r >>= (λ (found : Text × List Text).
          encode_request W C encode_query found.0 found.1 [] (ptr (struct fs))))
        (substitute_request-fields path sub bound fs h)

  -- A call without a body, whose path parameters are found, with a message whose fields meet these
  -- conditions. Each field that goes into the query is a text, a bool, an integer in the range of its
  -- type, or a float that is read back from what it is printed as; or a set optional or a list of
  -- these; or bytes; or a nil pointer: no nested message is set. Its name has no dot, and the server
  -- finds this field first under it. The server begins with a message that has the client's values in
  -- the fields that do not go into the query, nil for the pointers that do, no elements in a list or
  -- in bytes where the client has none, and any values else. Then the URL of the call is the substituted path
  -- with a query, the names that the server takes from the template are those that the query leaves
  -- out, and `PopulateQuery`, which skips these names, makes the server's message into the client's.
  pub prepare_unary-populate_query :
      (path sub : Text) (bound : List Text) (fs gs : Fields (Scalar F D))
      → substitute_path_params_bound path (some (path_fields W fs)) ≡ ok (sub, bound)
      → Sends bound X W fs gs
      → (q : Header) × (prepare_unary W C encode_query path [] (ptr (struct fs))
          ≡ ok (with_query W C encode_query sub q, none))
        × (path_params_for path ≡ ok bound)
        × (populate_query X bound q (ptr (struct gs)) ≡ ok (ptr (struct fs)))
  prepare_unary-populate_query path sub bound fs gs h s = (
    message_to_query W bound (ptr (struct fs)),
    prepare_unary-substituted path sub bound fs h,
    substitute_path_params_bound-path_params_for (path_fields W fs) path sub bound h,
    populate_query-message_to_query bound X W s,
  )

values-add :
    (j k v : Text) (h : Header)
    → values (lookup k (add j v h))
      ≡ (if text_eq j k then values (lookup k h) ++ (v ∷ []) else values (lookup k h))
unfolding add
values-add j k v h = elim (Bool-cases (text_eq j k)) [
  | inl same ↦
      rw (add, lookup-insert j k (values (lookup j h) ++ (v ∷ [])) h, same)
        (ap (λ i. values (lookup i h) ++ (v ∷ [])) ((text_eq_iff j k).0 same))
  | inr other ↦ rw (add, lookup-insert j k (values (lookup j h) ++ (v ∷ [])) h, other) refl
]

values-add_values :
    (j k : Text) (vs : List Text) (h : Header)
    → values (lookup k (add_values j vs h))
      ≡ (if text_eq j k then values (lookup k h) ++ vs else values (lookup k h))
unfolding add_values
values-add_values j k [] h = ground (arith, append-nil (values (lookup k h)))
values-add_values j k (v ∷ vs) h = elim (Bool-cases (text_eq j k)) [
  | inl same ↦
      values-add_values j k vs (add j v h)
      ∙ rw (same, values-add j k v h, same) (append_assoc (values (lookup k h)) (v ∷ []) vs)
  | inr other ↦ values-add_values j k vs (add j v h) ∙ rw (other, values-add j k v h, other) refl
]

-- The names of a header are in canonical form.
abbrev pub IsCanonical : Header → Type 0
IsCanonical h = All (λ e. canonical_key e.0 ≡ e.0) h

-- The copy of a header has its values, if its names are in canonical form.
pub values-add_all :
    (k : Text) (from to : Header)
    → IsUnique from
    → IsCanonical from
    → values (lookup k (add_all from to)) ≡ values (lookup k to) ++ values (lookup k from)
unfolding add_all
values-add_all k [] to u n = sym (append-nil (values (lookup k to)))
values-add_all k ((j, vs) ∷ from) to (fresh, u) (name, n) =
    rw name (elim (Bool-cases (text_eq j k)) [
      | inl same ↦
          let k_new : lookup k from ≡ none =
            ap (λ i. lookup i from) (sym ((text_eq_iff j k).0 same))
            ∙ lookup-IsFresh j from fresh in
          values-add_all k from (add_values j vs to) u n
          ∙ rw (same, values-add_values j k vs to, same, k_new)
              (append-nil (values (lookup k to) ++ vs))
      | inr other ↦
          values-add_all k from (add_values j vs to) u n
          ∙ rw (other, values-add_values j k vs to, other) refl
    ])

values-set :
    (j k v : Text) (h : Header)
    → values (lookup k (set j v h)) ≡ (if text_eq j k then v ∷ [] else values (lookup k h))
unfolding set
values-set j k v h = elim (Bool-cases (text_eq j k)) [
  | inl same ↦ rw (set, lookup-insert j k (v ∷ []) h, same) refl
  | inr other ↦ rw (set, lookup-insert j k (v ∷ []) h, other) refl
]

-- Every header of the configuration, with names in canonical form, is on the request of an attempt, with all its values in order,
-- but for the two that the attempt sets to the name of its codec: Accept, and with a body
-- Content-Type.
pub unary_request-values :
    (codec base method path : Text) (body : Option Text) (headers : Header) (k : Text)
    → IsUnique headers
    → IsCanonical headers
    → values (lookup k (unary_request codec base method path body headers).header) ≡ (
        if text_eq (codes "Accept") k then codec ∷ [] else elim body [
          | none ↦ values (lookup k headers)
          | some b ↦
              if text_eq (codes "Content-Type") k then codec ∷ [] else values (lookup k headers)
        ])
unfolding unary_request
unary_request-values codec base method path none headers k u n =
    values-set (codes "Accept") k codec (add_all headers [])
    ∙ ap (λ vs. if text_eq (codes "Accept") k then codec ∷ [] else vs)
        (values-add_all k headers [] u n)
unary_request-values codec base method path (some b) headers k u n =
    values-set (codes "Accept") k codec (set (codes "Content-Type") codec (add_all headers []))
    ∙ ap (λ vs. if text_eq (codes "Accept") k then codec ∷ [] else vs)
        (values-set (codes "Content-Type") k codec (add_all headers [])
          ∙ ap (λ vs. if text_eq (codes "Content-Type") k then codec ∷ [] else vs)
              (values-add_all k headers [] u n))
