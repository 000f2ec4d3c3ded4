-- ===== src/Generator/Fields/Laws.antt =====
-- protoc-gen-zararpc: the names and the bound fields of the generated code.
use zara_rpc.Common.{
  length-append, drop, length, ==_iff, drop-append, ◌≢◌, All-mono, ◌≡◌, refl, sym, ap, ◌∙◌, ℕ, ◌<◌,
  ◌^◌, Bool, true, false, ◌||◌, ◌&&◌, some, List, [], ◌∷◌, ◌++◌, Text, codes, text_eq, text_eq_iff,
  is_empty, insert, lookup, holds, any, All, if◌then◌else◌, ◌==◌, arith, Bool-cases, inl, inr,
}
use zara_rpc.Common.Result.{Result, ok, err, ◌>>=◌}
use zara_rpc.Codes.{Code}
use zara_rpc.Metadata.Decimal.{format_int, parse_uint, parse_uint-format_int}
use zara_rpc.Routing.Mux.{insert_sorted, sort_strings}
use zara_rpc.Runtime.Convert.{Formats}
use zara_rpc.Runtime.Populate.{set_field_strings, Message, set_query, populate_query, is_bound}
use zara_rpc.Generator.Fields.{operation_fn_name, bind_names, keys, bound_map, bound_args}

-- The second binding of a method and the first binding of the method with that suffix have the
-- same constructor.
operation_fn_name-collides : operation_fn_name (codes "Get") 1 ≡ operation_fn_name (codes "Get_1") 0
unfolding operation_fn_name format_int
operation_fn_name-collides = refl

text_eq_comm : (s t : Text) → text_eq s t ≡ text_eq t s
text_eq_comm s t = ground (arith, text_eq_iff s t, text_eq_iff t s)

any-insert_sorted :
    (n k : Text) (ks : List Text)
    → any (text_eq n) (insert_sorted k ks) ≡ (text_eq n k || any (text_eq n) ks)
any-insert_sorted n k [] = refl
any-insert_sorted n k (j ∷ ks) = ground (arith, any-insert_sorted n k ks)

any-sort_strings :
    (n : Text) (ks : List Text) → any (text_eq n) (sort_strings ks) ≡ any (text_eq n) ks
any-sort_strings n [] = refl
any-sort_strings n (k ∷ ks) =
    any-insert_sorted n k (sort_strings ks) ∙ ap (λ b. text_eq n k || b) (any-sort_strings n ks)

any-insert :
    {V : Type 0} (n k : Text) (v : V) (m : List (Text × V))
    → any (text_eq n) (keys (insert k v m)) ≡ (text_eq n k || any (text_eq n) (keys m))
any-insert n k v [] = refl
any-insert n k v ((j, w) ∷ m) = ground (arith, any-insert n k v m, text_eq_iff j k)

any-bind_names :
    (n : Text) (ns : List Text) (m : List (Text × Unit {0}))
    → any (text_eq n) (keys (bind_names ns m)) ≡ (any (text_eq n) ns || any (text_eq n) (keys m))
any-bind_names n [] m = refl
any-bind_names n (k ∷ ns) m =
    ground (arith, any-bind_names n ns (insert k tt m), any-insert n k tt m)

holds-lookup :
    {V : Type 0} (n : Text) (m : List (Text × V))
    → holds (λ v. true) (lookup n m) ≡ any (text_eq n) (keys m)
holds-lookup n [] = refl
holds-lookup n ((j, v) ∷ m) = ground (arith, holds-lookup n m, text_eq_comm j n)

any-bound_map :
    (ns : List Text) (body n : Text)
    → (is_empty n && is_empty body) ≡ false
    → any (text_eq n) (keys (bound_map ns body)) ≡ (any (text_eq n) ns || text_eq n body)
unfolding bound_map
any-bound_map ns [] [] h = absurd cc
any-bound_map ns [] (c ∷ n) h = any-bind_names (c ∷ n) ns []
any-bound_map ns (d ∷ body) n h =
    any-insert n (d ∷ body) tt (bind_names ns [])
    ∙ ap (λ b. text_eq n (d ∷ body) || b) (any-bind_names n ns [])
    ∙ or_shuffle (text_eq n (d ∷ body)) (any (text_eq n) ns)
  where
    or_shuffle : (a b : Bool) → (a || (b || false)) ≡ (b || a)
    or_shuffle a b = ground arith

module _ {F D : Type 0} (X : Formats F D) where
  bound_args-is_bound :
      (params : List (Text × Text)) (body n : Text)
      → (is_empty n && is_empty body) ≡ false
      → any (text_eq n) (bound_args (keys params) body) ≡ is_bound X params body n
  unfolding bound_args
  bound_args-is_bound params body n h =
      any-sort_strings n (keys (bound_map (keys params) body))
      ∙ any-bound_map (keys params) body n h
      ∙ ap (λ b. b || text_eq n body) (sym (holds-lookup n params))

  after_value :
      (skip other : Text → Bool) (q : List (Text × List Text)) (r : Result Code (Message X))
      → ((w : Message X) → set_query X skip q w ≡ set_query X other q w)
      → (r >>= set_query X skip q) ≡ (r >>= set_query X other q)
  after_value skip other q (err e) ih = refl
  after_value skip other q (ok w) ih = ih w

  -- The query loop depends on its test only at the names of the query.
  set_query-tests :
      (skip other : Text → Bool) (q : List (Text × List Text)) (v : Message X)
      → All (λ (e : Text × List Text). skip e.0 ≡ other e.0) q
      → set_query X skip q v ≡ set_query X other q v
  unfolding set_query
  set_query-tests skip other [] v h = refl
  set_query-tests skip other ((name, values) ∷ q) v (here, there) = rw here (
      after_value skip other q
        (if other name then ok v else set_field_strings X name values false v)
        (λ (w : Message X). set_query-tests skip other q w there))

  -- The request builder that is generated and the reflection of PopulateMessage populate a message
  -- from the query in the same way: for the parameters of a path and the body's field, if there is
  -- one, the sorted list of names that the generator writes skips the same names of the query, of
  -- which none is empty.
  pub populate_query-set_query :
      (params : List (Text × Text)) (body : Text) (q : List (Text × List Text)) (v : Message X)
      → All (λ (e : Text × List Text). is_empty e.0 ≡ false) q
      → populate_query X (bound_args (keys params) body) q v
        ≡ set_query X (is_bound X params body) q v
  unfolding populate_query
  populate_query-set_query params body q v named =
      set_query-tests (λ n. any (text_eq n) (bound_args (keys params) body))
        (is_bound X params body) q v
        (All-mono
          (λ (e : Text × List Text) (h : is_empty e.0 ≡ false).
            bound_args-is_bound params body e.0 (ground (arith, h)))
          q named)

append_cancel : (s t u : Text) → s ++ t ≡ s ++ u → t ≡ u
append_cancel s t u h = sym (drop-append s t) ∙ ap (λ x. drop (length s) x) h ∙ drop-append s u

ne_suffix : (s t : Text) (c : ℕ) → s ≢ s ++ (c ∷ t)
ne_suffix s t c h =
    let same : length s ≡ length (s ++ (c ∷ t)) = ap (λ x. length x) h in
    omega (arith, same, length-append s (c ∷ t))

format_int_inj : (i j : ℕ) → i < 2 ^ 64 → j < 2 ^ 64 → format_int i ≡ format_int j → i ≡ j
format_int_inj i j hi hj h =
    let both : some i ≡ some j =
      sym (parse_uint-format_int i hi) ∙ ap parse_uint h ∙ parse_uint-format_int j hj in
    ground arith

-- The bindings of one method have different constructors.
pub operation_fn_name-idx :
    (method : Text) (i j : ℕ)
    → i < 2 ^ 64
    → j < 2 ^ 64
    → operation_fn_name method i ≡ operation_fn_name method j
    → i ≡ j
unfolding operation_fn_name
operation_fn_name-idx method i j hi hj h = elim (Bool-cases (i == 0)) [
  | inl first ↦ elim (Bool-cases (j == 0)) [
    | inl also ↦ omega (arith, (==_iff i 0).0 first, (==_iff j 0).0 also)
    | inr later ↦ absurd (
        ne_suffix method (format_int j) b'_' (
          append_cancel (codes "Register_") method (method ++ (b'_' ∷ format_int j))
            (rw (operation_fn_name, first, later) at h)))
  ]
  | inr later ↦ elim (Bool-cases (j == 0)) [
    | inl first ↦ absurd (
        ne_suffix method (format_int i) b'_' (
          append_cancel (codes "Register_") method (method ++ (b'_' ∷ format_int i))
            (sym (rw (operation_fn_name, first, later) at h))))
    | inr also ↦
        let suffixes = append_cancel method (b'_' ∷ format_int i) (b'_' ∷ format_int j) (
          append_cancel (codes "Register_") (method ++ (b'_' ∷ format_int i))
            (method ++ (b'_' ∷ format_int j)) (rw (operation_fn_name, later, also) at h)) in
        format_int_inj i j hi hj (append_cancel (b'_' ∷ []) (format_int i) (format_int j) suffixes)
  ]
]
