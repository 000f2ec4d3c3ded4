-- ===== src/Routing/Mux/Answers.antt =====
-- What `Register` of routing/mux.go does to the answers of the mux.
use zara_rpc.Routing.Tree.Insert
use zara_rpc.Common.{
  sym, ap₂, ◌++◌, ◌≢◌, contains_byte, not, ◌≡◌, refl, ap, ◌∙◌, Bool, true, false, ◌&&◌, Option,
  none, some, List, Text, text_eq, text_eq_iff, lookup, insert, lookup-insert, arith, Bool-cases,
  Option-cases, inl, inr, if◌then◌else◌,
}
use zara_rpc.Routing.Pattern.Match.{Params}
use zara_rpc.Common.Result.{ok, Result-cases}
use zara_rpc.Routing.Pattern.{Pattern}
use zara_rpc.Routing.Pattern.Parse.{parse_pattern}
use zara_rpc.Routing.Mux.{
  in_wildcard, tree_of, method_of, Operation, add_route, add_wildcard, register_operation, Mux,
  paths_of, insert_new, is_some, in_exact, add_exact,
}
use zara_rpc.Routing.Mux.Serving.{answer}

module _ {H : Type 0} where
  -- `insert_new` keeps what is there, and adds the path if it is missing.
  lookup-insert_new :
      (path q : Text) (h : H) (by_path : List (Text × H))
      → lookup q (insert_new path h by_path) ≡ (
          if text_eq path q && not (is_some (lookup path by_path))
          then some h
          else lookup q by_path)
  lookup-insert_new path q h by_path = elim (Bool-cases (is_some (lookup path by_path))) [
    | inl e ↦ rw e (ground arith)
    | inr e ↦ rw e (lookup-insert path q h by_path ∙ ground arith)
  ]

  -- What a registration leaves of the answer `now` of a method at a path.
  abbrev pub first_wins : Bool → H → Option (H × Params) → Option (H × Params)
  first_wins false h now = now
  first_wins true h none = some (h, none)
  first_wins true h (some a) = some a

  in_exact-insert_new :
      (path q : Text) (h : H) (by_path : List (Text × H))
      → in_exact q (some (insert_new path h by_path))
        ≡ first_wins (text_eq path q) h (in_exact q (some by_path))
  in_exact-insert_new path q h by_path = elim (Bool-cases (text_eq path q)) [
    | inl e ↦
        let same : path ≡ q = (text_eq_iff path q).0 e in
        ground (arith, lookup-insert_new path q h by_path, Option-cases (lookup q by_path), same)
    | inr e ↦ ground (arith, lookup-insert_new path q h by_path)
  ]

  in_exact-paths_of :
      (method q : Text) (exact : List (Text × List (Text × H)))
      → in_exact q (some (paths_of method exact)) ≡ in_exact q (lookup method exact)
  in_exact-paths_of method q exact = ground (arith, Option-cases (lookup method exact))

  in_exact-add_exact :
      (method path j q : Text) (h : H) (exact : List (Text × List (Text × H)))
      → in_exact q (lookup j (insert method (insert_new path h (paths_of method exact)) exact))
        ≡ first_wins (text_eq method j && text_eq path q) h (in_exact q (lookup j exact))
  in_exact-add_exact method path j q h exact =
      ap (in_exact q) (lookup-insert method j (insert_new path h (paths_of method exact)) exact)
      ∙ elim (Bool-cases (text_eq method j)) [
        | inl e ↦
            rw (e, ← (text_eq_iff method j).0 e)
              (in_exact-insert_new path q h (paths_of method exact)
                ∙ ap (first_wins (text_eq path q) h) (in_exact-paths_of method q exact))
        | inr e ↦ rw e refl
      ]

  -- A path without braces answers for its method, if nothing is registered for it exactly.
  abbrev pub exact_first :
      Bool → H → Option (H × Params) → Option (H × Params) → Option (H × Params)
  exact_first false h exact now = now
  exact_first true h none now = some (h, none)
  exact_first true h (some a) now = some a

  -- The exact answer goes before the other one.
  abbrev pub over : Option (H × Params) → Option (H × Params) → Option (H × Params)
  over (some a) now = some a
  over none now = now

  exact_first-first_wins :
      (b : Bool) (h h' : H) (o now : Option (H × Params))
      → exact_first b h' (first_wins b h o) (over (first_wins b h o) now)
        ≡ over (first_wins b h o) now
  exact_first-first_wins false h h' o now = refl
  exact_first-first_wins true h h' none now = refl
  exact_first-first_wins true h h' (some a) now = refl

module _ {N H : Type 0} where
  add_exact-answer :
      (method path j q : Text) (h : H) (m : Mux N H)
      → answer (add_exact method path h m) j q
        ≡ exact_first
            (text_eq method j && text_eq path q)
            h
            (in_exact q (lookup j m.exact))
            (answer m j q)
  unfolding answer add_exact
  add_exact-answer method path j q h m = ground (
    arith,
    in_exact-add_exact method path j q h m.exact,
    Option-cases (in_exact q (lookup j m.exact)),
    Bool-cases (text_eq method j && text_eq path q),
  )

  add_wildcard-answer :
      (method j q : Text) (p : Pattern) (h : H) (m : Mux N H)
      → text_eq method j ≡ false
      → answer (add_wildcard method p h m) j q ≡ answer m j q
  unfolding answer add_wildcard
  add_wildcard-answer method j q p h m e =
      ground
        (arith, lookup-insert method j (Insert.insert p h (tree_of method m.wildcard)) m.wildcard)

  -- What a registration that succeeded did.
  register_operation-cases :
      (prefix : Text) (op : Operation H) (m m' : Mux N H)
      → register_operation prefix op m ≡ ok m'
      → (p : Pattern) × (parse_pattern (prefix ++ op.path) ≡ ok p)
        × (m' ≡ add_route (method_of op) (prefix ++ op.path) p op.handler m)
  unfolding register_operation
  register_operation-cases prefix op m m' e =
      elim (Result-cases (parse_pattern (prefix ++ op.path))) [
        | inl (p, parsed) ↦ (p, parsed, ground arith)
        | inr (x, failed) ↦ absurd (ground arith)
      ]

  add_route-exact :
      (method path : Text) (p : Pattern) (h : H) (m : Mux N H)
      → contains_byte path b'{' ≡ false
      → add_route method path p h m ≡ add_exact method path h m
  unfolding add_route
  add_route-exact method path p h m e = rw e

  -- Registering, without an error, an operation whose full path has no brace: its handler answers
  -- its method at this path, without parameters, unless an exact route was there, which then stays;
  -- no other method and no other path gets another answer.
  pub register_operation-answer :
      (prefix : Text) (op : Operation H) (m m' : Mux N H) (j q : Text)
      → contains_byte (prefix ++ op.path) b'{' ≡ false
      → register_operation prefix op m ≡ ok m'
      → answer m' j q
        ≡ exact_first
            (text_eq (method_of op) j && text_eq (prefix ++ op.path) q)
            op.handler
            (in_exact q (lookup j m.exact))
            (answer m j q)
  register_operation-answer prefix op m m' j q plain e =
      let (p, parsed, same) = register_operation-cases prefix op m m' e in
      ap (λ t. answer t j q)
        (same ∙ add_route-exact (method_of op) (prefix ++ op.path) p op.handler m plain)
      ∙ add_exact-answer (method_of op) (prefix ++ op.path) j q op.handler m

  -- Registering an operation, with path parameters or without, and without an error, changes the
  -- answers of no other method.
  pub register_operation-other_method :
      (prefix : Text) (op : Operation H) (m m' : Mux N H) (j q : Text)
      → method_of op ≢ j
      → register_operation prefix op m ≡ ok m'
      → answer m' j q ≡ answer m j q
  unfolding add_route
  register_operation-other_method prefix op m m' j q other e =
      let (p, parsed, same) = register_operation-cases prefix op m m' e in
      let differ : text_eq (method_of op) j ≡ false = elim (Bool-cases (text_eq (method_of op) j)) [
        | inl t ↦ absurd (other ((text_eq_iff (method_of op) j).0 t))
        | inr t ↦ t
      ] in
      ap (λ t. answer t j q) same ∙ elim (Bool-cases (contains_byte (prefix ++ op.path) b'{')) [
        | inl braces ↦ rw braces (add_wildcard-answer (method_of op) j q p op.handler m differ)
        | inr plain ↦
            rw plain
              (add_exact-answer (method_of op) (prefix ++ op.path) j q op.handler m ∙ ground arith)
      ]

  pub in_exact-added :
      (method path j q : Text) (h : H) (m : Mux N H)
      → in_exact q (lookup j (add_exact method path h m).exact)
        ≡ first_wins (text_eq method j && text_eq path q) h (in_exact q (lookup j m.exact))
  unfolding add_exact
  in_exact-added method path j q h m = in_exact-add_exact method path j q h m.exact

  pub answer-over :
      (m : Mux N H) (j q : Text)
      → answer m j q ≡ over (in_exact q (lookup j m.exact)) (in_wildcard q (lookup j m.wildcard))
  unfolding answer
  answer-over m j q = ground (arith, Option-cases (in_exact q (lookup j m.exact)))

  register_operation-exact :
      (prefix : Text) (op : Operation H) (m : Mux N H) (p : Pattern)
      → parse_pattern (prefix ++ op.path) ≡ ok p
      → contains_byte (prefix ++ op.path) b'{' ≡ false
      → register_operation prefix op m
        ≡ ok (add_exact (method_of op) (prefix ++ op.path) op.handler m)
  unfolding register_operation add_route
  register_operation-exact prefix op m p parsed plain =
      rw (register_operation, parsed, add_route, plain) refl

  -- The exact route that stands answers the second time as well.
  add_exact-twice :
      (method path j q : Text) (h h' : H) (m : Mux N H)
      → answer (add_exact method path h' (add_exact method path h m)) j q
        ≡ answer (add_exact method path h m) j q
  add_exact-twice method path j q h h' m =
      let m' = add_exact method path h m in
      add_exact-answer method path j q h' m'
      ∙ ground (
        arith,
        answer-over m' j q,
        in_exact-added method path j q h m,
        exact_first-first_wins (text_eq method j && text_eq path q) h h'
            (in_exact q (lookup j m.exact)) (in_wildcard q (lookup j m'.wildcard)),
      )

  -- Registering a second operation for the method and the full path of an operation registered
  -- before, without braces, is no error, and changes no answer.
  pub register_operation-duplicate :
      (prefix : Text) (op op' : Operation H) (m m' : Mux N H)
      → contains_byte (prefix ++ op.path) b'{' ≡ false
      → method_of op' ≡ method_of op
      → op'.path ≡ op.path
      → register_operation prefix op m ≡ ok m'
      → (m'' : Mux N H) × (register_operation prefix op' m' ≡ ok m'')
        × ((j q : Text) → answer m'' j q ≡ answer m' j q)
  register_operation-duplicate prefix op op' m m' plain same_method same_path e =
      let (p, parsed, same) = register_operation-cases prefix op m m' e in
      let path : prefix ++ op'.path ≡ prefix ++ op.path = ap (λ t. prefix ++ t) same_path in
      let first : m' ≡ add_exact (method_of op) (prefix ++ op.path) op.handler m =
        same ∙ add_route-exact (method_of op) (prefix ++ op.path) p op.handler m plain in
      (
        add_exact (method_of op') (prefix ++ op'.path) op'.handler m',
        register_operation-exact prefix op' m' p (ap parse_pattern path ∙ parsed)
            (ap (λ t. contains_byte t b'{') path ∙ plain),
        λ j q.
            ap₂ (λ method t. answer (add_exact method t op'.handler m') j q) same_method path
            ∙ ap (λ n. answer (add_exact (method_of op) (prefix ++ op.path) op'.handler n) j q)
                first
            ∙ add_exact-twice (method_of op) (prefix ++ op.path) j q op.handler op'.handler m
            ∙ ap (λ n. answer n j q) (sym first),
      )
