-- ===== src/Routing/Mux/Services.antt =====
-- What `Register` of routing/mux.go makes of a whole service.
use zara_rpc.Common.{
  ap, ◌∙◌, ◌≡◌, refl, sym, Bool, true, false, not, ◌&&◌, Option, none, some, List, [], ◌∷◌, ◌++◌,
  Text, text_eq, contains_byte, lookup, arith, Bool-cases, Option-cases, inl, inr, if◌then◌else◌,
}
use zara_rpc.Common.Result.{ok, err, Result-cases}
use zara_rpc.Routing.Pattern.Match.{Params}
use zara_rpc.Routing.Pattern.{Pattern}
use zara_rpc.Routing.Pattern.Parse.{parse_pattern, ParseError}
use zara_rpc.Routing.Mux.{
  Mux, Operation, Service, method_of, add_wildcard, add_route, register_operation,
  register_operations, register, in_exact, in_wildcard,
}
use zara_rpc.Routing.Mux.Serving.{answer}
use zara_rpc.Routing.Mux.Answers.{over, first_wins, in_exact-added, answer-over}
use zara_rpc.Routing.Mux.Registering.{continue, register_operations-cons}

module _ {H : Type 0} where
  -- The operation has the method, and the path is its full path, which has no brace.
  abbrev is_exactly : Text → Text → Text → Operation H → Bool
  is_exactly prefix method path op =
      not (contains_byte (prefix ++ op.path) b'{')
      && (text_eq (method_of op) method && text_eq (prefix ++ op.path) path)

  -- The handler of the first operation, in front of the first whose full path does not parse, that
  -- has the method and the path without a brace.
  unfoldable pub first_exact : Text → List (Operation H) → Text → Text → Option (H × Params)
  first_exact prefix [] method path = none
  first_exact prefix (op ∷ ops) method path = elim (parse_pattern (prefix ++ op.path)) [
    | err e ↦ none
    | ok p ↦
        if is_exactly prefix method path op
        then some (op.handler, none)
        else first_exact prefix ops method path
  ]

  first_exact-failed :
      (prefix : Text) (op : Operation H) (ops : List (Operation H)) (e : ParseError)
      (method path : Text)
      → parse_pattern (prefix ++ op.path) ≡ err e
      → first_exact prefix (op ∷ ops) method path ≡ none
  unfolding first_exact
  first_exact-failed prefix op ops e method path failed = rw (first_exact, failed) refl

  first_exact-parsed :
      (prefix : Text) (op : Operation H) (ops : List (Operation H)) (p : Pattern)
      (method path : Text)
      → parse_pattern (prefix ++ op.path) ≡ ok p
      → first_exact prefix (op ∷ ops) method path ≡ (
          if is_exactly prefix method path op
          then some (op.handler, none)
          else first_exact prefix ops method path)
  unfolding first_exact
  first_exact-parsed prefix op ops p method path parsed = rw (first_exact, parsed) refl

  over-first_wins :
      (b : Bool) (h : H) (now later : Option (H × Params))
      → over (first_wins b h now) later ≡ over now (if b then some (h, none) else later)
  over-first_wins false h now later = refl
  over-first_wins true h none later = refl
  over-first_wins true h (some a) later = refl

  over-none : (now : Option (H × Params)) → over now none ≡ now
  over-none none = refl
  over-none (some a) = refl

module _ {N H : Type 0} where
  add_route-in_exact :
      (prefix : Text) (op : Operation H) (p : Pattern) (m : Mux N H) (j q : Text)
      → in_exact q (lookup j (add_route (method_of op) (prefix ++ op.path) p op.handler m).exact)
        ≡ first_wins (is_exactly prefix j q op) op.handler (in_exact q (lookup j m.exact))
  unfolding add_route add_wildcard
  add_route-in_exact prefix op p m j q =
      elim (Bool-cases (contains_byte (prefix ++ op.path) b'{')) [
        | inl braces ↦ rw (add_route, braces) refl
        | inr plain ↦
            rw (add_route, plain)
              (in_exact-added (method_of op) (prefix ++ op.path) j q op.handler m)
      ]

  register_operations-in_exact :
      (prefix : Text) (ops : List (Operation H)) (m : Mux N H) (j q : Text)
      → in_exact q (lookup j (register_operations prefix ops m).0.exact)
        ≡ over (in_exact q (lookup j m.exact)) (first_exact prefix ops j q)
  unfolding register_operations register_operation continue first_exact
  register_operations-in_exact prefix [] m j q = sym (over-none (in_exact q (lookup j m.exact)))
  register_operations-in_exact prefix (op ∷ ops) m j q =
      elim (Result-cases (parse_pattern (prefix ++ op.path))) [
        | inr (e, failed) ↦
            rw (register_operations-cons prefix op ops m, register_operation, failed)
              (sym (
                ap (over (in_exact q (lookup j m.exact)))
                  (first_exact-failed prefix op ops e j q failed)
                ∙ over-none (in_exact q (lookup j m.exact))))
        | inl (p, parsed) ↦
            let m' : Mux N H = add_route (method_of op) (prefix ++ op.path) p op.handler m in
            rw (register_operations-cons prefix op ops m, register_operation, parsed)
              (register_operations-in_exact prefix ops m' j q
                ∙ ap (λ now. over now (first_exact prefix ops j q))
                    (add_route-in_exact prefix op p m j q)
                ∙ over-first_wins (is_exactly prefix j q op) op.handler
                    (in_exact q (lookup j m.exact)) (first_exact prefix ops j q)
                ∙ ap (over (in_exact q (lookup j m.exact)))
                    (sym (first_exact-parsed prefix op ops p j q parsed)))
      ]

  -- After `Register` of a service, also of one with a path that does not parse: an exact route that
  -- was there keeps its handler and answers first, for every method and every path; where there was
  -- none, the first operation of the service with this method and this full path answers, if the path
  -- has no brace and the operation stands in front of the first whose full path does not parse; and
  -- else the tree of the method answers, as `Register` leaves it.
  pub register-answer :
      (service : Service H) (m : Mux N H) (method path : Text)
      → answer (register service m).0 method path
        ≡ over (in_exact path (lookup method m.exact)) (
            over
              (first_exact service.prefix service.operations method path)
              (in_wildcard path (lookup method (register service m).0.wildcard)))
  unfolding register
  register-answer service m method path =
      answer-over (register service m).0 method path
      ∙ ap (λ now. over now (in_wildcard path (lookup method (register service m).0.wildcard)))
          (register_operations-in_exact service.prefix service.operations m method path)
      ∙ ground (
        arith,
        Option-cases (in_exact path (lookup method m.exact)),
        Option-cases (first_exact service.prefix service.operations method path),
      )
