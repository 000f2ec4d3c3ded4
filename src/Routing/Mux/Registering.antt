-- ===== src/Routing/Mux/Registering.antt =====
-- `Register` of routing/mux.go keeps the mux well-formed.
use zara_rpc.Routing.Pattern.Parse.{ParseError}
use zara_rpc.Common.{
  sym, subst, some, Option, ◌≡◌, refl, Option, List, [], ◌∷◌, ◌++◌, Text, text_eq, contains_byte,
  All, insert-IsUnique, insert, arith, Bool-cases, inl, inr,
}
use zara_rpc.Common.Result.{err, Result, ok, Result-cases}
use zara_rpc.Routing.Pattern.{Pattern}
use zara_rpc.Routing.Pattern.Parse.{parse_pattern}
use zara_rpc.Routing.Tree.{Node}
use zara_rpc.Routing.Tree.Insert
use zara_rpc.Routing.Tree.Root.{insert-IsRoot}
use zara_rpc.Routing.Tree.Insert.{
  add_terminal, add_param_child, add_resource_child, update_shared, place_literal, add_literal,
  add_literal_child, flush,
}
use zara_rpc.Routing.Tree.Registers.{IsRoot}
use zara_rpc.Routing.Mux.{
  Mux, Operation, Service, new_mux, paths_of, tree_of, insert_new, method_of, add_exact,
  add_wildcard, add_route, register_operation, register_operations, register,
}
use zara_rpc.Routing.Mux.Serving.{IsWellFormed}

module _ {H : Type 0} where
  insert-rooted :
      (method : Text) (tree : Node H) (ts : List (Text × Node H))
      → IsRoot tree
      → All (λ e. IsRoot e.1) ts
      → All (λ e. IsRoot e.1) (insert method tree ts)
  insert-rooted method tree [] r rs = (r, tt)
  insert-rooted method tree ((k, t) ∷ ts) r (h, hs) = elim (Bool-cases (text_eq k method)) [
    | inl e ↦ rw e (r, hs)
    | inr e ↦ rw e (h, insert-rooted method tree ts r hs)
  ]

  tree_of-IsRoot :
      (method : Text) (ts : List (Text × Node H))
      → All (λ e. IsRoot e.1) ts
      → IsRoot (tree_of method ts)
  tree_of-IsRoot method [] rs = refl
  tree_of-IsRoot method ((k, t) ∷ ts) (h, hs) = elim (Bool-cases (text_eq k method)) [
    | inl e ↦ rw (tree_of, e) h
    | inr e ↦ rw (tree_of, e) (tree_of-IsRoot method ts hs)
  ]

module _ {N H : Type 0} where
  pub new_mux-IsWellFormed : (f : Option N) → IsWellFormed (new_mux {N = N} {H = H} f)
  new_mux-IsWellFormed f = record { exact = tt; wildcard = tt; rooted = tt }

  add_exact-IsWellFormed :
      (method path : Text) (h : H) (m : Mux N H)
      → IsWellFormed m
      → IsWellFormed (add_exact method path h m)
  unfolding add_exact
  add_exact-IsWellFormed method path h m w = record {
    exact = insert-IsUnique method (insert_new path h (paths_of method m.exact)) m.exact w.exact;
    wildcard = w.wildcard;
    rooted = w.rooted;
  }

  add_wildcard-IsWellFormed :
      (method : Text) (p : Pattern) (h : H) (m : Mux N H)
      → IsWellFormed m
      → IsWellFormed (add_wildcard method p h m)
  unfolding add_wildcard
  add_wildcard-IsWellFormed method p h m w =
      let tree = Insert.insert p h (tree_of method m.wildcard) in
      let root : IsRoot tree =
        insert-IsRoot p h (tree_of method m.wildcard) (tree_of-IsRoot method m.wildcard w.rooted) in
      record {
        exact = w.exact;
        wildcard = insert-IsUnique method tree m.wildcard w.wildcard;
        rooted = insert-rooted method tree m.wildcard root w.rooted;
      }

  register_operation-IsWellFormed :
      (prefix : Text) (op : Operation H) (m m' : Mux N H)
      → IsWellFormed m
      → register_operation prefix op m ≡ ok m'
      → IsWellFormed m'
  unfolding register_operation add_route
  register_operation-IsWellFormed prefix op m m' w e =
      elim (Result-cases (parse_pattern (prefix ++ op.path))) [
        | inl (p, parsed) ↦ elim (Bool-cases (contains_byte (prefix ++ op.path) b'{')) [
          | inl braces ↦
              let same : add_wildcard (method_of op) p op.handler m ≡ m' = ground arith in
              rw (← same) (add_wildcard-IsWellFormed (method_of op) p op.handler m w)
          | inr plain ↦
              let same : add_exact (method_of op) (prefix ++ op.path) op.handler m ≡ m' =
                ground arith in
              rw (← same) (add_exact-IsWellFormed (method_of op) (prefix ++ op.path) op.handler m w)
        ]
        | inr (x, failed) ↦ absurd (cc (rw (register_operation, failed) at e))
      ]

  -- The rest of the loop of `Register`.
  abbrev pub continue :
      Text
      → List (Operation H)
      → Mux N H
      → Result ParseError (Mux N H)
      → Mux N H × Option ParseError
  continue prefix ops m (err e) = (m, some e)
  continue prefix ops m (ok m') = register_operations prefix ops m'

  pub register_operations-cons :
      (prefix : Text) (op : Operation H) (ops : List (Operation H)) (m : Mux N H)
      → register_operations prefix (op ∷ ops) m
        ≡ continue prefix ops m (register_operation prefix op m)
  unfolding register_operations
  register_operations-cons prefix op ops m = ground arith

  register_operations-IsWellFormed :
      (prefix : Text) (ops : List (Operation H)) (m : Mux N H)
      → IsWellFormed m
      → IsWellFormed (register_operations prefix ops m).0
  unfolding register_operations
  register_operations-IsWellFormed prefix [] m w = w
  register_operations-IsWellFormed prefix (op ∷ ops) m w =
      rw (register_operations-cons prefix op ops m)
        (elim (Result-cases (register_operation prefix op m)) [
          | inl (m', e) ↦
              subst (λ r. IsWellFormed (continue prefix ops m r).0) (sym e)
                (register_operations-IsWellFormed prefix ops m'
                  (register_operation-IsWellFormed prefix op m m' w e))
          | inr (x, e) ↦ subst (λ r. IsWellFormed (continue prefix ops m r).0) (sym e) (w)
        ])

  -- Registering a service keeps the mux well-formed, also when one of its operations has a template
  -- that does not parse: no method gets a second map of exact routes or a second tree, and every
  -- tree keeps its root.
  pub register-IsWellFormed :
      (service : Service H) (m : Mux N H) → IsWellFormed m → IsWellFormed (register service m).0
  unfolding register
  register-IsWellFormed service m w =
      register_operations-IsWellFormed service.prefix service.operations m w
