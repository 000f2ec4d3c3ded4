-- ===== src/Routing/Mux/Serving.antt =====
-- `ServeHTTP` of routing/mux.go on every branch.
use zara_rpc.Common.{
  not, text_eq_refl, ◌≡◌, refl, sym, ap, ◌∙◌, ◌≢◌, ◌↔◌, true, false, Option, none, some, List, [],
  ◌∷◌, Text, All, holds, IsUnique, lookup, arith, Option-cases, if◌then◌else◌,
}
use zara_rpc.Routing.Pattern.Match.{Params}
use zara_rpc.Routing.Tree.{Node}
use zara_rpc.Routing.Tree.Registers.{IsRoot}
use zara_rpc.Routing.Tree.Lookup.{Outcome, found, missed, lookup_tree}
use zara_rpc.Routing.Mux.{
  Mux, Response, text_mem, collect, sort_strings, join, has_path, tree_has, is_some, is_found,
  in_exact, in_wildcard, of_outcome, path_exists, methods, allowed_methods, serve,
}
use zara_rpc.Routing.Mux.Methods.{
  no_items-collect, no_items, text_mem-collect, collect-IsDistinct, IsSorted, IsDistinct,
  sort_strings-IsSorted, sort_strings-text_mem, sort_strings-IsDistinct,
}

-- A list without members is empty.
no_mem : (ks : List Text) → ((j : Text) → text_mem j ks ≡ false) → ks ≡ []
no_mem [] h = refl
no_mem (k ∷ ks) h = cc (h k, text_eq_refl k)

nil_of_no_items : (ks : List Text) → no_items ks ≡ true → ks ≡ []
nil_of_no_items [] h = refl
nil_of_no_items (k ∷ ks) h = cc

is_some-eq-false : {A : Type 0} (o : Option A) → is_some o ≡ false → o ≡ none
is_some-eq-false none h = refl
is_some-eq-false (some a) h = cc

sort_strings-filled : (ks : List Text) → no_items ks ≡ false → sort_strings ks ≢ []
sort_strings-filled [] h e = cc
sort_strings-filled (k ∷ ks) h e =
    cc (sym (ap (text_mem k) e), sort_strings-text_mem k (k ∷ ks), text_eq_refl k)

module _ {H : Type 0} where
  has_path-in_exact :
      (path : Text) (o : Option (List (Text × H)))
      → holds (has_path path) o ≡ is_some (in_exact path o)
  has_path-in_exact path none = refl
  has_path-in_exact path (some by_path) = ground (arith, Option-cases (lookup path by_path))

  tree_has-in_wildcard :
      (path : Text) (o : Option (Node H)) → holds (tree_has path) o ≡ is_some (in_wildcard path o)
  tree_has-in_wildcard path none = refl
  tree_has-in_wildcard path (some tree) = by_outcome (lookup_tree tree path)
    where
      by_outcome : (o : Outcome H) → is_found o ≡ is_some (of_outcome o)
      by_outcome (found h ps) = refl
      by_outcome (missed ps) = refl

module _ {N H : Type 0} where
  -- No method is a key twice, and every tree has the root of `newRouteTree`.
  pub record IsWellFormed (m : Mux N H) : Type 0 where
    pub exact : IsUnique m.exact
    pub wildcard : IsUnique m.wildcard
    pub rooted : All (λ e. IsRoot e.1) m.wildcard

  -- What is registered for a method at a path: the exact route first.
  unfoldable pub answer : Mux N H → Text → Text → Option (H × Params)
  answer m method path = elim (in_exact path (lookup method m.exact)) [
    | some a ↦ some a
    | none ↦ in_wildcard path (lookup method m.wildcard)
  ]

  -- The methods that are collected are exactly those that have an answer.
  text_mem-methods :
      (m : Mux N H) (path j : Text)
      → IsWellFormed m
      → text_mem j (methods m path) ≡ is_some (answer m j path)
  unfolding methods answer
  text_mem-methods m path j w =
      text_mem-collect (tree_has path) j (collect (has_path path) [] m.exact) m.wildcard w.wildcard
      ∙ ground (
        arith,
        text_mem-collect (has_path path) j [] m.exact w.exact,
        has_path-in_exact path (lookup j m.exact),
        tree_has-in_wildcard path (lookup j m.wildcard),
        Option-cases (in_exact path (lookup j m.exact)),
      )

  path_exists-methods :
      (m : Mux N H) (path : Text) → path_exists m path ≡ not (no_items (methods m path))
  unfolding path_exists methods
  path_exists-methods m path = ground (
    arith,
    no_items-collect (tree_has path) (collect (has_path path) [] m.exact) m.wildcard,
    no_items-collect (has_path path) [] m.exact,
  )

  methods-IsDistinct : (m : Mux N H) (path : Text) → IsDistinct (methods m path)
  unfolding methods
  methods-IsDistinct m path =
      collect-IsDistinct (tree_has path) (collect (has_path path) [] m.exact) m.wildcard
        (collect-IsDistinct (has_path path) [] m.exact tt)

  -- What is served without an answer for the method.
  refuse : Mux N H → Text → Response N H
  refuse m path =
      if no_items (methods m path)
      then Response.unrouted m.not_found
      else Response.not_allowed (allowed_methods m path)

  respond : Mux N H → Text → Option (H × Params) → Response N H
  respond m path (some (h, ps)) = Response.handled h ps
  respond m path none = refuse m path

  serve-respond :
      (m : Mux N H) (method path : Text)
      → serve m method path ≡ respond m path (answer m method path)
  unfolding serve answer respond refuse
  serve-respond m method path = ground (
    arith,
    path_exists-methods m path,
    Option-cases (in_exact path (lookup method m.exact)),
    Option-cases (in_wildcard path (lookup method m.wildcard)),
  )

  refuse-empty :
      (m : Mux N H) (path : Text)
      → methods m path ≡ []
      → refuse m path ≡ Response.unrouted m.not_found
  unfolding refuse
  refuse-empty m path e = rw e refl

  respond-eq-unrouted :
      (m : Mux N H) (path : Text) (o : Option (H × Params)) (f : Option N)
      → respond m path o ≡ Response.unrouted f
      → no_items (methods m path) ≡ true
  unfolding respond refuse
  respond-eq-unrouted m path (some a) f e = cc
  respond-eq-unrouted m path none f e = ground arith

  respond-eq-not_allowed :
      (m : Mux N H) (path : Text) (o : Option (H × Params)) (allow : Text)
      → respond m path o ≡ Response.not_allowed allow
      → (o ≡ none) × (no_items (methods m path) ≡ false) × (allow ≡ allowed_methods m path)
  unfolding respond refuse
  respond-eq-not_allowed m path (some a) allow e = cc
  respond-eq-not_allowed m path none allow e = ground arith

  -- On a well-formed mux, a request is answered 404 (by the not-found handler) exactly if no method
  -- has an answer at its path.
  pub serve-unrouted_iff :
      (m : Mux N H) (method path : Text)
      → IsWellFormed m
      → (serve m method path ≡ Response.unrouted m.not_found)
        ↔ ((j : Text) → answer m j path ≡ none)
  unfolding respond
  serve-unrouted_iff m method path w = (
    λ e j.
        let none_left =
          respond-eq-unrouted m path _ m.not_found (sym (serve-respond m method path) ∙ e) in
        is_some-eq-false (answer m j path) (
          sym (text_mem-methods m path j w)
          ∙ ap (text_mem j) (nil_of_no_items (methods m path) none_left)),
    λ h.
        let empty : methods m path ≡ [] =
          no_mem (methods m path) (λ j. text_mem-methods m path j w ∙ ap is_some (h j)) in
        serve-respond m method path ∙ ap (respond m path) (h method) ∙ refuse-empty m path empty,
  )

  -- On a well-formed mux, a request that is answered 405 has a path at which its own method has no
  -- answer but some method has one, and its Allow header joins the methods with an answer there:
  -- sorted, each once, and no other.
  pub serve-not_allowed :
      (m : Mux N H) (method path allow : Text)
      → IsWellFormed m
      → serve m method path ≡ Response.not_allowed allow
      → (ks : List Text) × (allow ≡ join ks)
        × IsSorted ks
        × IsDistinct ks
        × (ks ≢ [])
        × (text_mem method ks ≡ false)
        × ((j : Text) → text_mem j ks ≡ is_some (answer m j path))
  unfolding allowed_methods
  serve-not_allowed m method path allow w e =
      let (unanswered, filled, header) =
        respond-eq-not_allowed m path _ allow (sym (serve-respond m method path) ∙ e) in
      let mem : (j : Text)
          → text_mem j (sort_strings (methods m path)) ≡ is_some (answer m j path) =
        λ j. sort_strings-text_mem j (methods m path) ∙ text_mem-methods m path j w in
      (
        sort_strings (methods m path),
        header,
        sort_strings-IsSorted (methods m path),
        sort_strings-IsDistinct (methods m path) (methods-IsDistinct m path),
        sort_strings-filled (methods m path) filled,
        mem method ∙ ap is_some unanswered,
        mem,
      )
