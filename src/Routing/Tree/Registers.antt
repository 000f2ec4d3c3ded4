-- ===== src/Routing/Tree/Registers.antt =====
-- `insert` of routing/route_tree.go registers one route and leaves the others.
use zara_rpc.Common.{◌≡◌, ap, ◌∙◌, List, [], ◌∷◌, ◌++◌, Text, append_assoc, subst}
use zara_rpc.Routing.Pattern.{Segment, Pattern, slash}
use zara_rpc.Routing.Tree.{Label, Node}
use zara_rpc.Routing.Tree.Insert.{
  flush, add_terminal, add_param_child, add_resource_child, add_route, insert,
}
use zara_rpc.Routing.Tree.Routes.{Atom, bytes, atoms, label, route_of, routes_at, Extends}
use zara_rpc.Routing.Tree.Adds.{
  AddsAt, bytes-append, add_terminal-AddsAt, add_param_child-AddsAt, add_resource_child-AddsAt,
}
use zara_rpc.Routing.Tree.AddsLiteral.{add_literal_child-AddsAt}

module _ {H : Type 0} where
  flush-AddsAt :
      (lit : Text) (k : Node H → Node H) (s : List Atom) (v0 : Text) (h0 : H)
      → AddsAt k s v0 h0
      → AddsAt (flush lit k) (bytes lit ++ s) v0 h0
  unfolding flush
  flush-AddsAt [] k s v0 h0 a n = a n
  flush-AddsAt (c ∷ lit) k s v0 h0 a n = add_literal_child-AddsAt k s v0 h0 a (c ∷ lit) (λ e. cc) n

  add_route-AddsAt :
      (segs : List Segment) (lit verb : Text) (h : H)
      → AddsAt (add_route segs lit verb h) (bytes lit ++ route_of segs) verb h
  unfolding add_route
  add_route-AddsAt [] lit verb h n =
      flush-AddsAt lit (add_terminal verb h) [] verb h (add_terminal-AddsAt verb h) n
  add_route-AddsAt (Segment.literal l ∷ segs) lit verb h n =
      subst
        (λ t.
          Extends (routes_at n) (routes_at (add_route segs (lit ++ (slash ∷ l)) verb h n))
            (atoms (label n) ++ t) verb h)
        (ap (λ t. t ++ route_of segs) (bytes-append lit (slash ∷ l))
          ∙ append_assoc (bytes lit) (bytes (slash ∷ l)) (route_of segs))
        (add_route-AddsAt segs (lit ++ (slash ∷ l)) verb h n)
  add_route-AddsAt (Segment.param name ∷ segs) lit verb h n =
      flush-AddsAt lit (add_param_child name (add_route segs [] verb h))
        (Atom.param name ∷ route_of segs) verb h
        (add_param_child-AddsAt (add_route segs [] verb h) (route_of segs) verb h
          (λ m. add_route-AddsAt segs [] verb h m) name)
        n
  add_route-AddsAt (Segment.resource name expr ∷ segs) lit verb h n =
      flush-AddsAt lit (add_resource_child name expr (add_route segs [] verb h))
        (Atom.resource name expr ∷ route_of segs) verb h
        (add_resource_child-AddsAt (add_route segs [] verb h) (route_of segs) verb h
          (λ m. add_route-AddsAt segs [] verb h m) name expr)
        n

  -- The labels of a tree whose root is the empty literal, as `newRouteTree` makes it.
  abbrev pub IsRoot : Node H → Type 0
  IsRoot n = label n ≡ Label.literal []

  -- Inserting a pattern at a root with the empty prefix keeps every route of the tree, adds no
  -- route but the pattern's own (its segments, its verb and its handler), and afterwards some
  -- handler stands behind the pattern's segments and verb.
  pub insert-Extends :
      (p : Pattern) (h : H) (tree : Node H)
      → IsRoot tree
      → Extends (routes_at tree) (routes_at (insert p h tree)) (route_of p.segments) p.verb h
  unfolding insert
  insert-Extends p h tree root =
      subst
        (λ t.
          Extends (routes_at tree) (routes_at (add_route p.segments [] p.verb h tree)) t p.verb h)
        (ap (λ l. atoms l ++ route_of p.segments) root)
        (add_route-AddsAt p.segments [] p.verb h tree)
