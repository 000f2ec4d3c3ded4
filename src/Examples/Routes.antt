-- ===== src/Examples/Routes.antt =====
-- Templates and the radix tree of routing/ at concrete inputs, with a template of the
-- documentation.
use zara_rpc.Common.{ℕ, ◌≡◌, refl, none, some, [], ◌∷◌, codes, All, arith}
use zara_rpc.Routing.Pattern.{Pattern, Segment, ExprSeg}
use zara_rpc.Routing.Pattern.Parse.{parse_pattern}
use zara_rpc.Routing.Pattern.Match.{match, match_segments}
use zara_rpc.Routing.Pattern.Parts.{match_segments-match_parts, parts, match_parts, IsPlain}
use zara_rpc.Routing.Pattern.WellFormed.{IsWellFormed, parse_pattern-IsWellFormed}
use zara_rpc.Routing.Tree.{Node, new_route_tree}
use zara_rpc.Routing.Tree.Insert.{insert}
use zara_rpc.Routing.Tree.Routes.{Extends, routes_at, route_of}
use zara_rpc.Routing.Tree.Registers.{insert-Extends}
use zara_rpc.Routing.Tree.Lookup.{lookup_tree, found}
use zara_rpc.Routing.Tree.Boundary.{lookup-match-disagree, literal_then_param}

abbrev user_route : Pattern
user_route = record {
  raw = codes "/v1/users/{id}:get";
  segments =
      Segment.literal (codes "v1")
      ∷ Segment.literal (codes "users")
      ∷ Segment.param (codes "id")
      ∷ [];
  verb = codes "get";
}

abbrev topic_route : Pattern
topic_route = record {
  raw = codes "/v1/{name=topics/**}";
  segments =
      Segment.literal (codes "v1")
      ∷ Segment.resource (codes "name") (ExprSeg.literal (codes "topics") ∷ ExprSeg.multi ∷ [])
      ∷ [];
  verb = [];
}

abbrev user_tree : Node ℕ
user_tree = insert user_route 1 new_route_tree

insert-Extends_example :
    Extends
      (routes_at user_tree)
      (routes_at (insert topic_route 2 user_tree))
      (route_of topic_route.segments)
      []
      2
unfolding insert
insert-Extends_example = insert-Extends topic_route 2 user_tree refl

parse_pattern-IsWellFormed_example : IsWellFormed topic_route
unfolding parse_pattern
parse_pattern-IsWellFormed_example =
    parse_pattern-IsWellFormed (codes "/v1/{name=topics/**}") topic_route refl

users_IsPlain : All IsPlain user_route.segments
users_IsPlain = (
  ((λ e. cc), ((λ e. omega arith), ((λ e. omega arith), tt))),
  (
    (
      (λ e. cc),
      (
        (λ e. omega arith),
        ((λ e. omega arith), ((λ e. omega arith), ((λ e. omega arith), ((λ e. omega arith), tt)))),
      ),
    ),
    (tt, tt),
  ),
)

match_segments-match_parts_example :
    match_segments user_route.segments (codes "//v1/users/7/") none
    ≡ match_parts user_route.segments (parts (codes "//v1/users/7/")) none
match_segments-match_parts_example =
    match_segments-match_parts user_route.segments (codes "//v1/users/7/") none users_IsPlain

abbrev glued_tree : Node ℕ
glued_tree = insert (literal_then_param (codes "l") (codes "n")) 1 new_route_tree

lookup-match-disagree_example :
    (lookup_tree glued_tree (codes "/lv") ≡ found 1 (some ((codes "n", codes "v") ∷ [])))
    × (match (literal_then_param (codes "l") (codes "n")) (codes "/lv") ≡ none)
lookup-match-disagree_example =
    lookup-match-disagree {H = ℕ} 1 (codes "l") (codes "n") (codes "v") (λ e. cc)
      ((λ e. omega arith), tt) ((λ e. omega arith), tt)
