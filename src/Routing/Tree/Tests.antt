-- ===== src/Routing/Tree/Tests.antt =====
-- Runs of the tree and of the parser at fixed inputs.
use zara_rpc.Common.{ℕ, ◌≡◌, refl, none, some, [], ◌∷◌, codes}
use zara_rpc.Common.Result.{ok}
use zara_rpc.Routing.Pattern.{Pattern, Segment, ExprSeg}
use zara_rpc.Routing.Pattern.Parse.{parse_pattern}
use zara_rpc.Routing.Pattern.Match.{
  after_segment, segment_of, skip_slashes, match_resource_expr, match,
}
use zara_rpc.Routing.Tree.{Node, new_route_tree}
use zara_rpc.Routing.Tree.Insert.{insert}
use zara_rpc.Routing.Tree.Lookup.{
  strip_trailing_slashes, match_capture, match_terminal, lookup, found,
}

runs : Unit {0}
unfolding lookup insert match_resource_expr match_terminal match_capture skip_slashes segment_of
    after_segment strip_trailing_slashes
runs = tt

abbrev user_route : Pattern
user_route = record {
  raw = codes "/v1/users/{id}:get";
  segments =
      Segment.literal (codes "v1")
      ∷ Segment.literal (codes "users")
      ∷ Segment.param (codes "id")
      ∷ [];
  verb = codes "get";
}

abbrev topic_route : Pattern
topic_route = record {
  raw = codes "/v1/{name=topics/**}";
  segments =
      Segment.literal (codes "v1")
      ∷ Segment.resource (codes "name") (ExprSeg.literal (codes "topics") ∷ ExprSeg.multi ∷ [])
      ∷ [];
  verb = [];
}

parse_user_route : parse_pattern (codes "/v1/users/{id}:get") ≡ ok user_route
unfolding parse_pattern
parse_user_route = refl

parse_topic_route : parse_pattern (codes "/v1/{name=topics/**}") ≡ ok topic_route
unfolding parse_pattern
parse_topic_route = refl

match_user : match user_route (codes "/v1/users/7:get") ≡ some (some ((codes "id", codes "7") ∷ []))
unfolding match
match_user = refl

abbrev tree : Node ℕ
tree = insert topic_route 2 (insert user_route 1 new_route_tree)

lookup_user :
    lookup tree (codes "/v1/users/7:get") none ≡ found 1 (some ((codes "id", codes "7") ∷ []))
unfolding lookup insert match_resource_expr match_terminal match_capture skip_slashes segment_of
    after_segment strip_trailing_slashes
lookup_user = refl

lookup_topic :
    lookup tree (codes "/v1/topics/a/b") none
    ≡ found 2 (some ((codes "name", codes "topics/a/b") ∷ []))
unfolding lookup insert match_resource_expr match_terminal match_capture skip_slashes segment_of
    after_segment strip_trailing_slashes
lookup_topic = refl

lookup_glued :
    lookup tree (codes "/v1/users7:get") none ≡ found 1 (some ((codes "id", codes "7") ∷ []))
unfolding lookup insert match_resource_expr match_terminal match_capture skip_slashes segment_of
    after_segment strip_trailing_slashes
lookup_glued = refl
