-- ===== src/Routing/Tree/Boundary.antt =====
-- Where `lookup` of routing/route_tree.go and `Match` of routing/pattern.go disagree: a literal
-- node does not check that its prefix ends at a segment boundary.
use zara_rpc.Common.{
  All-append, ◌≢◌, ◌≡◌, refl, ap, ◌∙◌, none, some, List, [], ◌∷◌, ◌++◌, Text, arith,
  has_prefix-append, drop-append,
}
use zara_rpc.Routing.Pattern.{Segment, Pattern, slash}
use zara_rpc.Routing.Pattern.Match.{
  segment_of, after_segment, skip_slashes, match, strip_verb, match_segments, match_segment, Params,
  match_literal,
}
use zara_rpc.Routing.Pattern.Parts.{NoSlash}
use zara_rpc.Routing.Tree.{Node, new_route_tree, node, nil, cons, Label}
use zara_rpc.Routing.Tree.Insert.{insert}
use zara_rpc.Routing.Tree.Lookup.{
  lookup_tree, lookup, found, match_terminal, match_capture, strip_trailing_slashes,
}

-- The pattern `/l/{name}`.
abbrev pub literal_then_param : Text → Text → Pattern
literal_then_param l name = record {
  raw = slash ∷ (l ++ (slash ∷ b'{' ∷ name) ++ (b'}' ∷ []));
  segments = Segment.literal l ∷ Segment.param name ∷ [];
  verb = [];
}

module _ {H : Type 0} (h : H) (l name : Text) where
  abbrev one_route : Node H
  one_route = node (Label.literal []) [] (
      cons
        (node (Label.literal (slash ∷ l)) []
          (cons (node (Label.param name) (([], h) ∷ []) nil) nil))
        nil)

  insert-one_route : insert (literal_then_param l name) h new_route_tree ≡ one_route
  unfolding insert
  insert-one_route = refl

segment_of-NoSlash : (s : Text) → NoSlash s → segment_of s ≡ s
unfolding segment_of
segment_of-NoSlash [] n = refl
segment_of-NoSlash (c ∷ s) n = ground (arith, segment_of-NoSlash s)

after_segment-NoSlash : (s : Text) → NoSlash s → after_segment s ≡ []
unfolding after_segment
after_segment-NoSlash [] n = refl
after_segment-NoSlash (c ∷ s) n = ground (arith, after_segment-NoSlash s)

skip_slashes-NoSlash : (s : Text) → NoSlash s → skip_slashes s ≡ s
unfolding skip_slashes
skip_slashes-NoSlash [] n = refl
skip_slashes-NoSlash (c ∷ s) n = ground arith

skip_slashes-slash : (s : Text) → skip_slashes (slash ∷ s) ≡ skip_slashes s
unfolding skip_slashes
skip_slashes-slash s = refl

module _ {H : Type 0} (h : H) (l name : Text) where
  lookup-one_route :
      (v : Text)
      → v ≢ []
      → NoSlash v
      → lookup (one_route h l name) (slash ∷ (l ++ v)) none ≡ found h (some ((name, v) ∷ []))
  unfolding lookup match_capture match_terminal strip_trailing_slashes
  lookup-one_route [] filled n = absurd (filled refl)
  lookup-one_route (c ∷ v) filled n = rw (
    has_prefix-append l (c ∷ v),
    drop-append l (c ∷ v),
    skip_slashes-NoSlash (c ∷ v) n,
    segment_of-NoSlash (c ∷ v) n,
    after_segment-NoSlash (c ∷ v) n,
  )

match_literal-glued : (l v : Text) → v ≢ [] → NoSlash v → match_literal l (l ++ v) ≡ none
unfolding match_literal
match_literal-glued l [] filled n = absurd (filled refl)
match_literal-glued l (c ∷ v) filled n =
    rw (has_prefix-append l (c ∷ v), drop-append l (c ∷ v)) (ground arith)

match_segments-unmatched :
    (l : Text) (segs : List Segment) (p : Text) (ps : Params)
    → match_literal l (skip_slashes p) ≡ none
    → match_segments (Segment.literal l ∷ segs) p ps ≡ none
unfolding match_segments match_segment
match_segments-unmatched l segs p ps e = rw (match_segments, match_segment, e)

match-glued :
    (l name v : Text)
    → v ≢ []
    → NoSlash l
    → NoSlash v
    → match (literal_then_param l name) (slash ∷ (l ++ v)) ≡ none
unfolding match strip_verb
match-glued l name v filled k n =
    match_segments-unmatched l (Segment.param name ∷ []) (slash ∷ (l ++ v)) none (
      rw
        (
          skip_slashes-slash (l ++ v),
          skip_slashes-NoSlash (l ++ v) (All-append (λ c. c ≢ slash) l v k n),
        )
        (match_literal-glued l v filled n))

-- The tree with the one pattern of a literal and a parameter finds it for a path in which the two
-- are not separated by a slash, with the bytes behind the literal as the parameter; `Match` of the
-- same pattern rejects that path. The bytes are non-empty and, like the literal, have no slash.
pub lookup-match-disagree :
    {H : Type 0} (h : H) (l name v : Text)
    → v ≢ []
    → NoSlash l
    → NoSlash v
    → (lookup_tree (insert (literal_then_param l name) h new_route_tree) (slash ∷ (l ++ v))
        ≡ found h (some ((name, v) ∷ [])))
      × (match (literal_then_param l name) (slash ∷ (l ++ v)) ≡ none)
unfolding lookup_tree
lookup-match-disagree h l name v filled k n = (
  ap (λ t. lookup t (slash ∷ (l ++ v)) none) (insert-one_route h l name)
      ∙ lookup-one_route h l name v filled n,
  match-glued l name v filled k n,
)
