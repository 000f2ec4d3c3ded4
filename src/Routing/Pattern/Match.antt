-- ===== src/Routing/Pattern/Match.antt =====
-- `Pattern.Match` and `matchResourceExpr` of routing/pattern.go. An index `pi` into the path is
-- the text from there on.
use zara_rpc.Common.{
  ℕ, ◌+◌, ◌-◌, Bool, true, Option, none, some, List, [], ◌∷◌, ◌++◌, Text, codes, length, take, drop,
  has_prefix, has_suffix, drop_last, is_empty, ◌==◌, if◌then◌else◌, insert,
}
use zara_rpc.Routing.Pattern.{ExprSeg, Segment, Pattern, slash}

-- `map[string]string`, `none` for the nil map.
abbrev pub Params : Type 0
Params = Option (List (Text × Text))

-- `if params == nil { make }; params[name] = value`
abbrev pub assign : Text → Text → Params → Params
assign name value none = some ((name, value) ∷ [])
assign name value (some m) = some (insert name value m)

unfoldable pub skip_slashes : Text → Text
skip_slashes [] = []
skip_slashes (c ∷ s) = if c == slash then skip_slashes s else c ∷ s

-- The bytes up to the next slash, and the path from that slash on.
unfoldable pub segment_of : Text → Text
segment_of [] = []
segment_of (c ∷ s) = if c == slash then [] else c ∷ segment_of s

unfoldable pub after_segment : Text → Text
after_segment [] = []
after_segment (c ∷ s) = if c == slash then c ∷ s else after_segment s

-- `pi < len(path) && path[pi] != '/'` fails
abbrev pub at_boundary : Text → Bool
at_boundary [] = true
at_boundary (c ∷ s) = c == slash

-- The path behind a literal that ends at a segment boundary.
unfoldable pub match_literal : Text → Text → Option Text
match_literal l p =
    if has_prefix p l
    then (if at_boundary (drop (length l) p) then some (drop (length l) p) else none)
    else none

-- The loop of `matchResourceExpr`; the result is `path[start:pi]` and the path from `pi` on.
unfoldable pub match_expr_from : Text → List ExprSeg → Text → Option (Text × Text)
unfolding skip_slashes after_segment match_literal
match_expr_from start [] p = some (take (length start - length p) start, p)
match_expr_from start (ExprSeg.multi ∷ es) p = some (start, [])
match_expr_from start (ExprSeg.wildcard ∷ es) p =
    match_expr_from start es (after_segment (skip_slashes p))
match_expr_from start (ExprSeg.literal l ∷ es) p = elim (match_literal l (skip_slashes p)) [
  | none ↦ none
  | some rest ↦ match_expr_from start es rest
]

unfoldable pub match_resource_expr : List ExprSeg → Text → Option (Text × Text)
unfolding match_expr_from
match_resource_expr expr path = match_expr_from path expr path

-- One round of the loop of `Match`, behind the slashes.
unfoldable pub match_segment : Segment → Text → Params → Option (Params × Text)
unfolding match_resource_expr segment_of after_segment match_literal
match_segment (Segment.resource name expr) p ps = elim (match_resource_expr expr p) [
  | none ↦ none
  | some (value, rest) ↦ some (assign name value ps, rest)
]
match_segment (Segment.param name) p ps =
    if is_empty (segment_of p) then none else some (assign name (segment_of p) ps, after_segment p)
match_segment (Segment.literal l) p ps = elim (match_literal l p) [
  | none ↦ none
  | some rest ↦ some (ps, rest)
]

unfoldable pub match_segments : List Segment → Text → Params → Option Params
unfolding match_segment skip_slashes
match_segments [] p ps = if is_empty (skip_slashes p) then some ps else none
match_segments (seg ∷ segs) p ps = elim (match_segment seg (skip_slashes p) ps) [
  | none ↦ none
  | some (ps', rest) ↦ match_segments segs rest ps'
]

-- The loop that finds `lastStart`.
last_start : Text → ℕ → ℕ → ℕ
last_start [] i found = found
last_start (c ∷ s) i found = last_start s (i + 1) (if c == slash then i + 1 else found)

-- The path without the custom verb, `none` where the last segment lacks it.
unfoldable pub strip_verb : Text → Text → Option Text
unfolding last_start
strip_verb verb path =
    if is_empty verb
    then some path
    else if has_suffix (drop (last_start path 0 0) path) (codes ":" ++ verb)
    then some (drop_last (length verb + 1) path)
    else none

unfoldable pub match : Pattern → Text → Option Params
unfolding strip_verb match_segments
match p path = elim (strip_verb p.verb path) [
  | none ↦ none
  | some path' ↦ match_segments p.segments path' none
]
