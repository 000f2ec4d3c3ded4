-- ===== src/Routing/Pattern/Parse.antt =====
-- `ParsePattern`, `splitTemplate`, `parseSegment` and `parseResourceExpr` of routing/pattern.go.
use zara_rpc.Common.{
  Option, ℕ, suc, Bool, not, ◌&&◌, none, some, List, [], ◌∷◌, ◌++◌, Text, codes, text_eq,
  has_prefix, has_suffix, drop_last, take, drop, index_byte, last_index_byte, contains_byte,
  is_empty, split_byte, ltb, ◌==◌, if◌then◌else◌, ℤ, pos, ◌==ℤ◌, incr, decr,
}
use zara_rpc.Common.Result.{Result, ok, err, ◌>>=◌}
use zara_rpc.Routing.Pattern.{ExprSeg, Segment, Pattern, slash}

pub data ParseError : Type 0 where
  empty_template no_leading_slash no_segments : ParseError
  missing_brace empty_parameter empty_name_or_expr invalid_expr : ParseError

-- The `switch` of `splitTemplate`: the parts to append, the builder and the depth after it.
abbrev split_step : ℕ → Text → ℤ → List Text × Text × ℤ
split_step c cur depth =
    if c == b'{'
    then ([], cur ++ (c ∷ []), incr depth)
    else if c == b'}'
    then ([], cur ++ (c ∷ []), decr depth)
    else if c == slash
    then (if depth ==ℤ pos 0 then (cur ∷ [], [], depth) else ([], cur ++ (c ∷ []), depth))
    else ([], cur ++ (c ∷ []), depth)

unfoldable pub split_from : Text → Text → ℤ → List Text
split_from [] cur depth = if is_empty cur then [] else cur ∷ []
split_from (c ∷ s) cur depth =
    let (out, cur', depth') = split_step c cur depth in out ++ split_from s cur' depth'

unfoldable pub split_template : Text → List Text
unfolding split_from
split_template template = split_from template [] (pos 0)

-- The `switch` of `parseResourceExpr`.
unfoldable pub expr_seg : Text → Result ParseError ExprSeg
expr_seg part =
    if text_eq part (codes "**")
    then ok ExprSeg.multi
    else if text_eq part (codes "*")
    then ok ExprSeg.wildcard
    else if is_empty part
    then err invalid_expr
    else ok (ExprSeg.literal part)

unfoldable pub expr_segs : List Text → Result ParseError (List ExprSeg)
expr_segs [] = ok []
expr_segs (part ∷ parts) = do seg ← expr_seg part; segs ← expr_segs parts; ok (seg ∷ segs)

unfoldable pub non_empty_segs : List ExprSeg → Result ParseError (List ExprSeg)
non_empty_segs [] = err invalid_expr
non_empty_segs (seg ∷ segs) = ok (seg ∷ segs)

unfoldable pub parse_resource_expr : Text → Result ParseError (List ExprSeg)
unfolding expr_seg expr_segs non_empty_segs
parse_resource_expr expr = do segs ← expr_segs (split_byte slash expr); non_empty_segs segs

-- `{name=expr}`, cut at its first `=`.
unfoldable pub parse_resource : Text → Text → Result ParseError Segment
parse_resource name expr =
    if is_empty name
    then err empty_name_or_expr
    else if is_empty expr
    then err empty_name_or_expr
    else (parse_resource_expr expr >>= λ segs. ok (Segment.resource name segs))

-- The part of `parseSegment` behind the braces.
unfoldable pub parse_inner : Text → Result ParseError Segment
parse_inner inner = if is_empty inner then err empty_parameter else elim (index_byte inner b'=') [
  | none ↦ ok (Segment.param inner)
  | some eq ↦ parse_resource (take eq inner) (drop (suc eq) inner)
]

unfoldable pub parse_segment : Text → Result ParseError Segment
unfolding parse_inner parse_resource parse_resource_expr
parse_segment part =
    if not (has_prefix part (codes "{"))
    then ok (Segment.literal part)
    else if not (has_suffix part (codes "}"))
    then err missing_brace
    else parse_inner (drop_last 1 (drop 1 part))

-- The loop of `ParsePattern`: empty parts are skipped.
unfoldable pub parse_segments : List Text → Result ParseError (List Segment)
parse_segments [] = ok []
parse_segments (part ∷ parts) =
    let rest = parse_segments parts in
    if is_empty part then rest else (parse_segment part >>= λ seg. rest >>= λ segs. ok (seg ∷ segs))

-- The template without its custom verb, and the verb.
abbrev pub is_verb : Text → Bool
is_verb verb =
    not (is_empty verb) && not (contains_byte verb slash) && not (contains_byte verb b'{')

unfoldable pub cut_verb : Text → Option ℕ → Text × Text
cut_verb template none = (template, [])
cut_verb template (some idx) =
    if ltb 0 idx && is_verb (drop (suc idx) template)
    then (take idx template, drop (suc idx) template)
    else (template, [])

unfoldable pub split_verb : Text → Text × Text
unfolding cut_verb
split_verb template = cut_verb template (last_index_byte template b':')

unfoldable pub with_segments : Text → Text → List Segment → Result ParseError Pattern
with_segments raw verb [] = err no_segments
with_segments raw verb (seg ∷ segs) = ok (record { raw = raw; segments = seg ∷ segs; verb = verb })

unfoldable pub parse_pattern : Text → Result ParseError Pattern
unfolding split_template parse_segment parse_segments split_verb with_segments
parse_pattern template =
    if is_empty template
    then err empty_template
    else if not (has_prefix template (codes "/"))
    then err no_leading_slash
    else (parse_segments (split_template (split_verb template).0) >>= λ segs.
        with_segments template (split_verb template).1 segs)
