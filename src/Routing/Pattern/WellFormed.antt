-- ===== src/Routing/Pattern/WellFormed.antt =====
-- What `ParsePattern` guarantees of the patterns that it returns.
use zara_rpc.Common.{
  ℕ, suc, ◌≡◌, refl, ◌≢◌, ◌⊎◌, inl, inr, ltb, Bool, true, false, ◌&&◌, Option, none, some, List, [],
  ◌∷◌, arith, Text, codes, text_eq_iff, has_prefix, has_suffix, drop_last, take, drop, index_byte,
  last_index_byte, is_empty, is_empty_iff, split_byte, All, Bool-cases, Option-cases,
}
use zara_rpc.Common.Result.{ok, >>=-eq-ok}
use zara_rpc.Routing.Pattern.{ExprSeg, Segment, Pattern, slash}
use zara_rpc.Routing.Pattern.Parse.{
  expr_seg, expr_segs, non_empty_segs, parse_resource_expr, parse_resource, parse_inner,
  parse_segment, parse_segments, is_verb, cut_verb, split_verb, split_template, with_segments,
  parse_pattern,
}

abbrev pub IsExprSeg : ExprSeg → Type 0
IsExprSeg (ExprSeg.literal l) = (l ≢ []) × (l ≢ codes "*") × (l ≢ codes "**")
IsExprSeg ExprSeg.wildcard = Unit
IsExprSeg ExprSeg.multi = Unit

abbrev pub IsSegment : Segment → Type 0
IsSegment (Segment.literal l) = (l ≢ []) × (has_prefix l (codes "{") ≡ false)
IsSegment (Segment.param name) = (name ≢ []) × (index_byte name b'=' ≡ none)
IsSegment (Segment.resource name expr) = (name ≢ []) × (expr ≢ []) × All IsExprSeg expr

-- A verb is absent, or holds neither a slash nor an opening brace.
abbrev pub IsVerb : Text → Type 0
IsVerb verb = (verb ≡ []) ⊎ (is_verb verb ≡ true)

pub record IsWellFormed (p : Pattern) : Type 0 where
  pub some_segment : p.segments ≢ []
  pub segments : All IsSegment p.segments
  pub verb : IsVerb p.verb

expr_seg-IsExprSeg : (part : Text) (seg : ExprSeg) → expr_seg part ≡ ok seg → IsExprSeg seg
unfolding expr_seg
expr_seg-IsExprSeg part ExprSeg.wildcard h = tt
expr_seg-IsExprSeg part ExprSeg.multi h = tt
expr_seg-IsExprSeg part (ExprSeg.literal l) h =
    ground (arith, text_eq_iff part (codes "**"), text_eq_iff part (codes "*"), is_empty_iff part)

expr_segs-IsExprSeg :
    (parts : List Text) (segs : List ExprSeg) → expr_segs parts ≡ ok segs → All IsExprSeg segs
unfolding expr_segs
expr_segs-IsExprSeg [] segs h = let e : [] ≡ segs = ground arith in rw (← e) tt
expr_segs-IsExprSeg (part ∷ parts) segs h =
    let (seg, e, h') = >>=-eq-ok (expr_seg part) _ h in
    let (rest, e', h'') = >>=-eq-ok (expr_segs parts) _ h' in
    let same : seg ∷ rest ≡ segs = ground arith in
    rw (← same) (expr_seg-IsExprSeg part seg e, expr_segs-IsExprSeg parts rest e')

non_empty_segs-eq-ok :
    (segs segs' : List ExprSeg) → non_empty_segs segs ≡ ok segs' → (segs ≡ segs') × (segs' ≢ [])
unfolding non_empty_segs
non_empty_segs-eq-ok [] segs' h = cc
non_empty_segs-eq-ok (s ∷ segs) segs' h = (ground arith, λ e. cc)

parse_resource_expr-IsExprSeg :
    (expr : Text) (segs : List ExprSeg)
    → parse_resource_expr expr ≡ ok segs
    → (segs ≢ []) × All IsExprSeg segs
unfolding parse_resource_expr
parse_resource_expr-IsExprSeg expr segs h =
    let (segs', e, h') = >>=-eq-ok (expr_segs (split_byte slash expr)) _ h in
    let (same, filled) = non_empty_segs-eq-ok segs' segs h' in
    (filled, expr_segs-IsExprSeg (split_byte slash expr) segs (rw same at e))

parse_resource-IsSegment :
    (name expr : Text) (seg : Segment) → parse_resource name expr ≡ ok seg → IsSegment seg
unfolding parse_resource
parse_resource-IsSegment name expr seg h = elim (Bool-cases (is_empty name)) [
  | inl e ↦ absurd (ground (arith, e))
  | inr e ↦ elim (Bool-cases (is_empty expr)) [
    | inl e' ↦ absurd (ground (arith, e, e'))
    | inr e' ↦
        let (segs, parsed, same) = >>=-eq-ok (parse_resource_expr expr) _ (rw (e, e') at h) in
        let q : Segment.resource name segs ≡ seg = ground arith in
        let (filled, each) = parse_resource_expr-IsExprSeg expr segs parsed in
        rw (← q) (ground (arith, is_empty_iff name), filled, each)
  ]
]

parse_inner-IsSegment : (inner : Text) (seg : Segment) → parse_inner inner ≡ ok seg → IsSegment seg
unfolding parse_inner
parse_inner-IsSegment inner seg h = elim (Bool-cases (is_empty inner)) [
  | inl e ↦ absurd (ground (arith, e))
  | inr e ↦ elim (Option-cases (index_byte inner b'=')) [
    | inl missing ↦
        let q : Segment.param inner ≡ seg = ground arith in
        rw (← q) (ground (arith, is_empty_iff inner), missing)
    | inr (eq, found) ↦
        parse_resource-IsSegment (take eq inner) (drop (suc eq) inner) seg (ground arith)
  ]
]

parse_segment-IsSegment :
    (part : Text) (seg : Segment)
    → is_empty part ≡ false
    → parse_segment part ≡ ok seg
    → IsSegment seg
unfolding parse_segment
parse_segment-IsSegment part seg f h = elim (Bool-cases (has_prefix part (codes "{"))) [
  | inl e ↦ elim (Bool-cases (has_suffix part (codes "}"))) [
    | inl e' ↦ parse_inner-IsSegment (drop_last 1 (drop 1 part)) seg (rw (e, e') at h)
    | inr e' ↦ absurd (cc (rw (e, e') at h))
  ]
  | inr e ↦
      let q : ok (Segment.literal part) ≡ ok seg = rw e at h in
      let q' : Segment.literal part ≡ seg = ground arith in
      rw (← q') (ground (arith, is_empty_iff part), e)
]

parse_segments-IsSegment :
    (parts : List Text) (segs : List Segment) → parse_segments parts ≡ ok segs → All IsSegment segs
unfolding parse_segments
parse_segments-IsSegment [] segs h = let e : [] ≡ segs = ground arith in rw (← e) tt
parse_segments-IsSegment (part ∷ parts) segs h = elim (Bool-cases (is_empty part)) [
  | inl e ↦ parse_segments-IsSegment parts segs (rw e at h)
  | inr e ↦
      let (seg, here, h') = >>=-eq-ok (parse_segment part) _ (rw e at h) in
      let (rest, later, h'') = >>=-eq-ok (parse_segments parts) _ h' in
      let same : seg ∷ rest ≡ segs = ground arith in
      rw (← same)
        (parse_segment-IsSegment part seg e here, parse_segments-IsSegment parts rest later)
]

and-false : (b : Bool) → (b && false) ≡ false
and-false true = refl
and-false false = refl

cut_verb-IsVerb : (template : Text) (idx : Option ℕ) → IsVerb (cut_verb template idx).1
unfolding cut_verb
cut_verb-IsVerb template none = inl refl
cut_verb-IsVerb template (some idx) = elim (Bool-cases (is_verb (drop (suc idx) template))) [
  | inl e ↦ elim (Bool-cases (ltb 0 idx)) [
    | inl e' ↦ rw (e', e) (inr e)
    | inr e' ↦ rw e' (inl refl)
  ]
  | inr e ↦ rw (e, and-false (ltb 0 idx)) (inl refl)
]

with_segments-eq-ok :
    (raw verb : Text) (segs : List Segment) (p : Pattern)
    → with_segments raw verb segs ≡ ok p
    → (p ≡ record { raw = raw; segments = segs; verb = verb }) × (segs ≢ [])
unfolding with_segments
with_segments-eq-ok raw verb [] p h = cc
with_segments-eq-ok raw verb (s ∷ segs) p h = (ground arith, λ e. cc)

-- A template that parses gives a pattern with at least one segment; every literal is non-empty and
-- begins with no brace, every parameter has a name, every resource expression is a non-empty list
-- of segments none of which is empty, and the verb holds neither a slash nor an opening brace.
pub parse_pattern-IsWellFormed :
    (template : Text) (p : Pattern) → parse_pattern template ≡ ok p → IsWellFormed p
unfolding parse_pattern split_verb
parse_pattern-IsWellFormed template p h = elim (Bool-cases (is_empty template)) [
  | inl e ↦ absurd (cc (rw e at h))
  | inr e ↦ elim (Bool-cases (has_prefix template (codes "/"))) [
    | inl e' ↦
        let (segs, parsed, h') =
          >>=-eq-ok (parse_segments (split_template (split_verb template).0)) _ (rw (e, e') at h) in
        let (same, filled) = with_segments-eq-ok template (split_verb template).1 segs p h' in
        let each = parse_segments-IsSegment (split_template (split_verb template).0) segs parsed in
        rw same (record {
          some_segment = filled;
          segments = each;
          verb = cut_verb-IsVerb template (last_index_byte template b':');
        })
    | inr e' ↦ absurd (cc (rw (e, e') at h))
  ]
]
