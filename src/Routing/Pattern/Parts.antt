-- ===== src/Routing/Pattern/Parts.antt =====
-- A reference for templates of literals and plain parameters: the path is cut into its
-- components, and they are compared with the segments one by one.
use zara_rpc.Common.{
  ◌≡◌, refl, ◌≢◌, true, false, Option, none, some, List, [], ◌∷◌, arith, Text, text_eq, is_empty,
  split_byte, Bool-cases, inl, inr, if◌then◌else◌, All,
}
use zara_rpc.Routing.Pattern.{Segment, slash}
use zara_rpc.Routing.Pattern.Match.{
  Params, assign, skip_slashes, segment_of, after_segment, match_literal, match_segment,
  match_segments,
}

-- The non-empty components between slashes.
abbrev non_empty : List Text → List Text
non_empty [] = []
non_empty (x ∷ xs) = if is_empty x then non_empty xs else x ∷ non_empty xs

unfoldable pub parts : Text → List Text
parts p = non_empty (split_byte slash p)

unfoldable pub match_parts : List Segment → List Text → Params → Option Params
match_parts [] [] ps = some ps
match_parts [] (x ∷ xs) ps = none
match_parts (Segment.literal l ∷ segs) (x ∷ xs) ps =
    let rest = match_parts segs xs ps in if text_eq l x then rest else none
match_parts (Segment.param name ∷ segs) (x ∷ xs) ps = match_parts segs xs (assign name x ps)
match_parts (_ ∷ segs) _ ps = none

abbrev pub NoSlash : Text → Type 0
NoSlash s = All (λ c. c ≢ slash) s

-- A literal as the parser makes it outside braces, or a plain parameter.
abbrev pub IsPlain : Segment → Type 0
IsPlain (Segment.literal l) = (l ≢ []) × NoSlash l
IsPlain (Segment.param name) = Unit
IsPlain (Segment.resource name expr) = ⊥

parts-skip_slashes : (p : Text) → parts (skip_slashes p) ≡ parts p
unfolding parts skip_slashes
parts-skip_slashes [] = refl
parts-skip_slashes (c ∷ s) = ground (arith, parts-skip_slashes s)

-- The first component, and those behind it.
split_first : Text → List Text
split_first [] = []
split_first (c ∷ s) = split_byte slash s

split_byte-segment_of :
    (p : Text) → split_byte slash p ≡ segment_of p ∷ split_first (after_segment p)
unfolding segment_of after_segment split_first
split_byte-segment_of [] = refl
split_byte-segment_of (c ∷ s) = ground (arith, split_byte-segment_of s)

parts-after_segment :
    (p : Text) → non_empty (split_first (after_segment p)) ≡ parts (after_segment p)
unfolding parts after_segment split_first
parts-after_segment [] = refl
parts-after_segment (c ∷ s) = ground (arith, parts-after_segment s)

parts-segment_of :
    (p : Text) → is_empty (segment_of p) ≡ false → parts p ≡ segment_of p ∷ parts (after_segment p)
unfolding parts
parts-segment_of p h = ground (arith, split_byte-segment_of p, parts-after_segment p)

-- Behind the slashes there is a component, or nothing.
segment_of-skip_slashes :
    (p : Text) → is_empty (segment_of (skip_slashes p)) ≡ true → skip_slashes p ≡ []
unfolding segment_of skip_slashes
segment_of-skip_slashes [] h = refl
segment_of-skip_slashes (c ∷ s) h = ground (arith, segment_of-skip_slashes s)

match_literal_lem :
    (l p : Text)
    → NoSlash l
    → match_literal l p ≡ (if text_eq l (segment_of p) then some (after_segment p) else none)
unfolding match_literal segment_of after_segment
match_literal_lem [] [] h = refl
match_literal_lem [] (c ∷ p) h = ground arith
match_literal_lem (d ∷ l) [] h = refl
match_literal_lem (d ∷ l) (c ∷ p) h = ground (arith, match_literal_lem l p)

text_eq-nil : (l : Text) → l ≢ [] → text_eq l [] ≡ false
text_eq-nil [] h = absurd (h refl)
text_eq-nil (c ∷ l) h = refl

match_segment-literal :
    (l q : Text) (ps : Params)
    → NoSlash l
    → match_segment (Segment.literal l) q ps
      ≡ (if text_eq l (segment_of q) then some (ps, after_segment q) else none)
unfolding match_segment
match_segment-literal l q ps h = ground (arith, match_literal_lem l q h)

parts-nil : parts [] ≡ []
unfolding parts
parts-nil = refl

match_parts-nil :
    (seg : Segment) (segs : List Segment) (ps : Params) → match_parts (seg ∷ segs) [] ps ≡ none
unfolding match_parts
match_parts-nil (Segment.literal l) segs ps = refl
match_parts-nil (Segment.param name) segs ps = refl
match_parts-nil (Segment.resource name expr) segs ps = refl

match_segment-nil : (seg : Segment) (ps : Params) → IsPlain seg → match_segment seg [] ps ≡ none
unfolding match_segment segment_of after_segment match_literal
match_segment-nil (Segment.literal []) ps h = absurd (h.0 refl)
match_segment-nil (Segment.literal (c ∷ l)) ps h = refl
match_segment-nil (Segment.param name) ps h = refl
match_segment-nil (Segment.resource name expr) ps h = absurd h

-- What `match_segments` does with the result of one round.
abbrev resume : List Segment → Option (Params × Text) → Option Params
resume segs none = none
resume segs (some (ps, rest)) = match_segments segs rest ps

match_segments-cons :
    (seg : Segment) (segs : List Segment) (p : Text) (ps : Params)
    → match_segments (seg ∷ segs) p ps ≡ resume segs (match_segment seg (skip_slashes p) ps)
unfolding match_segments
match_segments-cons seg segs p ps = ground arith

match_segments-nil :
    (p : Text) (ps : Params)
    → match_segments [] p ps ≡ (if is_empty (skip_slashes p) then some ps else none)
unfolding match_segments
match_segments-nil p ps = refl

match_parts-end :
    (q : Text) (ps : Params)
    → (is_empty (segment_of q) ≡ true → q ≡ [])
    → (if is_empty q then some ps else none) ≡ match_parts [] (parts q) ps
unfolding match_parts
match_parts-end [] ps at = rw parts-nil
match_parts-end (c ∷ s) ps at = ground (arith, parts-segment_of (c ∷ s))

-- One round at a component.
match_parts-step :
    (seg : Segment) (segs : List Segment) (q : Text) (ps : Params)
    → IsPlain seg
    → is_empty (segment_of q) ≡ false
    → ((ps' : Params)
        → match_segments segs (after_segment q) ps'
          ≡ match_parts segs (parts (after_segment q)) ps')
    → resume segs (match_segment seg q ps) ≡ match_parts (seg ∷ segs) (parts q) ps
unfolding match_parts
match_parts-step (Segment.literal l) segs q ps h e ih =
    ground (arith, match_segment-literal l q ps h.1, parts-segment_of q e, ih ps)
match_parts-step (Segment.param name) segs q ps h e ih =
    unfold match_segment in ground (arith, parts-segment_of q e, ih (assign name (segment_of q) ps))
match_parts-step (Segment.resource name expr) segs q ps h e ih = absurd h

match_parts_at :
    (seg : Segment) (segs : List Segment) (q : Text) (ps : Params)
    → IsPlain seg
    → (is_empty (segment_of q) ≡ true → q ≡ [])
    → ((ps' : Params)
        → match_segments segs (after_segment q) ps'
          ≡ match_parts segs (parts (after_segment q)) ps')
    → resume segs (match_segment seg q ps) ≡ match_parts (seg ∷ segs) (parts q) ps
match_parts_at seg segs q ps h at ih = elim (Bool-cases (is_empty (segment_of q))) [
  | inl e ↦ rw (at e) (rw (parts-nil, match_parts-nil seg segs ps, match_segment-nil seg ps h) refl)
  | inr e ↦ match_parts-step seg segs q ps h e ih
]

-- Walking a template of plain parameters and of non-empty literals without slashes over the bytes
-- of a path is comparing its segments with the components of the path.
pub match_segments-match_parts :
    (segs : List Segment) (p : Text) (ps : Params)
    → All IsPlain segs
    → match_segments segs p ps ≡ match_parts segs (parts p) ps
match_segments-match_parts [] p ps h =
    rw (match_segments-nil p ps, ← parts-skip_slashes p)
      (match_parts-end (skip_slashes p) ps (segment_of-skip_slashes p))
match_segments-match_parts (seg ∷ segs) p ps (h, hs) =
    rw (match_segments-cons seg segs p ps, ← parts-skip_slashes p)
      (match_parts_at seg segs (skip_slashes p) ps h (segment_of-skip_slashes p)
        (λ ps'. match_segments-match_parts segs (after_segment (skip_slashes p)) ps' hs))
