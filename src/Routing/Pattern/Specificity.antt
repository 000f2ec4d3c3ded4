-- ===== src/Routing/Pattern/Specificity.antt =====
-- `Specificity` of routing/pattern.go.
use zara_rpc.Common.{ℕ, ◌+◌, ◌≤◌, ◌≡◌, List, [], ◌∷◌, ◌++◌, length, arith}
use zara_rpc.Routing.Pattern.{Segment, Pattern}

abbrev pub score : Segment → ℕ
score (Segment.literal l) = 10
score (Segment.param name) = 1
score (Segment.resource name expr) = 1

unfoldable pub score_segments : List Segment → ℕ
score_segments [] = 0
score_segments (seg ∷ segs) = score seg + score_segments segs

unfoldable pub specificity : Pattern → ℕ
unfolding score_segments
specificity p = score_segments p.segments

score_segments-append :
    (xs ys : List Segment) → score_segments (xs ++ ys) ≡ score_segments xs + score_segments ys
unfolding score_segments
score_segments-append [] ys = omega arith
score_segments-append (x ∷ xs) ys = omega (arith, score_segments-append xs ys)

length-score_segments : (xs : List Segment) → length xs ≤ score_segments xs
unfolding score_segments
length-score_segments [] = omega arith
length-score_segments (Segment.literal l ∷ xs) = omega (arith, length-score_segments xs)
length-score_segments (Segment.param name ∷ xs) = omega (arith, length-score_segments xs)
length-score_segments (Segment.resource name expr ∷ xs) = omega (arith, length-score_segments xs)

-- A pattern that goes on with further segments behind another one scores higher, by at least one
-- for each segment more.
pub specificity-append :
    (p q : Pattern) (rest : List Segment)
    → q.segments ≡ p.segments ++ rest
    → specificity p + length rest ≤ specificity q
unfolding specificity
specificity-append p q rest e =
    rw e (omega (arith, score_segments-append p.segments rest, length-score_segments rest))
