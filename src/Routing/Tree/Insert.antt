-- ===== src/Routing/Tree/Insert.antt =====
-- `insert`, `addLiteralChild`, `addParamChild`, `addResourceChild` and `addTerminal` of
-- routing/route_tree.go. Go's helpers return a pointer to the child on which `insert` goes on;
-- here each takes what remains to be done at that child, `k`, and gives the whole node back.
use zara_rpc.Common.{
  ℕ, zero, suc, Bool, true, false, ◌&&◌, Option, none, some, List, [], ◌∷◌, ◌++◌, Text, text_eq,
  length, take, drop, any, is_empty, ◌==◌, if◌then◌else◌,
}
use zara_rpc.Routing.Pattern.{ExprSeg, Segment, Pattern, slash}
use zara_rpc.Routing.Tree.{
  Label, literal, param, resource, Node, Nodes, node, nil, cons, is_literal,
}

unfoldable pub common_prefix_len : Text → Text → ℕ
common_prefix_len (c ∷ a) (d ∷ b) = if c == d then suc (common_prefix_len a b) else 0
common_prefix_len _ _ = 0

abbrev pub expr_seg_eq : ExprSeg → ExprSeg → Bool
expr_seg_eq (ExprSeg.literal a) (ExprSeg.literal b) = text_eq a b
expr_seg_eq ExprSeg.wildcard ExprSeg.wildcard = true
expr_seg_eq ExprSeg.multi ExprSeg.multi = true
expr_seg_eq _ _ = false

abbrev pub expr_equal : List ExprSeg → List ExprSeg → Bool
expr_equal [] [] = true
expr_equal (a ∷ as') (b ∷ bs) = expr_seg_eq a b && expr_equal as' bs
expr_equal _ _ = false

module _ {H : Type 0} where
  unfoldable pub add_terminal : Text → H → Node H → Node H
  add_terminal verb h (node l ts cs) =
      if any (λ t. text_eq t.0 verb) ts then node l ts cs else node l (ts ++ ((verb, h) ∷ [])) cs

  unfoldable pub update_param : Text → (Node H → Node H) → Nodes H → Nodes H
  update_param name k nil = cons (k (node (param name) [] nil)) nil
  update_param name k (cons (node (param m) ts kids) cs) =
      let rest = update_param name k cs in
      if text_eq m name
      then cons (k (node (param m) ts kids)) cs
      else cons (node (param m) ts kids) rest
  update_param name k (cons c cs) = cons c (update_param name k cs)

  unfoldable pub add_param_child : Text → (Node H → Node H) → Node H → Node H
  unfolding update_param
  add_param_child name k (node l ts cs) = node l ts (update_param name k cs)

  unfoldable pub update_resource : Text → List ExprSeg → (Node H → Node H) → Nodes H → Nodes H
  update_resource name expr k nil = cons (k (node (resource name expr) [] nil)) nil
  update_resource name expr k (cons (node (resource m e) ts kids) cs) =
      let rest = update_resource name expr k cs in
      if text_eq m name && expr_equal e expr
      then cons (k (node (resource m e) ts kids)) cs
      else cons (node (resource m e) ts kids) rest
  update_resource name expr k (cons c cs) = cons c (update_resource name expr k cs)

  unfoldable pub add_resource_child : Text → List ExprSeg → (Node H → Node H) → Node H → Node H
  unfolding update_resource
  add_resource_child name expr k (node l ts cs) = node l ts (update_resource name expr k cs)

  -- The body of the loop of `addLiteralChild` at a literal child with prefix `q` that shares its
  -- first `n` bytes with `prefix`; `rec` is the recursive call.
  unfoldable pub descend :
      (Text → Node H → Node H)
      → (Node H → Node H)
      → Text
      → ℕ
      → Text
      → List (Text × H)
      → Nodes H
      → Node H
  descend rec k prefix n q ts kids =
      let split = node (literal (take n q)) [] (cons (node (literal (drop n q)) ts kids) nil) in
      if n == length q
      then (if n == length prefix
          then k (node (literal q) ts kids)
          else rec (drop n prefix) (node (literal q) ts kids))
      else if n == length prefix
      then k split
      else rec (drop n prefix) split

  -- The loop itself: `none` if no literal child shares a prefix.
  unfoldable pub update_shared :
      (Text → Node H → Node H) → (Node H → Node H) → Text → Nodes H → Option (Nodes H)
  unfolding descend common_prefix_len
  update_shared rec k prefix nil = none
  update_shared rec k prefix (cons (node (literal q) ts kids) cs) =
      let rest = update_shared rec k prefix cs in
      if common_prefix_len q prefix == 0
      then elim rest [ none ↦ none | some cs' ↦ some (cons (node (literal q) ts kids) cs') ]
      else some (cons (descend rec k prefix (common_prefix_len q prefix) q ts kids) cs)
  update_shared rec k prefix (cons c cs) = elim (update_shared rec k prefix cs) [
    | none ↦ none
    | some cs' ↦ some (cons c cs')
  ]

  -- The new child stands before the first child that is no literal.
  unfoldable pub insert_literal : Node H → Nodes H → Nodes H
  insert_literal new nil = cons new nil
  insert_literal new (cons c cs) =
      let rest = insert_literal new cs in if is_literal c then cons c rest else cons new (cons c cs)

  -- The child that the loop returned, or else a new child.
  unfoldable pub place_literal :
      (Node H → Node H) → Text → Label → List (Text × H) → Nodes H → Option (Nodes H) → Node H
  unfolding insert_literal
  place_literal k prefix l ts cs none =
      node l ts (insert_literal (k (node (literal prefix) [] nil)) cs)
  place_literal k prefix l ts cs (some cs') = node l ts cs'

  -- `addLiteralChild` with fuel; each recursive call drops at least one byte of `prefix`.
  unfoldable pub add_literal : ℕ → (Node H → Node H) → Text → Node H → Node H
  unfolding update_shared place_literal
  add_literal zero k prefix n = n
  add_literal (suc f) k prefix (node l ts cs) =
      place_literal k prefix l ts cs (update_shared (add_literal f k) k prefix cs)

  unfoldable pub add_literal_child : Text → (Node H → Node H) → Node H → Node H
  unfolding add_literal
  add_literal_child prefix k n = add_literal (length prefix) k prefix n

  -- The closure `flush` of `insert`.
  unfoldable pub flush : Text → (Node H → Node H) → Node H → Node H
  unfolding add_literal_child
  flush lit k n = if is_empty lit then k n else add_literal_child lit k n

  -- The loop of `insert` over the segments, with the builder `lit`.
  unfoldable pub add_route : List Segment → Text → Text → H → Node H → Node H
  unfolding flush add_terminal add_param_child add_resource_child
  add_route [] lit verb h n = flush lit (add_terminal verb h) n
  add_route (Segment.literal l ∷ segs) lit verb h n = add_route segs (lit ++ (slash ∷ l)) verb h n
  add_route (Segment.param name ∷ segs) lit verb h n =
      flush lit (add_param_child name (add_route segs [] verb h)) n
  add_route (Segment.resource name expr ∷ segs) lit verb h n =
      flush lit (add_resource_child name expr (add_route segs [] verb h)) n

  unfoldable pub insert : Pattern → H → Node H → Node H
  unfolding add_route
  insert p h tree = add_route p.segments [] p.verb h tree
