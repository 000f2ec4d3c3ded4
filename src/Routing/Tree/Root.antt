-- ===== src/Routing/Tree/Root.antt =====
-- `insert` of routing/route_tree.go leaves the label of the node that it starts at.
use zara_rpc.Common.{
  ℕ, suc, zero, ◌≡◌, refl, ◌∙◌, Option, none, some, List, [], ◌∷◌, ◌++◌, Text, length, arith,
}
use zara_rpc.Routing.Pattern.{ExprSeg, Segment, Pattern, slash}
use zara_rpc.Routing.Tree.{Label, Node, Nodes, node}
use zara_rpc.Routing.Tree.Insert
use zara_rpc.Routing.Tree.Insert.{
  add_terminal, add_param_child, add_resource_child, update_shared, place_literal, add_literal,
  add_literal_child, flush,
}
use zara_rpc.Routing.Tree.Routes.{label}
use zara_rpc.Routing.Tree.Registers.{IsRoot}

module _ {H : Type 0} where
  add_terminal-label : (verb : Text) (h : H) (n : Node H) → label (add_terminal verb h n) ≡ label n
  unfolding add_terminal
  add_terminal-label verb h (node l ts cs) = ground arith

  place_literal-label :
      (k : Node H → Node H) (prefix : Text) (l : Label) (ts : List (Text × H)) (cs : Nodes H)
      (o : Option (Nodes H))
      → label (place_literal k prefix l ts cs o) ≡ l
  unfolding place_literal
  place_literal-label k prefix l ts cs none = refl
  place_literal-label k prefix l ts cs (some cs') = refl

  add_literal-label :
      (f : ℕ) (k : Node H → Node H) (prefix : Text) (n : Node H)
      → label (add_literal f k prefix n) ≡ label n
  unfolding add_literal
  add_literal-label zero k prefix n = refl
  add_literal-label (suc f) k prefix (node l ts cs) =
      place_literal-label k prefix l ts cs (update_shared (add_literal f k) k prefix cs)

  flush-label :
      (lit : Text) (k : Node H → Node H) (n : Node H)
      → label (k n) ≡ label n
      → label (flush lit k n) ≡ label n
  unfolding flush add_literal_child
  flush-label [] k n e = e
  flush-label (c ∷ lit) k n e = add_literal-label (length (c ∷ lit)) k (c ∷ lit) n

  add_param_child-label :
      (name : Text) (k : Node H → Node H) (n : Node H) → label (add_param_child name k n) ≡ label n
  unfolding add_param_child
  add_param_child-label name k (node l ts cs) = refl

  add_resource_child-label :
      (name : Text) (expr : List ExprSeg) (k : Node H → Node H) (n : Node H)
      → label (add_resource_child name expr k n) ≡ label n
  unfolding add_resource_child
  add_resource_child-label name expr k (node l ts cs) = refl

  add_route-label :
      (segs : List Segment) (lit verb : Text) (h : H) (n : Node H)
      → label (Insert.add_route segs lit verb h n) ≡ label n
  unfolding Insert.add_route
  add_route-label [] lit verb h n =
      flush-label lit (add_terminal verb h) n (add_terminal-label verb h n)
  add_route-label (Segment.literal l ∷ segs) lit verb h n =
      add_route-label segs (lit ++ (slash ∷ l)) verb h n
  add_route-label (Segment.param name ∷ segs) lit verb h n =
      let k = Insert.add_route segs [] verb h in
      flush-label lit (add_param_child name k) n (add_param_child-label name k n)
  add_route-label (Segment.resource name expr ∷ segs) lit verb h n =
      let k = Insert.add_route segs [] verb h in
      flush-label lit (add_resource_child name expr k) n (add_resource_child-label name expr k n)

  pub insert-IsRoot :
      (p : Pattern) (h : H) (tree : Node H) → IsRoot tree → IsRoot (Insert.insert p h tree)
  unfolding Insert.insert
  insert-IsRoot p h tree e = add_route-label p.segments [] p.verb h tree ∙ e
