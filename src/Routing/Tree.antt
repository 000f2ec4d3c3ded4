-- ===== src/Routing/Tree.antt =====
-- routing/route_tree.go: the compressed radix tree of the wildcard routes of one HTTP method, with
-- `insert` and `lookup`. `H` is the type of handlers.
pub mod Insert
pub mod Lookup
pub mod Routes
pub mod Adds
pub mod AddsLiteral
pub mod Registers
pub mod Boundary
pub mod Root
mod Tests
use zara_rpc.Common.{ℕ, List, Text, Bool, true, false}
use zara_rpc.Routing.Pattern.{ExprSeg}

-- `kind` with the fields that it uses: `prefix`, `name`, `expr`.
pub data Label : Type 0 where
  literal : Text → Label
  param : Text → Label
  resource : Text → List ExprSeg → Label

-- `routeNode`: its label, `terminals` (a verb and a handler each) and `children`.
mutual
  pub data Node (H : Type 0) : Type 0 where
    node : Label → List (Text × H) → Nodes H → Node H

  pub data Nodes (H : Type 0) : Type 0 where
    nil : Nodes H
    cons : Node H → Nodes H → Nodes H

abbrev pub is_literal : {H : Type 0} → Node H → Bool
is_literal (node (literal prefix) ts cs) = true
is_literal (node (param name) ts cs) = false
is_literal (node (resource name expr) ts cs) = false

-- `newRouteTree`: the root is a literal node with an empty prefix.
abbrev pub new_route_tree : {H : Type 0} → Node H
new_route_tree = node (literal List.[]) List.[] nil
