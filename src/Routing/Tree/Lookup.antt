-- ===== src/Routing/Tree/Lookup.antt =====
-- `lookup`, `matchTerminal`, `matchParamTerminal` and `matchResourceTerminal` of
-- routing/route_tree.go. The parameter map is shared with the caller and changed in place, so a
-- lookup that fails gives back the map as its caller then sees it.
use zara_rpc.Common.{
  ◌+◌, Bool, ◌&&◌, Option, none, some, List, [], ◌∷◌, ◌++◌, Text, codes, has_prefix, has_suffix,
  drop_last, length, drop, is_empty, ◌==◌, if◌then◌else◌, delete,
}
use zara_rpc.Routing.Pattern.{slash}
use zara_rpc.Routing.Pattern.Match.{
  Params, assign, skip_slashes, segment_of, after_segment, match_resource_expr,
}
use zara_rpc.Routing.Tree.{literal, param, resource, Node, Nodes, node, nil, cons}

unfoldable pub strip_trailing_slashes : Text → Text
strip_trailing_slashes [] = []
strip_trailing_slashes (c ∷ s) =
    let rest = strip_trailing_slashes s in if is_empty rest && c == slash then [] else c ∷ rest

-- Whether a terminal with this verb ends a literal node, at the path that is left.
abbrev pub ends_literal : Text → Text → Bool
ends_literal verb path =
    if is_empty verb
    then is_empty path
    else has_suffix path (codes ":" ++ verb) && is_empty (drop_last (length verb + 1) path)

-- The value that a terminal with this verb captures at a parameter or resource node.
abbrev pub captured : Text → Text → Text → Option Text
captured verb value rest =
    if is_empty verb
    then (if is_empty rest then some value else none)
    else if is_empty rest && has_suffix value (codes ":" ++ verb)
    then some (drop_last (length verb + 1) value)
    else none

-- What a lookup returns: a handler with its parameters, or the caller's map after the failure.
pub data Outcome (H : Type 0) : Type 0 where
  found : H → Params → Outcome H
  missed : Params → Outcome H

-- `delete(params, name)`, as seen by a caller whose own map was `before`.
abbrev pub forget : Text → Params → Params → Params
forget name none after = none
forget name (some m) none = none
forget name (some m) (some after) = some (delete name after)

module _ {H : Type 0} where
  -- The loop of `matchTerminal`.
  unfoldable pub literal_terminal : List (Text × H) → Text → Option H
  literal_terminal [] path = none
  literal_terminal ((verb, h) ∷ ts) path =
      if ends_literal verb path then some h else literal_terminal ts path

  unfoldable pub match_terminal : List (Text × H) → Text → Option H
  unfolding literal_terminal
  match_terminal ts path = literal_terminal ts (strip_trailing_slashes path)

  -- The loop of `matchParamTerminal` and of `matchResourceTerminal`.
  unfoldable pub capture_terminal : List (Text × H) → Text → Text → Option (H × Text)
  capture_terminal [] value rest = none
  capture_terminal ((verb, h) ∷ ts) value rest = elim (captured verb value rest) [
    | some v ↦ some (h, v)
    | none ↦ capture_terminal ts value rest
  ]

  unfoldable pub match_capture : List (Text × H) → Text → Text → Option (H × Text)
  unfolding capture_terminal
  match_capture ts value rest = capture_terminal ts value (strip_trailing_slashes rest)

  abbrev pub leave : Text → Params → Outcome H → Outcome H
  leave name before (found h ps) = found h ps
  leave name before (missed after) = missed (forget name before after)

  -- A parameter or resource node that captures `value`; `children` looks its children up.
  abbrev pub at_capture :
      Text → List (Text × H) → (Text → Params → Outcome H) → Text → Text → Params → Outcome H
  at_capture name ts children value rest ps = elim (match_capture ts value rest) [
    | some (h, v) ↦ found h (assign name v ps)
    | none ↦ leave name ps (children rest (assign name value ps))
  ]

  abbrev pub at_literal : List (Text × H) → (Text → Params → Outcome H) → Text → Params → Outcome H
  at_literal ts children path ps = elim (match_terminal ts path) [
    | some h ↦ found h ps
    | none ↦ children path ps
  ]

  abbrev pub at_expr :
      Text
      → List (Text × H)
      → (Text → Params → Outcome H)
      → Option (Text × Text)
      → Params
      → Outcome H
  at_expr name ts children none ps = missed ps
  at_expr name ts children (some (value, rest)) ps = at_capture name ts children value rest ps

  unfoldable mutual
    pub lookup : Node H → Text → Params → Outcome H
    lookup (node (literal prefix) ts cs) path ps =
        if has_prefix path prefix
        then at_literal ts (lookup_children cs) (drop (length prefix) path) ps
        else missed ps
    lookup (node (param name) ts cs) path ps =
        if is_empty (segment_of (skip_slashes path))
        then missed ps
        else at_capture name ts (lookup_children cs) (segment_of (skip_slashes path))
            (after_segment (skip_slashes path)) ps
    lookup (node (resource name expr) ts cs) path ps =
        at_expr name ts (lookup_children cs) (match_resource_expr expr (skip_slashes path)) ps

    -- The loop over the children.
    pub lookup_children : Nodes H → Text → Params → Outcome H
    lookup_children nil path ps = missed ps
    lookup_children (cons c cs) path ps = elim (lookup c path ps) [
      | found h ps' ↦ found h ps'
      | missed ps' ↦ lookup_children cs path ps'
    ]

  -- `routeTree.lookup`
  unfoldable pub lookup_tree : Node H → Text → Outcome H
  unfolding lookup
  lookup_tree tree path = lookup tree path none
