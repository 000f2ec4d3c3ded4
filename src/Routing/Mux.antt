-- ===== src/Routing/Mux.antt =====
-- routing/mux.go: `Mux`, with `Register` and `ServeHTTP`. `H` is the type of handlers, `N` that of
-- the not-found handler. A Go map is an association list; `kernel.PrepareOperation`, which fills
-- the operation in, and `kernel.NewHandler` are in the handler that an operation carries.

pub mod Methods
pub mod Serving
pub mod Registering
pub mod Answers
pub mod Services
use zara_rpc.Common.{
  ℕ, Bool, true, false, not, ◌&&◌, ◌||◌, Option, none, some, List, [], ◌∷◌, ◌++◌, Text, codes,
  text_eq, leb, ltb, ◌==◌, any, lookup, insert, contains_byte, if◌then◌else◌,
}
use zara_rpc.Common.Result.{Result, ok, err}
use zara_rpc.Routing.Pattern.{Pattern}
use zara_rpc.Routing.Pattern.Parse.{ParseError, parse_pattern}
use zara_rpc.Routing.Pattern.Match.{Params}
use zara_rpc.Routing.Tree.{Node, new_route_tree}
use zara_rpc.Routing.Tree.Lookup.{Outcome, found, missed, lookup_tree}

pub record Operation (H : Type 0) : Type 0 where
  pub method : Text
  pub path : Text
  pub is_bidi : Bool
  pub handler : H

pub record Service (H : Type 0) : Type 0 where
  pub prefix : Text
  pub operations : List (Operation H)

pub record Mux (N H : Type 0) : Type 0 where
  pub exact : List (Text × List (Text × H))
  pub wildcard : List (Text × Node H)
  pub not_found : Option N

-- What `ServeHTTP` does: it calls a handler with the path parameters, answers 405 with an Allow
-- header, or calls the not-found handler (`none` for http.NotFound).
pub data Response (N H : Type 0) : Type 0 where
  handled : H → Params → Response N H
  not_allowed : Text → Response N H
  unrouted : Option N → Response N H

abbrev pub is_found : {H : Type 0} → Outcome H → Bool
is_found (found h ps) = true
is_found (missed ps) = false

abbrev pub is_some {ℓ} : {A : Type ℓ} → Option A → Bool
is_some none = false
is_some (some a) = true

abbrev pub text_mem : Text → List Text → Bool
text_mem j ks = any (λ k. text_eq k j) ks

-- `<=` of Go strings
abbrev pub text_leb : Text → Text → Bool
text_leb [] t = true
text_leb (c ∷ s) [] = false
text_leb (c ∷ s) (d ∷ t) = ltb c d || (c == d && text_leb s t)

-- sort.Strings
abbrev pub insert_sorted : Text → List Text → List Text
insert_sorted k [] = k ∷ []
insert_sorted k (j ∷ js) = if text_leb k j then k ∷ j ∷ js else j ∷ insert_sorted k js

abbrev pub sort_strings : List Text → List Text
sort_strings [] = []
sort_strings (k ∷ ks) = insert_sorted k (sort_strings ks)

-- The loop that writes the header, at index `i > 0` and from the start.
abbrev pub join_from : List Text → Text
join_from [] = []
join_from (k ∷ ks) = codes ", " ++ (k ++ join_from ks)

abbrev pub join : List Text → Text
join [] = []
join (k ∷ ks) = k ++ join_from ks

-- A loop of `allowedMethods`: the keys whose value passes the test and that are not `seen`.
abbrev pub collect {ℓ} : {V : Type ℓ} → (V → Bool) → List Text → List (Text × V) → List Text
collect p seen [] = seen
collect p seen ((k, v) ∷ m) =
    collect p (if p v && not (text_mem k seen) then seen ++ (k ∷ []) else seen) m

module _ {H : Type 0} where
  abbrev pub has_path : Text → List (Text × H) → Bool
  has_path path by_path = is_some (lookup path by_path)

  abbrev pub tree_has : Text → Node H → Bool
  tree_has path tree = is_found (lookup_tree tree path)

  -- `m.exact[method]`, made if it is nil
  abbrev pub paths_of : Text → List (Text × List (Text × H)) → List (Text × H)
  paths_of method exact = elim (lookup method exact) [ none ↦ [] | some by_path ↦ by_path ]

  abbrev pub tree_of : Text → List (Text × Node H) → Node H
  tree_of method wildcard = elim (lookup method wildcard) [
    | none ↦ new_route_tree
    | some tree ↦ tree
  ]

  -- `byPath[path] = h`, unless the key exists
  abbrev pub insert_new : Text → H → List (Text × H) → List (Text × H)
  insert_new path h by_path =
      if is_some (lookup path by_path) then by_path else insert path h by_path

  abbrev pub method_of : Operation H → Text
  method_of op = if op.is_bidi then codes "GET" else op.method

  -- The lookup of `ServeHTTP` in the exact routes of the method, and in its tree.
  abbrev pub in_exact : Text → Option (List (Text × H)) → Option (H × Params)
  in_exact path none = none
  in_exact path (some by_path) = elim (lookup path by_path) [
    | none ↦ none
    | some h ↦ some (h, none)
  ]

  abbrev pub of_outcome : Outcome H → Option (H × Params)
  of_outcome (found h ps) = some (h, ps)
  of_outcome (missed ps) = none

  abbrev pub in_wildcard : Text → Option (Node H) → Option (H × Params)
  in_wildcard path none = none
  in_wildcard path (some tree) = of_outcome (lookup_tree tree path)

module _ {N H : Type 0} where
  -- `NewMux`, before its options
  abbrev pub new_mux : Option N → Mux N H
  new_mux fallback = record { exact = []; wildcard = []; not_found = fallback }

  -- The two ways to register a parsed path.
  unfoldable pub add_exact : Text → Text → H → Mux N H → Mux N H
  add_exact method path h m = record {
    exact = insert method (insert_new path h (paths_of method m.exact)) m.exact;
    wildcard = m.wildcard;
    not_found = m.not_found;
  }

  unfoldable pub add_wildcard : Text → Pattern → H → Mux N H → Mux N H
  add_wildcard method pattern h m = record {
    exact = m.exact;
    wildcard =
        insert method (zara_rpc.Routing.Tree.Insert.insert pattern h (tree_of method m.wildcard))
          m.wildcard;
    not_found = m.not_found;
  }

  unfoldable pub add_route : Text → Text → Pattern → H → Mux N H → Mux N H
  unfolding add_exact add_wildcard
  add_route method path pattern h m =
      if contains_byte path b'{' then add_wildcard method pattern h m else add_exact method path h m

  -- One round of the loop of `Register`.
  unfoldable pub register_operation : Text → Operation H → Mux N H → Result ParseError (Mux N H)
  unfolding add_route
  register_operation prefix op m = elim (parse_pattern (prefix ++ op.path)) [
    | err e ↦ err e
    | ok pattern ↦ ok (add_route (method_of op) (prefix ++ op.path) pattern op.handler m)
  ]

  -- The loop: the mux as it is left, and the error. The operations before the one that fails stay.
  unfoldable pub register_operations :
      Text → List (Operation H) → Mux N H → Mux N H × Option ParseError
  unfolding register_operation
  register_operations prefix [] m = (m, none)
  register_operations prefix (op ∷ ops) m = elim (register_operation prefix op m) [
    | err e ↦ (m, some e)
    | ok m' ↦ register_operations prefix ops m'
  ]

  unfoldable pub register : Service H → Mux N H → Mux N H × Option ParseError
  unfolding register_operations
  register service m = register_operations service.prefix service.operations m

  unfoldable pub path_exists : Mux N H → Text → Bool
  path_exists m path =
      any (λ e. has_path path e.1) m.exact || any (λ e. tree_has path e.1) m.wildcard

  -- `methods` of `allowedMethods`, before and after the sort
  unfoldable pub methods : Mux N H → Text → List Text
  methods m path = collect (tree_has path) (collect (has_path path) [] m.exact) m.wildcard

  unfoldable pub allowed_methods : Mux N H → Text → Text
  unfolding methods
  allowed_methods m path = join (sort_strings (methods m path))

  -- `ServeHTTP`
  unfoldable pub serve : Mux N H → Text → Text → Response N H
  unfolding path_exists allowed_methods
  serve m method path = elim (in_exact path (lookup method m.exact)) [
    | some (h, ps) ↦ Response.handled h ps
    | none ↦ elim (in_wildcard path (lookup method m.wildcard)) [
      | some (h, ps) ↦ Response.handled h ps
      | none ↦
          if path_exists m path
          then Response.not_allowed (allowed_methods m path)
          else Response.unrouted m.not_found
    ]
  ]
