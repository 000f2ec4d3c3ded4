-- ===== src/Generator/Fields.antt =====
-- protoc-gen-zararpc/path.go, endpoint.go and handler.go: the fields that a path names, the names in
-- the generated code, and the fields that its request builders take for bound. A message is a
-- number, and the fields of messages are a parameter, since descriptors may refer to each other.
pub mod Laws
use zara_rpc.Common.{
  length-append, drop, length, ==_iff, drop-append, ◌≢◌, All-mono, ◌≡◌, refl, sym, ap, ◌∙◌, ℕ, zero,
  suc, ◌+◌, ◌<◌, ◌^◌, Bool, true, false, ◌||◌, ◌&&◌, Option, none, some, List, [], ◌∷◌, ◌++◌, map,
  Text, codes, text_eq, text_eq_iff, is_empty, split_byte, insert, lookup, holds, any, All,
  if◌then◌else◌, ◌==◌, arith, Bool-cases, inl, inr,
}
use zara_rpc.Common.Result.{Result, ok, err, ◌>>=◌}
use zara_rpc.Codes.{Code}
use zara_rpc.Metadata.Decimal.{format_int, parse_uint, parse_uint-format_int}
use zara_rpc.Routing.Mux.{insert_sorted, sort_strings, text_leb}
use zara_rpc.Runtime.Convert.{Formats}
use zara_rpc.Runtime.Populate.{set_field_strings, Message, set_query, populate_query, is_bound}

-- What the generator reads of a protogen.Field: its name, its Go name, and its message, if it has
-- one.
pub record FieldDesc : Type 0 where
  pub name : Text
  pub go_name : Text
  pub message : Option ℕ

abbrev pub find_desc : Text → List FieldDesc → Option FieldDesc
find_desc part [] = none
find_desc part (f ∷ fs) =
    let rest = find_desc part fs in if text_eq f.name part then some f else rest

abbrev pub cons_desc : FieldDesc → Option (List FieldDesc) → Option (List FieldDesc)
cons_desc f none = none
cons_desc f (some fs) = some (f ∷ fs)

abbrev pub next_message : ℕ → Option ℕ → ℕ
next_message cur none = cur
next_message cur (some m) = m

module _ (fields_of : ℕ → List FieldDesc) where
  -- The loop of `resolveFieldPath`: a field without a message leaves the message where it is.
  unfoldable pub resolve_parts : ℕ → List Text → Option (List FieldDesc)
  resolve_parts cur [] = some []
  resolve_parts cur (part ∷ parts) = elim (find_desc part (fields_of cur)) [
    | none ↦ none
    | some f ↦ cons_desc f (resolve_parts (next_message cur f.message) parts)
  ]

  -- `resolveFieldPath`
  unfoldable pub resolve_field_path : ℕ → Text → Option (List FieldDesc)
  unfolding resolve_parts
  resolve_field_path msg path = resolve_parts msg (split_byte b'.' path)

  -- A path through a field without a message resolves as if the rest stood beside it: for two
  -- fields of one message, the first without a message, the path of both is accepted.
  pub resolve_parts-beside :
      (msg : ℕ) (first second : Text) (f g : FieldDesc)
      → find_desc first (fields_of msg) ≡ some f
      → f.message ≡ none
      → find_desc second (fields_of msg) ≡ some g
      → resolve_parts msg (first ∷ second ∷ []) ≡ some (f ∷ g ∷ [])
  unfolding resolve_parts
  resolve_parts-beside msg first second f g p plain q =
      rw (resolve_parts, p)
        (ap (λ o. cons_desc f (resolve_parts (next_message msg o) (second ∷ []))) plain
          ∙ rw (resolve_parts, q) refl)

-- `goExpr`
unfoldable pub go_expr : Text → List FieldDesc → Text
go_expr expr [] = expr
go_expr expr (f ∷ fs) = go_expr (expr ++ (codes "." ++ f.go_name)) fs

-- The loop of `prepStatements`, over all fields but the last; `type_name` is QualifiedGoIdent.
unfoldable pub prep_statements : (ℕ → Text) → Text → List FieldDesc → List Text
prep_statements type_name expr [] = []
prep_statements type_name expr (f ∷ []) = []
prep_statements type_name expr (f ∷ g ∷ fs) =
    let inner = expr ++ (codes "." ++ f.go_name) in
    let rest = prep_statements type_name inner (g ∷ fs) in
    elim f.message [
      | none ↦ rest
      | some m ↦
          (codes "if " ++ (inner ++ codes " == nil {"))
          ∷ (inner ++ (codes " = &" ++ (type_name m ++ codes "{}")))
          ∷ codes "}"
          ∷ rest
    ]

-- `operationFnName`, `rpcNameConstName`, `pathConstName` and `requestBuilderName`
unfoldable pub operation_fn_name : Text → ℕ → Text
unfolding format_int
operation_fn_name method idx =
    if idx == 0
    then codes "Register_" ++ method
    else codes "Register_" ++ (method ++ (b'_' ∷ format_int idx))

unfoldable pub rpc_name_const_name : Text → Text → Text
rpc_name_const_name service method = service ++ (b'_' ∷ (method ++ codes "_Method"))

unfoldable pub path_const_name : Text → Text → ℕ → Text
unfolding format_int
path_const_name service method idx =
    if idx == 0
    then service ++ (b'_' ∷ (method ++ codes "_Path"))
    else service ++ (b'_' ∷ (method ++ (codes "_Path_" ++ format_int idx)))

unfoldable pub request_builder_name : Text → Text → ℕ → Text
unfolding format_int
request_builder_name service method idx =
    codes "request_" ++ (service ++ (b'_' ∷ (method ++ (b'_' ∷ format_int idx))))

-- The names that `generateRequestBuilder` puts into a map: those of the path, and the body's field.
abbrev pub bind_names : List Text → List (Text × Unit {0}) → List (Text × Unit {0})
bind_names [] m = m
bind_names (n ∷ ns) m = bind_names ns (insert n tt m)

abbrev pub keys : {V : Type 0} → List (Text × V) → List Text
keys m = map (λ e. e.0) m

unfoldable pub bound_map : List Text → Text → List (Text × Unit {0})
bound_map params body =
    if is_empty body then bind_names params [] else insert body tt (bind_names params [])

-- The names of `boundArgs`, sorted.
unfoldable pub bound_args : List Text → Text → List Text
unfolding bound_map
bound_args params body = sort_strings (keys (bound_map params body))
