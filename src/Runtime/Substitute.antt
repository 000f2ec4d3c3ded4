-- ===== src/Runtime/Substitute.antt =====
-- runtime/substitute.go: path parameters put into a template, and the same loop in the generator
-- (protoc-gen-zararpc/path.go). A message is the list of its fields, `none` if it is nil or no
-- struct. The text of a field is what package strconv or fmt makes of its value.
pub mod Laws
use zara_rpc.Common.{
  ℕ, zero, suc, Bool, true, false, ◌||◌, ◌&&◌, Option, none, some, List, [], ◌∷◌, ◌++◌, Text, codes,
  text_eq, is_empty, contains_byte, length, ◌==◌, if◌then◌else◌,
}
use zara_rpc.Common.Result.{Result, ok, err}

pub record Field : Type 0 where
  pub name : Text
  pub json_tag : Text
  pub is_exported : Bool
  pub text : Text

abbrev pub cons_first : ℕ → Option (Text × Text) → Option (Text × Text)
cons_first c none = none
cons_first c (some (before, after)) = some (c ∷ before, after)

-- `strings.Index(s, c)` with the texts before and behind it, `none` for -1.
abbrev pub cut_at : ℕ → Text → Option (Text × Text)
cut_at c [] = none
cut_at c (d ∷ s) = let rest = cut_at c s in if d == c then some ([], s) else cons_first d rest

abbrev pub before_cut : Text → Option (Text × Text) → Text
before_cut s none = s
before_cut s (some (before, after)) = before

-- `ProtoName` of a field with this name and json tag.
unfoldable pub proto_name : Text → Text → Text
proto_name name json_tag =
    let tag = before_cut json_tag (cut_at b',' json_tag) in
    if is_empty tag || text_eq tag (codes "-") then name else tag

-- `fieldValueByName`
unfoldable pub field_value_by_name : List Field → Text → Option Text
unfolding proto_name
field_value_by_name [] name = none
field_value_by_name (f ∷ fs) name =
    let rest = field_value_by_name fs name in
    if f.is_exported && (text_eq (proto_name f.name f.json_tag) name || text_eq f.name name)
    then some f.text
    else rest

-- The name in the braces, up to an equals sign.
abbrev pub name_of : Text → Text
name_of inner = before_cut inner (cut_at b'=' inner)

pub data SubstituteError : Type 0 where
  unclosed_brace : SubstituteError
  not_found : Text → SubstituteError

-- The text of a round of the loop in front of what the later rounds give.
abbrev pub prepend :
    Text
    → Text
    → Text
    → Result SubstituteError (Text × List Text)
    → Result SubstituteError (Text × List Text)
prepend before value name (err e) = err e
prepend before value name (ok (path, bound)) = ok (before ++ (value ++ path), name ∷ bound)

module _ (fields : List Field) where
  -- The loop over `rest`; the fuel is at least its length.
  unfoldable pub substitute_loop : ℕ → Text → Result SubstituteError (Text × List Text)
  substitute_loop zero rest = ok (rest, [])
  substitute_loop (suc n) rest = elim (cut_at b'{' rest) [
    | none ↦ ok (rest, [])
    | some (before, opened) ↦ elim (cut_at b'}' opened) [
      | none ↦ err unclosed_brace
      | some (inner, after) ↦ elim (field_value_by_name fields (name_of inner)) [
        | none ↦ err (not_found (name_of inner))
        | some value ↦ prepend before value (name_of inner) (substitute_loop n after)
      ]
    ]
  ]

-- `SubstitutePathParamsBound`
unfoldable pub substitute_path_params_bound :
    Text → Option (List Field) → Result SubstituteError (Text × List Text)
unfolding substitute_loop
substitute_path_params_bound template none = ok (template, [])
substitute_path_params_bound template (some fields) =
    if contains_byte template b'{'
    then substitute_loop fields (length template) template
    else ok (template, [])

abbrev pub cons_name :
    Text → Result SubstituteError (List Text) → Result SubstituteError (List Text)
cons_name name (err e) = err e
cons_name name (ok names) = ok (name ∷ names)

-- The loop of `pathParamsFor`, on fuel of at least the length of `rest`.
unfoldable pub path_params_loop : ℕ → Text → Result SubstituteError (List Text)
path_params_loop zero rest = ok []
path_params_loop (suc n) rest = elim (cut_at b'{' rest) [
  | none ↦ ok []
  | some (before, opened) ↦ elim (cut_at b'}' opened) [
    | none ↦ err unclosed_brace
    | some (inner, after) ↦ cons_name (name_of inner) (path_params_loop n after)
  ]
]

-- `pathParamsFor` of the generator; a parameter's path is its name.
unfoldable pub path_params_for : Text → Result SubstituteError (List Text)
unfolding path_params_loop
path_params_for template = path_params_loop (length template) template
