-- ===== src/Runtime/Substitute/Laws.antt =====
-- What runtime/substitute.go makes of a template, and that the generator sees the same parameters.
use zara_rpc.Common.{
  ℕ, zero, suc, ◌≤◌, ◌<◌, ◌≡◌, refl, sym, ap, ◌∙◌, true, false, Option, none, some, List, [], ◌∷◌,
  ◌++◌, Text, contains_byte, length, arith, Bool-cases, Option-cases, inl, inr, ◌==◌, ==_iff,
}
use zara_rpc.Common.Result.{Result, ok, err}
use zara_rpc.Runtime.Substitute.{
  Field, cut_at, name_of, field_value_by_name, SubstituteError, prepend, cons_name, substitute_loop,
  substitute_path_params_bound, path_params_loop, path_params_for,
}

-- The text is cut at its first `c`.
pub record IsCut (c : ℕ) (s before after : Text) : Type 0 where
  pub whole : s ≡ before ++ (c ∷ after)
  pub first : contains_byte before c ≡ false
  pub shorter : length after < length s

IsCut-here :
    (c d : ℕ) (s before after : Text)
    → (d == c) ≡ true
    → ◌≡◌ {A = Option (Text × Text)} (some ([], s)) (some (before, after))
    → IsCut c (d ∷ s) before after
IsCut-here c d s before after e h =
    let same : d ≡ c = (==_iff d c).0 e in
    let empty : [] ≡ before = ground arith in
    let rest : s ≡ after = ground arith in
    rw (← empty, ← rest)
      (record { whole = ap (λ x. x ∷ s) same; first = refl; shorter = omega arith })

IsCut-later :
    (c d : ℕ) (s b a before after : Text)
    → (d == c) ≡ false
    → IsCut c s b a
    → ◌≡◌ {A = Option (Text × Text)} (some (d ∷ b, a)) (some (before, after))
    → IsCut c (d ∷ s) before after
IsCut-later c d s b a before after e tail h =
    let whole : d ∷ b ≡ before = ground arith in
    let rest : a ≡ after = ground arith in
    rw (← whole, ← rest)
      (record {
        whole = ap (λ x. d ∷ x) tail.whole;
        first = rw e tail.first;
        shorter = omega (arith, tail.shorter);
      })

cut_at-IsCut :
    (c : ℕ) (s before after : Text) → cut_at c s ≡ some (before, after) → IsCut c s before after
cut_at-IsCut c [] before after h = absurd cc
cut_at-IsCut c (d ∷ s) before after h = elim (Bool-cases (d == c)) [
  | inl e ↦ IsCut-here c d s before after e (rw e at h)
  | inr e ↦ elim (Option-cases (cut_at c s)) [
    | inl none_left ↦ absurd (cc (rw (e, none_left) at h))
    | inr ((b, a), found) ↦
        let tail = cut_at-IsCut c s b a found in
        IsCut-later c d s b a before after e tail (rw (e, found) at h)
  ]
]

cut_at-contains : (c : ℕ) (s : Text) → cut_at c s ≡ none → contains_byte s c ≡ false
cut_at-contains c [] h = refl
cut_at-contains c (d ∷ s) h = elim (Bool-cases (d == c)) [
  | inl e ↦ absurd (cc (rw e at h))
  | inr e ↦ elim (Option-cases (cut_at c s)) [
    | inl none_left ↦ rw e (cut_at-contains c s none_left)
    | inr (parts, found) ↦ absurd (cc (rw (e, found) at h))
  ]
]

contains-cut_at : (c : ℕ) (s : Text) → contains_byte s c ≡ false → cut_at c s ≡ none
contains-cut_at c [] h = refl
contains-cut_at c (d ∷ s) h = ground (arith, contains-cut_at c s)

path_params_loop-plain :
    (n : ℕ) (rest : Text) → contains_byte rest b'{' ≡ false → path_params_loop n rest ≡ ok []
unfolding path_params_loop
path_params_loop-plain zero rest h = refl
path_params_loop-plain (suc n) rest h = rw (path_params_loop, contains-cut_at b'{' rest h) refl

path_params_loop-step :
    (n : ℕ) (rest before opened inner after : Text)
    → cut_at b'{' rest ≡ some (before, opened)
    → cut_at b'}' opened ≡ some (inner, after)
    → path_params_loop (suc n) rest ≡ cons_name (name_of inner) (path_params_loop n after)
unfolding path_params_loop
path_params_loop-step n rest before opened inner after p q = rw (path_params_loop, p, q) refl

-- A template, the path that it becomes, and its parameters in order: each brace is replaced by the
-- value of the field that it names, up to an equals sign.
pub data Substitutes (fields : List Field) : Text → Text → List Text → Type 0 where
  literal : {rest : Text} → contains_byte rest b'{' ≡ false → Substitutes fields rest rest []
  field :
      {template path : Text} {bound : List Text} (before inner value after rest : Text)
      → template ≡ before ++ (b'{' ∷ (inner ++ (b'}' ∷ after)))
      → path ≡ before ++ (value ++ rest)
      → contains_byte before b'{' ≡ false
      → contains_byte inner b'}' ≡ false
      → field_value_by_name fields (name_of inner) ≡ some value
      → Substitutes fields after rest bound
      → Substitutes fields template path (name_of inner ∷ bound)

prepend-eq-ok :
    (before value name : Text) (r : Result SubstituteError (Text × List Text)) (path : Text)
    (bound : List Text)
    → prepend before value name r ≡ ok (path, bound)
    → (rest : Text) × (names : List Text) × (r ≡ ok (rest, names))
      × (path ≡ before ++ (value ++ rest))
      × (bound ≡ name ∷ names)
prepend-eq-ok before value name (err e) path bound h = absurd cc
prepend-eq-ok before value name (ok (rest, names)) path bound h =
    (rest, names, refl, ground arith, ground arith)

module _ (fields : List Field) where
  substitute_loop-Substitutes :
      (n : ℕ) (rest path : Text) (bound : List Text)
      → length rest ≤ n
      → substitute_loop fields n rest ≡ ok (path, bound)
      → Substitutes fields rest path bound
  unfolding substitute_loop
  substitute_loop-Substitutes zero [] path bound h e =
      let p : [] ≡ path = ground arith in
      let b : [] ≡ bound = ground arith in rw (← p, ← b) (literal refl)
  substitute_loop-Substitutes zero (c ∷ rest) path bound h e = absurd (omega arith)
  substitute_loop-Substitutes (suc n) rest path bound h e = elim (Option-cases (cut_at b'{' rest)) [
    | inl no_brace ↦
        let q = rw (substitute_loop, no_brace) at e in
        let p : rest ≡ path = ground arith in
        let b : [] ≡ bound = ground arith in
        rw (← p, ← b) (literal (cut_at-contains b'{' rest no_brace))
    | inr ((before, opened), opening) ↦ elim (Option-cases (cut_at b'}' opened)) [
      | inl unclosed ↦ absurd (cc (rw (substitute_loop, opening, unclosed) at e))
      | inr ((inner, after), closed) ↦
          elim (Option-cases (field_value_by_name fields (name_of inner))) [
            | inl missing ↦ absurd (cc (rw (substitute_loop, opening, closed, missing) at e))
            | inr (value, found) ↦
                let (tail, names, step, whole, head) =
                  prepend-eq-ok before value (name_of inner) (substitute_loop fields n after) path
                    bound (rw (substitute_loop, opening, closed, found) at e) in
                let first = cut_at-IsCut b'{' rest before opened opening in
                let second = cut_at-IsCut b'}' opened inner after closed in
                rw head (
                  field before inner value after tail
                    (first.whole ∙ ap (λ t. before ++ (b'{' ∷ t)) second.whole) whole first.first
                    second.first found
                    (substitute_loop-Substitutes n after tail names
                      (omega (arith, first.shorter, second.shorter)) step))
          ]
    ]
  ]

  substitute_path_params_bound-fields :
      (template path : Text) (bound : List Text)
      → substitute_path_params_bound template (some fields) ≡ ok (path, bound)
      → Substitutes fields template path bound
  unfolding substitute_path_params_bound
  substitute_path_params_bound-fields template path bound e =
      elim (Bool-cases (contains_byte template b'{')) [
        | inl braces ↦
            substitute_loop-Substitutes (length template) template path bound (omega arith)
              (rw braces at e)
        | inr plain ↦
            let q = rw plain at e in
            let p : template ≡ path = ground arith in
            let b : [] ≡ bound = ground arith in rw (← p, ← b) (literal plain)
      ]

  substitute_loop-path_params_loop :
      (n : ℕ) (rest path : Text) (bound : List Text)
      → substitute_loop fields n rest ≡ ok (path, bound)
      → path_params_loop n rest ≡ ok bound
  unfolding substitute_loop path_params_loop
  substitute_loop-path_params_loop zero rest path bound e = ground arith
  substitute_loop-path_params_loop (suc n) rest path bound e =
      elim (Option-cases (cut_at b'{' rest)) [
        | inl no_brace ↦
            rw (path_params_loop, no_brace) (ground (arith, (rw (substitute_loop, no_brace) at e)))
        | inr ((before, opened), opening) ↦ elim (Option-cases (cut_at b'}' opened)) [
          | inl unclosed ↦ absurd (cc (rw (substitute_loop, opening, unclosed) at e))
          | inr ((inner, after), closed) ↦
              elim (Option-cases (field_value_by_name fields (name_of inner))) [
                | inl missing ↦ absurd (cc (rw (substitute_loop, opening, closed, missing) at e))
                | inr (value, found) ↦
                    let (tail, names, step, whole, head) =
                      prepend-eq-ok before value (name_of inner) (substitute_loop fields n after)
                        path bound (rw (substitute_loop, opening, closed, found) at e) in
                    path_params_loop-step n rest before opened inner after opening closed
                    ∙ ap (cons_name (name_of inner))
                        (substitute_loop-path_params_loop n after tail names step)
                    ∙ ap ok (sym head)
              ]
        ]
      ]

  -- The names that a client binds at run time are the parameters that the generator finds in the
  -- same template.
  pub substitute_path_params_bound-path_params_for :
      (template path : Text) (bound : List Text)
      → substitute_path_params_bound template (some fields) ≡ ok (path, bound)
      → path_params_for template ≡ ok bound
  unfolding substitute_path_params_bound path_params_for
  substitute_path_params_bound-path_params_for template path bound e =
      elim (Bool-cases (contains_byte template b'{')) [
        | inl braces ↦
            substitute_loop-path_params_loop (length template) template path bound (rw braces at e)
        | inr plain ↦
            let b : [] ≡ bound = ground (arith, (rw plain at e)) in
            path_params_loop-plain (length template) template plain ∙ ap ok b
      ]

-- What a substitution is by the request: a nil or another value that is no struct leaves the
-- template as it is.
abbrev pub SubstitutesFor : Option (List Field) → Text → Text → List Text → Type 0
SubstitutesFor none template path bound = (path ≡ template) × (bound ≡ [])
SubstitutesFor (some fields) template path bound = Substitutes fields template path bound

-- Substitution that succeeds, for a request that is a struct or a pointer to one, replaces every
-- brace of the template, and only these, by the text of the field that it names, and returns the
-- names in the order of the template. For any other request, nil among them, it returns the template
-- as it is, braces included, and no names.
pub substitute_path_params_bound-SubstitutesFor :
    (template path : Text) (bound : List Text) (req : Option (List Field))
    → substitute_path_params_bound template req ≡ ok (path, bound)
    → SubstitutesFor req template path bound
unfolding substitute_path_params_bound
substitute_path_params_bound-SubstitutesFor template path bound none e =
    (ground arith, ground arith)
substitute_path_params_bound-SubstitutesFor template path bound (some fields) e =
    substitute_path_params_bound-fields fields template path bound e
