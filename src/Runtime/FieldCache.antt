-- ===== src/Runtime/FieldCache.antt =====
-- runtime/populate.go: the cache of `FindField`. A type is its number; the fields of a type are a
-- parameter, since reflect.Type never changes.
use zara_rpc.Common.{
  ap₂, sym, ◌≡◌, refl, ap, ◌∙◌, ℕ, suc, Bool, true, ◌&&◌, Option, none, some, List, [], ◌∷◌, Text,
  text_eq, text_eq_iff, if◌then◌else◌, ◌==◌, All, arith, Option-cases, inl, inr, Bool-cases, map,
}
use zara_rpc.Runtime.Populate.{FieldInfo, is_field}

-- `fieldCacheKey`
abbrev pub Key : Type 0
Key = ℕ × Text

abbrev key_eq : Key → Key → Bool
key_eq (t, n) (u, m) = t == u && text_eq n m

-- `fieldCache`; the index -1 is `none`.
abbrev pub Cache : Type 0
Cache = List (Key × Option ℕ)

abbrev pub cached : Key → Cache → Option (Option ℕ)
cached k [] = none
cached k ((j, i) ∷ c) = if key_eq j k then some i else cached k c

-- The scan over the fields, from the index `i` on.
unfoldable pub scan : ℕ → Text → List FieldInfo → Option ℕ
scan i name [] = none
scan i name (f ∷ fs) = let rest = scan (suc i) name fs in if is_field f name then some i else rest

module _ (fields_of : ℕ → List FieldInfo) where
  -- `FindField` on a struct: the index of the field, and the cache then.
  unfoldable pub find_field : Cache → Key → Option ℕ × Cache
  unfolding scan
  find_field c (t, name) = elim (cached (t, name) c) [
    | some i ↦ (i, c)
    | none ↦ let i = scan 0 name (fields_of t) in (i, ((t, name), i) ∷ c)
  ]

  -- The results of a sequence of calls.
  unfoldable pub find_fields : Cache → List Key → List (Option ℕ)
  unfolding find_field
  find_fields c [] = []
  find_fields c (k ∷ ks) = let (i, c') = find_field c k in i ∷ find_fields c' ks

  abbrev pub scan_key : Key → Option ℕ
  scan_key (t, name) = scan 0 name (fields_of t)

  -- Every entry is the result of the scan.
  abbrev pub IsSound : Cache → Type 0
  IsSound = All (λ (e : Key × Option ℕ). e.1 ≡ scan_key e.0)

  key_eq_sound : (j k : Key) → key_eq j k ≡ true → j ≡ k
  key_eq_sound (t, n) (u, m) h = ground (arith, text_eq_iff n m)

  cached_sound :
      (k : Key) (c : Cache) (i : Option ℕ) → IsSound c → cached k c ≡ some i → i ≡ scan_key k
  cached_sound k [] i h e = cc
  cached_sound k ((j, v) ∷ c) i (here, there) e = elim (Bool-cases (key_eq j k)) [
    | inl same ↦
        let q : v ≡ i = cc (rw same at e) in sym q ∙ here ∙ ap scan_key (key_eq_sound j k same)
    | inr other ↦ cached_sound k c i there (rw other at e)
  ]

  find_field-IsSound :
      (c : Cache) (k : Key)
      → IsSound c
      → ((find_field c k).0 ≡ scan_key k) × IsSound (find_field c k).1
  unfolding find_field
  find_field-IsSound c (t, name) h = elim (Option-cases (cached (t, name) c)) [
    | inl absent ↦ rw (find_field, absent) (refl, (refl, h))
    | inr (i, found) ↦ rw (find_field, found) (cached_sound (t, name) c i h found, h)
  ]

  find_fields-scan_key :
      (c : Cache) (ks : List Key) → IsSound c → find_fields c ks ≡ map scan_key ks
  unfolding find_fields
  find_fields-scan_key c [] h = refl
  find_fields-scan_key c (k ∷ ks) h =
      let (first, still) = find_field-IsSound c k h in
      ap₂ ◌∷◌ first (find_fields-scan_key (find_field c k).1 ks still)

  -- Any sequence of cached lookups, from the empty cache on, gives what the scans give.
  pub find_fields_sound : (ks : List Key) → find_fields [] ks ≡ map scan_key ks
  find_fields_sound ks = find_fields-scan_key [] ks tt
