-- ===== src/Routing/Mux/Methods.antt =====
-- `allowedMethods` of routing/mux.go: the methods that it collects, and their order.
use zara_rpc.Common.{
  subst, ◌≡◌, refl, ◌∙◌, Bool, true, false, not, ◌&&◌, ◌||◌, none, List, [], ◌∷◌, ◌++◌, Text,
  text_eq, text_eq_iff, any, any-append, All, holds, IsUnique, lookup, lookup-IsFresh, arith,
  Bool-cases, inl, inr, if◌then◌else◌,
}
use zara_rpc.Routing.Mux.{text_mem, collect, text_leb, insert_sorted, sort_strings}

text_mem-snoc :
    (j k : Text) (ks : List Text) → text_mem j (ks ++ (k ∷ [])) ≡ (text_mem j ks || text_eq k j)
text_mem-snoc j k ks = ground (arith, any-append (λ i. text_eq i j) ks (k ∷ []))

add_seen : Bool → Text → List Text → List Text
add_seen b k seen = if b && not (text_mem k seen) then seen ++ (k ∷ []) else seen

text_mem-add_seen :
    (b : Bool) (j k : Text) (seen : List Text)
    → text_mem j (add_seen b k seen) ≡ (text_mem j seen || (text_eq k j && b))
unfolding add_seen
text_mem-add_seen b j k seen = ground (arith, text_mem-snoc j k seen, text_eq_iff k j)

-- No text stands twice.
abbrev pub IsDistinct : List Text → Type 0
IsDistinct [] = Unit
IsDistinct (k ∷ ks) = (text_mem k ks ≡ false) × IsDistinct ks

snoc-IsDistinct :
    (k : Text) (ks : List Text)
    → IsDistinct ks
    → text_mem k ks ≡ false
    → IsDistinct (ks ++ (k ∷ []))
snoc-IsDistinct k [] h e = (refl, tt)
snoc-IsDistinct k (j ∷ ks) (h, hs) e = (
  ground (arith, text_mem-snoc j k ks, text_eq_iff j k, text_eq_iff k j),
  snoc-IsDistinct k ks hs (ground arith),
)

add_seen-IsDistinct :
    (b : Bool) (k : Text) (seen : List Text) → IsDistinct seen → IsDistinct (add_seen b k seen)
unfolding add_seen
add_seen-IsDistinct false k seen h = h
add_seen-IsDistinct true k seen h = elim (Bool-cases (text_mem k seen)) [
  | inl e ↦ rw e h
  | inr e ↦ rw e (snoc-IsDistinct k seen h e)
]

abbrev pub no_items : List Text → Bool
no_items [] = true
no_items (k ∷ ks) = false

no_items-snoc : (k : Text) (ks : List Text) → no_items (ks ++ (k ∷ [])) ≡ false
no_items-snoc k [] = refl
no_items-snoc k (j ∷ ks) = refl

no_items-add_seen :
    (b : Bool) (k : Text) (seen : List Text)
    → no_items (add_seen b k seen) ≡ (no_items seen && not b)
unfolding add_seen
no_items-add_seen false k [] = refl
no_items-add_seen false k (j ∷ seen) = refl
no_items-add_seen true k [] = refl
no_items-add_seen true k (j ∷ seen) = ground (arith, no_items-snoc k (j ∷ seen))

module _ {ℓ} {V : Type ℓ} (p : V → Bool) where
  -- A key is collected if it was seen before, or its value passes the test.
  pub text_mem-collect :
      (j : Text) (seen : List Text) (m : List (Text × V))
      → IsUnique m
      → text_mem j (collect p seen m) ≡ (text_mem j seen || holds p (lookup j m))
  unfolding add_seen
  text_mem-collect j seen [] h = ground arith
  text_mem-collect j seen ((k, v) ∷ m) (h, hs) =
      text_mem-collect j (add_seen (p v) k seen) m hs ∙ elim (Bool-cases (text_eq k j)) [
        | inl same ↦
            let absent : lookup j m ≡ none =
              subst (λ i. lookup i m ≡ none) ((text_eq_iff k j).0 same) (lookup-IsFresh k m h) in
            ground (arith, text_mem-add_seen (p v) j k seen)
        | inr other ↦ ground (arith, text_mem-add_seen (p v) j k seen)
      ]

  -- Something is collected if something was, or some value passes the test.
  pub no_items-collect :
      (seen : List Text) (m : List (Text × V))
      → no_items (collect p seen m) ≡ (no_items seen && not (any (λ e. p e.1) m))
  unfolding add_seen
  no_items-collect seen [] = ground arith
  no_items-collect seen ((k, v) ∷ m) =
      no_items-collect (add_seen (p v) k seen) m ∙ ground (arith, no_items-add_seen (p v) k seen)

  -- No key is collected twice.
  pub collect-IsDistinct :
      (seen : List Text) (m : List (Text × V)) → IsDistinct seen → IsDistinct (collect p seen m)
  unfolding add_seen
  collect-IsDistinct seen [] h = h
  collect-IsDistinct seen ((k, v) ∷ m) h =
      collect-IsDistinct (add_seen (p v) k seen) m (add_seen-IsDistinct (p v) k seen h)

-- `<=` on strings is a total order.
text_leb_total : (s t : Text) → text_leb s t ≡ false → text_leb t s ≡ true
text_leb_total [] t h = cc
text_leb_total (c ∷ s) [] h = refl
text_leb_total (c ∷ s) (d ∷ t) h = ground (arith, text_leb_total s t)

text_leb_trans : (s t u : Text) → text_leb s t ≡ true → text_leb t u ≡ true → text_leb s u ≡ true
text_leb_trans [] t u h k = refl
text_leb_trans (c ∷ s) [] u h k = cc
text_leb_trans (c ∷ s) (d ∷ t) [] h k = cc
text_leb_trans (c ∷ s) (d ∷ t) (e ∷ u) h k = ground (arith, text_leb_trans s t u)

-- In the order of strings.
abbrev pub IsSorted : List Text → Type 0
IsSorted [] = Unit
IsSorted (k ∷ ks) = All (λ j. text_leb k j ≡ true) ks × IsSorted ks

below-All :
    (i k : Text) (ks : List Text)
    → text_leb i k ≡ true
    → All (λ j. text_leb k j ≡ true) ks
    → All (λ j. text_leb i j ≡ true) ks
below-All i k [] e h = tt
below-All i k (j ∷ ks) e (h, hs) = (text_leb_trans i k j e h, below-All i k ks e hs)

insert_sorted-All :
    (P : Text → Type 0) (k : Text) (ks : List Text) → P k → All P ks → All P (insert_sorted k ks)
insert_sorted-All P k [] h hs = (h, tt)
insert_sorted-All P k (j ∷ ks) h hs = elim (Bool-cases (text_leb k j)) [
  | inl e ↦ rw e (h, hs)
  | inr e ↦ rw e (hs.0, insert_sorted-All P k ks h hs.1)
]

insert_sorted-IsSorted : (k : Text) (ks : List Text) → IsSorted ks → IsSorted (insert_sorted k ks)
insert_sorted-IsSorted k [] h = (tt, tt)
insert_sorted-IsSorted k (j ∷ ks) (h, hs) = elim (Bool-cases (text_leb k j)) [
  | inl e ↦ rw e ((e, below-All k j ks e h), (h, hs))
  | inr e ↦ rw e (
    insert_sorted-All (λ i. text_leb j i ≡ true) k ks (text_leb_total k j e) h,
    insert_sorted-IsSorted k ks hs,
  )
]

pub sort_strings-IsSorted : (ks : List Text) → IsSorted (sort_strings ks)
sort_strings-IsSorted [] = tt
sort_strings-IsSorted (k ∷ ks) =
    insert_sorted-IsSorted k (sort_strings ks) (sort_strings-IsSorted ks)

insert_sorted-text_mem :
    (j k : Text) (ks : List Text) → text_mem j (insert_sorted k ks) ≡ (text_eq k j || text_mem j ks)
insert_sorted-text_mem j k [] = refl
insert_sorted-text_mem j k (i ∷ ks) = ground (arith, insert_sorted-text_mem j k ks)

pub sort_strings-text_mem :
    (j : Text) (ks : List Text) → text_mem j (sort_strings ks) ≡ text_mem j ks
sort_strings-text_mem j [] = refl
sort_strings-text_mem j (k ∷ ks) =
    ground (arith, insert_sorted-text_mem j k (sort_strings ks), sort_strings-text_mem j ks)

insert_sorted-IsDistinct :
    (k : Text) (ks : List Text)
    → IsDistinct ks
    → text_mem k ks ≡ false
    → IsDistinct (insert_sorted k ks)
insert_sorted-IsDistinct k [] h e = (refl, tt)
insert_sorted-IsDistinct k (i ∷ ks) (h, hs) e = elim (Bool-cases (text_leb k i)) [
  | inl le ↦ rw le (e, (h, hs))
  | inr gt ↦ rw gt (
    ground (arith, insert_sorted-text_mem i k ks, text_eq_iff k i, text_eq_iff i k),
    insert_sorted-IsDistinct k ks hs (ground arith),
  )
]

pub sort_strings-IsDistinct : (ks : List Text) → IsDistinct ks → IsDistinct (sort_strings ks)
sort_strings-IsDistinct [] h = tt
sort_strings-IsDistinct (k ∷ ks) (h, hs) =
    insert_sorted-IsDistinct k (sort_strings ks) (sort_strings-IsDistinct ks hs)
      (sort_strings-text_mem k ks ∙ h)
