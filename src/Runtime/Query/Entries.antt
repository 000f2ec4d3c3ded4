-- ===== src/Runtime/Query/Entries.antt =====
-- The entries of url.Values that `MessageToQuery` of runtime/substitute.go makes.
use zara_rpc.Common.{
  split_byte, lookup-IsFresh, insert, lookup, IsFresh, ◌≡◌, refl, sym, ap, ◌∙◌, ℕ, true, false,
  some, List, [], ◌∷◌, ◌++◌, Text, text_eq, text_eq_iff, text_eq_refl, contains_byte, arith, All,
  append_assoc, append-nil, Bool-cases, inl, inr,
}
use zara_rpc.Status.Headers.{values, Header, set, add, add_values}
use zara_rpc.Runtime.Populate.{FieldInfo, is_field}
use zara_rpc.Runtime.Substitute.{proto_name}
use zara_rpc.Runtime.Query.{Queried, absent, one, many, put}
use zara_rpc.Runtime.Query.Values.{texts}

-- A field's entry in the query.
abbrev pub part : Text → List Text → Header
part name [] = []
part name (s ∷ ss) = (name, s ∷ ss) ∷ []

insert_fresh :
    {V : Type 0} (k : Text) (v : V) (q : List (Text × V))
    → IsFresh k q
    → insert k v q ≡ q ++ ((k, v) ∷ [])
insert_fresh k v [] h = refl
insert_fresh k v ((j, w) ∷ q) (h, hs) = rw h (ap (◌∷◌ (j, w)) (insert_fresh k v q hs))

insert_last :
    {V : Type 0} (k : Text) (v w : V) (q : List (Text × V))
    → IsFresh k q
    → insert k v (q ++ ((k, w) ∷ [])) ≡ q ++ ((k, v) ∷ [])
insert_last k v w [] h = rw (text_eq_refl k) refl
insert_last k v w ((j, u) ∷ q) (h, hs) = rw h (ap (◌∷◌ (j, u)) (insert_last k v w q hs))

lookup_last :
    {V : Type 0} (k : Text) (w : V) (q : List (Text × V))
    → IsFresh k q
    → lookup k (q ++ ((k, w) ∷ [])) ≡ some w
lookup_last k w [] h = rw (text_eq_refl k) refl
lookup_last k w ((j, u) ∷ q) (h, hs) = rw h (lookup_last k w q hs)

add_values_last :
    (k : Text) (vs ws : List Text) (q : Header)
    → IsFresh k q
    → add_values k vs (q ++ ((k, ws) ∷ [])) ≡ q ++ ((k, ws ++ vs) ∷ [])
unfolding add_values add
add_values_last k [] ws q h = ap (λ us. q ++ ((k, us) ∷ [])) (sym (append-nil ws))
add_values_last k (v ∷ vs) ws q h =
    ap (λ o. add_values k vs (insert k (values o ++ (v ∷ [])) (q ++ ((k, ws) ∷ []))))
      (lookup_last k ws q h)
    ∙ ap (add_values k vs) (insert_last k (ws ++ (v ∷ [])) ws q h)
    ∙ add_values_last k vs (ws ++ (v ∷ [])) q h
    ∙ ap (λ us. q ++ ((k, us) ∷ [])) (append_assoc ws (v ∷ []) vs)

add_fresh : (k v : Text) (q : Header) → IsFresh k q → add k v q ≡ q ++ ((k, v ∷ []) ∷ [])
unfolding add
add_fresh k v q h =
    ap (λ o. insert k (values o ++ (v ∷ [])) q) (lookup-IsFresh k q h) ∙ insert_fresh k (v ∷ []) q h

-- Under a key that is not there yet, `Set` and `Add` make the same entry.
pub put_fresh :
    (name : Text) (u : Queried) (q : Header)
    → IsFresh name q
    → put name u q ≡ q ++ part name (texts u)
unfolding put set add_values
put_fresh name absent q h = sym (append-nil q)
put_fresh name (one s) q h = insert_fresh name (s ∷ []) q h
put_fresh name (many []) q h = sym (append-nil q)
put_fresh name (many (s ∷ ss)) q h =
    ap (add_values name ss) (add_fresh name s q h) ∙ add_values_last name ss (s ∷ []) q h

abbrev pub key : FieldInfo → Text
key i = proto_name i.name i.tag

pub split_byte-plain : (c : ℕ) (s : Text) → contains_byte s c ≡ false → split_byte c s ≡ s ∷ []
split_byte-plain c [] h = refl
split_byte-plain c (d ∷ s) h = ground (arith, split_byte-plain c s)

pub IsFresh-part :
    (k j : Text) (vs : List Text) (q : Header)
    → text_eq j k ≡ false
    → IsFresh k q
    → IsFresh k (q ++ part j vs)
IsFresh-part k j [] [] e h = tt
IsFresh-part k j (v ∷ vs) [] e h = (e, tt)
IsFresh-part k j vs ((l, us) ∷ q) e (h, hs) = (h, IsFresh-part k j vs q e hs)

pub is_field_apart :
    (i : FieldInfo) (a b : Text) → is_field i a ≡ true → is_field i b ≡ false → text_eq a b ≡ false
is_field_apart i a b h miss = elim (Bool-cases (text_eq a b)) [
  | inl same ↦ absurd (cc (sym h ∙ ap (is_field i) ((text_eq_iff a b).0 same) ∙ miss))
  | inr other ↦ other
]

-- Entries under which the server finds no field `i`.
abbrev pub AreElsewhere : FieldInfo → Header → Type 0
AreElsewhere i =
    All (λ (e : Text × List Text). (is_field i e.0 ≡ false) × (contains_byte e.0 b'.' ≡ false))

pub AreElsewhere-part :
    (i : FieldInfo) (k : Text) (vs : List Text)
    → is_field i k ≡ false
    → contains_byte k b'.' ≡ false
    → AreElsewhere i (part k vs)
AreElsewhere-part i k [] h d = tt
AreElsewhere-part i k (v ∷ vs) h d = ((h, d), tt)
