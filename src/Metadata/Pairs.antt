-- ===== src/Metadata/Pairs.antt =====
-- metadata/metadata.go: the headers that the gateway forwards to a gRPC server. ASCII names.
use zara_rpc.Common.{
  ◌≡◌, ap, ◌∙◌, Bool, false, List, [], ◌∷◌, ◌++◌, Text, codes, to_lower, to_lower-to_lower,
  equal_fold, text_eq, any, All, All-append, Bool-cases, inl, inr, if◌then◌else◌,
}

abbrev pub hop_by_hop_headers : List Text
hop_by_hop_headers =
    codes "content-type"
    ∷ codes "content-length"
    ∷ codes "connection"
    ∷ codes "upgrade"
    ∷ codes "accept"
    ∷ codes "accept-encoding"
    ∷ codes "user-agent"
    ∷ codes "host"
    ∷ codes "grpc-timeout"
    ∷ codes "grpc-deadline"
    ∷ []

-- `isHopByHop`
unfoldable pub is_hop_by_hop : Text → Bool
is_hop_by_hop k = any (λ h. equal_fold k h) hop_by_hop_headers

-- The inner loop: the key and a value each.
abbrev pub pairs_of_values : Text → List Text → List (Text × Text)
pairs_of_values key [] = []
pairs_of_values key (v ∷ vs) = (key, v) ∷ pairs_of_values key vs

-- `HeaderPairsFromMeta` before its pairs are laid out flat.
unfoldable pub header_pairs_from_meta : List (Text × List Text) → List (Text × Text)
unfolding is_hop_by_hop
header_pairs_from_meta [] = []
header_pairs_from_meta ((k, vs) ∷ h) =
    let rest = header_pairs_from_meta h in
    if is_hop_by_hop k then rest else pairs_of_values (to_lower k) vs ++ rest

is_hop_by_hop-to_lower : (k : Text) → is_hop_by_hop (to_lower k) ≡ is_hop_by_hop k
unfolding is_hop_by_hop
is_hop_by_hop-to_lower k =
    ap (λ l. any (λ h. text_eq l (to_lower h)) hop_by_hop_headers) (to_lower-to_lower k)

-- A pair that may be forwarded: its key is in lower case and no hop-by-hop header.
abbrev pub IsForwarded : Text × Text → Type 0
IsForwarded p = (to_lower p.0 ≡ p.0) × (is_hop_by_hop p.0 ≡ false)

pairs_of_values-IsForwarded :
    (k : Text) (vs : List Text)
    → is_hop_by_hop k ≡ false
    → All IsForwarded (pairs_of_values (to_lower k) vs)
pairs_of_values-IsForwarded k [] e = tt
pairs_of_values-IsForwarded k (v ∷ vs) e =
    ((to_lower-to_lower k, is_hop_by_hop-to_lower k ∙ e), pairs_of_values-IsForwarded k vs e)

-- Whatever the case of the header names of a request, every forwarded key is in lower case, and
-- none is a hop-by-hop header, in any case.
pub header_pairs_from_meta-IsForwarded :
    (h : List (Text × List Text)) → All IsForwarded (header_pairs_from_meta h)
unfolding header_pairs_from_meta
header_pairs_from_meta-IsForwarded [] = tt
header_pairs_from_meta-IsForwarded ((k, vs) ∷ h) = elim (Bool-cases (is_hop_by_hop k)) [
  | inl hop ↦ rw hop (header_pairs_from_meta-IsForwarded h)
  | inr kept ↦ rw kept (
      All-append IsForwarded (pairs_of_values (to_lower k) vs) (header_pairs_from_meta h)
        (pairs_of_values-IsForwarded k vs kept) (header_pairs_from_meta-IsForwarded h))
]
