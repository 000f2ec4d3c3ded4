-- ===== src/Internal/Buffers.antt =====
-- internal/xsync/buffers.go: pools that keep no buffer above a size. A buffer is its capacity; what
-- a sync.Pool holds is a list of them, of which it may hand out or drop any one at any time.
use zara_rpc.Common.{
  ℕ, ◌≤◌, ◌≡◌, List, [], ◌∷◌, ◌++◌, ltb, All, if◌then◌else◌, arith, Bool-cases, inl, inr, subst,
}

-- `Bytes.Put`
unfoldable pub put_bytes : ℕ → ℕ → List ℕ → List ℕ
put_bytes max c pool = if ltb max c then pool else c ∷ pool

-- `Buffer.Put`: a buffer above the size is put back as an empty one.
unfoldable pub put_buffer : ℕ → ℕ → List ℕ → List ℕ
put_buffer max c pool = (if ltb max c then 0 else c) ∷ pool

-- `GetN`: the capacity of the slice of length `n` that is returned for a pooled one.
unfoldable pub get_n : ℕ → ℕ → ℕ
get_n n c = if ltb c n then n else c

-- What happens to the two pools of one size: an empty buffer is made, one is taken (or dropped by
-- the pool), or one of any capacity is put back.
pub data Step (max : ℕ) : List ℕ → List ℕ → Type 0 where
  made : {pool : List ℕ} → Step max pool pool
  taken :
      {pool : List ℕ} (before after : List ℕ) (c : ℕ)
      → pool ≡ before ++ (c ∷ after)
      → Step max pool (before ++ after)
  put_slice : {pool : List ℕ} (c : ℕ) → Step max pool (put_bytes max c pool)
  put_back : {pool : List ℕ} (c : ℕ) → Step max pool (put_buffer max c pool)

pub data Steps (max : ℕ) : List ℕ → List ℕ → Type 0 where
  stay : {pool : List ℕ} → Steps max pool pool
  step :
      {pool : List ℕ} (next : List ℕ) {last : List ℕ}
      → Step max pool next
      → Steps max next last
      → Steps max pool last

-- No buffer is larger than the size.
abbrev pub IsBounded : ℕ → List ℕ → Type 0
IsBounded max pool = All (λ c. c ≤ max) pool

All-without :
    (max : ℕ) (before after : List ℕ) (c : ℕ)
    → IsBounded max (before ++ (c ∷ after))
    → IsBounded max (before ++ after)
All-without max [] after c h = h.1
All-without max (b ∷ before) after c h = (h.0, All-without max before after c h.1)

put_bytes-IsBounded :
    (max c : ℕ) (pool : List ℕ) → IsBounded max pool → IsBounded max (put_bytes max c pool)
unfolding put_bytes
put_bytes-IsBounded max c pool h = elim (Bool-cases (ltb max c)) [
  | inl big ↦ rw big h
  | inr fits ↦ rw fits (ground (arith, fits), h)
]

put_buffer-IsBounded :
    (max c : ℕ) (pool : List ℕ) → IsBounded max pool → IsBounded max (put_buffer max c pool)
unfolding put_buffer
put_buffer-IsBounded max c pool h = (ground arith, h)

Step-IsBounded :
    (max : ℕ) (pool next : List ℕ) → Step max pool next → IsBounded max pool → IsBounded max next
Step-IsBounded max pool _ made h = h
Step-IsBounded max pool _ (taken before after c e) h =
    All-without max before after c (subst (λ p. IsBounded max p) e h)
Step-IsBounded max pool _ (put_slice c) h = put_bytes-IsBounded max c pool h
Step-IsBounded max pool _ (put_back c) h = put_buffer-IsBounded max c pool h

Steps-IsBounded :
    (max : ℕ) (pool last : List ℕ) → Steps max pool last → IsBounded max pool → IsBounded max last
Steps-IsBounded max pool _ stay h = h
Steps-IsBounded max pool last (step next s ss) h =
    Steps-IsBounded max next last ss (Step-IsBounded max pool next s h)

-- Whatever is taken and put back, in any order, a pool that started empty never holds a buffer
-- above its size, and a slice that is handed out has the length asked for within its capacity.
pub Steps-get_n :
    (max n c : ℕ) (pool : List ℕ) → Steps max [] pool → IsBounded max pool × (n ≤ get_n n c)
unfolding get_n
Steps-get_n max n c pool s = (Steps-IsBounded max [] pool s tt, ground arith)
