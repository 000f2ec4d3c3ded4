-- ===== src/Client/Errors.antt =====
-- client/interceptor.go and status/status.go: the code of an error. An error is its chain: itself
-- and what `Unwrap` gives, from the outside in.
use zara_rpc.Common.{◌≡◌, refl, Bool, true, false, List, [], ◌∷◌, ◌++◌, All, any, if◌then◌else◌}
use zara_rpc.Codes.{Code, code_ok, code_unknown, code_deadline_exceeded, code_canceled}

-- A link of the chain: the two errors of package context, a `status.Error`, or another error.
pub data Link : Type 0 where
  deadline_exceeded canceled other : Link
  rpc : Code → Link

abbrev pub is_deadline : Link → Bool
is_deadline Link.deadline_exceeded = true
is_deadline _ = false

abbrev pub is_canceled : Link → Bool
is_canceled Link.canceled = true
is_canceled _ = false

-- `status.Code`: the first status in the chain.
unfoldable pub status_code : List Link → Code
status_code [] = code_unknown
status_code (Link.rpc c ∷ chain) = c
status_code (_ ∷ chain) = status_code chain

-- `isContextErr`
unfoldable pub is_context_err : (Link → Bool) → List Link → Bool
is_context_err target chain = any target chain

-- `codeOf`; the empty chain is nil.
unfoldable pub code_of : List Link → Code
unfolding status_code is_context_err
code_of [] = code_ok
code_of (l ∷ chain) =
    if is_context_err is_deadline (l ∷ chain)
    then code_deadline_exceeded
    else if is_context_err is_canceled (l ∷ chain)
    then code_canceled
    else status_code (l ∷ chain)

-- An error that is none of the known ones.
abbrev pub IsOther : Link → Type 0
IsOther Link.other = Unit
IsOther _ = ⊥

-- Wrapping an error in errors of other kinds, any number of times, changes no code.
pub code_of-append :
    (outer : List Link) (l : Link) (chain : List Link)
    → All IsOther outer
    → code_of (outer ++ (l ∷ chain)) ≡ code_of (l ∷ chain)
unfolding code_of
code_of-append [] l chain h = refl
code_of-append (Link.other ∷ []) l chain h = refl
code_of-append (Link.other ∷ o ∷ outer) l chain (h, hs) = code_of-append (o ∷ outer) l chain hs
code_of-append (Link.deadline_exceeded ∷ outer) l chain h = absurd h.0
code_of-append (Link.canceled ∷ outer) l chain h = absurd h.0
code_of-append (Link.rpc c ∷ outer) l chain h = absurd h.0
