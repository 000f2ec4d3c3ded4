-- ===== src/Common/Strings.antt =====
-- Go strings as lists of bytes, with the functions of package strings that the code calls.
use Prim.Native.Nat.{◌+◌, ℕ, suc, ◌-◌}
use Prim.Native.Char.{code}
use Prim.Native.String.{String}
use mathlib.Core.Path.{ap₂, ◌≡◌, refl}
use mathlib.Core.Logic.{◌↔◌}
use mathlib.Core.Bool.{not, ◌||◌, Bool, true, false, ◌&&◌}
use mathlib.Core.Option.{Option, none, some}
use mathlib.Core.List.{map, List, [], ◌∷◌, ◌++◌}
use native.Mathlib.Omega.{arith}
use zara_rpc.Common.Tests.{leb, ◌==◌, if◌then◌else◌}
use zara_rpc.Common.Lists.{length, take, drop}

abbrev pub Text : Type 0
Text = List ℕ

-- The code points of a literal: its bytes, since every literal of the code is ASCII.
abbrev pub codes : String → Text
codes String.[] = []
codes (String.◌∷◌ c s) = code c ∷ codes s

abbrev pub text_eq : Text → Text → Bool
text_eq [] [] = true
text_eq (c ∷ s) (d ∷ t) = c == d && text_eq s t
text_eq _ _ = false

pub text_eq_refl : (s : Text) → text_eq s s ≡ true
text_eq_refl [] = refl
text_eq_refl (c ∷ s) = ground (arith, text_eq_refl s)

pub eq_of_text_eq : (s t : Text) → text_eq s t ≡ true → s ≡ t
eq_of_text_eq [] [] h = refl
eq_of_text_eq [] (d ∷ t) h = cc
eq_of_text_eq (c ∷ s) [] h = cc
eq_of_text_eq (c ∷ s) (d ∷ t) h = ground (arith, eq_of_text_eq s t)

pub text_eq_iff : (s t : Text) → (text_eq s t ≡ true) ↔ (s ≡ t)
text_eq_iff s t = (eq_of_text_eq s t, λ e. rw e (text_eq_refl t))

-- strings.HasPrefix(s, p)
abbrev pub has_prefix : Text → Text → Bool
has_prefix s [] = true
has_prefix [] (c ∷ p) = false
has_prefix (d ∷ s) (c ∷ p) = d == c && has_prefix s p

pub has_prefix-append : (p r : Text) → has_prefix (p ++ r) p ≡ true
has_prefix-append [] r = refl
has_prefix-append (c ∷ p) r = ground (arith, has_prefix-append p r)

pub append_of_has_prefix : (s p : Text) → has_prefix s p ≡ true → s ≡ p ++ drop (length p) s
append_of_has_prefix s [] h = refl
append_of_has_prefix [] (c ∷ p) h = cc
append_of_has_prefix (d ∷ s) (c ∷ p) h = ground (arith, append_of_has_prefix s p)

-- strings.HasSuffix(s, p)
abbrev pub has_suffix : Text → Text → Bool
has_suffix s p = leb (length p) (length s) && text_eq (drop (length s - length p) s) p

-- s[:len(s)-n]
abbrev pub drop_last : ℕ → Text → Text
drop_last n s = take (length s - n) s

-- strings.IndexByte(s, c), `none` for -1
abbrev pub index_byte : Text → ℕ → Option ℕ
index_byte [] c = none
index_byte (d ∷ s) c =
    let rest = index_byte s c in
    if d == c then some 0 else elim rest [ none ↦ none | some i ↦ some (suc i) ]

-- strings.Contains(s, string(c))
abbrev pub contains_byte : Text → ℕ → Bool
contains_byte [] c = false
contains_byte (d ∷ s) c = if d == c then true else contains_byte s c

-- strings.LastIndex(s, string(c)), `none` for -1
abbrev pub last_index_byte : Text → ℕ → Option ℕ
last_index_byte [] c = none
last_index_byte (d ∷ s) c = elim (last_index_byte s c) [
  | some i ↦ some (suc i)
  | none ↦ if d == c then some 0 else none
]

abbrev pub is_empty : Text → Bool
is_empty [] = true
is_empty (c ∷ s) = false

pub is_empty_iff : (s : Text) → (is_empty s ≡ true) ↔ (s ≡ [])
is_empty_iff [] = ground arith
is_empty_iff (c ∷ s) = ground arith

abbrev pub push_head : ℕ → List Text → List Text
push_head c [] = (c ∷ []) ∷ []
push_head c (x ∷ xs) = (c ∷ x) ∷ xs

-- strings.Split(s, string(c))
abbrev pub split_byte : ℕ → Text → List Text
split_byte c [] = [] ∷ []
split_byte c (d ∷ s) = let rest = split_byte c s in if d == c then [] ∷ rest else push_head d rest

-- An ASCII letter in lower case, and strings.EqualFold on ASCII.
abbrev pub lower : ℕ → ℕ
lower c = if leb b'A' c && leb c b'Z' then c + 32 else c

abbrev pub equal_fold : Text → Text → Bool
equal_fold a b = text_eq (map lower a) (map lower b)

abbrev pub to_lower : Text → Text
to_lower s = map lower s

lower-lower : (c : ℕ) → lower (lower c) ≡ lower c
lower-lower c = ground arith

pub to_lower-to_lower : (s : Text) → to_lower (to_lower s) ≡ to_lower s
to_lower-to_lower [] = refl
to_lower-to_lower (c ∷ s) = ap₂ ◌∷◌ (lower-lower c) (to_lower-to_lower s)

-- strings.TrimSpace and bytes.TrimSpace, on ASCII.
abbrev pub is_space : ℕ → Bool
is_space c = c == b' ' || (leb 9 c && leb c 13)

abbrev pub trim_left : Text → Text
trim_left [] = []
trim_left (c ∷ s) = if is_space c then trim_left s else c ∷ s

abbrev pub trim_right : Text → Text
trim_right [] = []
trim_right (c ∷ s) = let rest = trim_right s in if is_space c && is_empty rest then [] else c ∷ rest

abbrev pub trim_space : Text → Text
trim_space s = trim_right (trim_left s)

-- A text that no trimming shortens.
abbrev pub starts : Text → Bool
starts [] = true
starts (c ∷ s) = not (is_space c)

abbrev pub IsTrimmed : Text → Type 0
IsTrimmed s = (starts s ≡ true) × (trim_right s ≡ s)

pub trim_right-newline : (s : Text) → trim_right (s ++ (b'\n' ∷ [])) ≡ trim_right s
trim_right-newline [] = refl
trim_right-newline (c ∷ s) = ground (arith, trim_right-newline s)

pub trim_left-starts : (c : ℕ) (s : Text) → starts (c ∷ s) ≡ true → trim_left (c ∷ s) ≡ c ∷ s
trim_left-starts c s h = ground arith

-- A line and what follows it, `none` if there is no newline: ReadBytes('\n') on all of the input.
abbrev pub cut_line : Text → Option (Text × Text)
cut_line [] = none
cut_line (c ∷ s) =
    let rest = cut_line s in
    if c == b'\n'
    then some (c ∷ [], s)
    else elim rest [ none ↦ none | some (line, more) ↦ some (c ∷ line, more) ]

pub cut_line-append :
    (line rest : Text)
    → contains_byte line b'\n' ≡ false
    → cut_line (line ++ (b'\n' ∷ rest)) ≡ some (line ++ (b'\n' ∷ []), rest)
cut_line-append [] rest h = refl
cut_line-append (c ∷ line) rest h = ground (arith, cut_line-append line rest)
