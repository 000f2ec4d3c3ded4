-- ===== src/Codes/Laws.antt =====
-- Round trips between codes, their names and their HTTP statuses.
use zara_rpc.Common.{
  All-mono, all_iff, ltb, all, ltb_iff, lookup-All, All, Option-cases, all_below, all_below_sound,
  ◌↔◌, ℕ, ◌<◌, ◌≡◌, refl, ◌⊎◌, Bool, true, false, none, some, Text, arith, pos, negsuc, ◌==ℤ◌,
}
use zara_rpc.Codes.{
  code_data_loss, code_out_of_range, code_failed_precondition, code_already_exists, Code, string,
  http_status, code_names, code_from_string, code_from_http_status, code_unknown,
}

-- The seventeen codes.
abbrev pub IsCode : Code → Type 0
IsCode (pos n) = n < 17
IsCode (negsuc n) = ⊥

found_again : ℕ → Bool
found_again n = elim (code_from_string (string (pos n))) [ none ↦ false | some c ↦ c ==ℤ pos n ]

found_again_below : all_below 17 found_again ≡ true
unfolding found_again code_from_string
found_again_below = refl

found_again_sound :
    (n : ℕ) → found_again n ≡ true → code_from_string (string (pos n)) ≡ some (pos n)
unfolding found_again
found_again_sound n h = ground (arith, Option-cases (code_from_string (string (pos n))))

pub code_from_string-string : (c : Code) → IsCode c → code_from_string (string c) ≡ some c
code_from_string-string (pos n) h =
    found_again_sound n (all_below_sound 17 found_again n found_again_below h)
code_from_string-string (negsuc n) h = absurd h

-- The names are ASCII.
is_ascii : ℕ → Bool
is_ascii n = all (λ c. ltb c 128) (string (pos n))

is_ascii_below : all_below 17 is_ascii ≡ true
unfolding is_ascii string
is_ascii_below = refl

pub string_ascii : (c : Code) → IsCode c → All (λ n. n < 128) (string c)
unfolding is_ascii
string_ascii (pos n) h =
    All-mono (λ c. (ltb_iff c 128).0) (string (pos n))
      ((all_iff (λ c. ltb c 128) (string (pos n))).0
        (all_below_sound 17 is_ascii n is_ascii_below h))
string_ascii (negsuc n) h = absurd h

-- Every entry of `codeNames` is the name of its code.
code_names-string : All (λ (e : Text × Code). IsCode e.1 × (string e.1 ≡ e.0)) code_names
unfolding code_names
code_names-string = (
  (omega arith, refl),
  (
    (omega arith, refl),
    (
      (omega arith, refl),
      (
        (omega arith, refl),
        (
          (omega arith, refl),
          (
            (omega arith, refl),
            (
              (omega arith, refl),
              (
                (omega arith, refl),
                (
                  (omega arith, refl),
                  (
                    (omega arith, refl),
                    (
                      (omega arith, refl),
                      (
                        (omega arith, refl),
                        (
                          (omega arith, refl),
                          (
                            (omega arith, refl),
                            ((omega arith, refl), ((omega arith, refl), ((omega arith, refl), tt))),
                          ),
                        ),
                      ),
                    ),
                  ),
                ),
              ),
            ),
          ),
        ),
      ),
    ),
  ),
)

-- A text is parsed as a code exactly if the code is one of the seventeen and the text is its name.
pub code_from_string_iff :
    (s : Text) (c : Code) → (code_from_string s ≡ some c) ↔ (IsCode c × (string c ≡ s))
unfolding code_from_string
code_from_string_iff s c = (
  λ e. lookup-All (λ t d. IsCode d × (string d ≡ t)) s code_names code_names-string e,
  λ (h, e). rw (← e) (code_from_string-string c h),
)

-- Answering with the HTTP status of a code, and reading a code from that status, gives a code of
-- the same HTTP status, for every integer code.
pub http_status-code_from_http_status :
    (c : Code) → http_status (code_from_http_status (http_status c)) ≡ http_status c
unfolding http_status code_from_http_status
http_status-code_from_http_status c = ground arith

-- The codes that share their HTTP status with another one and lose against it.
abbrev pub IsLossy : Code → Type 0
IsLossy c =
    (c ≡ code_unknown)
    ⊎ (c ≡ code_already_exists)
    ⊎ (c ≡ code_failed_precondition)
    ⊎ (c ≡ code_out_of_range)
    ⊎ (c ≡ code_data_loss)

-- One of the seventeen codes is read back from its own HTTP status exactly if it is not unknown,
-- already_exists, failed_precondition, out_of_range or data_loss.
pub code_from_http_status_iff :
    (c : Code) → IsCode c → (code_from_http_status (http_status c) ≡ c) ↔ (¬ IsLossy c)
unfolding http_status code_from_http_status
code_from_http_status_iff c h = ground arith
