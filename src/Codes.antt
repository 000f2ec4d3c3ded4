-- ===== src/Codes.antt =====
-- codes/codes.go: the RPC codes, their names and their HTTP statuses. `Code` is a Go int, so any
-- integer may be a code; the statuses are those of net/http.
pub mod Laws
use zara_rpc.Common.{
  ℕ, zero, suc, ◌+◌, Bool, true, false, Option, none, some, List, [], ◌∷◌, Text, codes, ◌==◌,
  if◌then◌else◌, ℤ, pos, ◌==ℤ◌, insert, lookup,
}

abbrev pub Code : Type 0
Code = ℤ

abbrev pub code_ok : Code
code_ok = pos 0

abbrev pub code_canceled : Code
code_canceled = pos 1

abbrev pub code_unknown : Code
code_unknown = pos 2

abbrev pub code_invalid_argument : Code
code_invalid_argument = pos 3

abbrev pub code_deadline_exceeded : Code
code_deadline_exceeded = pos 4

abbrev pub code_not_found : Code
code_not_found = pos 5

abbrev pub code_already_exists : Code
code_already_exists = pos 6

abbrev pub code_permission_denied : Code
code_permission_denied = pos 7

abbrev pub code_resource_exhausted : Code
code_resource_exhausted = pos 8

abbrev pub code_failed_precondition : Code
code_failed_precondition = pos 9

abbrev pub code_aborted : Code
code_aborted = pos 10

abbrev pub code_out_of_range : Code
code_out_of_range = pos 11

abbrev pub code_unimplemented : Code
code_unimplemented = pos 12

abbrev pub code_internal : Code
code_internal = pos 13

abbrev pub code_unavailable : Code
code_unavailable = pos 14

abbrev pub code_data_loss : Code
code_data_loss = pos 15

abbrev pub code_unauthenticated : Code
code_unauthenticated = pos 16

-- `Code.String`
unfoldable pub string : Code → Text
string c =
    if c ==ℤ code_ok
    then codes "ok"
    else if c ==ℤ code_canceled
    then codes "canceled"
    else if c ==ℤ code_unknown
    then codes "unknown"
    else if c ==ℤ code_invalid_argument
    then codes "invalid_argument"
    else if c ==ℤ code_deadline_exceeded
    then codes "deadline_exceeded"
    else if c ==ℤ code_not_found
    then codes "not_found"
    else if c ==ℤ code_already_exists
    then codes "already_exists"
    else if c ==ℤ code_permission_denied
    then codes "permission_denied"
    else if c ==ℤ code_resource_exhausted
    then codes "resource_exhausted"
    else if c ==ℤ code_failed_precondition
    then codes "failed_precondition"
    else if c ==ℤ code_aborted
    then codes "aborted"
    else if c ==ℤ code_out_of_range
    then codes "out_of_range"
    else if c ==ℤ code_unimplemented
    then codes "unimplemented"
    else if c ==ℤ code_internal
    then codes "internal"
    else if c ==ℤ code_unavailable
    then codes "unavailable"
    else if c ==ℤ code_data_loss
    then codes "data_loss"
    else if c ==ℤ code_unauthenticated
    then codes "unauthenticated"
    else codes "unknown"

-- `Code.HTTPStatus`
unfoldable pub http_status : Code → ℕ
http_status c =
    if c ==ℤ code_ok
    then 200
    else if c ==ℤ code_canceled
    then 499
    else if c ==ℤ code_unknown
    then 500
    else if c ==ℤ code_invalid_argument
    then 400
    else if c ==ℤ code_deadline_exceeded
    then 504
    else if c ==ℤ code_not_found
    then 404
    else if c ==ℤ code_already_exists
    then 409
    else if c ==ℤ code_permission_denied
    then 403
    else if c ==ℤ code_resource_exhausted
    then 429
    else if c ==ℤ code_failed_precondition
    then 400
    else if c ==ℤ code_aborted
    then 409
    else if c ==ℤ code_out_of_range
    then 400
    else if c ==ℤ code_unimplemented
    then 501
    else if c ==ℤ code_internal
    then 500
    else if c ==ℤ code_unavailable
    then 503
    else if c ==ℤ code_data_loss
    then 500
    else if c ==ℤ code_unauthenticated
    then 401
    else 500

-- The loop that fills `codeNames`, from the code `c` on, `n` rounds.
unfoldable pub fill_names : ℕ → ℕ → List (Text × Code) → List (Text × Code)
fill_names zero c m = m
fill_names (suc n) c m = fill_names n (c + 1) (insert (string (pos c)) (pos c) m)

-- `codeNames`
unfoldable pub code_names : List (Text × Code)
unfolding fill_names string
code_names = fill_names 17 0 []

-- `CodeFromString`
unfoldable pub code_from_string : Text → Option Code
unfolding code_names
code_from_string s = lookup s code_names

-- `CodeFromHTTPStatus`
unfoldable pub code_from_http_status : ℕ → Code
code_from_http_status status =
    if status == 200
    then code_ok
    else if status == 499
    then code_canceled
    else if status == 400
    then code_invalid_argument
    else if status == 504
    then code_deadline_exceeded
    else if status == 404
    then code_not_found
    else if status == 409
    then code_aborted
    else if status == 403
    then code_permission_denied
    else if status == 429
    then code_resource_exhausted
    else if status == 501
    then code_unimplemented
    else if status == 500
    then code_internal
    else if status == 503
    then code_unavailable
    else if status == 401
    then code_unauthenticated
    else code_unknown
