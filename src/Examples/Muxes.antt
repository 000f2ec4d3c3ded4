-- ===== src/Examples/Muxes.antt =====
-- A mux of two operations, and of a duplicate, at concrete requests.
use zara_rpc.Common.{
  ℕ, ◌≡◌, ◌≢◌, ◌↔◌, refl, true, false, none, some, List, [], ◌∷◌, Text, codes, text_eq_iff,
}
use zara_rpc.Common.Result.{ok}
use zara_rpc.Routing.Pattern.Parse.{parse_pattern}
use zara_rpc.Routing.Pattern.Match.{segment_of, skip_slashes, after_segment}
use zara_rpc.Routing.Tree.Insert
use zara_rpc.Routing.Tree.Lookup.{
  lookup_tree, match_terminal, match_capture, strip_trailing_slashes,
}
use zara_rpc.Routing.Mux.{
  Mux, Operation, Service, Response, new_mux, register_operation, register, serve, is_some,
  text_mem, join,
}
use zara_rpc.Routing.Mux.Methods.{IsSorted, IsDistinct}
use zara_rpc.Routing.Mux.Serving.{IsWellFormed, answer, serve-not_allowed, serve-unrouted_iff}
use zara_rpc.Routing.Mux.Registering.{register-IsWellFormed, new_mux-IsWellFormed}
use zara_rpc.Routing.Mux.Services.{first_exact, register-answer}
use zara_rpc.Routing.Mux.Answers.{
  exact_first, register_operation-answer, register_operation-other_method,
  register_operation-duplicate,
}

abbrev empty : Mux ℕ ℕ
empty = new_mux (some 404)

abbrev get_user : Operation ℕ
get_user = record { method = codes "GET"; path = codes "/users/{id}"; is_bidi = false; handler = 1 }

abbrev list_users : Operation ℕ
list_users = record { method = codes "PUT"; path = codes "/users"; is_bidi = false; handler = 2 }

abbrev list_users_again : Operation ℕ
list_users_again = record {
  method = codes "PUT";
  path = codes "/users";
  is_bidi = false;
  handler = 3;
}

abbrev chat : Operation ℕ
chat = record { method = codes "POST"; path = codes "/users"; is_bidi = true; handler = 4 }

abbrev users : Service ℕ
users = record { prefix = codes "/v1"; operations = get_user ∷ list_users ∷ chat ∷ [] }

abbrev mux : Mux ℕ ℕ
mux = (register users empty).0

mux-IsWellFormed : IsWellFormed mux
mux-IsWellFormed = register-IsWellFormed users empty (new_mux-IsWellFormed (some 404))

-- The service once more, with another handler in front, on a mux that has it.
abbrev again : Service ℕ
again = record { prefix = codes "/v1"; operations = list_users_again ∷ get_user ∷ chat ∷ [] }

register-answer_example :
    answer (register again mux).0 (codes "PUT") (codes "/v1/users") ≡ some (2, none)
unfolding register parse_pattern first_exact
register-answer_example = register-answer again mux (codes "PUT") (codes "/v1/users")

serve-not_allowed_example :
    (ks : List Text) × (codes "GET, PUT" ≡ join ks)
    × IsSorted ks
    × IsDistinct ks
    × (ks ≢ [])
    × (text_mem (codes "POST") ks ≡ false)
    × ((j : Text) → text_mem j ks ≡ is_some (answer mux j (codes "/v1/users")))
unfolding serve register parse_pattern lookup_tree Insert.insert match_terminal segment_of
    skip_slashes match_capture strip_trailing_slashes after_segment
serve-not_allowed_example =
    serve-not_allowed mux (codes "POST") (codes "/v1/users") (codes "GET, PUT") mux-IsWellFormed
      refl

serve-unrouted_iff_example :
    (serve mux (codes "GET") (codes "/v2") ≡ Response.unrouted mux.not_found)
    ↔ ((j : Text) → answer mux j (codes "/v2") ≡ none)
serve-unrouted_iff_example = serve-unrouted_iff mux (codes "GET") (codes "/v2") mux-IsWellFormed

serve_unrouted : serve mux (codes "GET") (codes "/v2") ≡ Response.unrouted (some 404)
unfolding serve register parse_pattern lookup_tree Insert.insert match_terminal segment_of
    skip_slashes match_capture strip_trailing_slashes after_segment
serve_unrouted = refl

serve_user :
    serve mux (codes "GET") (codes "/v1/users/7")
    ≡ Response.handled 1 (some ((codes "id", codes "7") ∷ []))
unfolding serve register parse_pattern lookup_tree Insert.insert match_terminal segment_of
    skip_slashes match_capture strip_trailing_slashes after_segment
serve_user = refl

abbrev listed : Mux ℕ ℕ
listed = record {
  exact = (codes "PUT", (codes "/v1/users", 2) ∷ []) ∷ [];
  wildcard = [];
  not_found = some 404;
}

register_operation-answer_example :
    answer listed (codes "PUT") (codes "/v1/users")
    ≡ exact_first true 2 none (answer empty (codes "PUT") (codes "/v1/users"))
unfolding register_operation parse_pattern
register_operation-answer_example =
    register_operation-answer (codes "/v1") list_users empty listed (codes "PUT")
      (codes "/v1/users") refl refl

register_operation-other_method_example :
    answer listed (codes "GET") (codes "/v1/users") ≡ answer empty (codes "GET") (codes "/v1/users")
unfolding register_operation parse_pattern
register_operation-other_method_example =
    register_operation-other_method (codes "/v1") list_users empty listed (codes "GET")
      (codes "/v1/users") (λ e. cc ((text_eq_iff (codes "PUT") (codes "GET")).1 e)) refl

register_operation-duplicate_example :
    (m : Mux ℕ ℕ) × (register_operation (codes "/v1") list_users_again listed ≡ ok m)
    × ((j q : Text) → answer m j q ≡ answer listed j q)
unfolding register_operation parse_pattern
register_operation-duplicate_example =
    register_operation-duplicate (codes "/v1") list_users list_users_again empty listed refl refl
      refl refl
