-- ===== src/Examples/Auths.antt =====
-- Policies, their reload and the interceptors of auth/ at concrete inputs.
use zara_rpc.Common.{
  ℕ, ◌≡◌, ◌↔◌, refl, Bool, true, false, Option, none, some, [], ◌∷◌, Text, codes, text_eq, Any,
  if◌then◌else◌,
}
use zara_rpc.Common.Result.{ok}
use zara_rpc.Codes.{code_permission_denied}
use zara_rpc.Middleware.{chain_interceptors}
use zara_rpc.Auth.Rbac.{
  Claims, ClaimValue, Ctx, Net, Principal, MaybePrincipal, Principals, principal, Permission,
  MaybePermission, Permissions, permission, Policy, is_authorized,
}
use zara_rpc.Auth.Rbac.Laws.{Applies, is_authorized_iff}
use zara_rpc.Auth.Rbac.Watcher.{
  FileWatcherOptions, Watcher, parse_policy, reload, store, run, latest, new_file_watcher,
  run-latest, new_file_watcher-empty_file, watcher_is_authorized,
}
use zara_rpc.Auth.Interceptor.{
  Call, JwtValidator, UnaryFunc, validate, with_claims, public_unary, jwt_unary, rbac_unary,
  transport, failure, wrap_jwt, wrap_rbac,
}
use zara_rpc.Auth.Interceptor.Laws.{
  admit, authenticate, handle, stream_failure, chain_interceptors-admit,
  chain_interceptors-wrap_jwt, chain_interceptors-wrap_rbac,
}

-- A network with one address.
abbrev net : Net
net = record {
  Network = Text;
  Ip = Text;
  parse_cidr = λ t. some t;
  split_host = λ t. some t;
  parse_ip = λ t. some t;
  within = λ n i. text_eq n i;
}

abbrev anonymous : Ctx
anonymous = record {
  claims = none;
  peer_addr = codes "10.0.0.1";
  header = [];
  procedure = codes "/users/Get";
}

abbrev admin : Claims
admin = record {
  subject = codes "users/1";
  custom = (codes "role", ClaimValue.string (codes "admin")) ∷ [];
}

abbrev is_admin : Principal
is_admin =
    principal (some (record { principal_name = []; claim = codes "role"; value = codes "admin" }))
      none none false MaybePrincipal.absent Principals.nil Principals.nil

abbrev anything : Permission
anything = permission none none true MaybePermission.absent Permissions.nil Permissions.nil

abbrev policy : Policy
policy = record {
  name = codes "p";
  allow_rules =
      record { name = codes "admins"; principals = is_admin ∷ []; permissions = anything ∷ [] }
      ∷ [];
  deny_rules = [];
}

is_authorized_iff_example : (is_authorized net anonymous policy ≡ true) ↔ (
    (¬ Any (Applies net anonymous) policy.deny_rules)
    × Any (Applies net anonymous) policy.allow_rules)
is_authorized_iff_example = is_authorized_iff net anonymous policy

-- A decoder that reads one document.
abbrev decode : Text → Option Policy
decode json = if text_eq json (codes "{p}") then some policy else none

abbrev options : FileWatcherOptions
options = record { policy_file = codes "policy.json"; refresh_is_positive = true }

abbrev watcher : Watcher
watcher = record { current = some policy; last = codes "{p}"; updates = codes "{p}" ∷ [] }

run-latest_example :
    (p : Policy) × (parse_policy decode (codes "{p}") ≡ ok p)
    × ((run decode watcher (none ∷ some (codes "{") ∷ [])).current
        ≡ some (latest decode p (none ∷ some (codes "{") ∷ [])))
unfolding new_file_watcher reload store parse_policy
run-latest_example =
    run-latest decode options (codes "{p}") watcher (none ∷ some (codes "{") ∷ []) (λ e. cc) refl

new_file_watcher-empty_file_example :
    (w : Watcher) × (new_file_watcher decode options (some []) ≡ ok w)
    × (watcher_is_authorized decode net anonymous w ≡ none)
new_file_watcher-empty_file_example =
    new_file_watcher-empty_file decode options net anonymous refl refl

-- A validator that takes one token, from every call.
abbrev validator : JwtValidator
validator = record {
  parse = λ t.
      if text_eq t (codes "t")
      then some (record { claims = admin; issuer = []; audience = [] }, true)
      else none;
  issuer = [];
  audience = [];
  extract = λ c. some (codes "t");
}

abbrev call : Call
call = record { ctx = anonymous; is_public = false }

abbrev never_public : Call → Bool
never_public c = false

abbrev handler : UnaryFunc ℕ ℕ
handler c n = ok n

chain_interceptors-admit_example :
    chain_interceptors
      (public_unary never_public
        ∷ jwt_unary validator
        ∷ rbac_unary (λ c. is_authorized net c policy)
        ∷ [])
      handler
      call
      5
    ≡ handle handler 5 (admit never_public validator (λ c. is_authorized net c policy) call)
chain_interceptors-admit_example =
    chain_interceptors-admit never_public validator (λ c. is_authorized net c policy) handler call 5

-- The policy accepts the claims of the token, but the stream is denied.
chain_interceptors-wrap_jwt_example :
    failure (
      chain_interceptors
        (wrap_jwt validator ∷ wrap_rbac (λ c. is_authorized net c policy) ∷ [])
        (transport call))
    ≡ (if is_authorized net anonymous policy then none else some code_permission_denied)
unfolding authenticate validate
chain_interceptors-wrap_jwt_example =
    chain_interceptors-wrap_jwt validator (λ c. is_authorized net c policy) call
      (with_claims call admin) refl refl

chain_interceptors-wrap_rbac_example :
    failure (
      chain_interceptors
        (wrap_rbac (λ c. is_authorized net c policy) ∷ wrap_jwt validator ∷ [])
        (transport call))
    ≡ stream_failure validator (λ c. is_authorized net c policy) call
chain_interceptors-wrap_rbac_example =
    chain_interceptors-wrap_rbac validator (λ c. is_authorized net c policy) call
