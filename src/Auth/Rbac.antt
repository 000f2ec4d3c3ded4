-- ===== src/Auth/Rbac.antt =====
-- auth/rbac/policy.go: policies, principals and permissions, and when they match a request.
-- The address functions of package net are a parameter. strings.EqualFold is on ASCII.

pub mod Laws
pub mod Watcher
use zara_rpc.Common.{
  equal_fold, ℕ, ◌+◌, Bool, true, false, not, ◌&&◌, ◌||◌, Option, none, some, List, [], ◌∷◌, map,
  Text, text_eq, has_prefix, is_empty, any, lookup, leb, if◌then◌else◌,
}

-- A claim as JSON gives it: a string, an array (`none` for an element that is no string), or
-- something else.
pub data ClaimValue : Type 0 where
  string : Text → ClaimValue
  array : List (Option Text) → ClaimValue
  other : ClaimValue

-- `jwt.Claims`, as far as a policy reads it.
pub record Claims : Type 0 where
  pub subject : Text
  pub custom : List (Text × ClaimValue)

-- What a policy reads of a `runtime.Ctx`.
pub record Ctx : Type 0 where
  pub claims : Option Claims
  pub peer_addr : Text
  pub header : List (Text × List Text)
  pub procedure : Text

-- net.ParseCIDR, net.SplitHostPort (the host), net.ParseIP and IPNet.Contains.
pub record Net : Type 1 where
  pub Network : Type 0
  pub Ip : Type 0
  pub parse_cidr : Text → Option Network
  pub split_host : Text → Option Text
  pub parse_ip : Text → Option Ip
  pub within : Network → Ip → Bool

pub record Authenticated : Type 0 where
  pub principal_name : Text
  pub claim : Text
  pub value : Text

pub record HeaderMatch : Type 0 where
  pub name : Text
  pub value : Text

pub record PathMatch : Type 0 where
  pub exact : Text
  pub prefix : Text

-- The fields in the order authenticated, source_ip, header, any, not, and_ids, or_ids.
mutual
  pub data Principal : Type 0 where
    principal :
        Option Authenticated
        → Option Text
        → Option HeaderMatch
        → Bool
        → MaybePrincipal
        → Principals
        → Principals
        → Principal

  pub data MaybePrincipal : Type 0 where
    absent : MaybePrincipal
    present : Principal → MaybePrincipal

  pub data Principals : Type 0 where
    nil : Principals
    cons : Principal → Principals → Principals

-- The fields in the order requested_path, header, any, not, and_permissions, or_permissions.
mutual
  pub data Permission : Type 0 where
    permission :
        Option PathMatch
        → Option HeaderMatch
        → Bool
        → MaybePermission
        → Permissions
        → Permissions
        → Permission

  pub data MaybePermission : Type 0 where
    absent : MaybePermission
    present : Permission → MaybePermission

  pub data Permissions : Type 0 where
    nil : Permissions
    cons : Permission → Permissions → Permissions

pub record Rule : Type 0 where
  pub name : Text
  pub principals : List Principal
  pub permissions : List Permission

pub record Policy : Type 0 where
  pub name : Text
  pub allow_rules : List Rule
  pub deny_rules : List Rule

-- `headerEquals`
unfoldable pub header_equals : Ctx → Text → Text → Bool
header_equals ctx name want =
    any (λ e. equal_fold e.0 name && any (λ v. text_eq v want) e.1) ctx.header

abbrev pub string_is : Text → Option Text → Bool
string_is want none = false
string_is want (some s) = text_eq s want

abbrev pub claim_is : Text → Option ClaimValue → Bool
claim_is want none = false
claim_is want (some (ClaimValue.string t)) = text_eq t want
claim_is want (some (ClaimValue.array xs)) = any (string_is want) xs
claim_is want (some ClaimValue.other) = false

-- `claimEquals`
unfoldable pub claim_equals : Claims → Text → Text → Bool
claim_equals claims name want = claim_is want (lookup name claims.custom)

unfoldable pub authenticated_matches : Authenticated → Option Claims → Bool
unfolding claim_equals
authenticated_matches a none = false
authenticated_matches a (some claims) =
    if not (is_empty a.principal_name)
    then text_eq claims.subject a.principal_name
    else if not (is_empty a.claim)
    then claim_equals claims a.claim a.value
    else false

unfoldable pub path_matches : PathMatch → Text → Bool
path_matches m path =
    if not (is_empty m.exact)
    then text_eq path m.exact
    else if not (is_empty m.prefix)
    then has_prefix path m.prefix
    else false

-- `len(…) == 0`
abbrev pub none_of {ℓ} : {A : Type ℓ} → List A → Bool
none_of [] = true
none_of (x ∷ xs) = false

module _ (net : Net) (ctx : Ctx) where
  open net use {parse_cidr, split_host, parse_ip, within}

  unfoldable pub source_ip_matches : Text → Bool
  source_ip_matches address = elim (parse_cidr address) [
    | none ↦ false
    | some cidr ↦ elim (split_host ctx.peer_addr) [
      | none ↦ false
      | some host ↦ elim (parse_ip host) [ none ↦ false | some ip ↦ within cidr ip ]
    ]
  ]

  -- `Principal.matches`; the loops over `and_ids` and `or_ids` are functions of their own.
  unfoldable mutual
    unfolding authenticated_matches source_ip_matches header_equals

    pub principal_matches : Principal → Bool
    principal_matches (principal (some a) ip h all n ands ors) = authenticated_matches a ctx.claims
    principal_matches (principal none (some address) h all n ands ors) = source_ip_matches address
    principal_matches (principal none none (some h) all n ands ors) =
        header_equals ctx h.name h.value
    principal_matches (principal none none none true n ands ors) = true
    principal_matches (principal none none none false (MaybePrincipal.present p) ands ors) =
        not (principal_matches p)
    principal_matches
          (principal none none none false MaybePrincipal.absent (Principals.cons p ps) ors) =
        principal_matches p && all_principals ps
    principal_matches (principal none none none false MaybePrincipal.absent Principals.nil ors) =
        any_principal ors

    pub all_principals : Principals → Bool
    all_principals Principals.nil = true
    all_principals (Principals.cons p ps) = principal_matches p && all_principals ps

    pub any_principal : Principals → Bool
    any_principal Principals.nil = false
    any_principal (Principals.cons p ps) = principal_matches p || any_principal ps

  -- `Permission.matches`
  unfoldable mutual
    unfolding path_matches header_equals

    pub permission_matches : Permission → Bool
    permission_matches (permission (some m) h all n ands ors) = path_matches m ctx.procedure
    permission_matches (permission none (some h) all n ands ors) = header_equals ctx h.name h.value
    permission_matches (permission none none true n ands ors) = true
    permission_matches (permission none none false (MaybePermission.present p) ands ors) =
        not (permission_matches p)
    permission_matches
          (permission none none false MaybePermission.absent (Permissions.cons p ps) ors) =
        permission_matches p && all_permissions ps
    permission_matches (permission none none false MaybePermission.absent Permissions.nil ors) =
        any_permission ors

    pub all_permissions : Permissions → Bool
    all_permissions Permissions.nil = true
    all_permissions (Permissions.cons p ps) = permission_matches p && all_permissions ps

    pub any_permission : Permissions → Bool
    any_permission Permissions.nil = false
    any_permission (Permissions.cons p ps) = permission_matches p || any_permission ps

  -- `Rule.matches`
  unfoldable pub rule_matches : Rule → Bool
  rule_matches r =
      if none_of r.principals || none_of r.permissions
      then false
      else if any principal_matches r.principals
      then any permission_matches r.permissions
      else false

  -- `Policy.isAuthorized`
  unfoldable pub is_authorized : Policy → Bool
  unfolding rule_matches
  is_authorized p = if any rule_matches p.deny_rules then false else any rule_matches p.allow_rules
