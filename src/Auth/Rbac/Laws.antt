-- ===== src/Auth/Rbac/Laws.antt =====
-- What a policy of auth/rbac/policy.go decides.
use zara_rpc.Common.{
  ◌≡◌, refl, ◌↔◌, inl, inr, true, false, not, ◌||◌, none, List, [], ◌∷◌, any, any_iff, Any, arith,
  Bool-cases,
}
use zara_rpc.Auth.Rbac.{
  Permission, none_of, Ctx, Net, Principal, MaybePrincipal, Principals, principal, Rule, Policy,
  principal_matches, all_principals, any_principal, permission_matches, rule_matches, is_authorized,
}

abbrev pub negated : Principal → Principal
negated p = principal none none none false (MaybePrincipal.present p) Principals.nil Principals.nil

abbrev pub all_negated : Principals → Principals
all_negated Principals.nil = Principals.nil
all_negated (Principals.cons p ps) = Principals.cons (negated p) (all_negated ps)

abbrev pub and_ids : Principals → Principal
and_ids ps = principal none none none false MaybePrincipal.absent ps Principals.nil

abbrev pub or_ids : Principals → Principal
or_ids ps = principal none none none false MaybePrincipal.absent Principals.nil ps

module _ (net : Net) (ctx : Ctx) where
  -- A rule applies: one of its principals and one of its permissions match.
  abbrev pub Applies : Rule → Type 0
  Applies r =
      Any (λ p. principal_matches net ctx p ≡ true) r.principals
      × Any (λ p. permission_matches net ctx p ≡ true) r.permissions

  nothing-Applies :
      (r : Rule) → (none_of r.principals || none_of r.permissions) ≡ true → ¬ Applies r
  nothing-Applies r e a = nothing r.principals r.permissions e a
    where
      nothing :
          (ps : List Principal) (qs : List Permission)
          → (none_of ps || none_of qs) ≡ true
          → ¬ (
              Any (λ p. principal_matches net ctx p ≡ true) ps
              × Any (λ p. permission_matches net ctx p ≡ true) qs)
      nothing [] qs e (h, k) = h
      nothing (p ∷ ps) [] e (h, k) = k
      nothing (p ∷ ps) (q ∷ qs) e (h, k) = cc

  rule_matches_iff : (r : Rule) → (rule_matches net ctx r ≡ true) ↔ Applies r
  unfolding rule_matches
  rule_matches_iff r = elim (Bool-cases (none_of r.principals || none_of r.permissions)) [
    | inl e ↦ rw e (λ q. cc, λ a. absurd (nothing-Applies r e a))
    | inr e ↦ elim (Bool-cases (any (principal_matches net ctx) r.principals)) [
      | inl m ↦
          rw (e, m)
            (
              λ q. ((any_iff _ r.principals).0 m, (any_iff _ r.permissions).0 q),
              λ a. (any_iff _ r.permissions).1 a.1,
            )
      | inr m ↦
          rw (e, m) (λ q. cc, λ a. cc ((any_iff (principal_matches net ctx) r.principals).1 a.0))
    ]
  ]

  any-Applies : (rs : List Rule) → (any (rule_matches net ctx) rs ≡ true) ↔ Any Applies rs
  any-Applies [] = ground arith
  any-Applies (r ∷ rs) = ground (arith, rule_matches_iff r, any-Applies rs)

  -- A request is authorized exactly if no deny rule applies to it and some allow rule does.
  pub is_authorized_iff :
      (p : Policy)
      → (is_authorized net ctx p ≡ true)
        ↔ ((¬ Any Applies p.deny_rules) × Any Applies p.allow_rules)
  unfolding is_authorized
  is_authorized_iff p = elim (Bool-cases (any (rule_matches net ctx) p.deny_rules)) [
    | inl e ↦ rw e (λ q. cc, λ (d, a). absurd (d ((any-Applies p.deny_rules).0 e)))
    | inr e ↦ rw e (
      λ q. (λ d. cc ((any-Applies p.deny_rules).1 d), (any-Applies p.allow_rules).0 q),
      λ (d, a). (any-Applies p.allow_rules).1 a,
    )
  ]

  any_principal-all_negated :
      (ps : Principals) → any_principal net ctx (all_negated ps) ≡ not (all_principals net ctx ps)
  unfolding principal_matches
  any_principal-all_negated Principals.nil = refl
  any_principal-all_negated (Principals.cons p ps) = ground (arith, any_principal-all_negated ps)

  -- The negation of a non-empty conjunction of principals matches exactly when the disjunction of
  -- their negations does.
  pub principal_matches-and_ids :
      (p : Principal) (ps : Principals)
      → principal_matches net ctx (negated (and_ids (Principals.cons p ps)))
        ≡ principal_matches net ctx (or_ids (all_negated (Principals.cons p ps)))
  unfolding principal_matches
  principal_matches-and_ids p ps = ground (arith, any_principal-all_negated ps)
