-- ===== src/Routing/Tree/AddsLiteral.antt =====
-- What `addLiteralChild` of routing/route_tree.go does to the routes: splitting a node keeps them.
use zara_rpc.Common.{
  ℕ, zero, suc, ◌≤◌, ◌<◌, ◌≡◌, refl, sym, ap, ◌∙◌, inl, inr, ◌≢◌, List, [], ◌∷◌, ◌++◌, Text,
  append_assoc, arith, subst, Bool-cases, Option-cases, take, drop, length, length-drop,
  take-append-drop, some, true, false, ◌==◌, ==_iff,
}
use zara_rpc.Routing.Tree.{Label, Node, Nodes, node, nil, cons}
use zara_rpc.Routing.Tree.Insert.{
  common_prefix_len, descend, update_shared, add_literal, add_literal_child,
}
use zara_rpc.Routing.Tree.Routes.{
  Atom, bytes, Route, here, below, first, later, routes_at, routes_in, Extends, Extends-node,
  Extends-first, Extends-later, Extends-from,
}
use zara_rpc.Routing.Tree.Adds.{AddsAt, bytes-append, insert_literal-Extends}

common_prefix_len-le :
    (a b : Text) → (common_prefix_len a b ≤ length a) × (common_prefix_len a b ≤ length b)
unfolding common_prefix_len
common_prefix_len-le [] b = omega arith
common_prefix_len-le (c ∷ a) [] = omega arith
common_prefix_len-le (c ∷ a) (d ∷ b) = ground (arith, common_prefix_len-le a b)

take-common_prefix_len :
    (a b : Text) → take (common_prefix_len a b) a ≡ take (common_prefix_len a b) b
unfolding common_prefix_len
take-common_prefix_len [] b = ground arith
take-common_prefix_len (c ∷ a) [] = refl
take-common_prefix_len (c ∷ a) (d ∷ b) = ground (arith, take-common_prefix_len a b)

take-length {ℓ} : {A : Type ℓ} (xs : List A) → take (length xs) xs ≡ xs
take-length [] = refl
take-length (x ∷ xs) = ap (◌∷◌ x) (take-length xs)

-- The steps of a text, cut after `n` bytes.
bytes-cut : (n : ℕ) (t : Text) → bytes (take n t) ++ bytes (drop n t) ≡ bytes t
bytes-cut n t = sym (bytes-append (take n t) (drop n t)) ∙ ap bytes (take-append-drop n t)

module _ {H : Type 0} (n : ℕ) (q : Text) (ts : List (Text × H)) (kids : Nodes H) where
  -- A literal node, and the same node split after `n` bytes.
  abbrev whole : Node H
  whole = node (Label.literal q) ts kids

  abbrev split : Node H
  split = node (Label.literal (take n q)) [] (cons (node (Label.literal (drop n q)) ts kids) nil)

  split-keep : (key : List Atom) (v : Text) (h : H) → Route v h whole key → Route v h split key
  split-keep key v h (here e m) =
      below (bytes (drop n q)) (e ∙ sym (bytes-cut n q)) (first (here refl m))
  split-keep key v h (below rest e r) =
      below (bytes (drop n q) ++ rest)
        (e
          ∙ ap (λ t. t ++ rest) (sym (bytes-cut n q))
          ∙ append_assoc (bytes (take n q)) (bytes (drop n q)) rest)
        (first (below rest refl r))

  split-only : (key : List Atom) (v : Text) (h : H) → Route v h split key → Route v h whole key
  split-only key v h (here e m) = elim m [ ]
  split-only key v h (below rest e (later r)) = elim r [ ]
  split-only key v h (below rest e (first (here e' m))) =
      here (e ∙ ap (λ t. bytes (take n q) ++ t) e' ∙ bytes-cut n q) m
  split-only key v h (below rest e (first (below rest' e' r))) =
      below rest'
        (e
          ∙ ap (λ t. bytes (take n q) ++ t) e'
          ∙ sym (append_assoc (bytes (take n q)) (bytes (drop n q)) rest')
          ∙ ap (λ t. t ++ rest') (bytes-cut n q))
        r

-- Cutting at the whole length.
take-eq_self : (n : ℕ) (t : Text) → (n == length t) ≡ true → take n t ≡ t
take-eq_self n t h = rw ((==_iff n (length t)).0 h) (take-length t)

drop-ne-nil : (n : ℕ) (t : Text) → (n == length t) ≡ false → n ≤ length t → drop n t ≢ []
drop-ne-nil zero [] h le = ground arith
drop-ne-nil (suc n) [] h le = omega arith
drop-ne-nil zero (c ∷ t) h le = λ e. cc
drop-ne-nil (suc n) (c ∷ t) h le = drop-ne-nil n t (ground arith) (omega arith)

module _ {H : Type 0} (k : Node H → Node H) (s : List Atom) (v0 : Text) (h0 : H)
    (a : AddsAt k s v0 h0) (f : ℕ) (rec : Text → Node H → Node H)
    (r : (p : Text) → p ≢ [] → length p ≤ f → AddsAt (rec p) (bytes p ++ s) v0 h0) where
  -- The steps of `prefix`, first those that it shares with the child.
  join-steps :
      (n : ℕ) (p prefix : Text)
      → p ≡ take n prefix
      → bytes p ++ (bytes (drop n prefix) ++ s) ≡ bytes prefix ++ s
  join-steps n p prefix e =
      sym (append_assoc (bytes p) (bytes (drop n prefix)) s)
      ∙ ap (λ t. (bytes t ++ bytes (drop n prefix)) ++ s) e
      ∙ ap (λ t. t ++ s) (bytes-cut n prefix)

  descend-Extends :
      (prefix : Text) (n : ℕ) (q : Text) (ts : List (Text × H)) (kids : Nodes H)
      → 0 < n
      → n ≤ length q
      → n ≤ length prefix
      → length prefix ≤ suc f
      → take n q ≡ take n prefix
      → Extends
          (routes_at (node (Label.literal q) ts kids))
          (routes_at (descend rec k prefix n q ts kids))
          (bytes prefix ++ s)
          v0
          h0
  unfolding descend
  descend-Extends prefix n q ts kids pos le_q le_p small e = elim (Bool-cases (n == length q)) [
    | inl hq ↦ elim (Bool-cases (n == length prefix)) [
      | inl hp ↦
          rw (hq, hp)
            (subst
              (λ t.
                Extends (routes_at (whole n q ts kids)) (routes_at (k (whole n q ts kids)))
                  (bytes t ++ s) v0 h0)
              (sym (take-eq_self n q hq) ∙ e ∙ take-eq_self n prefix hp) (a (whole n q ts kids)))
      | inr hp ↦
          rw (hq, hp)
            (subst
              (λ t.
                Extends (routes_at (whole n q ts kids))
                  (routes_at (rec (drop n prefix) (whole n q ts kids))) t v0 h0)
              (join-steps n q prefix (sym (take-eq_self n q hq) ∙ e))
              (r (drop n prefix) (drop-ne-nil n prefix hp le_p)
                (omega (arith, length-drop n prefix)) (whole n q ts kids)))
    ]
    | inr hq ↦ elim (Bool-cases (n == length prefix)) [
      | inl hp ↦
          rw (hq, hp)
            (Extends-from (split-keep n q ts kids) (split-only n q ts kids) (
              subst
                (λ t.
                  Extends (routes_at (split n q ts kids)) (routes_at (k (split n q ts kids)))
                    (bytes t ++ s) v0 h0)
                (e ∙ take-eq_self n prefix hp) (a (split n q ts kids))))
      | inr hp ↦
          rw (hq, hp)
            (Extends-from (split-keep n q ts kids) (split-only n q ts kids) (
              subst
                (λ t.
                  Extends (routes_at (split n q ts kids))
                    (routes_at (rec (drop n prefix) (split n q ts kids))) t v0 h0)
                (join-steps n (take n q) prefix e)
                (r (drop n prefix) (drop-ne-nil n prefix hp le_p)
                  (omega (arith, length-drop n prefix)) (split n q ts kids))))
    ]
  ]

  update_shared-Extends :
      (prefix : Text) (cs cs' : Nodes H)
      → length prefix ≤ suc f
      → update_shared rec k prefix cs ≡ some cs'
      → Extends (routes_in cs) (routes_in cs') (bytes prefix ++ s) v0 h0
  unfolding update_shared
  update_shared-Extends prefix nil cs' small e = cc
  update_shared-Extends prefix (cons (node (Label.literal q) ts kids) cs) cs' small e =
      elim (Bool-cases (common_prefix_len q prefix == 0)) [
        | inl none_shared ↦ elim (Option-cases (update_shared rec k prefix cs)) [
          | inl missing ↦ absurd (cc (rw (none_shared, missing) at e))
          | inr (rest, found) ↦
              let same : cons (node (Label.literal q) ts kids) rest ≡ cs' =
                ground (arith, none_shared, found) in
              rw (← same) (
                Extends-later (node (Label.literal q) ts kids)
                  (update_shared-Extends prefix cs rest small found))
        ]
        | inr shared ↦
            let same : cons (descend rec k prefix (common_prefix_len q prefix) q ts kids) cs ≡ cs' =
              ground (arith, shared) in
            let (le_q, le_p) = common_prefix_len-le q prefix in
            rw (← same) (
              Extends-first cs (
                descend-Extends prefix (common_prefix_len q prefix) q ts kids
                  (ground (arith, shared)) le_q le_p small (take-common_prefix_len q prefix)))
      ]
  update_shared-Extends prefix (cons (node (Label.param m) ts kids) cs) cs' small e =
      elim (Option-cases (update_shared rec k prefix cs)) [
        | inl missing ↦ absurd (cc (rw missing at e))
        | inr (rest, found) ↦
            let same : cons (node (Label.param m) ts kids) rest ≡ cs' = ground (arith, found) in
            rw (← same) (
              Extends-later (node (Label.param m) ts kids)
                (update_shared-Extends prefix cs rest small found))
      ]
  update_shared-Extends prefix (cons (node (Label.resource m x) ts kids) cs) cs' small e =
      elim (Option-cases (update_shared rec k prefix cs)) [
        | inl missing ↦ absurd (cc (rw missing at e))
        | inr (rest, found) ↦
            let same : cons (node (Label.resource m x) ts kids) rest ≡ cs' =
              ground (arith, found) in
            rw (← same) (
              Extends-later (node (Label.resource m x) ts kids)
                (update_shared-Extends prefix cs rest small found))
      ]

module _ {H : Type 0} (k : Node H → Node H) (s : List Atom) (v0 : Text) (h0 : H)
    (a : AddsAt k s v0 h0) where
  -- The fuel is enough for every non-empty prefix that is no longer.
  add_literal-AddsAt :
      (f : ℕ) (prefix : Text)
      → prefix ≢ []
      → length prefix ≤ f
      → AddsAt (add_literal f k prefix) (bytes prefix ++ s) v0 h0
  unfolding add_literal
  add_literal-AddsAt zero [] ne le n = absurd (ne refl)
  add_literal-AddsAt zero (c ∷ prefix) ne le n = absurd (omega arith)
  add_literal-AddsAt (suc f) prefix ne le (node l ts cs) =
      elim (Option-cases (update_shared (add_literal f k) k prefix cs)) [
        | inl missing ↦ rw missing (
            Extends-node l ts (
              insert_literal-Extends (Label.literal prefix) (k (node (Label.literal prefix) [] nil))
                (bytes prefix ++ s) v0 h0 cs (a (node (Label.literal prefix) [] nil))))
        | inr (cs', found) ↦ rw found (
            Extends-node l ts (
              update_shared-Extends k s v0 h0 a f (add_literal f k)
                (λ p pn ple. add_literal-AddsAt f p pn ple) prefix cs cs' le found))
      ]

  pub add_literal_child-AddsAt :
      (prefix : Text) → prefix ≢ [] → AddsAt (add_literal_child prefix k) (bytes prefix ++ s) v0 h0
  unfolding add_literal_child
  add_literal_child-AddsAt prefix ne n =
      add_literal-AddsAt (length prefix) prefix ne (omega arith) n
