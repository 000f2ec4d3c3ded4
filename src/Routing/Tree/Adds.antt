-- ===== src/Routing/Tree/Adds.antt =====
-- What `insert` of routing/route_tree.go does to the set of routes that the tree holds.
use mathlib.Core.List.Memᴰ as MemD
use mathlib.Core.List.{Memᴰ}
use zara_rpc.Common.{
  and-eq-true_iff, ◌&&◌, ◌≡◌, refl, sym, ap, ◌∙◌, ◌⊎◌, inl, inr, List, [], ◌∷◌, ◌++◌, Text,
  append-nil, arith, subst, text_eq, text_eq_iff, any, Bool-cases, true,
}
use zara_rpc.Routing.Pattern.{ExprSeg}
use zara_rpc.Routing.Tree.{Label, Node, Nodes, node, nil, cons, is_literal}
use zara_rpc.Routing.Tree.Insert.{
  expr_seg_eq, expr_equal, add_terminal, update_param, add_param_child, update_resource,
  add_resource_child, insert_literal,
}
use zara_rpc.Routing.Tree.Routes.{
  Atom, bytes, atoms, label, Route, here, below, IsNew, routes_at, routes_in, Extends, Extends-node,
  Extends-first, Extends-later, Extends-new,
}

expr_seg_eq_sound : (a b : ExprSeg) → expr_seg_eq a b ≡ true → a ≡ b
expr_seg_eq_sound (ExprSeg.literal a) (ExprSeg.literal b) h =
    ap ExprSeg.literal ((text_eq_iff a b).0 h)
expr_seg_eq_sound ExprSeg.wildcard ExprSeg.wildcard h = refl
expr_seg_eq_sound ExprSeg.multi ExprSeg.multi h = refl
expr_seg_eq_sound _ _ h = cc

expr_equal_sound : (a b : List ExprSeg) → expr_equal a b ≡ true → a ≡ b
expr_equal_sound [] [] h = refl
expr_equal_sound (x ∷ a) (y ∷ b) h = ground (arith, expr_seg_eq_sound x y, expr_equal_sound a b)
expr_equal_sound _ _ h = cc

pub bytes-append : (a b : Text) → bytes (a ++ b) ≡ bytes a ++ bytes b
bytes-append [] b = refl
bytes-append (c ∷ a) b = ap (λ t. Atom.byte c ∷ t) (bytes-append a b)

module _ {H : Type 0} where
  -- `k`, done at a node, adds the route that goes on with `s` from there.
  abbrev pub AddsAt : (Node H → Node H) → List Atom → Text → H → Type 0
  AddsAt k s v0 h0 =
      (n : Node H) → Extends (routes_at n) (routes_at (k n)) (atoms (label n) ++ s) v0 h0

  -- A terminal with this verb stands already.
  registered :
      (verb : Text) (ts : List (Text × H))
      → any (λ t. text_eq t.0 verb) ts ≡ true
      → (h : H) × Memᴰ (verb, h) ts
  registered verb [] e = cc
  registered verb ((u, h) ∷ ts) e = elim (Bool-cases (text_eq u verb)) [
    | inl same ↦ (h, Memᴰ.head (ap (λ t. (t, h)) (sym ((text_eq_iff u verb).0 same))))
    | inr other ↦ let (h', m) = registered verb ts (rw other at e) in (h', Memᴰ.tail m)
  ]

  add_terminal-old :
      (verb : Text) (h0 : H) (n : Node H) (l : Label) (ts : List (Text × H)) (cs : Nodes H)
      → any (λ t. text_eq t.0 verb) ts ≡ true
      → Extends (routes_at (node l ts cs)) (routes_at (node l ts cs)) (atoms l ++ []) verb h0
  add_terminal-old verb h0 n l ts cs e =
      let (h, m) = registered verb ts e in
      record {
        keep = λ key v h' r. r;
        only = λ key v h' r. inl r;
        adds = (h, here (append-nil (atoms l)) m);
      }

  add_terminal-new :
      (verb : Text) (h0 : H) (l : Label) (ts : List (Text × H)) (cs : Nodes H)
      → Extends
          (routes_at (node l ts cs))
          (routes_at (node l (ts ++ ((verb, h0) ∷ [])) cs))
          (atoms l ++ [])
          verb
          h0
  add_terminal-new verb h0 l ts cs = record {
    keep = λ key v h r. keeps key v h r;
    only = λ key v h r. onlys key v h r;
    adds = (h0, here (append-nil (atoms l)) (MemD.append_right ts (Memᴰ.head refl)));
  }
    where
      keeps :
          (key : List Atom) (v : Text) (h : H)
          → Route v h (node l ts cs) key
          → Route v h (node l (ts ++ ((verb, h0) ∷ [])) cs) key
      keeps key v h (here e m) = here e (MemD.append_left _ m)
      keeps key v h (below rest e r) = below rest e r

      onlys :
          (key : List Atom) (v : Text) (h : H)
          → Route v h (node l (ts ++ ((verb, h0) ∷ [])) cs) key
          → Route v h (node l ts cs) key ⊎ IsNew (atoms l ++ []) verb h0 key v h
      onlys key v h (below rest e r) = inl (below rest e r)
      onlys key v h (here e m) = elim (MemD.append_cases ts m) [
        | inl old ↦ inl (here e old)
        | inr new ↦
            let same = MemD.eq_of_singleton new in
            inr (e ∙ sym (append-nil (atoms l)), ap (λ t. t.0) same, ap (λ t. t.1) same)
      ]

  pub add_terminal-AddsAt : (verb : Text) (h0 : H) → AddsAt (add_terminal verb h0) [] verb h0
  unfolding add_terminal
  add_terminal-AddsAt verb h0 (node l ts cs) = elim (Bool-cases (any (λ t. text_eq t.0 verb) ts)) [
    | inl e ↦ rw e (add_terminal-old verb h0 (node l ts cs) l ts cs e)
    | inr e ↦ rw e (add_terminal-new verb h0 l ts cs)
  ]

  module _ (k : Node H → Node H) (s : List Atom) (v0 : Text) (h0 : H) (a : AddsAt k s v0 h0) where
    update_param-Extends :
        (name : Text) (cs : Nodes H)
        → Extends (routes_in cs) (routes_in (update_param name k cs)) (Atom.param name ∷ s) v0 h0
    unfolding update_param
    update_param-Extends name nil =
        Extends-new (Label.param name) _ nil (a (node (Label.param name) [] nil))
    update_param-Extends name (cons (node (Label.param m) ts kids) cs) =
        elim (Bool-cases (text_eq m name)) [
          | inl e ↦ rw e (
              subst
                (λ t.
                  Extends (routes_in (cons (node (Label.param m) ts kids) cs))
                    (routes_in (cons (k (node (Label.param m) ts kids)) cs)) (Atom.param t ∷ s) v0
                    h0)
                ((text_eq_iff m name).0 e) (Extends-first cs (a (node (Label.param m) ts kids))))
          | inr e ↦
              rw e (Extends-later (node (Label.param m) ts kids) (update_param-Extends name cs))
        ]
    update_param-Extends name (cons (node (Label.literal q) ts kids) cs) =
        Extends-later (node (Label.literal q) ts kids) (update_param-Extends name cs)
    update_param-Extends name (cons (node (Label.resource m e) ts kids) cs) =
        Extends-later (node (Label.resource m e) ts kids) (update_param-Extends name cs)

    pub add_param_child-AddsAt :
        (name : Text) → AddsAt (add_param_child name k) (Atom.param name ∷ s) v0 h0
    unfolding add_param_child
    add_param_child-AddsAt name (node l ts cs) = Extends-node l ts (update_param-Extends name cs)

    update_resource-Extends :
        (name : Text) (expr : List ExprSeg) (cs : Nodes H)
        → Extends
            (routes_in cs)
            (routes_in (update_resource name expr k cs))
            (Atom.resource name expr ∷ s)
            v0
            h0
    unfolding update_resource
    update_resource-Extends name expr nil =
        Extends-new (Label.resource name expr) _ nil (a (node (Label.resource name expr) [] nil))
    update_resource-Extends name expr (cons (node (Label.resource m e) ts kids) cs) =
        elim (Bool-cases (text_eq m name && expr_equal e expr)) [
          | inl h ↦
              let (h1, h2) = (and-eq-true_iff (text_eq m name) (expr_equal e expr)).0 h in
              rw h (
                rw (sym ((text_eq_iff m name).0 h1), sym (expr_equal_sound e expr h2))
                  (Extends-first cs (a (node (Label.resource m e) ts kids))))
          | inr h ↦ rw h (
              Extends-later (node (Label.resource m e) ts kids)
                (update_resource-Extends name expr cs))
        ]
    update_resource-Extends name expr (cons (node (Label.literal q) ts kids) cs) =
        Extends-later (node (Label.literal q) ts kids) (update_resource-Extends name expr cs)
    update_resource-Extends name expr (cons (node (Label.param m) ts kids) cs) =
        Extends-later (node (Label.param m) ts kids) (update_resource-Extends name expr cs)

    pub add_resource_child-AddsAt :
        (name : Text) (expr : List ExprSeg)
        → AddsAt (add_resource_child name expr k) (Atom.resource name expr ∷ s) v0 h0
    unfolding add_resource_child
    add_resource_child-AddsAt name expr (node l ts cs) =
        Extends-node l ts (update_resource-Extends name expr cs)

  pub insert_literal-Extends :
      (l : Label) (new : Node H) (s : List Atom) (v0 : Text) (h0 : H) (cs : Nodes H)
      → Extends (routes_at (node l [] nil)) (routes_at new) s v0 h0
      → Extends (routes_in cs) (routes_in (insert_literal new cs)) s v0 h0
  unfolding insert_literal
  insert_literal-Extends l new s v0 h0 nil x = Extends-new l new nil x
  insert_literal-Extends l new s v0 h0 (cons c cs) x = elim (Bool-cases (is_literal c)) [
    | inl e ↦ rw e (Extends-later c (insert_literal-Extends l new s v0 h0 cs x))
    | inr e ↦ rw e (Extends-new l new (cons c cs) x)
  ]
