-- ===== src/Routing/Tree/Routes.antt =====
-- The routes that a radix tree holds, and what it means for a change at a node to add one route.
use mathlib.Core.List.{Memᴰ}
use zara_rpc.Common.{ℕ, ◌≡◌, refl, ap, ◌∙◌, ◌⊎◌, inl, inr, List, [], ◌∷◌, ◌++◌, Text, map}
use zara_rpc.Routing.Pattern.{ExprSeg, Segment, slash}
use zara_rpc.Routing.Tree.{Label, Node, Nodes, node, nil, cons}

-- A step of a route: one byte of a literal, or a capture. Byte by byte, so that splitting a node
-- changes nothing.
pub data Atom : Type 0 where
  byte : ℕ → Atom
  param : Text → Atom
  resource : Text → List ExprSeg → Atom

abbrev pub bytes : Text → List Atom
bytes s = map Atom.byte s

abbrev pub atoms : Label → List Atom
atoms (Label.literal prefix) = bytes prefix
atoms (Label.param name) = Atom.param name ∷ []
atoms (Label.resource name expr) = Atom.resource name expr ∷ []

abbrev pub label : {H : Type 0} → Node H → Label
label (node l ts cs) = l

-- The steps of a list of segments.
abbrev pub route_of : List Segment → List Atom
route_of [] = []
route_of (Segment.literal l ∷ segs) = Atom.byte slash ∷ (bytes l ++ route_of segs)
route_of (Segment.param name ∷ segs) = Atom.param name ∷ route_of segs
route_of (Segment.resource name expr ∷ segs) = Atom.resource name expr ∷ route_of segs

-- A set of routes, to handlers of type `H`.
abbrev pub RouteSet : Type 0 → Type 1
RouteSet H = List Atom → Text → H → Type 0

module _ {H : Type 0} where
  -- The tree holds the handler `h` for the verb `v` behind the steps `key`.
  mutual
    pub data Route (v : Text) (h : H) : Node H → List Atom → Type 0 where
      here :
          {l : Label} {ts : List (Text × H)} {cs : Nodes H} {key : List Atom}
          → key ≡ atoms l
          → Memᴰ (v, h) ts
          → Route v h (node l ts cs) key
      below :
          {l : Label} {ts : List (Text × H)} {cs : Nodes H} {key : List Atom} (rest : List Atom)
          → key ≡ atoms l ++ rest
          → Routes v h cs rest
          → Route v h (node l ts cs) key

    pub data Routes (v : Text) (h : H) : Nodes H → List Atom → Type 0 where
      first :
          {c : Node H} {cs : Nodes H} {key : List Atom}
          → Route v h c key
          → Routes v h (cons c cs) key
      later :
          {c : Node H} {cs : Nodes H} {key : List Atom}
          → Routes v h cs key
          → Routes v h (cons c cs) key

  -- `key`, `v` and `h` are those of the route that is being added.
  abbrev pub IsNew : List Atom → Text → H → List Atom → Text → H → Type 0
  IsNew s v0 h0 key v h = (key ≡ s) × (v ≡ v0) × (h ≡ h0)

  abbrev pub routes_at : Node H → RouteSet H
  routes_at n key v h = Route v h n key

  abbrev pub routes_in : Nodes H → RouteSet H
  routes_in cs key v h = Routes v h cs key

  -- `R'` is `R` with the route `s` to `h0` for `v0`, unless a handler stands there already.
  pub record Extends (R R' : RouteSet H) (s : List Atom) (v0 : Text) (h0 : H) : Type 0 where
    pub keep : (key : List Atom) (v : Text) (h : H) → R key v h → R' key v h
    pub only : (key : List Atom) (v : Text) (h : H) → R' key v h → R key v h ⊎ IsNew s v0 h0 key v h
    pub adds : (h : H) × R' s v0 h

  -- A child that holds no route yet.
  pub no_routes : (l : Label) (key : List Atom) (v : Text) (h : H) → ¬ Route v h (node l [] nil) key
  no_routes l key v h (here e m) = elim m [ ]
  no_routes l key v h (below rest e r) = elim r [ ]

module _ {H : Type 0} {s : List Atom} {v0 : Text} {h0 : H} where
  -- A change of the children, seen at their node.
  pub Extends-node :
      (l : Label) (ts : List (Text × H)) {cs cs' : Nodes H}
      → Extends (routes_in cs) (routes_in cs') s v0 h0
      → Extends (routes_at (node l ts cs)) (routes_at (node l ts cs')) (atoms l ++ s) v0 h0
  Extends-node l ts {cs} {cs'} x = record {
    keep = λ key v h. keeps key v h;
    only = λ key v h. onlys key v h;
    adds = (x.adds.0, below s refl x.adds.1);
  }
    where
      keeps :
          (key : List Atom) (v : Text) (h : H)
          → Route v h (node l ts cs) key
          → Route v h (node l ts cs') key
      keeps key v h (here e m) = here e m
      keeps key v h (below rest e r) = below rest e (x.keep rest v h r)

      onlys :
          (key : List Atom) (v : Text) (h : H)
          → Route v h (node l ts cs') key
          → Route v h (node l ts cs) key ⊎ IsNew (atoms l ++ s) v0 h0 key v h
      onlys key v h (here e m) = inl (here e m)
      onlys key v h (below rest e r) = elim (x.only rest v h r) [
        | inl old ↦ inl (below rest e old)
        | inr (e', ev, eh) ↦ inr (e ∙ ap (λ t. atoms l ++ t) e', ev, eh)
      ]

  -- The first child changes.
  pub Extends-first :
      {c c' : Node H} (cs : Nodes H)
      → Extends (routes_at c) (routes_at c') s v0 h0
      → Extends (routes_in (cons c cs)) (routes_in (cons c' cs)) s v0 h0
  Extends-first {c} {c'} cs x = record {
    keep = λ key v h. keeps key v h;
    only = λ key v h. onlys key v h;
    adds = (x.adds.0, first x.adds.1);
  }
    where
      keeps :
          (key : List Atom) (v : Text) (h : H)
          → Routes v h (cons c cs) key
          → Routes v h (cons c' cs) key
      keeps key v h (first r) = first (x.keep key v h r)
      keeps key v h (later r) = later r

      onlys :
          (key : List Atom) (v : Text) (h : H)
          → Routes v h (cons c' cs) key
          → Routes v h (cons c cs) key ⊎ IsNew s v0 h0 key v h
      onlys key v h (first r) = elim (x.only key v h r) [
        | inl old ↦ inl (first old)
        | inr new ↦ inr new
      ]
      onlys key v h (later r) = inl (later r)

  -- A later child changes.
  pub Extends-later :
      (c : Node H) {cs cs' : Nodes H}
      → Extends (routes_in cs) (routes_in cs') s v0 h0
      → Extends (routes_in (cons c cs)) (routes_in (cons c cs')) s v0 h0
  Extends-later c {cs} {cs'} x = record {
    keep = λ key v h. keeps key v h;
    only = λ key v h. onlys key v h;
    adds = (x.adds.0, later x.adds.1);
  }
    where
      keeps :
          (key : List Atom) (v : Text) (h : H)
          → Routes v h (cons c cs) key
          → Routes v h (cons c cs') key
      keeps key v h (first r) = first r
      keeps key v h (later r) = later (x.keep key v h r)

      onlys :
          (key : List Atom) (v : Text) (h : H)
          → Routes v h (cons c cs') key
          → Routes v h (cons c cs) key ⊎ IsNew s v0 h0 key v h
      onlys key v h (first r) = inl (first r)
      onlys key v h (later r) = elim (x.only key v h r) [
        | inl old ↦ inl (later old)
        | inr new ↦ inr new
      ]

  -- A new child in front, made from an empty one.
  pub Extends-new :
      (l : Label) (c : Node H) (cs : Nodes H)
      → Extends (routes_at (node l [] nil)) (routes_at c) s v0 h0
      → Extends (routes_in cs) (routes_in (cons c cs)) s v0 h0
  Extends-new l c cs x = record {
    keep = λ key v h r. later r;
    only = λ key v h. onlys key v h;
    adds = (x.adds.0, first x.adds.1);
  }
    where
      onlys :
          (key : List Atom) (v : Text) (h : H)
          → Routes v h (cons c cs) key
          → Routes v h cs key ⊎ IsNew s v0 h0 key v h
      onlys key v h (first r) = elim (x.only key v h r) [
        | inl old ↦ absurd (no_routes l key v h old)
        | inr new ↦ inr new
      ]
      onlys key v h (later r) = inl r

  -- The routes that are extended may be replaced by the same ones.
  pub Extends-from :
      {R Q R' : RouteSet H}
      → ((key : List Atom) (v : Text) (h : H) → R key v h → Q key v h)
      → ((key : List Atom) (v : Text) (h : H) → Q key v h → R key v h)
      → Extends Q R' s v0 h0
      → Extends R R' s v0 h0
  Extends-from to from x = record {
    keep = λ key v h r. x.keep key v h (to key v h r);
    only = λ key v h r. elim (x.only key v h r) [
      | inl old ↦ inl (from key v h old)
      | inr new ↦ inr new
    ];
    adds = x.adds;
  }
