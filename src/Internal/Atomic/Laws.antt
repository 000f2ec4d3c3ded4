-- ===== src/Internal/Atomic/Laws.antt =====
-- internal/xsync/atomic.go: additions that run at once are as if made in turn, and they end.
use zara_rpc.Common.{
  append-nil, ◌≡◌, refl, sym, ap, ◌∙◌, ℕ, ◌+◌, Bool, true, false, List, [], ◌∷◌, ◌++◌, ◌==◌, ==_iff,
  if◌then◌else◌, arith, Bool-cases, inl, inr, append_assoc, subst,
}
use zara_rpc.Internal.Atomic.{
  Position, before_load, loaded, returned, has_returned, Shared, move, swaps, compare_and_swap,
  add_step_at, add_step, run_adds, all_start,
}

swaps-append : (i j : ℕ) (js : List ℕ) → swaps i (js ++ (j ∷ [])) ≡ swaps i js + swaps i (j ∷ [])
swaps-append i j [] = omega arith
swaps-append i j (k ∷ js) = ground (arith, swaps-append i j js)

module _ {V : Type 0} (same_bits : V → V → Bool) (plus : V → V → V) (delta : ℕ → V) where
  -- The additions of goroutines, one after the other.
  abbrev pub add_in_turn : V → List ℕ → V
  add_in_turn v [] = v
  add_in_turn v (i ∷ is) = add_in_turn (plus v (delta i)) is

  add_in_turn-append :
      (v : V) (is : List ℕ) (i : ℕ)
      → add_in_turn v (is ++ (i ∷ [])) ≡ plus (add_in_turn v is) (delta i)
  add_in_turn-append v [] i = refl
  add_in_turn-append v (j ∷ is) i = add_in_turn-append (plus v (delta j)) is i

  -- The result of an addition that stands in the order of the swaps.
  abbrev pub ResultOf : V → List ℕ → ℕ → Position V → Type 0
  ResultOf v order i before_load = Unit
  ResultOf v order i (loaded old) = Unit
  ResultOf v order i (returned result) =
      (front : List ℕ) × (back : List ℕ) × (order ≡ (front ++ (i ∷ [])) ++ back)
      × (result ≡ add_in_turn v (front ++ (i ∷ [])))

  pub record IsSerial (v : V) (s : Shared V) : Type 0 where
    pub value : s.cell ≡ add_in_turn v s.swapped
    pub once : (i : ℕ) → swaps i s.swapped ≡ (if has_returned (s.position i) then 1 else 0)
    pub result : (i : ℕ) → ResultOf v s.swapped i (s.position i)

  ResultOf-later :
      (v : V) (order : List ℕ) (j i : ℕ) (p : Position V)
      → ResultOf v order i p
      → ResultOf v (order ++ (j ∷ [])) i p
  ResultOf-later v order j i before_load h = tt
  ResultOf-later v order j i (loaded old) h = tt
  ResultOf-later v order j i (returned r) (front, back, split, e) = (
    front,
    back ++ (j ∷ []),
    ap (λ xs. xs ++ (j ∷ [])) split ∙ append_assoc (front ++ (i ∷ [])) back (j ∷ []),
    e,
  )

  -- A step that moves one goroutine and swaps nothing.
  IsSerial-move :
      (v : V) (s : Shared V) (i : ℕ) (p : Position V)
      → has_returned (s.position i) ≡ false
      → has_returned p ≡ false
      → ((order : List ℕ) → ResultOf v order i p)
      → IsSerial v s
      → IsSerial v (record { cell = s.cell; position = move i p s.position; swapped = s.swapped })
  IsSerial-move v s i p was is_not none_due h = record {
    value = h.value;
    once = λ j. elim (Bool-cases (j == i)) [
      | inl same ↦
          let at : j ≡ i = (==_iff j i).0 same in
          rw (same, is_not)
            (h.once j
              ∙ ap (λ (b : Bool). if b then 1 else 0)
                  (ap (λ k. has_returned (s.position k)) at ∙ was))
      | inr other ↦ rw other (h.once j)
    ];
    result = λ j. elim (Bool-cases (j == i)) [
      | inl same ↦
          rw same
            (subst (λ k. ResultOf v s.swapped k p) (sym ((==_iff j i).0 same)) (none_due s.swapped))
      | inr other ↦ rw other (h.result j)
    ];
  }

  once_swapped :
      (s : Shared V) (i j : ℕ) (p : Position V)
      → has_returned (s.position i) ≡ false
      → has_returned p ≡ true
      → swaps j s.swapped ≡ (if has_returned (s.position j) then 1 else 0)
      → swaps j (s.swapped ++ (i ∷ [])) ≡ (if has_returned (move i p s.position j) then 1 else 0)
  once_swapped s i j p was done once = elim (Bool-cases (j == i)) [
    | inl same ↦
        let at : j ≡ i = (==_iff j i).0 same in
        let none_yet : swaps j s.swapped ≡ 0 =
          once
          ∙ ap (λ (b : Bool). if b then 1 else 0)
              (ap (λ k. has_returned (s.position k)) at ∙ was) in
        rw (same, done) (ground (arith, swaps-append j i s.swapped, none_yet, at))
    | inr other ↦ rw other (ground (arith, swaps-append j i s.swapped, once, other))
  ]

  IsSerial-swap :
      (v : V) (s : Shared V) (i : ℕ) (old : V)
      → has_returned (s.position i) ≡ false
      → s.cell ≡ old
      → IsSerial v s
      → IsSerial v (record {
        cell = plus old (delta i);
        position = move i (returned (plus old (delta i))) s.position;
        swapped = s.swapped ++ (i ∷ []);
      })
  IsSerial-swap v s i old was current h =
      let sum : plus old (delta i) ≡ add_in_turn v (s.swapped ++ (i ∷ [])) =
        ap (λ x. plus x (delta i)) (sym current ∙ h.value)
        ∙ sym (add_in_turn-append v s.swapped i) in
      record {
        value = sum;
        once = λ j. once_swapped s i j (returned (plus old (delta i))) was refl (h.once j);
        result = λ j. elim (Bool-cases (j == i)) [
          | inl same ↦ rw same (
              subst (λ k. ResultOf v (s.swapped ++ (i ∷ [])) k (returned (plus old (delta i))))
                (sym ((==_iff j i).0 same))
                (s.swapped, [], sym (append-nil (s.swapped ++ (i ∷ []))), sum))
          | inr other ↦ rw other (ResultOf-later v s.swapped i j (s.position j) (h.result j))
        ];
      }

  module _ (exact : (a b : V) → same_bits a b ≡ true → a ≡ b) where
    IsSerial-step_at :
        (v : V) (s : Shared V) (i : ℕ) (p : Position V)
        → s.position i ≡ p
        → IsSerial v s
        → IsSerial v (add_step_at same_bits plus delta i p s)
    unfolding add_step_at compare_and_swap
    IsSerial-step_at v s i before_load at h =
        IsSerial-move v s i (loaded s.cell) (ap has_returned at) refl (λ order. tt) h
    IsSerial-step_at v s i (loaded old) at h = elim (Bool-cases (same_bits s.cell old)) [
      | inl equal ↦
          rw equal (IsSerial-swap v s i old (ap has_returned at) (exact s.cell old equal) h)
      | inr changed ↦
          rw changed (IsSerial-move v s i before_load (ap has_returned at) refl (λ order. tt) h)
    ]
    IsSerial-step_at v s i (returned r) at h = h

    IsSerial-run :
        (v : V) (is : List ℕ) (s : Shared V)
        → IsSerial v s
        → IsSerial v (run_adds same_bits plus delta is s)
    unfolding run_adds add_step
    IsSerial-run v [] s h = h
    IsSerial-run v (i ∷ is) s h =
        IsSerial-run v is (add_step same_bits plus delta i s)
          (IsSerial-step_at v s i (s.position i) refl h)

    -- Additions by any number of goroutines, under any schedule, are as if made one after the
    -- other: the variable is the sum, in the order of the swaps, of what the goroutines that
    -- returned have added, each of them once, and each has returned the sum up to its own.
    pub run_adds-IsSerial :
        (v : V) (is : List ℕ) → IsSerial v (run_adds same_bits plus delta is (all_start v))
    run_adds-IsSerial v is =
        IsSerial-run v is (all_start v)
          (record { value = refl; once = λ i. refl; result = λ i. tt })
