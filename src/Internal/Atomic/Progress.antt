-- ===== src/Internal/Atomic/Progress.antt =====
-- internal/xsync/atomic.go: the loop of `AtomicFloat64.Add` ends.
use zara_rpc.Common.{
  ◌≡◌, refl, sym, ap, ◌∙◌, ℕ, Bool, true, false, [], ◌∷◌, ==_refl, Bool-cases, inl, inr, subst,
}
use zara_rpc.Internal.Atomic.{
  Position, before_load, loaded, returned, has_returned, Shared, compare_and_swap, add_step_at,
  add_step, run_adds,
}

module _ {V : Type 0} (same_bits : V → V → Bool) (plus : V → V → V) (delta : ℕ → V) where
  module _ (equal : (a : V) → same_bits a a ≡ true) where
    add_step-returned :
        (i : ℕ) (s : Shared V)
        → has_returned (s.position i) ≡ true
        → has_returned ((add_step same_bits plus delta i s).position i) ≡ true
    unfolding add_step add_step_at
    add_step-returned i s h = stays (s.position i) refl
      where
        stays :
            (p : Position V)
            → s.position i ≡ p
            → has_returned ((add_step_at same_bits plus delta i p s).position i) ≡ true
        stays before_load at = absurd (cc (sym h ∙ ap has_returned at))
        stays (loaded old) at = absurd (cc (sym h ∙ ap has_returned at))
        stays (returned r) at = h

    add_step-loads :
        (i : ℕ) (s : Shared V)
        → s.position i ≡ before_load
        → (add_step same_bits plus delta i s).position i
          ≡ loaded (add_step same_bits plus delta i s).cell
    unfolding add_step add_step_at
    add_step-loads i s at =
        subst
          (λ p.
            (add_step_at same_bits plus delta i p s).position i
            ≡ loaded (add_step_at same_bits plus delta i p s).cell)
          (sym at) (rw (==_refl i) refl)

    add_step-swaps :
        (i : ℕ) (s : Shared V) (old : V)
        → s.position i ≡ loaded old
        → same_bits s.cell old ≡ true
        → has_returned ((add_step same_bits plus delta i s).position i) ≡ true
    unfolding add_step add_step_at compare_and_swap
    add_step-swaps i s old at same =
        subst (λ p. has_returned ((add_step_at same_bits plus delta i p s).position i) ≡ true)
          (sym at) (rw (same, ==_refl i) refl)

    add_step-retries :
        (i : ℕ) (s : Shared V) (old : V)
        → s.position i ≡ loaded old
        → same_bits s.cell old ≡ false
        → (add_step same_bits plus delta i s).position i ≡ before_load
    unfolding add_step add_step_at compare_and_swap
    add_step-retries i s old at changed =
        subst (λ p. (add_step_at same_bits plus delta i p s).position i ≡ before_load) (sym at)
          (rw (changed, ==_refl i) refl)

    two_steps :
        (i : ℕ) (s : Shared V)
        → s.position i ≡ before_load
        → has_returned
            ((add_step same_bits plus delta i (add_step same_bits plus delta i s)).position i)
          ≡ true
    two_steps i s at =
        add_step-swaps i (add_step same_bits plus delta i s)
          (add_step same_bits plus delta i s).cell (add_step-loads i s at)
          (equal (add_step same_bits plus delta i s).cell)

    -- A goroutine that takes three steps in a row has returned, from wherever it was and whatever
    -- the others did before: its loop ends where nothing else changes the variable.
    pub run_adds-returns :
        (i : ℕ) (s : Shared V)
        → has_returned ((run_adds same_bits plus delta (i ∷ i ∷ i ∷ []) s).position i) ≡ true
    unfolding run_adds
    run_adds-returns i s = from (s.position i) refl
      where
        from :
            (p : Position V)
            → s.position i ≡ p
            → has_returned (
                (add_step same_bits plus delta i
                    (add_step same_bits plus delta i (add_step same_bits plus delta i s))).position
                  i)
              ≡ true
        from before_load at =
            add_step-returned i
              (add_step same_bits plus delta i (add_step same_bits plus delta i s))
              (two_steps i s at)
        from (loaded old) at = elim (Bool-cases (same_bits s.cell old)) [
          | inl same ↦
              add_step-returned i
                (add_step same_bits plus delta i (add_step same_bits plus delta i s))
                (add_step-returned i (add_step same_bits plus delta i s)
                  (add_step-swaps i s old at same))
          | inr changed ↦
              two_steps i (add_step same_bits plus delta i s) (add_step-retries i s old at changed)
        ]
        from (returned r) at =
            add_step-returned i
              (add_step same_bits plus delta i (add_step same_bits plus delta i s))
              (add_step-returned i (add_step same_bits plus delta i s)
                (add_step-returned i s (ap has_returned at)))
