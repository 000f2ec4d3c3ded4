-- ===== src/Internal/Atomic.antt =====
-- internal/xsync/atomic.go: `AtomicFloat64.Add`, whose loop of load, add and compare-and-swap many
-- goroutines run at once on one variable. Floats, their addition and the comparison of their bits
-- are parameters; a schedule is the list of the goroutines that take the next atomic step.
pub mod Laws
pub mod Progress
use zara_rpc.Common.{
  append-nil, ◌≡◌, refl, sym, ap, ◌∙◌, ℕ, zero, suc, ◌+◌, Bool, true, false, List, [], ◌∷◌, ◌++◌,
  ◌==◌, ==_iff, ==_refl, if◌then◌else◌, arith, Bool-cases, inl, inr, append_assoc, subst,
}

-- Where a goroutine is in `Add`: before the load, behind it with what it loaded, or behind the
-- return with its result.
pub data Position (V : Type 0) : Type 0 where
  before_load : Position V
  loaded : V → Position V
  returned : V → Position V

abbrev pub has_returned : {V : Type 0} → Position V → Bool
has_returned before_load = false
has_returned (loaded old) = false
has_returned (returned result) = true

-- The variable, the goroutines by their numbers, and those whose swap succeeded, in order.
pub record Shared (V : Type 0) : Type 0 where
  pub cell : V
  pub position : ℕ → Position V
  pub swapped : List ℕ

abbrev pub move : {V : Type 0} → ℕ → Position V → (ℕ → Position V) → ℕ → Position V
move i p positions j = if j == i then p else positions j

-- How often a goroutine swapped.
abbrev pub swaps : ℕ → List ℕ → ℕ
swaps i [] = 0
swaps i (j ∷ js) = if j == i then suc (swaps i js) else swaps i js

-- All goroutines at the start.
abbrev pub all_start : {V : Type 0} → V → Shared V
all_start v = record { cell = v; position = λ i. before_load; swapped = [] }

module _ {V : Type 0} (same_bits : V → V → Bool) (plus : V → V → V) (delta : ℕ → V) where
  -- `BitwiseCompareAndSwap` of the goroutine `i`, and what `Add` does with its result.
  unfoldable pub compare_and_swap : ℕ → V → Shared V → Shared V
  compare_and_swap i old s =
      if same_bits s.cell old
      then record {
        cell = plus old (delta i);
        position = move i (returned (plus old (delta i))) s.position;
        swapped = s.swapped ++ (i ∷ []);
      }
      else record { cell = s.cell; position = move i before_load s.position; swapped = s.swapped }

  -- The next atomic step of `Add` in the goroutine `i`.
  unfoldable pub add_step_at : ℕ → Position V → Shared V → Shared V
  unfolding compare_and_swap
  add_step_at i before_load s = record {
    cell = s.cell;
    position = move i (loaded s.cell) s.position;
    swapped = s.swapped;
  }
  add_step_at i (loaded old) s = compare_and_swap i old s
  add_step_at i (returned result) s = s

  unfoldable pub add_step : ℕ → Shared V → Shared V
  unfolding add_step_at
  add_step i s = add_step_at i (s.position i) s

  unfoldable pub run_adds : List ℕ → Shared V → Shared V
  unfolding add_step
  run_adds [] s = s
  run_adds (i ∷ is) s = run_adds is (add_step i s)
