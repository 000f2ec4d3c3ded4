-- ===== src/Examples/Schedules.antt =====
-- Goroutines that run at once, at concrete schedules.
use zara_rpc.Common.{◌≡◌, ℕ, ◌+◌, true, List, [], ◌∷◌, ◌==◌, ==_iff, ==_refl}
use zara_rpc.Internal.Atomic.{has_returned, run_adds, all_start}
use zara_rpc.Internal.Atomic.Laws.{IsSerial, run_adds-IsSerial}
use zara_rpc.Internal.Atomic.Progress.{run_adds-returns}

-- Both load 10; the goroutine 1 swaps first, and 0 has to start again.
abbrev schedule : List ℕ
schedule = 0 ∷ 1 ∷ 1 ∷ 0 ∷ 0 ∷ 0 ∷ []

run_adds-IsSerial_example :
    IsSerial ◌==◌ ◌+◌ (λ i. i + 1) 10 (run_adds ◌==◌ ◌+◌ (λ i. i + 1) schedule (all_start 10))
run_adds-IsSerial_example =
    run_adds-IsSerial ◌==◌ ◌+◌ (λ i. i + 1) (λ a b. (==_iff a b).0) 10 schedule

run_adds-returns_example :
    has_returned ((run_adds ◌==◌ ◌+◌ (λ i. i + 1) (4 ∷ 4 ∷ 4 ∷ []) (all_start 10)).position 4)
    ≡ true
run_adds-returns_example = run_adds-returns ◌==◌ ◌+◌ (λ i. i + 1) ==_refl 4 (all_start 10)
