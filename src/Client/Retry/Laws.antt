-- ===== src/Client/Retry/Laws.antt =====
-- The retries of client/retry.go: how many, after what, and what is returned.
use zara_rpc.Common.{
  ==_iff, ◌==◌, ℕ, zero, suc, ◌+◌, ◌-◌, ◌≤◌, ◌<◌, ◌≡◌, refl, subst, ◌⊎◌, inl, inr, Bool, true,
  false, Text, All, drop, arith, Bool-cases, ℤ, ltℤ,
}
use zara_rpc.Client.Retry.{
  RetryPolicy, Scaling, Answer, Reply, answered, context_done, Run, is_transient, bytes_of,
  is_idempotent, attempts_of, next_backoff, waited, stopped, retry_loop, retry_invoker,
}

ltℤ-irrefl : (a : ℤ) → ltℤ a a ≡ false
ltℤ-irrefl a = ground arith

module _ (p : RetryPolicy) (s : Scaling) (answers : ℕ → Answer) (expires : ℕ → Bool) where
  -- Why the call `last` was the last one, and what the run then returns. `limit` is the last
  -- attempt that the policy allows.
  abbrev pub Ends : Bool → ℕ → ℕ → Reply → Type 0
  Ends idempotent limit last reply =
      ((reply ≡ answered (answers last))
        × ((idempotent ≡ false) ⊎ (is_transient (answers last) ≡ false) ⊎ (last ≡ limit)))
      ⊎ ((reply ≡ context_done (bytes_of (answers last)))
          × (idempotent ≡ true)
          × (is_transient (answers last) ≡ true)
          × (expires last ≡ true))

  -- A run from the attempt `first` on.
  pub record IsRetried (idempotent : Bool) (first limit : ℕ) (r : Run) : Type 0 where
    pub last : ℕ
    pub calls : r.calls ≡ last + 1
    pub from : first ≤ last
    pub within : last ≤ limit
    pub repeats :
        (i : ℕ)
        → first ≤ i
        → i < last
        → (idempotent ≡ true) × (is_transient (answers i) ≡ true) × (expires i ≡ false)
    pub ends : Ends idempotent limit last r.reply

  stop-IsRetried :
      (idempotent : Bool) (first limit : ℕ) (reply : Reply)
      → first ≤ limit
      → Ends idempotent limit first reply
      → IsRetried idempotent first limit (stopped p s answers expires first reply)
  stop-IsRetried idempotent first limit reply h e = record {
    last = first;
    calls = refl;
    from = omega arith;
    within = h;
    repeats = λ i le lt. absurd (omega arith);
    ends = e;
  }

  repeat-IsRetried :
      (first limit : ℕ) (b : ℤ) (r : Run)
      → is_transient (answers first) ≡ true
      → expires first ≡ false
      → IsRetried true (first + 1) limit r
      → IsRetried true first limit (waited p s answers expires first b r)
  repeat-IsRetried first limit b r t x h = record {
    last = h.last;
    calls = h.calls;
    from = omega (arith, h.from);
    within = h.within;
    repeats = λ i le lt. at i le lt;
    ends = h.ends;
  }
    where
      at :
          (i : ℕ)
          → first ≤ i
          → i < h.last
          → (true ≡ true) × (is_transient (answers i) ≡ true) × (expires i ≡ false)
      at i le lt = elim (Bool-cases (first == i)) [
        | inl e ↦
            let same : first ≡ i = (==_iff first i).0 e in
            (
              refl,
              subst (λ n. is_transient (answers n) ≡ true) same t,
              subst (λ n. expires n ≡ false) same x,
            )
        | inr e ↦ h.repeats i (ground (arith, ==_iff first i)) lt
      ]

  waited-IsRetried :
      (first limit : ℕ) (b : ℤ) (r : Run)
      → IsRetried true first limit r
      → IsRetried true first limit (waited p s answers expires first b r)
  waited-IsRetried first limit b r h = record {
    last = h.last;
    calls = h.calls;
    from = h.from;
    within = h.within;
    repeats = h.repeats;
    ends = h.ends;
  }

  retry_loop-IsRetried :
      (idempotent : Bool) (left first : ℕ) (b : ℤ)
      → IsRetried idempotent first
          (first + left)
          (retry_loop p s answers expires idempotent left first b)
  unfolding retry_loop
  retry_loop-IsRetried idempotent zero first b =
      stop-IsRetried idempotent first (first + 0) (answered (answers first)) (omega arith)
        (inl (refl, inr (inr (omega arith))))
  retry_loop-IsRetried false (suc left) first b =
      stop-IsRetried false first (first + suc left) (answered (answers first)) (omega arith)
        (inl (refl, inl refl))
  retry_loop-IsRetried true (suc left) first b =
      let rest : IsRetried true (first + 1) (first + suc left) (
          retry_loop p s answers expires true left (first + 1)
            (next_backoff p s answers expires b)) =
        subst
          (λ n. IsRetried true (first + 1) n (
            retry_loop p s answers expires true left (first + 1)
              (next_backoff p s answers expires b)))
          (omega arith)
          (retry_loop-IsRetried true left (first + 1) (next_backoff p s answers expires b)) in
      elim (Bool-cases (is_transient (answers first))) [
        | inl t ↦ elim (Bool-cases (expires first)) [
          | inl x ↦
              rw (t, x)
                (waited-IsRetried first (first + suc left) b _ (
                  stop-IsRetried true first (first + suc left)
                    (context_done (bytes_of (answers first))) (omega arith)
                    (inr (refl, refl, t, x))))
          | inr x ↦ rw (t, x) (repeat-IsRetried first (first + suc left) b _ t x rest)
        ]
        | inr t ↦ rw t (
            stop-IsRetried true first (first + suc left) (answered (answers first)) (omega arith)
              (inl (refl, inr (inl t))))
      ]

  -- The retrying invoker makes between one call and the attempts of the policy. It repeats a call
  -- only if the policy or the method is idempotent, the call failed with the code unavailable and
  -- the context outlived the wait. It returns the answer of its last call, which was no such
  -- failure or used the last attempt or was not idempotent, or else the context's error, when that
  -- was done before the wait behind the last call was over.
  pub retry_invoker-IsRetried :
      (method : Text)
      → IsRetried
          (is_idempotent p method)
          0
          (attempts_of p - 1)
          (retry_invoker p s answers expires method)
  unfolding retry_invoker
  retry_invoker-IsRetried method =
      let left = attempts_of p - 1 in
      let same : 0 + left ≡ left = omega arith in
      subst
        (λ n.
          IsRetried (is_idempotent p method) 0 n
            (retry_loop p s answers expires (is_idempotent p method) left 0 p.initial_backoff))
        same (retry_loop-IsRetried (is_idempotent p method) left 0 p.initial_backoff)

  -- Never above `MaxBackoff`.
  abbrev pub IsCapped : ℤ → Type 0
  IsCapped b = ltℤ p.max_backoff b ≡ false

  next_backoff-IsCapped : (b : ℤ) → IsCapped (next_backoff p s answers expires b)
  next_backoff-IsCapped b = elim (Bool-cases (ltℤ p.max_backoff (s.grow b))) [
    | inl e ↦ rw e (ltℤ-irrefl p.max_backoff)
    | inr e ↦ rw e e
  ]

  retry_loop-IsCapped :
      (idempotent : Bool) (left first : ℕ) (b : ℤ)
      → All IsCapped (drop 1 (retry_loop p s answers expires idempotent left first b).backoffs)
        × (IsCapped b
            → All IsCapped (retry_loop p s answers expires idempotent left first b).backoffs)
  unfolding retry_loop
  retry_loop-IsCapped idempotent zero first b = (tt, λ c. tt)
  retry_loop-IsCapped false (suc left) first b = (tt, λ c. tt)
  retry_loop-IsCapped true (suc left) first b =
      let b' = next_backoff p s answers expires b in
      let (after, all) = retry_loop-IsCapped true left (first + 1) b' in
      let capped = all (next_backoff-IsCapped b) in
      elim (Bool-cases (is_transient (answers first))) [
        | inl t ↦ elim (Bool-cases (expires first)) [
          | inl x ↦ rw (t, x) (tt, λ c. (c, tt))
          | inr x ↦ rw (t, x) (capped, λ c. (c, capped))
        ]
        | inr t ↦ rw t (tt, λ c. tt)
      ]

  -- Every backoff but the first is at most `MaxBackoff`, and if the first one, `InitialBackoff`, is
  -- too, then all are. Jitter comes on top of these.
  pub retry_invoker-IsCapped :
      (method : Text)
      → All IsCapped (drop 1 (retry_invoker p s answers expires method).backoffs)
        × (IsCapped p.initial_backoff
            → All IsCapped (retry_invoker p s answers expires method).backoffs)
  unfolding retry_invoker
  retry_invoker-IsCapped method =
      retry_loop-IsCapped (is_idempotent p method) (attempts_of p - 1) 0 p.initial_backoff
