-- ===== src/Client/Retry.antt =====
-- client/retry.go: the invoker that repeats a call. The arithmetic on float64 (the growth of the
-- backoff and the jitter) is a parameter. The wrapped invoker is the sequence of its answers, by
-- the number of the attempt, and the context that of whether it is done before a timer fires.

pub mod Laws
use zara_rpc.Common.{
  ℕ, zero, suc, ◌+◌, ◌-◌, Bool, true, false, not, ◌||◌, List, [], ◌∷◌, Text, codes, text_eq,
  if◌then◌else◌,
}
use zara_rpc.Common.{ℤ, pos, negsuc, ltℤ, ◌==ℤ◌}
use zara_rpc.Codes.{Code, code_unavailable}

-- `RetryPolicy` without its float64 fields.
pub record RetryPolicy : Type 0 where
  pub max_attempts : ℤ
  pub initial_backoff : ℤ
  pub max_backoff : ℤ
  pub idempotent : Bool

-- What `BackoffMultiplier` and `Jitter` do: `float64(d) * multiplier`, and the wait of an attempt.
pub record Scaling : Type 0 where
  pub grow : ℤ → ℤ
  pub jitter_is_positive : Bool
  pub jittered : ℕ → ℤ → ℤ

abbrev positive_or : ℤ → ℤ → ℤ
positive_or d n = if ltℤ (pos 0) n then n else d

-- `normalize`
unfoldable pub normalize : RetryPolicy → RetryPolicy
normalize p = record {
  max_attempts = positive_or (pos 3) p.max_attempts;
  initial_backoff = positive_or (pos 100_000_000) p.initial_backoff;
  max_backoff = positive_or (pos 1_000_000_000) p.max_backoff;
  idempotent = p.idempotent;
}

-- What one call of the next invoker returns: the bytes, and nil or an error with its code.
pub data Answer : Type 0 where
  done : ℤ → Answer
  failed : ℤ → Code → Answer

-- What the retrying invoker returns: an answer, or the bytes and the error of the context.
pub data Reply : Type 0 where
  answered : Answer → Reply
  context_done : ℤ → Reply

-- A run: the reply, the number of calls made, and the backoffs and the waits in their order.
pub record Run : Type 0 where
  pub reply : Reply
  pub calls : ℕ
  pub backoffs : List ℤ
  pub waits : List ℤ

abbrev pub is_transient : Answer → Bool
is_transient (done n) = false
is_transient (failed n c) = c ==ℤ code_unavailable

abbrev pub bytes_of : Answer → ℤ
bytes_of (done n) = n
bytes_of (failed n c) = n

abbrev pub is_idempotent : RetryPolicy → Text → Bool
is_idempotent p method =
    p.idempotent || text_eq method (codes "GET") || text_eq method (codes "HEAD")

abbrev pub attempts_of : RetryPolicy → ℕ
attempts_of p = attempts p.max_attempts
  where
    attempts : ℤ → ℕ
    attempts (pos zero) = 1
    attempts (pos (suc n)) = suc n
    attempts (negsuc n) = 1

module _ (p : RetryPolicy) (s : Scaling) (answers : ℕ → Answer) (expires : ℕ → Bool) where
  abbrev pub next_backoff : ℤ → ℤ
  next_backoff b = if ltℤ p.max_backoff (s.grow b) then p.max_backoff else s.grow b

  abbrev pub wait_of : ℕ → ℤ → ℤ
  wait_of attempt b = if s.jitter_is_positive then s.jittered attempt b else b

  abbrev waited : ℕ → ℤ → Run → Run
  waited attempt b r = record {
    reply = r.reply;
    calls = r.calls;
    backoffs = b ∷ r.backoffs;
    waits = wait_of attempt b ∷ r.waits;
  }

  abbrev stopped : ℕ → Reply → Run
  stopped attempt reply = record { reply = reply; calls = attempt + 1; backoffs = []; waits = [] }

  -- The loop at `attempt`, with the attempts behind it that are left.
  unfoldable pub retry_loop : Bool → ℕ → ℕ → ℤ → Run
  retry_loop idempotent zero attempt b = stopped attempt (answered (answers attempt))
  retry_loop idempotent (suc left) attempt b =
      let rest = retry_loop idempotent left (attempt + 1) (next_backoff b) in
      if not idempotent
      then stopped attempt (answered (answers attempt))
      else if not (is_transient (answers attempt))
      then stopped attempt (answered (answers attempt))
      else if expires attempt
      then waited attempt b (stopped attempt (context_done (bytes_of (answers attempt))))
      else waited attempt b rest

  -- `retryInvoker`
  unfoldable pub retry_invoker : Text → Run
  unfolding retry_loop
  retry_invoker method = retry_loop (is_idempotent p method) (attempts_of p - 1) 0 p.initial_backoff
