-- ===== src/Examples/Calls.antt =====
-- Deadlines, codes and retries at concrete inputs.
use zara_rpc.Common.{
  ◌+◌, ℕ, ◌≡◌, ◌↔◌, refl, Bool, false, some, codes, arith, pos, negsuc, if◌then◌else◌, ◌==◌, ◌-◌,
}
use zara_rpc.Codes.{
  code_from_string, code_from_http_status, http_status, string, code_aborted, code_already_exists,
  code_unavailable,
}
use zara_rpc.Codes.Laws.{IsCode, IsLossy, code_from_string_iff, code_from_http_status_iff}
use zara_rpc.Metadata.Timeout.{parse_grpc_timeout, format_grpc_timeout}
use zara_rpc.Metadata.TimeoutLaws.{IsClose, parse_grpc_timeout-format_grpc_timeout}
use zara_rpc.Client.Retry.{
  RetryPolicy, Scaling, Answer, done, failed, is_idempotent, attempts_of, retry_invoker,
}
use zara_rpc.Client.Retry.Laws.{IsRetried, retry_invoker-IsRetried}

code_from_string_iff_example :
    (code_from_string (codes "aborted") ≡ some code_aborted)
    ↔ (IsCode code_aborted × (string code_aborted ≡ codes "aborted"))
code_from_string_iff_example = code_from_string_iff (codes "aborted") code_aborted

code_from_http_status_iff_example :
    (code_from_http_status (http_status code_already_exists) ≡ code_already_exists)
    ↔ (¬ IsLossy code_already_exists)
code_from_http_status_iff_example = code_from_http_status_iff code_already_exists (omega arith)

parse_grpc_timeout-format_grpc_timeout_example :
    (m : ℕ) × (parse_grpc_timeout (format_grpc_timeout (pos 123_456_789)) ≡ some (pos m))
    × IsClose 123_456_789 m
parse_grpc_timeout-format_grpc_timeout_example =
    parse_grpc_timeout-format_grpc_timeout 123_456_789 (omega arith) (omega arith)

abbrev policy : RetryPolicy
policy = record {
  max_attempts = pos 3;
  initial_backoff = pos 100;
  max_backoff = pos 150;
  idempotent = false;
}

abbrev doubling : Scaling
doubling = record {
  grow = λ b. elim b [ pos n ↦ pos (n + n) | negsuc n ↦ negsuc n ];
  jitter_is_positive = false;
  jittered = λ i b. b;
}

-- Two transient failures, then an answer.
abbrev answers : ℕ → Answer
answers i = if i == 2 then done (pos 7) else failed (pos 0) code_unavailable

abbrev patient : ℕ → Bool
patient i = false

retry_invoker-IsRetried_example :
    IsRetried policy doubling answers patient
      (is_idempotent policy (codes "GET"))
      0
      (attempts_of policy - 1)
      (retry_invoker policy doubling answers patient (codes "GET"))
retry_invoker-IsRetried_example =
    retry_invoker-IsRetried policy doubling answers patient (codes "GET")

retry_calls : (retry_invoker policy doubling answers patient (codes "GET")).calls ≡ 3
unfolding retry_invoker
retry_calls = refl
