-- ===== src/Metadata/Deadline.antt =====
-- `ParseGrpcDeadline` of metadata/metadata.go. Package time is a parameter, with times of the type
-- `D`.
use zara_rpc.Common.{Option, none, some, Text, length, ltb, is_empty, if◌then◌else◌, ℤ, pos}
use zara_rpc.Runtime.Convert.{parse_int_bits}

-- time.Parse of RFC3339, time.Unix of seconds and nanoseconds, and time.Until in nanoseconds.
pub record Clock (D : Type 0) : Type 0 where
  pub parse_rfc3339 : Text → Option D
  pub unix : ℤ → ℤ → D
  pub until : D → ℤ

unfoldable pub parse_grpc_deadline : {D : Type 0} → Clock D → Text → Option D
unfolding parse_int_bits
parse_grpc_deadline clock v = if is_empty v then none else elim (clock.parse_rfc3339 v) [
  | some t ↦ some t
  | none ↦ elim (parse_int_bits 64 v) [
    | none ↦ none
    | some n ↦ some (if ltb 10 (length v) then clock.unix (pos 0) n else clock.unix n (pos 0))
  ]
]
