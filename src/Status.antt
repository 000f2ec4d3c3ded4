-- ===== src/Status.antt =====
-- status/status.go: RPC errors and what they are on the wire. An error is its chain: itself and what
-- `Unwrap` gives, from the outside in, so the empty chain is nil and the `err` of a `status.Error`
-- is the rest of the chain. `A` is anypb.Any.
pub mod Wire
pub mod Headers
pub mod WireLaws
pub mod WireEnds
pub mod Grpc
pub mod Http
use zara_rpc.Common.{
  ℤ, ◌+◌, ℕ, Bool, true, false, Option, none, some, List, [], ◌∷◌, ◌++◌, Text, codes, is_empty,
  length, if◌then◌else◌, text_eq,
}
use zara_rpc.Codes.{Code, string, code_unknown, http_status}
use zara_rpc.Status.Headers.{Header}

-- `Error` without its `err`.
pub record RpcError (A : Type 0) : Type 0 where
  pub code : Code
  pub message : Text
  pub meta : Header
  pub details : List A

-- A number as package reflect shows it: of a signed kind, of an unsigned kind, or no number.
pub data Reflected : Type 0 where
  signed : ℤ → Reflected
  unsigned : ℕ → Reflected
  no_number : Reflected

-- What the methods of a foreign gRPC status return. A detail that is no *anypb.Any is `none`.
pub record ForeignStatus (A : Type 0) : Type 0 where
  pub code : Reflected
  pub message : Text
  pub details : List (Option A)

-- Another error has the text of its `Error`. A `grpc` error has a method `GRPCStatus` too, whose
-- result is a status, or nothing that has its methods.
pub data Link (A : Type 0) : Type 0 where
  other : Text → Link A
  grpc : Text → Option (ForeignStatus A) → Link A
  rpc : RpcError A → Link A

module _ {A : Type 0} where
  -- `NewError`, in front of the underlying error
  abbrev pub new_error : Code → List (Link A) → List (Link A)
  new_error code chain = rpc (record { code = code; message = []; meta = []; details = [] }) ∷ chain

  -- `NewErrorf`, with the formatted message
  abbrev pub new_errorf : Code → Text → List (Link A)
  new_errorf code text = rpc (record { code = code; message = text; meta = []; details = [] }) ∷ []

  -- `Message`, where the text of the underlying error is given, if there is one.
  abbrev pub message_over : RpcError A → Option Text → Text
  message_over e below =
      if is_empty e.message then elim below [ none ↦ string e.code | some t ↦ t ] else e.message

  -- `Error` of the chain, `none` for nil
  unfoldable pub error_text : List (Link A) → Option Text
  error_text [] = none
  error_text (other t ∷ chain) = some t
  error_text (grpc t st ∷ chain) = some t
  error_text (rpc e ∷ chain) =
      let below = error_text chain in
      some (codes "rpc error: " ++ string e.code ++ codes ": " ++ message_over e below)

  -- `Message`
  unfoldable pub message : RpcError A → List (Link A) → Text
  unfolding error_text
  message e chain = message_over e (error_text chain)

  -- `FromError`, and errors.As: the first status of the chain, and its own underlying error.
  unfoldable pub from_error : List (Link A) → Option (RpcError A × List (Link A))
  from_error [] = none
  from_error (other t ∷ chain) = from_error chain
  from_error (grpc t st ∷ chain) = from_error chain
  from_error (rpc e ∷ chain) = some (e, chain)

  -- `Code`
  unfoldable pub code_of_error : List (Link A) → Code
  unfolding from_error
  code_of_error chain = elim (from_error chain) [ none ↦ code_unknown | some (e, below) ↦ e.code ]

  -- `WithDetails`
  abbrev pub with_details : RpcError A → List A → RpcError A
  with_details e more = record e { details = e.details ++ more }
