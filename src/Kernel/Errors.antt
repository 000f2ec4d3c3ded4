-- ===== src/Kernel/Errors.antt =====
-- kernel/handler.go: errors as HTTP responses.
use zara_rpc.Common.{ℕ, none, some, List, [], ◌∷◌, Text, codes}
use zara_rpc.Codes.{Code, string, http_status}
use zara_rpc.Status.{RpcError, Link, message, from_error, code_of_error}
use zara_rpc.Status.Headers.{Header, set, add_all}
use zara_rpc.Status.Wire.{Protowire}
use zara_rpc.Status.Http.{Encodings, details_key, marshal_error}

-- What a response writer was given.
pub record Written : Type 0 where
  pub status_code : ℕ
  pub header : Header
  pub body : Text

abbrev pub content_type_key : Text
content_type_key = codes "Content-Type"

module _ {A : Type 0} where
  -- The status of the chain, or a new one over it.
  unfoldable pub as_rpc_error : List (Link A) → RpcError A × List (Link A)
  unfolding from_error code_of_error
  as_rpc_error chain = elim (from_error chain) [
    | none ↦ (record { code = code_of_error chain; message = []; meta = []; details = [] }, chain)
    | some found ↦ found
  ]

module _ {A : Type 0} (W : Protowire A) (E : Encodings) where
  -- The details header, written when there are details that can be marshalled.
  unfoldable pub set_details : Code → Text → List A → Header → Header
  unfolding marshal_error
  set_details code text [] h = h
  set_details code text (d ∷ ds) h = elim (marshal_error W code text (d ∷ ds)) [
    | none ↦ h
    | some b ↦ set details_key (E.encode64 b) h
  ]

  -- `writeError`, on a writer whose header is given.
  unfoldable pub write_error : Header → List (Link A) → Written
  unfolding as_rpc_error set_details
  write_error h chain =
      let (e, below) = as_rpc_error chain in
      record {
        status_code = http_status (code_of_error chain);
        header =
            set_details e.code (message e below) e.details
              (set content_type_key (codes "application/json") (add_all e.meta h));
        body = E.encode_body (string (code_of_error chain)) (message e below);
      }
