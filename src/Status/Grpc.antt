-- ===== src/Status/Grpc.antt =====
-- status/status.go: the conversion of gRPC's errors.
use zara_rpc.Common.{
  ◌≡◌, refl, ℕ, ℤ, pos, Option, none, some, List, [], ◌∷◌, ◌++◌, Text, All, wrap_int64, arith, ap,
}
use zara_rpc.Codes.{Code}
use zara_rpc.Codes.Laws.{IsCode}
use zara_rpc.Status.{Reflected, signed, unsigned, no_number, Link, other, grpc, rpc, message}

-- `reflectInt`
unfoldable pub reflect_int : Reflected → ℤ
reflect_int (signed n) = n
reflect_int (unsigned n) = wrap_int64 n
reflect_int no_number = pos 0

module _ {A : Type 0} where
  -- The details that are of the type *anypb.Any.
  abbrev pub known_details : List (Option A) → List A
  known_details [] = []
  known_details (none ∷ ds) = known_details ds
  known_details (some d ∷ ds) = d ∷ known_details ds

  -- The loop of `FromGRPCStatus` over the chain of `err`. A `status.Error` has a `GRPCStatus` of its
  -- own.
  unfoldable pub find_grpc_status : List (Link A) → List (Link A) → List (Link A)
  unfolding reflect_int
  find_grpc_status err [] = err
  find_grpc_status err (other t ∷ chain) = find_grpc_status err chain
  find_grpc_status err (grpc t none ∷ chain) = err
  find_grpc_status err (grpc t (some st) ∷ chain) =
      rpc (record {
        code = reflect_int st.code;
        message = st.message;
        meta = [];
        details = known_details st.details;
      })
      ∷ []
  find_grpc_status err (rpc e ∷ chain) =
      rpc (record { code = e.code; message = message e chain; meta = []; details = e.details }) ∷ []

  -- `FromGRPCStatus`
  unfoldable pub from_grpc_status : List (Link A) → List (Link A)
  unfolding find_grpc_status
  from_grpc_status err = find_grpc_status err err

  abbrev pub IsOther : Link A → Type 0
  IsOther (other t) = Unit
  IsOther _ = ⊥

  find_grpc_status-append :
      (err outer chain : List (Link A))
      → All IsOther outer
      → find_grpc_status err (outer ++ chain) ≡ find_grpc_status err chain
  unfolding find_grpc_status
  find_grpc_status-append err [] chain h = refl
  find_grpc_status-append err (other t ∷ outer) chain h =
      find_grpc_status-append err outer chain h.1
  find_grpc_status-append err (grpc t st ∷ outer) chain h = absurd h.0
  find_grpc_status-append err (rpc e ∷ outer) chain h = absurd h.0

  -- A gRPC error, however often wrapped, keeps its code if that is one of the seventeen, its
  -- message and its details.
  pub from_grpc_status-append :
      (outer below : List (Link A)) (t : Text) (n : ℕ) (m : Text) (ds : List (Option A))
      → All IsOther outer
      → IsCode (pos n)
      → from_grpc_status (
          outer
          ++ (grpc t (some (record { code = unsigned n; message = m; details = ds })) ∷ below))
        ≡ rpc (record { code = pos n; message = m; meta = []; details = known_details ds }) ∷ []
  unfolding from_grpc_status reflect_int
  from_grpc_status-append outer below t n m ds wrapped known =
      rw (find_grpc_status-append _ outer _ wrapped) (
        ap
          (λ (c : Code).
            rpc (record { code = c; message = m; meta = []; details = known_details ds }) ∷ [])
          (ground arith))
