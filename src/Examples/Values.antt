-- ===== src/Examples/Values.antt =====
-- Request paths, claims, headers, error chains and pools at concrete inputs.
use zara_rpc.Common.{◌≡◌, refl, true, Option, none, some, List, [], ◌∷◌, Text, codes}
use zara_rpc.Routing.Pattern.{Pattern, Segment}
use zara_rpc.Runtime.Substitute.{Field, substitute_path_params_bound, field_value_by_name}
use zara_rpc.Runtime.Substitute.Laws.{SubstitutesFor, substitute_path_params_bound-SubstitutesFor}
use zara_rpc.Auth.Rbac.{Claims, ClaimValue}
use zara_rpc.Auth.Jwt.{TokenSource}
use zara_rpc.Metadata.Pairs.{header_pairs_from_meta}
use zara_rpc.Internal.Buffers.{Steps, put_slice, stay, step, put_bytes}

abbrev fields : List Field
fields =
    record {
      name = codes "Id";
      json_tag = codes "id,omitempty";
      is_exported = true;
      text = codes "7";
    }
    ∷ record { name = codes "Name"; json_tag = []; is_exported = true; text = codes "topics/a" }
    ∷ []

substitute_path_params_bound-SubstitutesFor_example :
    SubstitutesFor
      (some fields)
      (codes "/v1/{id}/{Name=topics/*}")
      (codes "/v1/7/topics/a")
      (codes "id" ∷ codes "Name" ∷ [])
unfolding substitute_path_params_bound field_value_by_name
substitute_path_params_bound-SubstitutesFor_example =
    substitute_path_params_bound-SubstitutesFor (codes "/v1/{id}/{Name=topics/*}")
      (codes "/v1/7/topics/a") (codes "id" ∷ codes "Name" ∷ []) (some fields) refl

abbrev editor : Claims
editor = record {
  subject = codes "users/1";
  custom =
      (codes "role", ClaimValue.array (some (codes "editor") ∷ none ∷ some (codes "admin") ∷ []))
      ∷ [];
}

abbrev source : TokenSource
source = record { authorization = codes "Bearer t"; query_token = []; session = none }

abbrev decode : Text → Option ClaimValue
decode raw = some (ClaimValue.string raw)

abbrev headers : List (Text × List Text)
headers = (codes "Grpc-Timeout", codes "1S" ∷ []) ∷ (codes "X-Id", codes "a" ∷ codes "b" ∷ []) ∷ []

forwarded :
    header_pairs_from_meta headers ≡ (codes "x-id", codes "a") ∷ (codes "x-id", codes "b") ∷ []
unfolding header_pairs_from_meta
forwarded = refl

abbrev users : Pattern
users = record { raw = codes "/users"; segments = Segment.literal (codes "users") ∷ []; verb = [] }

abbrev user : Pattern
user = record {
  raw = codes "/users/{id}";
  segments = Segment.literal (codes "users") ∷ Segment.param (codes "id") ∷ [];
  verb = [];
}

-- A buffer of 8 bytes and one of 64 are put into a pool of size 32.
abbrev used : Steps 32 [] (put_bytes 32 64 (put_bytes 32 8 []))
used =
    step (put_bytes 32 8 []) (put_slice 8)
      (step (put_bytes 32 64 (put_bytes 32 8 [])) (put_slice 64) stay)
