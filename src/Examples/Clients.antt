-- ===== src/Examples/Clients.antt =====
-- Calls of a client and lookups of fields at concrete inputs.
use zara_rpc.Common.{
  ◌≡◌, refl, ℕ, true, false, none, some, List, [], ◌∷◌, Text, codes, pos, arith, map,
}
use zara_rpc.Metadata.TimeoutLaws.{IsClose}
use zara_rpc.Metadata.Deadline.{Clock}
use zara_rpc.Kernel.Negotiate.{deadline_from_request}
use zara_rpc.Client.Calls.{Parts, Config, Store, set_deadline, prepare_call}
use zara_rpc.Client.Calls.Laws.{prepare_call-headers, deadline_from_request-set_deadline}
use zara_rpc.Routing.Pattern.Parse.{split_verb}
use zara_rpc.Generator.{
  find_verb_colon, validate_verb_placement, split_verb-validate_verb_placement,
}
use zara_rpc.Runtime.Populate.{FieldInfo}
use zara_rpc.Runtime.FieldCache.{Key, find_fields, scan_key, find_fields_sound}

abbrev parts : Parts
parts = record { Codec = Text; HttpClient = Unit; StreamInterceptor = Unit; Invoker = Unit }

-- A client with a timeout of five seconds, its header map at the address 0.
abbrev base : Config parts
base = record {
  codec = codes "json";
  http_client = tt;
  headers = 0;
  is_websocket = false;
  stream_interceptors = [];
  unary_interceptors = [];
  retry_policy = none;
  timeout = pos 5_000_000_000;
  deadline = none;
}

abbrev store : Store
store = record { next = 1; maps = λ p. [] }

abbrev clock : Clock Unit
clock = record { parse_rfc3339 = λ v. none; unix = λ s n. tt; until = λ t. pos 0 }

-- The call has no options, and the map of the client changes.
prepare_call-headers_example : (prepare_call base [] store).1.maps 0 ≡ set_deadline base []
prepare_call-headers_example = prepare_call-headers base [] store (omega arith)

deadline_from_request-set_deadline_example :
    (m : ℕ) × (deadline_from_request clock (set_deadline base []) ≡ some (pos m))
    × IsClose 5_000_000_000 m
deadline_from_request-set_deadline_example =
    deadline_from_request-set_deadline base [] clock 5_000_000_000 refl (omega arith) (omega arith)

abbrev fields_of : ℕ → List FieldInfo
fields_of t =
    record { name = codes "ID"; tag = codes "id,omitempty"; is_exported = true }
    ∷ record { name = codes "Name"; tag = []; is_exported = true }
    ∷ []

abbrev keys : List Key
keys = (7, codes "name") ∷ (7, codes "id") ∷ (7, codes "ID") ∷ (7, codes "name") ∷ []

find_fields_sound_example : find_fields fields_of [] keys ≡ map (scan_key fields_of) keys
find_fields_sound_example = find_fields_sound fields_of keys

abbrev archive : Text
archive = codes "/v1/{name=a:b}:archive"

split_verb-validate_verb_placement_example :
    split_verb archive ≡ (codes "/v1/{name=a:b}", codes "archive")
unfolding find_verb_colon validate_verb_placement
split_verb-validate_verb_placement_example = split_verb-validate_verb_placement archive 13 refl refl
