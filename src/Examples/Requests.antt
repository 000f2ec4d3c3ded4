-- ===== src/Examples/Requests.antt =====
-- Requests of clients at concrete inputs.
use zara_rpc.Generator.Fields.{bound_args}
use zara_rpc.Generator.Fields.Laws.{populate_query-set_query}
use zara_rpc.Common.{◌≡◌, refl, true, false, none, [], ◌∷◌, codes, pos}
use zara_rpc.Common.Result.{ok}
use zara_rpc.Status.Headers.{Header}
use zara_rpc.Runtime.Convert.{Scalar, Formats, text_kind, int_kind, text, int}
use zara_rpc.Runtime.Populate.{
  is_bound, set_query, Value, scalar, slice, struct, nil, ptr, Fields, no_fields, field, FieldInfo,
  populate_query,
}
use zara_rpc.Runtime.Substitute.{
  path_params_for, substitute_path_params_bound, field_value_by_name, proto_name,
}
use zara_rpc.Runtime.Query.{Printers, path_fields, is_sent, value_text, scalar_text}
use zara_rpc.Runtime.Query.Values.{text_holds, optional, elements}
use zara_rpc.Runtime.Query.RoundTrip.{Sends, done, kept, sent, Misses}
use zara_rpc.Client.Request.{MessageCodec, prepare_unary, with_query}
use zara_rpc.Client.Request.Laws.{prepare_unary-populate_query}

abbrev S : Type 0
S = Scalar (Unit {0}) (Unit {0})

abbrev formats : Formats (Unit {0}) (Unit {0})
formats = record {
  parse_float = λ s. none;
  parse_time = λ s. none;
  unix = λ t. pos 0;
  nanosecond = λ t. 0;
  decode64 = λ s. none;
}

abbrev printers : Printers (Unit {0}) (Unit {0})
printers = record {
  format_float = λ x. codes "0";
  sprint = λ v. codes "{}";
  sprint_time = λ t. codes "{}";
  sprint_bytes = λ b. codes "[]";
}

abbrev json : MessageCodec (Unit {0}) (Unit {0})
json = record { name = codes "application/json"; marshal = λ v. none }

abbrev id_info : FieldInfo
id_info = record { name = codes "Id"; tag = codes "id,omitempty"; is_exported = true }

abbrev note_info : FieldInfo
note_info = record { name = codes "Note"; tag = codes "note,omitempty"; is_exported = true }

abbrev tags_info : FieldInfo
tags_info = record { name = codes "Tags"; tag = []; is_exported = true }

abbrev state_info : FieldInfo
state_info = record { name = codes "state"; tag = []; is_exported = false }

-- The client's message, and the server's with the field of the path.
abbrev message : Value S → Value S → Fields S
message note tags = field state_info (struct no_fields) (
    field id_info (scalar (int_kind 64) (int (pos 7)))
      (field note_info note (field tags_info tags no_fields)))

abbrev sent_message : Fields S
sent_message =
    message (ptr (scalar text_kind (text (codes "a b"))))
      (slice text_kind (text (codes "x") ∷ text [] ∷ []))

abbrev seen_message : Fields S
seen_message = message (nil (scalar text_kind (text []))) (slice text_kind [])

message-Sends : Sends (codes "id" ∷ []) formats printers sent_message seen_message
unfolding is_sent proto_name Misses
message-Sends =
    kept refl ((λ h. absurd cc), ((λ h. refl), ((λ h. refl), tt)))
      (kept refl ((λ h. refl), ((λ h. refl), tt))
        (sent refl refl refl ((λ h. refl), tt) (optional text_holds)
          (sent refl refl refl tt (elements (text_holds, (text_holds, tt))) done)))

prepare_unary-populate_query_example :
    (q : Header) × (prepare_unary printers json
        (λ q. codes "q")
        (codes "/v1/{id}")
        []
        (ptr (struct sent_message))
      ≡ ok (with_query printers json (λ q. codes "q") (codes "/v1/7") q, none))
    × (path_params_for (codes "/v1/{id}") ≡ ok (codes "id" ∷ []))
    × (populate_query formats (codes "id" ∷ []) q (ptr (struct seen_message))
        ≡ ok (ptr (struct sent_message)))
unfolding substitute_path_params_bound path_fields field_value_by_name proto_name value_text
    scalar_text
prepare_unary-populate_query_example =
    prepare_unary-populate_query formats printers json (λ q. codes "q") (codes "/v1/{id}")
      (codes "/v1/7") (codes "id" ∷ []) sent_message seen_message refl message-Sends

populate_query-set_query_example :
    populate_query formats
      (bound_args (codes "id" ∷ []) (codes "note"))
      ((codes "Tags", codes "x" ∷ []) ∷ (codes "id", codes "8" ∷ []) ∷ [])
      (ptr (struct seen_message))
    ≡ set_query formats
        (is_bound formats ((codes "id", codes "7") ∷ []) (codes "note"))
        ((codes "Tags", codes "x" ∷ []) ∷ (codes "id", codes "8" ∷ []) ∷ [])
        (ptr (struct seen_message))
populate_query-set_query_example =
    populate_query-set_query formats ((codes "id", codes "7") ∷ []) (codes "note")
      ((codes "Tags", codes "x" ∷ []) ∷ (codes "id", codes "8" ∷ []) ∷ [])
      (ptr (struct seen_message)) (refl, (refl, tt))
