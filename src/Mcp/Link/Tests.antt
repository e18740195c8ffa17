-- ===== src/Mcp/Link/Tests.antt =====
-- A link that is created, and the checks on small requests.
use k_engram.Prelude.{ℕ, Bool, true, false, Option, none, some, [], ◌∷◌, ◌≡◌, refl, Result, ok}
use k_engram.Text.{Text, codes, byte_len, len_utf8, trim, is_whitespace, text_eq}
use k_engram.Core.Json.{
  Value, null, string, object, array, field, end, cons, nil, get, get_field, as_str, first_item,
  pointer_zero,
}
use k_engram.Core.Relation.{ThoughtId, thought, references}
use k_engram.Mcp.Link.{
  RelationSourceEventRequest, LinkThoughtsRequest, LinkThoughtsResponse, StorageError, Operation,
  EndpointRetractedDetail, side_unknown, is_target, validate_source_event, validate_target,
  is_sha256_payload_hash, is_lower_hex, validate_note,
}
use k_engram.Mcp.Link.Operations.{
  check_exists, check_target_exists, link_response, link_id_of, is_new_of, create_operation,
  link_thoughts,
}
use k_engram.Mcp.Link.Checks.{IsLinkable}
use k_engram.Mcp.Link.Create.{NoteFits, TargetExists, Requests, Answers, link_thoughts_ok}

abbrev id_of : ℕ → ThoughtId
id_of n = record { uuid = n }

abbrev event : RelationSourceEventRequest
event = record {
  namespace = codes "desk";
  source_ref = codes "1";
  payload_hash = codes "0123456789abcdef0123456789abcdef0123456789abcdef0123456789abcdef";
  event_metadata = null;
}

abbrev request : LinkThoughtsRequest
request = record {
  from_thought_id = id_of 1;
  relation = references;
  target = thought (id_of 2);
  note = some (codes "why");
  source_event = event;
  claimed_producer_class = none;
}

abbrev result : Value
result = object (
    field (codes "link_ids") (array (cons (string (codes "9")) nil)) (
      field (codes "operation_results")
        (array (cons (object (field (codes "outcome") (string (codes "created")) end)) nil)) end))

abbrev print_id : ℕ → Text
print_id n = n ∷ []

abbrev parse_id : Text → Option ℕ
parse_id [] = none
parse_id (c ∷ s) = some c

abbrev exists : ThoughtId → Result StorageError Bool
exists id = ok true

abbrev mutate : Operation → Result StorageError Value
mutate op = ok result

abbrev response : LinkThoughtsResponse
response = record {
  link_id = b'9';
  linked_from = id_of 1;
  linked_by = references;
  linked_to = thought (id_of 2);
  is_new = true;
}

linked : link_thoughts print_id parse_id exists mutate request ≡ ok response
unfolding link_thoughts validate_source_event validate_target is_sha256_payload_hash is_lower_hex
    validate_note check_exists check_target_exists link_response link_id_of is_new_of get get_field
    as_str first_item pointer_zero trim is_whitespace byte_len len_utf8 text_eq
linked = refl

link_thoughts_ok_example :
    (validate_source_event event ≡ ok tt)
    × IsLinkable (thought (id_of 2))
    × (is_target (thought (id_of 2)) (id_of 1) ≡ false)
    × NoteFits (some (codes "why"))
    × (exists (id_of 1) ≡ ok true)
    × TargetExists print_id parse_id exists mutate (thought (id_of 2))
    × ((answer : Value) × (mutate (create_operation print_id parse_id exists mutate request)
          ≡ ok answer)
        × Requests print_id parse_id exists mutate request
            (create_operation print_id parse_id exists mutate request)
        × Answers print_id parse_id exists mutate request answer response)
link_thoughts_ok_example = link_thoughts_ok print_id parse_id exists mutate request response linked

abbrev retracted : EndpointRetractedDetail
retracted = record { id = id_of 2; by_relation = none; side = side_unknown }
