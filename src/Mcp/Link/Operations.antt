-- ===== src/Mcp/Link/Operations.antt =====
-- The two operations of crates/kengram-mcp/src/link.rs, over the serialized mutation, and how they read
-- its result and its errors.
use k_engram.Prelude.{
  ℕ, Bool, true, false, Option, none, some, if◌then◌else◌, Result, ok, err, and_then, map_err,
  ok_or,
}
use k_engram.Text.{Text, codes, text_eq, trim, strip_prefix}
use k_engram.Core.Json.{Value, get, str_of, first_item, pointer_zero, then_value}
use k_engram.Core.Relation.{
  RelationKind, ThoughtId, LinkTarget, thought, as_str as relation_str, kind_str, value_str,
}
use k_engram.Mcp.Link.{
  RelationSourceEventRequest, LinkThoughtsRequest, LinkThoughtsResponse, UnlinkStatus, StorageError,
  LinkError, Checked, Operation, validate_source_event, validate_target, is_target, validate_note,
  enrich_endpoint_retracted_parts, deleted_now, already_deleted, never_existed, side_unknown,
  database, protocol, self_link, from_thought_missing, to_thought_missing, endpoint_retracted,
  storage, source_event_conflict,
}

module _ (print_uuid : ℕ → Text) (parse_uuid : Text → Option ℕ) where
  abbrev parsed_rest : Option Text → Option ℕ
  parsed_rest none = none
  parsed_rest (some rest) = parse_uuid (trim rest)

  -- The two messages of the gate that name an endpoint.
  abbrev classify_message : StorageError → Option ℕ → Option ℕ → LinkError
  classify_message e (some id) missing =
      endpoint_retracted
        (record { id = record { uuid = id }; by_relation = none; side = side_unknown })
  classify_message e none (some id) = to_thought_missing (record { uuid = id })
  classify_message e none none = storage e

  unfoldable pub classify_link_storage_error : StorageError → LinkError
  classify_link_storage_error (database message) =
      classify_message (database message)
        (parsed_rest (strip_prefix (codes "relation_endpoint_retracted:") message))
        (parsed_rest (strip_prefix (codes "relation_endpoint_missing:") message))
  classify_link_storage_error e = storage e

  -- `result.get("link_ids")…parse_str(id).ok()`.
  unfoldable pub link_id_of : Value → Option ℕ
  link_id_of result = elim (str_of (then_value (get result (codes "link_ids")) first_item)) [
    | none ↦ none
    | some id ↦ parse_uuid id
  ]

  abbrev created_outcome : Option Text → Result LinkError Bool
  created_outcome none = err (storage (protocol (codes "no durable outcome")))
  created_outcome (some outcome) =
      if text_eq outcome (codes "created")
      then ok true
      else if text_eq outcome (codes "already_live")
      then ok false
      else err (storage (protocol (codes "no durable outcome")))

  -- `result.pointer("/operation_results/0/outcome")`.
  unfoldable pub is_new_of : Value → Result LinkError Bool
  is_new_of result = created_outcome (
      str_of (
        then_value (then_value (get result (codes "operation_results")) pointer_zero)
          (λ v. get v (codes "outcome"))))

  abbrev pub is_conflict : Value → Bool
  is_conflict result = elim (str_of (get result (codes "status"))) [
    | none ↦ false
    | some status ↦ text_eq status (codes "source_event_conflict")
  ]

  module _ (exists : ThoughtId → Result StorageError Bool)
      (mutate : Operation → Result StorageError Value) where
    -- `fetch_thought(…).await?.is_none()`.
    unfoldable pub check_exists : ThoughtId → LinkError → Checked
    check_exists id missing =
        and_then (map_err storage (exists id)) (λ found. if found then ok tt else err missing)

    unfoldable pub check_target_exists : LinkTarget → Checked
    check_target_exists (thought to) = check_exists to (to_thought_missing to)
    check_target_exists _ = ok tt

    unfoldable pub create_operation : LinkThoughtsRequest → Operation
    create_operation request = record {
      action = codes "create";
      op_from = request.from_thought_id;
      op_relation = relation_str request.relation;
      to_kind = kind_str request.target;
      to_value = value_str print_uuid request.target;
      op_source = codes "agent";
      op_note = request.note;
      event = request.source_event;
      op_class = request.claimed_producer_class;
    }

    -- From the result of the mutation to the response.
    unfoldable pub link_response :
        LinkThoughtsRequest → Value → Result LinkError LinkThoughtsResponse
    link_response request result =
        if is_conflict result
        then err source_event_conflict
        else and_then (ok_or (link_id_of result) (storage (protocol (codes "no link id"))))
            (λ link_id. and_then (is_new_of result) (λ is_new. ok (record {
              link_id = link_id;
              linked_from = request.from_thought_id;
              linked_by = request.relation;
              linked_to = request.target;
              is_new = is_new;
            })))

    unfoldable pub link_thoughts : LinkThoughtsRequest → Result LinkError LinkThoughtsResponse
    link_thoughts request = and_then (validate_source_event request.source_event) (λ _.
        and_then (validate_target request.target) (λ _.
          if is_target request.target request.from_thought_id
          then err self_link
          else and_then (validate_note request.note) (λ _.
            and_then
              (check_exists request.from_thought_id (from_thought_missing request.from_thought_id))
              (λ _. and_then (check_target_exists request.target) (λ _.
                and_then
                  (map_err
                    (λ e.
                      enrich_endpoint_retracted_parts (classify_link_storage_error e)
                        request.from_thought_id request.relation request.target)
                    (mutate (create_operation request)))
                  (link_response request))))))

    abbrev unlink_outcome : Option Text → Result LinkError UnlinkStatus
    unlink_outcome none = err (storage (protocol (codes "no durable outcome")))
    unlink_outcome (some outcome) =
        if text_eq outcome (codes "deleted_now")
        then ok deleted_now
        else if text_eq outcome (codes "already_deleted")
        then ok already_deleted
        else if text_eq outcome (codes "never_existed")
        then ok never_existed
        else err (storage (protocol (codes "no durable outcome")))

    unfoldable pub unlink_status : Value → Result LinkError UnlinkStatus
    unlink_status result =
        if is_conflict result
        then err source_event_conflict
        else unlink_outcome (
            str_of (
              then_value (then_value (get result (codes "operation_results")) first_item)
                (λ v. get v (codes "outcome"))))

    unfoldable pub unlink_thoughts :
        ThoughtId
        → RelationKind
        → LinkTarget
        → RelationSourceEventRequest
        → Option Text
        → Result LinkError UnlinkStatus
    unlink_thoughts from relation target source_event claimed =
        and_then (validate_source_event source_event) (λ _.
          and_then
            (map_err
              (λ e.
                enrich_endpoint_retracted_parts (classify_link_storage_error e) from relation
                  target)
              (mutate (record {
                action = codes "delete";
                op_from = from;
                op_relation = relation_str relation;
                to_kind = kind_str target;
                to_value = value_str print_uuid target;
                op_source = codes "agent";
                op_note = none;
                event = source_event;
                op_class = claimed;
              })))
            unlink_status)
