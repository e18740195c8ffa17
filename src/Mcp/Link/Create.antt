-- ===== src/Mcp/Link/Create.antt =====
-- What `link_thoughts` of crates/kengram-mcp/src/link.rs promises when it answers with a link.
use k_engram.Prelude.{
  ℕ, ◌≤◌, Bool, true, false, Option, none, some, ◌≡◌, refl, sym, ◌∙◌, ap, arith, if◌then◌else◌,
  Result, ok, err, map_err, ok_or, and_then_ok, if_err_ok, if_ok_err, map_err_ok, ok_or_ok,
  ok_injective,
}
use k_engram.Text.{Text, codes, byte_len}
use k_engram.Core.Json.{Value}
use k_engram.Core.Relation.{
  ThoughtId, LinkTarget, thought, entity, person, url, as_str, from_str, kind_str, value_str,
}
use k_engram.Core.Relation.Spelling.{from_str_iff}
use k_engram.Mcp.Link.{
  LinkError, StorageError, storage, Operation, LinkThoughtsRequest, LinkThoughtsResponse,
  max_link_note_len, is_target, validate_source_event, validate_target, validate_note,
  from_thought_missing, to_thought_missing, self_link, source_event_conflict,
}
use k_engram.Mcp.Link.Operations.{
  is_conflict, link_id_of, is_new_of, check_exists, check_target_exists, create_operation,
  link_response, link_thoughts,
}
use k_engram.Mcp.Link.Checks.{IsLinkable, validate_target_iff}

abbrev pub NoteFits : Option Text → Type 0
NoteFits none = Unit
NoteFits (some note) = byte_len note ≤ max_link_note_len

validate_note_ok : (note : Option Text) → validate_note note ≡ ok tt → NoteFits note
unfolding validate_note
validate_note_ok none e = tt
validate_note_ok (some note) e = ground arith

module _ (print_uuid : ℕ → Text) (parse_uuid : Text → Option ℕ)
    (exists : ThoughtId → Result StorageError Bool)
    (mutate : Operation → Result StorageError Value) where
  abbrev pub TargetExists : LinkTarget → Type 0
  TargetExists (thought to) = exists to ≡ ok true
  TargetExists _ = Unit

  check_exists_ok :
      (id : ThoughtId) (missing : LinkError)
      → check_exists print_uuid parse_uuid exists mutate id missing ≡ ok tt
      → exists id ≡ ok true
  unfolding check_exists
  check_exists_ok id missing e =
      let (found, answered, h) =
        and_then_ok (map_err storage (exists id)) (λ found. if found then ok tt else err missing) tt
          e in
      map_err_ok storage (exists id) found answered ∙ ap ok (if_ok_err found missing (ok tt) tt h).0

  check_target_exists_ok :
      (target : LinkTarget)
      → check_target_exists print_uuid parse_uuid exists mutate target ≡ ok tt
      → TargetExists target
  unfolding check_target_exists
  check_target_exists_ok (thought to) e = check_exists_ok to (to_thought_missing to) e
  check_target_exists_ok (entity name) e = tt
  check_target_exists_ok (person name) e = tt
  check_target_exists_ok (url u) e = tt

  -- The response says what the result of the mutation says.
  abbrev pub Answers : LinkThoughtsRequest → Value → LinkThoughtsResponse → Type 0
  Answers request result response =
      (is_conflict print_uuid parse_uuid result ≡ false)
      × (link_id_of print_uuid parse_uuid result ≡ some response.link_id)
      × (is_new_of print_uuid parse_uuid result ≡ ok response.is_new)
      × (response.linked_from ≡ request.from_thought_id)
      × (response.linked_by ≡ request.relation)
      × (response.linked_to ≡ request.target)

  -- The operation is the creation of the requested edge by an agent, under its source event.
  abbrev pub Requests : LinkThoughtsRequest → Operation → Type 0
  Requests request op =
      (op.action ≡ codes "create")
      × (op.op_from ≡ request.from_thought_id)
      × (from_str op.op_relation ≡ ok request.relation)
      × (op.to_kind ≡ kind_str request.target)
      × (op.to_value ≡ value_str print_uuid request.target)
      × (op.op_source ≡ codes "agent")
      × (op.op_note ≡ request.note)
      × (op.event ≡ request.source_event)
      × (op.op_class ≡ request.claimed_producer_class)

  create_operation-Requests :
      (request : LinkThoughtsRequest)
      → Requests request (create_operation print_uuid parse_uuid exists mutate request)
  unfolding create_operation
  create_operation-Requests request = (
    refl,
    refl,
    (from_str_iff (as_str request.relation) request.relation).1 refl,
    refl,
    refl,
    refl,
    refl,
    refl,
    refl,
  )

  link_response_ok :
      (request : LinkThoughtsRequest) (result : Value) (response : LinkThoughtsResponse)
      → link_response print_uuid parse_uuid exists mutate request result ≡ ok response
      → Answers request result response
  unfolding link_response
  link_response_ok request result response e =
      let (calm, e₁) =
        if_err_ok (is_conflict print_uuid parse_uuid result) source_event_conflict _ response e in
      let (id, id_ok, e₂) =
        and_then_ok (ok_or (link_id_of print_uuid parse_uuid result) _) _ response e₁ in
      let (new, new_ok, e₃) = and_then_ok (is_new_of print_uuid parse_uuid result) _ response e₂ in
      let made = ok_injective e₃ in
      (
        calm,
        ok_or_ok (link_id_of print_uuid parse_uuid result) _ id id_ok
            ∙ ap (λ r. some r.link_id) made,
        new_ok ∙ ap (λ r. ok r.is_new) made,
        sym (ap (λ r. r.linked_from) made),
        sym (ap (λ r. r.linked_by) made),
        sym (ap (λ r. r.linked_to) made),
      )

  -- An answer of link_thoughts means: the source event and the target are acceptable, the link is
  -- not to the thought itself, the note has at most 1000 bytes, both thoughts exist, and the one
  -- operation of the request, the creation of its edge by an agent under its source event, was
  -- carried out without a conflict; the answer has the result's id and novelty and the request's end
  -- points.
  pub link_thoughts_ok :
      (request : LinkThoughtsRequest) (response : LinkThoughtsResponse)
      → link_thoughts print_uuid parse_uuid exists mutate request ≡ ok response
      → (validate_source_event request.source_event ≡ ok tt)
        × IsLinkable request.target
        × (is_target request.target request.from_thought_id ≡ false)
        × NoteFits request.note
        × (exists request.from_thought_id ≡ ok true)
        × TargetExists request.target
        × ((result : Value) × (mutate (create_operation print_uuid parse_uuid exists mutate request)
              ≡ ok result)
            × Requests request (create_operation print_uuid parse_uuid exists mutate request)
            × Answers request result response)
  unfolding link_thoughts
  link_thoughts_ok request response e =
      let (_, event_ok, e₁) =
        and_then_ok (validate_source_event request.source_event) _ response e in
      let (_, target_ok, e₂) = and_then_ok (validate_target request.target) _ response e₁ in
      let (not_self, e₃) =
        if_err_ok (is_target request.target request.from_thought_id) self_link _ response e₂ in
      let (_, note_ok, e₄) = and_then_ok (validate_note request.note) _ response e₃ in
      let (_, from_ok, e₅) =
        and_then_ok
          (check_exists print_uuid parse_uuid exists mutate request.from_thought_id
            (from_thought_missing request.from_thought_id))
          _ response e₄ in
      let (_, to_ok, e₆) =
        and_then_ok (check_target_exists print_uuid parse_uuid exists mutate request.target) _
          response e₅ in
      let (result, mutated, e₇) =
        and_then_ok _ (link_response print_uuid parse_uuid exists mutate request) response e₆ in
      (
        event_ok,
        (validate_target_iff request.target).0 target_ok,
        not_self,
        validate_note_ok request.note note_ok,
        check_exists_ok request.from_thought_id (from_thought_missing request.from_thought_id)
            from_ok,
        check_target_exists_ok request.target to_ok,
        (
          result,
          map_err_ok _ (mutate (create_operation print_uuid parse_uuid exists mutate request))
              result mutated,
          create_operation-Requests request,
          link_response_ok request result response e₇,
        ),
      )
