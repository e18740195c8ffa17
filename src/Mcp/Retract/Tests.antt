-- ===== src/Mcp/Retract/Tests.antt =====
-- A retraction of a thought that is retracted already.
use k_engram.Prelude.{true, false, none, some, ◌≡◌, refl, ◌↔◌, ok, err}
use k_engram.Text.{codes, text_eq}
use k_engram.Core.Json.{Value, string, bool, object, field, end, null, get, as_str, get_field}
use k_engram.Mcp.Retract.{
  RetractThoughtRequest, outcome_of, retract_thought, not_found, already_retracted,
  chain_from_requires_unlink, refused,
}
use k_engram.Mcp.Retract.Statuses.{retract_thought_iff}

abbrev request : RetractThoughtRequest
request = record { thought_id = record { uuid = 4 }; reason = none }

abbrev repeated : Value
repeated = object (
    field (codes "retracted") (bool false)
      (field (codes "status") (string (codes "already_retracted")) end))

retract_linked :
    retract_thought
      (λ id reason.
        some (
          object
            (field (codes "status") (string (codes "thought_chain_from_requires_unlink")) end)))
      request
    ≡ err (chain_from_requires_unlink (record { uuid = 4 }))
unfolding retract_thought outcome_of get get_field as_str text_eq
retract_linked = refl

-- An answer of another shape is refused as `unknown`.
retract_unknown :
    retract_thought (λ id reason. some null) request
    ≡ err (refused (record { uuid = 4 }) (codes "unknown"))
unfolding retract_thought outcome_of get get_field as_str text_eq
retract_unknown = refl

retract_thought_iff_example :
    ((retract_thought (λ id reason. some repeated) request
        ≡ ok (record { retracted = true; status = (outcome_of repeated).status }))
      ↔ ((outcome_of repeated).retracted ≡ true))
    × ((retract_thought (λ id reason. some repeated) request
          ≡ err (not_found (record { uuid = 4 })))
        ↔ (((outcome_of repeated).retracted ≡ false)
            × ((outcome_of repeated).status ≡ codes "not_found")))
    × ((retract_thought (λ id reason. some repeated) request
          ≡ err (already_retracted (record { uuid = 4 })))
        ↔ (((outcome_of repeated).retracted ≡ false)
            × ((outcome_of repeated).status ≡ codes "already_retracted")))
retract_thought_iff_example = retract_thought_iff (λ id reason. some repeated) request repeated refl
