-- ===== src/Mcp/Retract/Statuses.antt =====
-- A refused retraction is never reported as a missing thought.
use k_engram.Prelude.{true, false, ◌≡◌, arith, ◌↔◌, Option, some, ok, err}
use k_engram.Text.{Text, codes}
use k_engram.Text.Laws.{text_eq_iff}
use k_engram.Core.Json.{Value}
use k_engram.Core.Relation.{ThoughtId}
use k_engram.Mcp.Retract.{
  RetractThoughtRequest, RetractThoughtResponse, not_found, already_retracted, outcome_of,
  answer_of, retract_thought,
}

-- The statuses are told apart.
answer_iff :
    (id : ThoughtId) (outcome : RetractThoughtResponse)
    → ((answer_of id outcome ≡ ok (record { retracted = true; status = outcome.status }))
        ↔ (outcome.retracted ≡ true))
      × ((answer_of id outcome ≡ err (not_found id))
          ↔ ((outcome.retracted ≡ false) × (outcome.status ≡ codes "not_found")))
      × ((answer_of id outcome ≡ err (already_retracted id))
          ↔ ((outcome.retracted ≡ false) × (outcome.status ≡ codes "already_retracted")))
answer_iff id outcome =
    let is_missing = text_eq_iff outcome.status (codes "not_found") in
    let is_repeated = text_eq_iff outcome.status (codes "already_retracted") in
    let apart = text_eq_iff (codes "not_found") (codes "already_retracted") in
    (
      (λ e. ground (arith, e), λ e. ground (arith, e)),
      (λ e. ground (arith, is_missing, e), λ e. ground (arith, is_missing, e)),
      (
        λ e. ground (arith, is_missing, is_repeated, e),
        λ e. ground (arith, is_missing, is_repeated, apart, e),
      ),
    )

-- If the gate answers, the retraction succeeds exactly if the gate says so, and its caller sees a
-- missing thought exactly if it was refused with that status, and an earlier retraction likewise.
pub retract_thought_iff :
    (gate : ThoughtId → Option Text → Option Value) (request : RetractThoughtRequest)
    (result : Value)
    → gate request.thought_id request.reason ≡ some result
    → ((retract_thought gate request
          ≡ ok (record { retracted = true; status = (outcome_of result).status }))
        ↔ ((outcome_of result).retracted ≡ true))
      × ((retract_thought gate request ≡ err (not_found request.thought_id)) ↔ (
          ((outcome_of result).retracted ≡ false)
          × ((outcome_of result).status ≡ codes "not_found")))
      × ((retract_thought gate request ≡ err (already_retracted request.thought_id)) ↔ (
          ((outcome_of result).retracted ≡ false)
          × ((outcome_of result).status ≡ codes "already_retracted")))
unfolding retract_thought
retract_thought_iff gate request result answered =
    rw answered (answer_iff request.thought_id (outcome_of result))
