-- ===== src/Mcp/Retract.antt =====
-- crates/kengram-mcp/src/retract.rs and `retract_thought` of crates/kengram-storage/src/lib.rs: the
-- answer of the retraction gate as a response or an error. The gate itself runs in the database.
pub mod Statuses
pub mod Tests
use k_engram.Prelude.{
  Bool, true, false, ◌||◌, Option, none, some, Result, ok, err, and_then, map_err, unwrap_or,
  if◌then◌else◌,
}
use k_engram.Text.{Text, codes, text_eq}
use k_engram.Core.Json.{Value, bool, get, str_of}
use k_engram.Core.Relation.{ThoughtId}

pub record RetractThoughtRequest : Type 0 where
  pub thought_id : ThoughtId
  pub reason : Option Text

-- `RetractThoughtOutcome` of the storage layer, and the response of the same shape.
pub record RetractThoughtResponse : Type 0 where
  pub retracted : Bool
  pub status : Text

pub data RetractError : Type 0 where
  not_found already_retracted chain_from_requires_unlink : ThoughtId → RetractError
  refused : ThoughtId → Text → RetractError
  storage : RetractError

-- `and_then(Value::as_bool)`.
abbrev pub bool_of : Option Value → Option Bool
bool_of (some (bool b)) = some b
bool_of _ = none

-- From the document of the gate, `None` if the statement fails.
unfoldable pub outcome_of : Value → RetractThoughtResponse
outcome_of result = record {
  retracted = unwrap_or (bool_of (get result (codes "retracted"))) false;
  status = unwrap_or (str_of (get result (codes "status"))) (codes "unknown");
}

abbrev pub error_of : ThoughtId → Text → RetractError
error_of id status =
    if text_eq status (codes "not_found")
    then not_found id
    else if text_eq status (codes "already_retracted")
    then already_retracted id
    else if text_eq status (codes "thought_chain_from_requires_unlink")
        || text_eq status (codes "thought_chain_participant_requires_repoint")
    then chain_from_requires_unlink id
    else refused id status

abbrev pub answer_of :
    ThoughtId → RetractThoughtResponse → Result RetractError RetractThoughtResponse
answer_of id outcome =
    if outcome.retracted
    then ok (record { retracted = true; status = outcome.status })
    else err (error_of id outcome.status)

abbrev pub gate_answer : ThoughtId → Option Value → Result RetractError RetractThoughtResponse
gate_answer id none = err storage
gate_answer id (some result) = answer_of id (outcome_of result)

-- `gate` is the serialized retraction in the database, none an error of its statement.
unfoldable pub retract_thought :
    (ThoughtId → Option Text → Option Value)
    → RetractThoughtRequest
    → Result RetractError RetractThoughtResponse
retract_thought gate request =
    gate_answer request.thought_id (gate request.thought_id request.reason)
