-- ===== src/Mcp/Capture.antt =====
-- crates/kengram-mcp/src/capture.rs: the capture of a thought through the database's gate, with the
-- loop that enters the gate again after a lost race. The request of the gate is that of
-- crates/kengram-storage/src/corpus_hygiene.rs. An f32 or f64 that is only passed on stands as the
-- number of its bits, a time as the number of its nanoseconds.
pub mod Gate
pub mod Recovery
pub mod Keyed
pub mod Recovered
pub mod Tests
pub mod Probes
pub mod Race
use k_engram.Prelude.{
  ℕ, zero, suc, ◌+◌, ◌-◌, ◌*◌, min, Bool, true, false, ◌||◌, List, [], ◌∷◌, ◌++◌, Option, none,
  some, Result, ok, err, and_then, map_err, ok_or, is_empty, ltb, leb, if◌then◌else◌, or_else,
  unwrap_or, map_some,
}
use k_engram.Text.{Text, codes, text_eq, byte_len, trim, contains}
use k_engram.Core.Json.{Value, Items, Fields, string, array, object, nil, cons, end, field}
use k_engram.Core.Label.{Scope, Source, global}
use k_engram.Core.Relation.{ThoughtId}

abbrev pub max_content_len : ℕ
max_content_len = 1048576

pub record ArgusSourceEventRequest : Type 0 where
  pub namespace : Text
  pub source_ref : Text
  pub payload_hash : Text
  pub metadata : Option Value

pub record CaptureRequest : Type 0 where
  pub content : Text
  pub source : Source
  pub scope : Option Scope
  pub metadata : Option Value
  pub argus_source_event : Option ArgusSourceEventRequest

pub record CaptureGateOptions : Type 0 where
  pub source_created_at : Option ℕ
  pub candidate_embedding : Option (List ℕ)
  pub bypass_reason : Option Value
  pub relation_intents : List Value
  pub claimed_producer_class : Option Text
  pub correlation_id : Option Text

pub record ArgusSourceEventResponse : Type 0 where
  pub action : Text
  pub namespace : Text
  pub source_ref : Text
  pub payload_hash : Text
  pub status : Text
  pub thought_id : Option ThoughtId

-- The status of the embedding is always `Pending`, and left out.
pub record CaptureResponse : Type 0 where
  pub thought_id : ThoughtId
  pub is_duplicate : Bool
  pub argus_source_event : Option ArgusSourceEventResponse
  pub dedup_kind : Option Text
  pub matched_thought_id : Option ThoughtId
  pub similarity : Option ℕ
  pub relation_results : Value
  pub gate_event_id : Option ℕ

-- An error of the storage layer: one that the database reports, with its SQLSTATE and constraint
-- where the driver gives them; a protocol error with its text; any other.
pub data StorageFailure : Type 0 where
  database : Option Text → Option Text → Text → StorageFailure
  protocol : Text → StorageFailure
  other : StorageFailure

pub data CaptureError : Type 0 where
  empty_content : CaptureError
  content_too_long : ℕ → ℕ → CaptureError
  invalid_argus_source_event : Text → CaptureError
  fingerprint_race_budget_exceeded : ℕ → CaptureError
  storage : StorageFailure → CaptureError

-- `GatedCaptureRequest` and `GatedCaptureResult`.
pub record GatedCaptureRequest : Type 0 where
  pub gate_scope : Text
  pub gate_content : Text
  pub gate_source : Text
  pub gate_metadata : Value
  pub gate_created_at : Option ℕ
  pub gate_embedding : Option (List ℕ)
  pub embedding_model_id : Option Text
  pub embedding_model_version : Option ℕ
  pub gate_bypass : Option Value
  pub source_event_namespace : Option Text
  pub source_event_ref : Option Text
  pub source_event_payload_hash : Option Text
  pub source_event_metadata : Option Value
  pub gate_intents : Value
  pub tagger_model_id : Option Text
  pub gate_class : Option Text
  pub gate_correlation : Option Text
  pub force_keep_token : Option Text

pub record GatedCaptureResult : Type 0 where
  pub result_thought : Option ℕ
  pub result_action : Text
  pub result_matched : Option ℕ
  pub result_similarity : Option ℕ
  pub source_event_status : Option Text
  pub source_event_action : Option Text
  pub result_relations : Value
  pub result_gate_event : Option ℕ

abbrev pub fingerprint_unique : Text
fingerprint_unique = codes "thoughts_content_fingerprint_unique"

abbrev pub names_fingerprint : Option Text → Text → Bool
names_fingerprint (some name) message = text_eq name fingerprint_unique
names_fingerprint none message = contains fingerprint_unique message

abbrev pub is_code : Option Text → Text → Bool
is_code none code = false
is_code (some c) code = text_eq c code

unfoldable pub is_fingerprint_unique_violation_parts : Option Text → Option Text → Text → Bool
is_fingerprint_unique_violation_parts code constraint message =
    if is_code code (codes "23505") then names_fingerprint constraint message else false

-- `storage_is_fingerprint_unique_violation`, through both layers of the error.
unfoldable pub is_fingerprint_race : StorageFailure → Bool
unfolding is_fingerprint_unique_violation_parts
is_fingerprint_race (database code constraint message) =
    is_fingerprint_unique_violation_parts code constraint message
is_fingerprint_race (protocol message) = false
is_fingerprint_race other = false

-- The three tests of a source event, in their order.
unfoldable pub check_source_event : ArgusSourceEventRequest → Result CaptureError (Unit {0})
check_source_event event =
    if is_empty (trim event.namespace)
    then err (invalid_argus_source_event (codes "namespace is required"))
    else if is_empty (trim event.source_ref)
    then err (invalid_argus_source_event (codes "source_ref is required"))
    else if is_empty (trim event.payload_hash)
    then err (invalid_argus_source_event (codes "payload_hash is required"))
    else ok tt

abbrev pub check_event : Option ArgusSourceEventRequest → Result CaptureError (Unit {0})
check_event none = ok tt
check_event (some event) = check_source_event event

abbrev pub items_of : List Value → Items
items_of [] = nil
items_of (v ∷ vs) = cons v (items_of vs)

abbrev pub metadata_of : Option ArgusSourceEventRequest → Option Value
metadata_of none = none
metadata_of (some event) = event.metadata

abbrev pub default_bypass : Value
default_bypass = object (
    field (codes "code") (string (codes "candidate_embedding_unavailable")) (
      field (codes "detail")
        (string (codes "capture caller did not provide a synchronous bge-m3 vector")) end))

-- A caller without a vector always has a reason.
abbrev pub bypass_of : Option (List ℕ) → Option Value → Option Value
bypass_of none reason = some (unwrap_or reason default_bypass)
bypass_of (some vector) reason = reason

-- The request that `run_gate` makes.
unfoldable pub gate_request :
    Text → Option Text → ℕ → CaptureRequest → CaptureGateOptions → GatedCaptureRequest
gate_request embedder_model_id tagger now_utc request options =
    let event = request.argus_source_event in
    record {
      gate_scope = (unwrap_or request.scope global).text;
      gate_content = request.content;
      gate_source = request.source.text;
      gate_metadata = unwrap_or request.metadata (object end);
      gate_created_at = or_else options.source_created_at (some now_utc);
      gate_embedding = options.candidate_embedding;
      embedding_model_id = some embedder_model_id;
      embedding_model_version = some 1;
      gate_bypass = bypass_of options.candidate_embedding options.bypass_reason;
      source_event_namespace = map_some (λ e. e.namespace) event;
      source_event_ref = map_some (λ e. e.source_ref) event;
      source_event_payload_hash = map_some (λ e. e.payload_hash) event;
      source_event_metadata = metadata_of event;
      gate_intents = array (items_of options.relation_intents);
      tagger_model_id = tagger;
      gate_class = options.claimed_producer_class;
      gate_correlation = options.correlation_id;
      force_keep_token = none;
    }
