-- ===== src/Mcp/Capture/Gate.antt =====
-- The loop of `capture_with_gate_options` in crates/kengram-mcp/src/capture.rs and the response made
-- of the gate's answer.
use k_engram.Prelude.{
  ◌≤◌, ℕ, zero, suc, ◌+◌, ◌-◌, ◌*◌, min, Bool, ◌||◌, [], ◌++◌, Option, none, some, Result, ok, err,
  and_then, is_empty, ltb, leb, if◌then◌else◌, or_else, unwrap_or, map_some,
}
use k_engram.Text.{Text, codes, text_eq, byte_len}
use k_engram.Core.Relation.{ThoughtId}
use k_engram.Mcp.Capture.{
  CaptureRequest, CaptureGateOptions, CaptureResponse, ArgusSourceEventRequest,
  ArgusSourceEventResponse, StorageFailure, protocol, CaptureError, empty_content, content_too_long,
  fingerprint_race_budget_exceeded, storage, GatedCaptureRequest, GatedCaptureResult,
  max_content_len, is_fingerprint_race, check_event, gate_request,
}

-- `FINGERPRINT_RACE_BUDGET` in milliseconds, and a millisecond in nanoseconds.
abbrev pub race_budget_ms : ℕ
race_budget_ms = 2000

abbrev pub nanos_of_ms : ℕ → ℕ
nanos_of_ms ms = ms * 1000000

-- What `timeout` and the database do is not the program's: the answer of the gate when it is called
-- for the i-th time, the time at which that call has ended if it began at `t`, and the time at which
-- the sleep behind it has ended if it should end at `t`.
pub record Environment : Type 0 where
  pub gate : ℕ → GatedCaptureRequest → Result StorageFailure GatedCaptureResult
  pub gate_end : ℕ → ℕ → ℕ
  pub wake : ℕ → ℕ → ℕ

-- Time does not run backwards, and a sleep lasts at least as long as it was asked for.
pub record IsTimely (env : Environment) : Type 0 where
  pub gate_ends_later : (i t : ℕ) → t ≤ env.gate_end i t
  pub wakes_later : (i t : ℕ) → t ≤ env.wake i t

module _ (env : Environment) (request : GatedCaptureRequest) (deadline : ℕ) where
  abbrev pub wake_time : ℕ → ℕ → ℕ → ℕ
  wake_time i now backoff_ms = env.wake i (now + min (nanos_of_ms backoff_ms) (deadline - now))

  -- From the answer `gated` of call `i`, which has come at `now`; none is the end of the fuel.
  unfoldable pub race_loop :
      ℕ
      → ℕ
      → ℕ
      → ℕ
      → Result StorageFailure GatedCaptureResult
      → Option (Result CaptureError GatedCaptureResult)
  race_loop zero i now backoff_ms gated = none
  race_loop (suc fuel) i now backoff_ms (ok result) = some (ok result)
  race_loop (suc fuel) i now backoff_ms (err e) =
      let again =
        race_loop fuel (i + 1) (env.gate_end (i + 1) (wake_time i now backoff_ms))
          (min (backoff_ms * 2) 32) (env.gate (i + 1) request) in
      if is_fingerprint_race e
      then (if leb deadline now
          then some (err (fingerprint_race_budget_exceeded race_budget_ms))
          else again)
      else some (err (storage e))

-- Two thousand sleeps of a millisecond end at the deadline, and one more answer finds it passed.
abbrev pub race_fuel : ℕ
race_fuel = 2001

unfoldable pub run_gate_until_settled :
    Environment → ℕ → GatedCaptureRequest → Option (Result CaptureError GatedCaptureResult)
run_gate_until_settled env start request =
    race_loop env request (start + nanos_of_ms race_budget_ms) race_fuel 0 (env.gate_end 0 start) 1
      (env.gate 0 request)

abbrev pub thought_of : ℕ → ThoughtId
thought_of u = record { uuid = u }

-- `matches!(action, "exact_duplicate" | "semantic_duplicate")`.
unfoldable pub is_duplicate_action : Text → Bool
is_duplicate_action action =
    text_eq action (codes "exact_duplicate") || text_eq action (codes "semantic_duplicate")

abbrev pub replay_named : Text → Text
replay_named action = if text_eq action (codes "replay") then codes "duplicate_skip" else action

abbrev pub event_action : Option Text → Text → Text
event_action (some action) gate_action = replay_named action
event_action none gate_action = gate_action

unfoldable pub event_response :
    GatedCaptureResult → ThoughtId → ArgusSourceEventRequest → ArgusSourceEventResponse
event_response result id event = record {
  action = event_action result.source_event_action result.result_action;
  namespace = event.namespace;
  source_ref = event.source_ref;
  payload_hash = event.payload_hash;
  status = unwrap_or result.source_event_status (codes "stored");
  thought_id = some id;
}

abbrev pub then_some {ℓ} : {A : Type ℓ} → Bool → A → Option A
then_some b a = if b then some a else none

abbrev pub capture_response_of :
    Option ArgusSourceEventRequest → GatedCaptureResult → ThoughtId → CaptureResponse
capture_response_of event result id = record {
  thought_id = id;
  is_duplicate = is_duplicate_action result.result_action;
  argus_source_event = map_some (event_response result id) event;
  dedup_kind = then_some (is_duplicate_action result.result_action) result.result_action;
  matched_thought_id = map_some thought_of result.result_matched;
  similarity = result.result_similarity;
  relation_results = result.result_relations;
  gate_event_id = result.result_gate_event;
}

abbrev pub response_for :
    Option ArgusSourceEventRequest
    → GatedCaptureResult
    → Option ℕ
    → Result CaptureError CaptureResponse
response_for event result none = err (
    storage (
      protocol (
        codes "capture gate returned action="
        ++ result.result_action
        ++ codes " without thought_id")))
response_for event result (some u) = ok (capture_response_of event result (thought_of u))

unfoldable pub capture_response :
    Option ArgusSourceEventRequest → GatedCaptureResult → Result CaptureError CaptureResponse
capture_response event result =
    response_for event result (or_else result.result_thought result.result_matched)

-- The tests before the gate is entered.
unfoldable pub validate_capture : CaptureRequest → Result CaptureError (Unit {0})
validate_capture request =
    if is_empty request.content
    then err empty_content
    else if ltb max_content_len (byte_len request.content)
    then err (content_too_long (byte_len request.content) max_content_len)
    else check_event request.argus_source_event

abbrev pub settled :
    Option ArgusSourceEventRequest
    → Result CaptureError GatedCaptureResult
    → Result CaptureError CaptureResponse
settled event gated = and_then gated (capture_response event)

abbrev pub validated :
    Result CaptureError (Unit {0})
    → Option (Result CaptureError CaptureResponse)
    → Option (Result CaptureError CaptureResponse)
validated (err e) rest = some (err e)
validated (ok u) rest = rest

-- `start` is the reading of the clock before the first call of the gate, `now_utc` the time of day.
unfoldable pub capture_with_gate_options :
    Environment
    → ℕ
    → Text
    → Option Text
    → ℕ
    → CaptureRequest
    → CaptureGateOptions
    → Option (Result CaptureError CaptureResponse)
capture_with_gate_options env start embedder_model_id tagger now_utc request options =
    validated (validate_capture request) (
      map_some (settled request.argus_source_event) (
        run_gate_until_settled env start
          (gate_request embedder_model_id tagger now_utc request options)))

-- `CaptureGateOptions::default()`.
abbrev pub default_options : CaptureGateOptions
default_options = record {
  source_created_at = none;
  candidate_embedding = none;
  bypass_reason = none;
  relation_intents = [];
  claimed_producer_class = none;
  correlation_id = none;
}

unfoldable pub capture :
    Environment
    → ℕ
    → Text
    → Option Text
    → ℕ
    → CaptureRequest
    → Option (Result CaptureError CaptureResponse)
capture env start embedder_model_id tagger now_utc request =
    capture_with_gate_options env start embedder_model_id tagger now_utc request default_options
