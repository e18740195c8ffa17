-- ===== src/Mcp/Capture/Tests.antt =====
-- A capture that loses one race, and recoveries after the deadline.
use k_engram.Prelude.{
  ℕ, suc, zero, ◌+◌, ◌<◌, true, false, [], none, some, ◌≡◌, ◌≢◌, refl, arith, Result, ok, err,
}
use k_engram.Text.{codes, text_eq, byte_len, len_utf8, trim}
use k_engram.Core.Json.{array, nil}
use k_engram.Mcp.Capture.{
  CaptureRequest, CaptureResponse, ArgusSourceEventRequest, StorageFailure, database, other,
  empty_content, storage, GatedCaptureResult, fingerprint_unique, is_fingerprint_race,
  is_fingerprint_unique_violation_parts, check_source_event, gate_request,
}
use k_engram.Mcp.Capture.Gate.{
  Environment, IsTimely, race_loop, run_gate_until_settled, capture_response, event_response,
  is_duplicate_action, validate_capture, capture_with_gate_options, default_options, thought_of,
  capture,
}
use k_engram.Mcp.Capture.Race.{
  IsAcceptable, IsResponse, LostRace, capture_with_gate_options_ok,
  capture_with_gate_options_settles,
}

abbrev event : ArgusSourceEventRequest
event = record {
  namespace = codes "a";
  source_ref = codes "r";
  payload_hash = codes "h";
  metadata = none;
}

abbrev request : CaptureRequest
request = record {
  content = codes "note";
  source = record { text = codes "cli" };
  scope = none;
  metadata = none;
  argus_source_event = some event;
}

abbrev stored : GatedCaptureResult
stored = record {
  result_thought = some 7;
  result_action = codes "exact_duplicate";
  result_matched = some 7;
  result_similarity = none;
  source_event_status = none;
  source_event_action = some (codes "replay");
  result_relations = array nil;
  result_gate_event = some 9;
}

abbrev lost : StorageFailure
lost = database (some (codes "23505")) (some fingerprint_unique) []

abbrev answer : ℕ → Result StorageFailure GatedCaptureResult
answer zero = err lost
answer (suc n) = ok stored

-- Each call takes a microsecond, and a sleep ends when it should.
abbrev env : Environment
env = record { gate = λ i g. answer i; gate_end = λ i t. t + 1000; wake = λ i t. t }

env-IsTimely : IsTimely env
env-IsTimely = record { gate_ends_later = λ i t. omega arith; wakes_later = λ i t. omega arith }

abbrev response : CaptureResponse
response = record {
  thought_id = thought_of 7;
  is_duplicate = true;
  argus_source_event = some (record {
    action = codes "duplicate_skip";
    namespace = codes "a";
    source_ref = codes "r";
    payload_hash = codes "h";
    status = codes "stored";
    thought_id = some (thought_of 7);
  });
  dedup_kind = some (codes "exact_duplicate");
  matched_thought_id = some (thought_of 7);
  similarity = none;
  relation_results = array nil;
  gate_event_id = some 9;
}

capture_second_call :
    capture_with_gate_options env 0 (codes "m") none 5 request default_options ≡ some (ok response)
unfolding capture_with_gate_options validate_capture run_gate_until_settled race_loop
    is_fingerprint_race check_source_event capture_response event_response is_duplicate_action
    byte_len len_utf8 trim text_eq
capture_second_call = refl

capture_empty :
    capture env 0 (codes "m") none 5 (record request { content = [] }) ≡ some (err empty_content)
unfolding capture capture_with_gate_options validate_capture
capture_empty = refl

-- Another failure is not tried again.
capture_other :
    capture (record env { gate = λ i g. err other }) 0 (codes "m") none 5 request
    ≡ some (err (storage other))
unfolding capture capture_with_gate_options validate_capture run_gate_until_settled race_loop
    is_fingerprint_race check_source_event byte_len len_utf8 trim text_eq
capture_other = refl

-- The constraint decides where the driver names it, and the message where it does not.
renamed_constraint :
    is_fingerprint_unique_violation_parts
      (some (codes "23505"))
      (some (codes "thoughts_content_fingerprint_unique_v2"))
      fingerprint_unique
    ≡ false
unfolding is_fingerprint_unique_violation_parts text_eq
renamed_constraint = refl

capture_with_gate_options_ok_example :
    IsAcceptable request
    × ((n : ℕ) × (result : GatedCaptureResult) × (env.gate n
            (gate_request (codes "m") none 5 request default_options)
          ≡ ok result)
        × IsResponse (some event) result response
        × ((j : ℕ)
            → j < n
            → LostRace env (gate_request (codes "m") none 5 request default_options) j))
capture_with_gate_options_ok_example =
    capture_with_gate_options_ok env 0 (codes "m") none 5 request default_options response
      capture_second_call

capture_with_gate_options_settles_example :
    capture_with_gate_options env 0 (codes "m") none 5 request default_options ≢ none
capture_with_gate_options_settles_example =
    capture_with_gate_options_settles env 0 (codes "m") none 5 request default_options env-IsTimely
