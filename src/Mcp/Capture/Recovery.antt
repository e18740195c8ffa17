-- ===== src/Mcp/Capture/Recovery.antt =====
-- `recover_after_deadline` of crates/kengram-mcp/src/capture.rs over the three tables that it reads.
use k_engram.Prelude.{
  ℕ, Bool, true, false, not, ◌&&◌, ◌||◌, List, [], ◌∷◌, Option, none, some, Result, ok, err,
  is_empty, if◌then◌else◌, or_else, map_some,
}
use k_engram.Text.{Text, codes, text_eq, trim}
use k_engram.Core.Json.{Value, array, nil}
use k_engram.Mcp.Capture.{
  CaptureResponse, ArgusSourceEventRequest, StorageFailure, CaptureError, storage,
}
use k_engram.Mcp.Capture.Gate.{thought_of, replay_named, then_some}

-- The columns that are read of `argus_source_events`, `thought_ingest_gate_events` and `thoughts`.
pub record SourceEventRow : Type 0 where
  pub row_namespace : Text
  pub row_ref : Text
  pub row_hash : Text
  pub row_status : Text
  pub row_thought : Option ℕ

pub record GateEventRow : Type 0 where
  pub row_id : ℕ
  pub row_action : Text
  pub row_matched : Option ℕ
  pub row_similarity : Option ℕ
  pub gate_namespace : Option Text
  pub gate_ref : Option Text
  pub gate_hash : Option Text
  pub row_correlation : Option Text
  pub candidate_fingerprint : Text

pub record ThoughtRow : Type 0 where
  pub thought_row_id : ℕ
  pub content_fingerprint : Text
  pub is_retracted : Bool

-- The gate's rows stand newest first; the order of the others is the database's.
pub record Ledger : Type 0 where
  pub source_events : List SourceEventRow
  pub gate_events : List GateEventRow
  pub thoughts : List ThoughtRow

-- Which statements of the probe reach the database in time, and the error of those that do not.
pub record Probe : Type 0 where
  pub begun : Bool
  pub exact_read : Bool
  pub reference_read : Bool
  pub gate_read : Bool
  pub thought_read : Bool
  pub committed : Bool
  pub probe_error : StorageFailure

pub data DeadlineRecovery : Type 0 where
  recovered : CaptureResponse → DeadlineRecovery
  not_persisted : DeadlineRecovery

abbrev pub Recovering : Type 0
Recovering = Result {0, 0} CaptureError DeadlineRecovery

-- The first row that a condition lets through: `WHERE … LIMIT 1`.
abbrev pub find_row {ℓ} : {A : Type ℓ} → (A → Bool) → List A → Option A
find_row p [] = none
find_row p (row ∷ rows) = if p row then some row else find_row p rows

-- `column = $n` on a column that may be null, and `$n IS NULL OR column = $n`.
abbrev pub is_text : Option Text → Text → Bool
is_text none t = false
is_text (some s) t = text_eq s t

abbrev pub null_or : Option Text → Text → Bool
null_or none t = true
null_or (some s) t = text_eq s t

abbrev pub matches_optional : Option Text → Option Text → Bool
matches_optional none column = true
matches_optional (some t) column = is_text column t

unfoldable pub is_exact_event : ArgusSourceEventRequest → SourceEventRow → Bool
is_exact_event ev row =
    text_eq row.row_namespace ev.namespace
    && text_eq row.row_ref ev.source_ref
    && text_eq row.row_hash ev.payload_hash

unfoldable pub is_named_event : ArgusSourceEventRequest → SourceEventRow → Bool
is_named_event ev row = text_eq row.row_namespace ev.namespace && text_eq row.row_ref ev.source_ref

unfoldable pub is_gate_of_event : SourceEventRow → Option Text → GateEventRow → Bool
is_gate_of_event event correlation_id row =
    is_text row.gate_namespace event.row_namespace
    && is_text row.gate_ref event.row_ref
    && null_or row.gate_hash event.row_hash
    && matches_optional correlation_id row.row_correlation

unfoldable pub is_gate_of_call : Text → Text → GateEventRow → Bool
is_gate_of_call fingerprint corr row =
    text_eq row.candidate_fingerprint fingerprint && is_text row.row_correlation corr

unfoldable pub is_live_content : Text → ThoughtRow → Bool
is_live_content fingerprint row =
    text_eq row.content_fingerprint fingerprint && not row.is_retracted

unfoldable pub is_recovered_duplicate : Text → Bool
is_recovered_duplicate action =
    text_eq action (codes "exact_duplicate")
    || text_eq action (codes "semantic_duplicate")
    || text_eq action (codes "replay")

-- A statement of the probe that is not reached is the storage error.
abbrev pub reach : Bool → StorageFailure → Recovering → Recovering
reach true e rest = rest
reach false e rest = err (storage e)

abbrev pub empty_array : Value
empty_array = array nil

-- Another payload under the same name: the established conflict response.
unfoldable pub conflict_response : SourceEventRow → ℕ → CaptureResponse
conflict_response row u = record {
  thought_id = thought_of u;
  is_duplicate = false;
  argus_source_event = some (record {
    action = codes "conflict";
    namespace = row.row_namespace;
    source_ref = row.row_ref;
    payload_hash = row.row_hash;
    status = codes "conflict";
    thought_id = some (thought_of u);
  });
  dedup_kind = none;
  matched_thought_id = some (thought_of u);
  similarity = none;
  relation_results = empty_array;
  gate_event_id = none;
}

abbrev pub gate_action : Option GateEventRow → Text
gate_action none = codes "stored"
gate_action (some gate) = gate.row_action

abbrev pub gate_matched : Option GateEventRow → Option ℕ
gate_matched none = none
gate_matched (some gate) = gate.row_matched

abbrev pub gate_similarity : Option GateEventRow → Option ℕ
gate_similarity none = none
gate_similarity (some gate) = gate.row_similarity

unfoldable pub keyed_response : SourceEventRow → ℕ → Option GateEventRow → CaptureResponse
keyed_response row u gate =
    let action = gate_action gate in
    record {
      thought_id = thought_of u;
      is_duplicate = is_recovered_duplicate action;
      argus_source_event = some (record {
        action = replay_named action;
        namespace = row.row_namespace;
        source_ref = row.row_ref;
        payload_hash = row.row_hash;
        status = row.row_status;
        thought_id = some (thought_of u);
      });
      dedup_kind = then_some (is_recovered_duplicate action) action;
      matched_thought_id = map_some thought_of (gate_matched gate);
      similarity = gate_similarity gate;
      relation_results = empty_array;
      gate_event_id = map_some (λ g. g.row_id) gate;
    }

unfoldable pub unkeyed_response : GateEventRow → ℕ → CaptureResponse
unkeyed_response gate u =
    let duplicate = is_recovered_duplicate gate.row_action in
    record {
      thought_id = thought_of u;
      is_duplicate = duplicate;
      argus_source_event = none;
      dedup_kind = then_some duplicate gate.row_action;
      matched_thought_id =
          or_else (map_some thought_of gate.row_matched) (then_some duplicate (thought_of u));
      similarity = gate.row_similarity;
      relation_results = empty_array;
      gate_event_id = some gate.row_id;
    }

module _ (ledger : Ledger) (probe : Probe) where
  abbrev pub commit : Recovering → Recovering
  commit = reach probe.committed probe.probe_error

  -- The row of the same name without the payload, whose thought is none.
  abbrev pub conflict_with : ArgusSourceEventRequest → SourceEventRow → Option ℕ → Recovering
  conflict_with ev row none = commit (ok not_persisted)
  conflict_with ev row (some u) = commit (ok (recovered (conflict_response row u)))

  abbrev pub named_event : ArgusSourceEventRequest → Option SourceEventRow → Recovering
  named_event ev none = commit (ok not_persisted)
  named_event ev (some row) =
      if not (text_eq row.row_hash ev.payload_hash)
      then conflict_with ev row row.row_thought
      else commit (ok not_persisted)

  abbrev pub exact_thought : Option Text → SourceEventRow → Option ℕ → Recovering
  exact_thought correlation_id row none = commit (ok not_persisted)
  exact_thought correlation_id row (some u) = reach probe.gate_read probe.probe_error (
      commit (
        ok (
          recovered (
            keyed_response row u
              (find_row (is_gate_of_event row correlation_id) ledger.gate_events)))))

  abbrev pub exact_event :
      ArgusSourceEventRequest → Option Text → Option SourceEventRow → Recovering
  exact_event ev correlation_id none =
      reach probe.reference_read probe.probe_error
        (named_event ev (find_row (is_named_event ev) ledger.source_events))
  exact_event ev correlation_id (some row) = exact_thought correlation_id row row.row_thought

  -- Path A.
  unfoldable pub recover_keyed : ArgusSourceEventRequest → Option Text → Recovering
  recover_keyed ev correlation_id =
      reach probe.exact_read probe.probe_error
        (exact_event ev correlation_id (find_row (is_exact_event ev) ledger.source_events))

  abbrev pub with_thought : GateEventRow → Option ℕ → Recovering
  with_thought gate none = commit (ok not_persisted)
  with_thought gate (some u) = commit (ok (recovered (unkeyed_response gate u)))

  abbrev pub with_gate : Text → Option GateEventRow → Recovering
  with_gate fingerprint none = commit (ok not_persisted)
  with_gate fingerprint (some gate) = reach probe.thought_read probe.probe_error (
      with_thought gate (
        or_else
          (map_some (λ row. row.thought_row_id)
            (find_row (is_live_content fingerprint) ledger.thoughts))
          gate.row_matched))

  abbrev pub with_correlation : Text → Option Text → Recovering
  with_correlation fingerprint none = commit (ok not_persisted)
  with_correlation fingerprint (some corr) =
      if is_empty (trim corr)
      then commit (ok not_persisted)
      else reach probe.gate_read probe.probe_error (
          with_gate fingerprint
            (find_row (is_gate_of_call fingerprint (trim corr)) ledger.gate_events))

  -- Path B.
  unfoldable pub recover_unkeyed : Text → Option Text → Recovering
  recover_unkeyed fingerprint correlation_id = with_correlation fingerprint correlation_id

  abbrev pub by_key : Text → Option ArgusSourceEventRequest → Option Text → Recovering
  by_key fingerprint none correlation_id = recover_unkeyed fingerprint correlation_id
  by_key fingerprint (some ev) correlation_id = recover_keyed ev correlation_id

  -- `digest` is the database's SHA-256.
  unfoldable pub recover_after_deadline :
      (Text → Text) → Text → Option ArgusSourceEventRequest → Option Text → Recovering
  recover_after_deadline digest content event correlation_id =
      reach probe.begun probe.probe_error (by_key (digest content) event correlation_id)
