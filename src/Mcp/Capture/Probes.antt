-- ===== src/Mcp/Capture/Probes.antt =====
-- Tests of the recovery after a deadline.
use k_engram.Prelude.{true, [], ◌∷◌, none, some, ◌≡◌, refl, ok}
use k_engram.Text.{codes, text_eq, trim}
use k_engram.Mcp.Capture.{ArgusSourceEventRequest, other}
use k_engram.Mcp.Capture.Recovery.{
  SourceEventRow, GateEventRow, Ledger, Probe, recovered, not_persisted, is_exact_event,
  is_named_event, is_gate_of_event, is_gate_of_call, conflict_response, keyed_response,
  recover_keyed, recover_unkeyed, recover_after_deadline,
}
use k_engram.Mcp.Capture.Recovered.{IsEvidence, recover_after_deadline_ok}

abbrev event : ArgusSourceEventRequest
event = record {
  namespace = codes "a";
  source_ref = codes "r";
  payload_hash = codes "h";
  metadata = none;
}

abbrev landed : SourceEventRow
landed = record {
  row_namespace = codes "a";
  row_ref = codes "r";
  row_hash = codes "h";
  row_status = codes "stored";
  row_thought = some 7;
}

abbrev gate : GateEventRow
gate = record {
  row_id = 9;
  row_action = codes "replay";
  row_matched = none;
  row_similarity = none;
  gate_namespace = some (codes "a");
  gate_ref = some (codes "r");
  gate_hash = none;
  row_correlation = some (codes "c");
  candidate_fingerprint = codes "f";
}

abbrev ledger : Ledger
ledger = record { source_events = landed ∷ []; gate_events = gate ∷ []; thoughts = [] }

abbrev probe : Probe
probe = record {
  begun = true;
  exact_read = true;
  reference_read = true;
  gate_read = true;
  thought_read = true;
  committed = true;
  probe_error = other;
}

recovered_event :
    recover_after_deadline ledger probe (λ t. t) (codes "note") (some event) (some (codes "c"))
    ≡ ok (recovered (keyed_response landed 7 (some gate)))
unfolding recover_after_deadline recover_keyed is_exact_event is_gate_of_event text_eq
recovered_event = refl

recovered_conflict :
    recover_after_deadline ledger probe
      (λ t. t)
      (codes "note")
      (some (record event { payload_hash = codes "i" }))
      none
    ≡ ok (recovered (conflict_response landed 7))
unfolding recover_after_deadline recover_keyed is_exact_event is_named_event text_eq
recovered_conflict = refl

-- The same content under the correlation of an earlier call proves nothing.
unbound_content :
    recover_after_deadline ledger probe (λ t. t) (codes "f") none (some (codes "d"))
    ≡ ok not_persisted
unfolding recover_after_deadline recover_unkeyed is_gate_of_call trim text_eq
unbound_content = refl

recover_after_deadline_ok_example :
    IsEvidence ledger probe
      (codes "note")
      (some event)
      (some (codes "c"))
      (keyed_response landed 7 (some gate))
recover_after_deadline_ok_example =
    recover_after_deadline_ok ledger probe (λ t. t) (codes "note") (some event) (some (codes "c"))
      (keyed_response landed 7 (some gate)) recovered_event
