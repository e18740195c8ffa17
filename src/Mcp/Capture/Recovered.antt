-- ===== src/Mcp/Capture/Recovered.antt =====
-- What a recovery after the deadline in crates/kengram-mcp/src/capture.rs is evidence of.
use k_engram.Prelude.{
  false, not, ◌≡◌, refl, sym, subst, ◌⊎◌, inl, inr, Option, none, some, Bool-cases, Option-cases,
  ok, is_empty, or_else, map_some, In, and_true, ℕ,
}
use k_engram.Text.{Text, text_eq, trim}
use k_engram.Text.Laws.{eq_of_text_eq}
use k_engram.Mcp.Capture.{CaptureResponse, ArgusSourceEventRequest}
use k_engram.Mcp.Capture.Recovery.{
  GateEventRow, ThoughtRow, Ledger, Probe, recovered, find_row, is_text, is_gate_of_call,
  is_live_content, unkeyed_response, with_thought, with_gate, recover_unkeyed,
  recover_after_deadline,
}
use k_engram.Mcp.Capture.Keyed.{
  find_row-some, not-true, reach_ok, is_text-some, no_recovery, committed_response,
  recover_keyed_ok, IsKeyed,
}

module _ (ledger : Ledger) (probe : Probe) where
  -- The response names the thought that is live under the fingerprint, or that the row matched.
  abbrev pub IsReceived : Text → GateEventRow → CaptureResponse → Type 0
  IsReceived fingerprint gate response =
      (u : ℕ) × (response ≡ unkeyed_response gate u)
      × (((live : ThoughtRow) × In live ledger.thoughts
            × (live.content_fingerprint ≡ fingerprint)
            × (live.is_retracted ≡ false)
            × (live.thought_row_id ≡ u))
          ⊎ (gate.row_matched ≡ some u))

  -- A row of the gate with the content's fingerprint and this call's correlation.
  abbrev pub IsUnkeyed : Text → Option Text → CaptureResponse → Type 0
  IsUnkeyed fingerprint correlation_id response =
      (corr : Text) × (correlation_id ≡ some corr)
      × (is_empty (trim corr) ≡ false)
      × ((gate : GateEventRow) × In gate ledger.gate_events
          × (gate.candidate_fingerprint ≡ fingerprint)
          × (gate.row_correlation ≡ some (trim corr))
          × IsReceived fingerprint gate response)

  gate_thought :
      (fingerprint : Text) (gate : GateEventRow) (response : CaptureResponse)
      → with_gate ledger probe fingerprint (some gate) ≡ ok (recovered response)
      → IsReceived fingerprint gate response
  unfolding is_live_content
  gate_thought fingerprint gate response e =
      let live_id =
        map_some (λ (row : ThoughtRow). row.thought_row_id)
          (find_row (is_live_content fingerprint) ledger.thoughts) in
      let read =
        reach_ok probe.thought_read probe.probe_error
          (with_thought ledger probe gate (or_else live_id gate.row_matched)) (recovered response)
          e in
      elim (Option-cases (find_row (is_live_content fingerprint) ledger.thoughts)) [
        | inr (live, found) ↦
            let (there, fits) =
              find_row-some (is_live_content fingerprint) ledger.thoughts live found in
            let (same, kept) =
              and_true (text_eq live.content_fingerprint fingerprint) (not live.is_retracted)
                fits in
            (
              live.thought_row_id,
              sym (committed_response ledger probe (rw found at read)),
              inl (
                live,
                there,
                eq_of_text_eq live.content_fingerprint fingerprint same,
                not-true live.is_retracted kept,
                refl,
              ),
            )
        | inl absent ↦ elim (Option-cases gate.row_matched) [
          | inl unmatched ↦ absurd (
              no_recovery ledger probe (
                subst (λ o. with_thought ledger probe gate o ≡ ok (recovered response)) unmatched
                  (rw absent at read)))
          | inr (u, matched) ↦ (
            u,
            sym (
                committed_response ledger probe (
                  subst (λ o. with_thought ledger probe gate o ≡ ok (recovered response)) matched
                    (rw absent at read))),
            inr matched,
          )
        ]
      ]

  abbrev pub IsEvidence :
      Text → Option ArgusSourceEventRequest → Option Text → CaptureResponse → Type 0
  IsEvidence fingerprint none correlation_id response =
      IsUnkeyed fingerprint correlation_id response
  IsEvidence fingerprint (some ev) correlation_id response =
      IsKeyed ledger probe ev correlation_id response

  recover_unkeyed_ok :
      (fingerprint : Text) (correlation_id : Option Text) (response : CaptureResponse)
      → recover_unkeyed ledger probe fingerprint correlation_id ≡ ok (recovered response)
      → IsUnkeyed fingerprint correlation_id response
  unfolding recover_unkeyed is_gate_of_call is_live_content
  recover_unkeyed_ok fingerprint none response e = absurd (no_recovery ledger probe e)
  recover_unkeyed_ok fingerprint (some corr) response e = elim (Bool-cases (is_empty (trim corr))) [
    | inl blank ↦ absurd (no_recovery ledger probe (rw blank at e))
    | inr bound ↦
        let read =
          reach_ok probe.gate_read probe.probe_error
            (with_gate ledger probe fingerprint
              (find_row (is_gate_of_call fingerprint (trim corr)) ledger.gate_events))
            (recovered response) (rw bound at e) in
        elim (Option-cases
          (find_row (is_gate_of_call fingerprint (trim corr)) ledger.gate_events)) [
            | inl absent ↦ absurd (no_recovery ledger probe (rw absent at read))
            | inr (gate, found) ↦
                let (there, fits) =
                  find_row-some (is_gate_of_call fingerprint (trim corr)) ledger.gate_events gate
                    found in
                let (same, correlated) =
                  and_true (text_eq gate.candidate_fingerprint fingerprint)
                    (is_text gate.row_correlation (trim corr)) fits in
                (
                  corr,
                  refl,
                  bound,
                  (
                    gate,
                    there,
                    eq_of_text_eq gate.candidate_fingerprint fingerprint same,
                    is_text-some gate.row_correlation (trim corr) correlated,
                    gate_thought fingerprint gate response (rw found at read),
                  ),
                )
          ]
  ]

  -- A success is never inferred: with a source event it rests on the row of that name in the ledger,
  -- which holds the event's payload, or is answered as the conflict; without one it rests on a row
  -- of the gate that carries this call's correlation and the content's fingerprint.
  pub recover_after_deadline_ok :
      (digest : Text → Text) (content : Text) (event : Option ArgusSourceEventRequest)
      (correlation_id : Option Text) (response : CaptureResponse)
      → recover_after_deadline ledger probe digest content event correlation_id
        ≡ ok (recovered response)
      → IsEvidence (digest content) event correlation_id response
  unfolding recover_after_deadline
  recover_after_deadline_ok digest content none correlation_id response e =
      recover_unkeyed_ok (digest content) correlation_id response
        (reach_ok probe.begun probe.probe_error _ (recovered response) e)
  recover_after_deadline_ok digest content (some ev) correlation_id response e =
      recover_keyed_ok ledger probe ev correlation_id response
        (reach_ok probe.begun probe.probe_error _ (recovered response) e)
