-- ===== src/Mcp/Capture/Keyed.antt =====
-- What a recovery with a source event after the deadline in crates/kengram-mcp/src/capture.rs is
-- evidence of.
use k_engram.Prelude.{
  Bool, true, false, not, ◌&&◌, ◌≡◌, ◌≢◌, refl, sym, ap, subst, ◌⊎◌, inl, inr, List, [], ◌∷◌,
  Option, none, some, Bool-cases, Option-cases, some_injective, ok, In, All, and_true, ℕ,
}
use k_engram.Text.{Text, text_eq}
use k_engram.Text.Laws.{eq_of_text_eq, ne_of_text_eq}
use k_engram.Mcp.Capture.{CaptureResponse, ArgusSourceEventRequest, StorageFailure}
use k_engram.Mcp.Capture.Recovery.{
  SourceEventRow, GateEventRow, Ledger, Probe, DeadlineRecovery, recovered, not_persisted,
  Recovering, find_row, is_text, is_exact_event, is_named_event, is_gate_of_event, reach,
  conflict_response, keyed_response, conflict_with, named_event, exact_thought, exact_event,
  recover_keyed, commit,
}

pub find_row-some :
    {A : Type 0} (p : A → Bool) (rows : List A) (row : A)
    → find_row p rows ≡ some row
    → In row rows × (p row ≡ true)
find_row-some p [] row e = cc
find_row-some p (r ∷ rows) row e = elim (Bool-cases (p r)) [
  | inl hit ↦
      let same = some_injective (rw hit at e) in (inl (sym same), subst (λ r. p r ≡ true) same hit)
  | inr miss ↦ let (there, passes) = find_row-some p rows row (rw miss at e) in (inr there, passes)
]

find_row-none :
    {A : Type 0} (p : A → Bool) (rows : List A)
    → find_row p rows ≡ none
    → All (λ row. p row ≡ false) rows
find_row-none p [] e = tt
find_row-none p (r ∷ rows) e = elim (Bool-cases (p r)) [
  | inl hit ↦ absurd (cc (rw hit at e))
  | inr miss ↦ (miss, find_row-none p rows (rw miss at e))
]

pub not-true : (b : Bool) → not b ≡ true → b ≡ false
not-true true e = cc
not-true false e = refl

pub reach_ok :
    (reached : Bool) (e : StorageFailure) (rest : Recovering) (d : DeadlineRecovery)
    → reach reached e rest ≡ ok d
    → rest ≡ ok d
reach_ok true e rest d h = h
reach_ok false e rest d h = cc

pub is_text-some : (column : Option Text) (t : Text) → is_text column t ≡ true → column ≡ some t
is_text-some none t e = cc
is_text-some (some s) t e = ap some (eq_of_text_eq s t e)

recovered_injective :
    {a b : CaptureResponse} → ◌≡◌ {A = Recovering} (ok (recovered a)) (ok (recovered b)) → a ≡ b
recovered_injective e = cc

module _ (ledger : Ledger) (probe : Probe) where
  -- The receipt of the gate is that of a row of the ledger, and missing only if no row fits.
  abbrev pub IsReceipt : SourceEventRow → Option Text → Option GateEventRow → Type 0
  IsReceipt row correlation_id none =
      All (λ gate. is_gate_of_event row correlation_id gate ≡ false) ledger.gate_events
  IsReceipt row correlation_id (some gate) =
      In gate ledger.gate_events × (is_gate_of_event row correlation_id gate ≡ true)

  receipt_lem :
      (row : SourceEventRow) (correlation_id : Option Text)
      → IsReceipt row correlation_id
          (find_row (is_gate_of_event row correlation_id) ledger.gate_events)
  receipt_lem row correlation_id =
      elim (Option-cases (find_row (is_gate_of_event row correlation_id) ledger.gate_events)) [
        | inl absent ↦
            rw absent
              (find_row-none (is_gate_of_event row correlation_id) ledger.gate_events absent)
        | inr (gate, found) ↦
            rw found
              (find_row-some (is_gate_of_event row correlation_id) ledger.gate_events gate found)
      ]

  -- The event is in the ledger under its own payload, with the receipt; or its name is bound to
  -- another payload, and the response is the conflict.
  abbrev pub IsKeyed : ArgusSourceEventRequest → Option Text → CaptureResponse → Type 0
  IsKeyed ev correlation_id response =
      (row : SourceEventRow) × In row ledger.source_events
      × (row.row_namespace ≡ ev.namespace)
      × (row.row_ref ≡ ev.source_ref)
      × ((u : ℕ) × (row.row_thought ≡ some u)
          × (((row.row_hash ≡ ev.payload_hash)
                × ((gate : Option GateEventRow) × IsReceipt row correlation_id gate
                    × (response ≡ keyed_response row u gate)))
              ⊎ ((row.row_hash ≢ ev.payload_hash)
                  × All (λ r. is_exact_event ev r ≡ false) ledger.source_events
                  × (response ≡ conflict_response row u))))

  pub no_recovery :
      {response : CaptureResponse}
      → commit ledger probe (ok not_persisted) ≡ ok (recovered response)
      → ⊥
  no_recovery {response} e =
      cc (reach_ok probe.committed probe.probe_error (ok not_persisted) (recovered response) e)

  pub committed_response :
      {a b : CaptureResponse} → commit ledger probe (ok (recovered a)) ≡ ok (recovered b) → a ≡ b
  committed_response {a} {b} e =
      recovered_injective
        (reach_ok probe.committed probe.probe_error (ok (recovered a)) (recovered b) e)

  conflict-IsKeyed :
      (ev : ArgusSourceEventRequest) (correlation_id : Option Text) (row : SourceEventRow)
      (response : CaptureResponse)
      → find_row (is_exact_event ev) ledger.source_events ≡ none
      → find_row (is_named_event ev) ledger.source_events ≡ some row
      → named_event ledger probe ev (some row) ≡ ok (recovered response)
      → IsKeyed ev correlation_id response
  unfolding is_named_event
  conflict-IsKeyed ev correlation_id row response no_exact found e =
      let (there, named) = find_row-some (is_named_event ev) ledger.source_events row found in
      let (ns, ref) =
        and_true (text_eq row.row_namespace ev.namespace) (text_eq row.row_ref ev.source_ref)
          named in
      elim (Bool-cases (text_eq row.row_hash ev.payload_hash)) [
        | inl same ↦ absurd (no_recovery (rw same at e))
        | inr differs ↦ elim (Option-cases row.row_thought) [
          | inl unbound ↦ absurd (no_recovery (rw (differs, unbound) at e))
          | inr (u, bound) ↦ (
            row,
            there,
            eq_of_text_eq row.row_namespace ev.namespace ns,
            eq_of_text_eq row.row_ref ev.source_ref ref,
            (
              u,
              bound,
              inr (
                ne_of_text_eq row.row_hash ev.payload_hash differs,
                find_row-none (is_exact_event ev) ledger.source_events no_exact,
                sym (
                    committed_response (
                      subst (λ t. conflict_with ledger probe ev row t ≡ ok (recovered response))
                        bound (rw differs at e))),
              ),
            ),
          )
        ]
      ]

  exact-IsKeyed :
      (ev : ArgusSourceEventRequest) (correlation_id : Option Text) (row : SourceEventRow)
      (response : CaptureResponse)
      → find_row (is_exact_event ev) ledger.source_events ≡ some row
      → exact_thought ledger probe correlation_id row row.row_thought ≡ ok (recovered response)
      → IsKeyed ev correlation_id response
  unfolding is_exact_event
  exact-IsKeyed ev correlation_id row response found e =
      let (there, fits) = find_row-some (is_exact_event ev) ledger.source_events row found in
      let (named, hash) =
        and_true (text_eq row.row_namespace ev.namespace && text_eq row.row_ref ev.source_ref)
          (text_eq row.row_hash ev.payload_hash) fits in
      let (ns, ref) =
        and_true (text_eq row.row_namespace ev.namespace) (text_eq row.row_ref ev.source_ref)
          named in
      elim (Option-cases row.row_thought) [
        | inl unbound ↦ absurd (no_recovery (rw unbound at e))
        | inr (u, bound) ↦
            let gate = find_row (is_gate_of_event row correlation_id) ledger.gate_events in
            (
              row,
              there,
              eq_of_text_eq row.row_namespace ev.namespace ns,
              eq_of_text_eq row.row_ref ev.source_ref ref,
              (
                u,
                bound,
                inl (
                  eq_of_text_eq row.row_hash ev.payload_hash hash,
                  (
                    gate,
                    receipt_lem row correlation_id,
                    sym (
                        committed_response (
                          reach_ok probe.gate_read probe.probe_error
                            (commit ledger probe (ok (recovered (keyed_response row u gate))))
                            (recovered response)
                            (subst
                              (λ t.
                                exact_thought ledger probe correlation_id row t
                                ≡ ok (recovered response))
                              bound e))),
                  ),
                ),
              ),
            )
      ]

  pub recover_keyed_ok :
      (ev : ArgusSourceEventRequest) (correlation_id : Option Text) (response : CaptureResponse)
      → recover_keyed ledger probe ev correlation_id ≡ ok (recovered response)
      → IsKeyed ev correlation_id response
  unfolding recover_keyed
  recover_keyed_ok ev correlation_id response e =
      let read =
        reach_ok probe.exact_read probe.probe_error
          (exact_event ledger probe ev correlation_id
            (find_row (is_exact_event ev) ledger.source_events))
          (recovered response) e in
      elim (Option-cases (find_row (is_exact_event ev) ledger.source_events)) [
        | inr (row, found) ↦ exact-IsKeyed ev correlation_id row response found (rw found at read)
        | inl absent ↦
            let named =
              reach_ok probe.reference_read probe.probe_error
                (named_event ledger probe ev (find_row (is_named_event ev) ledger.source_events))
                (recovered response) (rw absent at read) in
            elim (Option-cases (find_row (is_named_event ev) ledger.source_events)) [
              | inl unnamed ↦ absurd (no_recovery (rw unnamed at named))
              | inr (row, found) ↦
                  conflict-IsKeyed ev correlation_id row response absent found (rw found at named)
            ]
      ]
