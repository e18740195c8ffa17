-- ===== src/Mcp/Capture/Race.antt =====
-- The loop of crates/kengram-mcp/src/capture.rs against the clock, and where a response comes from.
use k_engram.Prelude.{
  ℕ, zero, suc, ◌+◌, ◌-◌, ◌*◌, min, ◌≤◌, ◌<◌, true, ◌≡◌, ◌≢◌, refl, sym, ap, ◌∙◌, subst, arith, inl,
  inr, [], Option, none, some, some_injective, Bool-cases, Option-cases, Result, ok, err, leb,
  if◌then◌else◌, or_else, map_some, ok_injective, and_then_ok, ◌==◌, ==_iff, is_empty, ltb,
  if_err_ok,
}
use k_engram.Text.{Text, byte_len}
use k_engram.Mcp.Capture.{
  CaptureRequest, CaptureGateOptions, CaptureResponse, ArgusSourceEventRequest, check_event,
  StorageFailure, CaptureError, empty_content, content_too_long, storage,
  fingerprint_race_budget_exceeded, GatedCaptureRequest, GatedCaptureResult, max_content_len,
  is_fingerprint_race, gate_request,
}
use k_engram.Mcp.Capture.Gate.{
  Environment, IsTimely, race_budget_ms, nanos_of_ms, wake_time, race_loop, race_fuel,
  run_gate_until_settled, capture_response, capture_with_gate_options, validate_capture, settled,
  thought_of, capture_response_of, validated,
}

-- Call `j` of the gate failed on the unique fingerprint.
abbrev pub LostRace : Environment → GatedCaptureRequest → ℕ → Type 0
LostRace env request j =
    (e : StorageFailure) × (env.gate j request ≡ err e) × (is_fingerprint_race e ≡ true)

module _ (env : Environment) (timely : IsTimely env) (request : GatedCaptureRequest)
    (deadline : ℕ) where
  -- After a sleep and a call either the deadline has passed or a millisecond.
  round_end :
      (i now backoff_ms : ℕ)
      → 0 < backoff_ms
      → min deadline (now + 1000000)
        ≤ env.gate_end (i + 1) (wake_time env request deadline i now backoff_ms)
  round_end i now backoff_ms pos = omega (
    arith,
    timely.wakes_later i (now + min (nanos_of_ms backoff_ms) (deadline - now)),
    timely.gate_ends_later (i + 1) (wake_time env request deadline i now backoff_ms),
  )

  race_loop_settles :
      (fuel i now backoff_ms : ℕ) (gated : Result StorageFailure GatedCaptureResult)
      → 0 < backoff_ms
      → deadline ≤ now + fuel * 1000000
      → (r : Result CaptureError GatedCaptureResult) × (race_loop env request deadline
            (suc fuel)
            i
            now
            backoff_ms
            gated
          ≡ some r)
  unfolding race_loop
  race_loop_settles fuel i now backoff_ms (ok result) pos near = (ok result, refl)
  race_loop_settles zero i now backoff_ms (err e) pos near =
      elim (Bool-cases (is_fingerprint_race e)) [
        | inr foreign ↦ (err (storage e), rw foreign)
        | inl race ↦ (err (fingerprint_race_budget_exceeded race_budget_ms), ground (arith, race))
      ]
  race_loop_settles (suc fuel) i now backoff_ms (err e) pos near =
      elim (Bool-cases (is_fingerprint_race e)) [
        | inr foreign ↦ (err (storage e), rw foreign)
        | inl race ↦ elim (Bool-cases (leb deadline now)) [
          | inl late ↦ (err (fingerprint_race_budget_exceeded race_budget_ms), rw (race, late))
          | inr early ↦
              rw (race, early)
                (race_loop_settles fuel (i + 1)
                  (env.gate_end (i + 1) (wake_time env request deadline i now backoff_ms))
                  (min (backoff_ms * 2) 32) (env.gate (i + 1) request) (omega arith)
                  (omega (arith, round_end i now backoff_ms pos)))
        ]
      ]

-- A property of call `i` and of the calls from `i + 1` on.
from_first :
    (P : ℕ → Type 0) (i n : ℕ)
    → P i
    → ((j : ℕ) → i + 1 ≤ j → j < n → P j)
    → (j : ℕ) → i ≤ j
    → j < n
    → P j
from_first P i n first later j lo hi = elim (Bool-cases (j == i)) [
  | inl same ↦ subst P (sym ((==_iff j i).0 same)) first
  | inr other ↦ later j (ground (arith, other)) hi
]

module _ (env : Environment) (request : GatedCaptureRequest) (deadline : ℕ) where
  -- An answer of the loop is the gate's own: of a call before which every call lost the race.
  race_loop_source :
      (fuel i now backoff_ms : ℕ) (gated : Result StorageFailure GatedCaptureResult)
      (result : GatedCaptureResult)
      → env.gate i request ≡ gated
      → race_loop env request deadline fuel i now backoff_ms gated ≡ some (ok result)
      → (n : ℕ) × (i ≤ n)
        × (env.gate n request ≡ ok result)
        × ((j : ℕ) → i ≤ j → j < n → LostRace env request j)
  unfolding race_loop
  race_loop_source zero i now backoff_ms gated result g e = cc
  race_loop_source (suc fuel) i now backoff_ms (ok r) result g e =
      (i, omega arith, g ∙ ap ok (ok_injective (some_injective e)), λ j lo hi. absurd (omega arith))
  race_loop_source (suc fuel) i now backoff_ms (err failure) result g e =
      elim (Bool-cases (is_fingerprint_race failure)) [
        | inr foreign ↦ absurd (cc (rw foreign at e))
        | inl race ↦ elim (Bool-cases (leb deadline now)) [
          | inl late ↦ absurd (cc (rw (race, late) at e))
          | inr early ↦
              let (n, lo, answer, before) =
                race_loop_source fuel (i + 1)
                  (env.gate_end (i + 1) (wake_time env request deadline i now backoff_ms))
                  (min (backoff_ms * 2) 32) (env.gate (i + 1) request) result refl
                  (rw (race, early) at e) in
              (
                n,
                omega arith,
                answer,
                from_first (LostRace env request) i n (failure, g, race) before,
              )
        ]
      ]

-- What lets a request in.
abbrev pub IsAcceptable : CaptureRequest → Type 0
IsAcceptable request =
    (request.content ≢ [])
    × (byte_len request.content ≤ max_content_len)
    × (check_event request.argus_source_event ≡ ok tt)

validate_capture_ok :
    (request : CaptureRequest) → validate_capture request ≡ ok tt → IsAcceptable request
unfolding validate_capture
validate_capture_ok request e =
    let (some_content, rest) =
      if_err_ok (is_empty request.content) empty_content
        (if ltb max_content_len (byte_len request.content)
          then err (content_too_long (byte_len request.content) max_content_len)
          else check_event request.argus_source_event)
        tt e in
    let (short, event_ok) =
      if_err_ok (ltb max_content_len (byte_len request.content))
        (content_too_long (byte_len request.content) max_content_len)
        (check_event request.argus_source_event) tt rest in
    (λ q. cc (sym some_content ∙ ap is_empty q), ground (arith, short), event_ok)

validated_answer :
    (v : Result CaptureError (Unit {0})) (rest : Option (Result CaptureError CaptureResponse))
    (response : CaptureResponse)
    → validated v rest ≡ some (ok response)
    → (v ≡ ok tt) × (rest ≡ some (ok response))
validated_answer (ok tt) rest response e = (refl, e)
validated_answer (err x) rest response e = absurd (cc e)

validated-ne-none :
    (v : Result CaptureError (Unit {0})) (rest : Option (Result CaptureError CaptureResponse))
    → rest ≢ none
    → validated v rest ≢ none
validated-ne-none (ok tt) rest some_rest e = some_rest e
validated-ne-none (err x) rest some_rest e = cc

map_some_back {ℓ κ} :
    {A : Type ℓ} {B : Type κ} (f : A → B) (o : Option A) (b : B)
    → map_some f o ≡ some b
    → (a : A) × (o ≡ some a) × (f a ≡ b)
map_some_back f none b e = cc
map_some_back f (some a) b e = (a, refl, some_injective e)

-- The id is the gate's choice, or that of the thought which it matched.
abbrev pub IsResponse :
    Option ArgusSourceEventRequest → GatedCaptureResult → CaptureResponse → Type 0
IsResponse event result response =
    (u : ℕ) × (or_else result.result_thought result.result_matched ≡ some u)
    × (response ≡ capture_response_of event result (thought_of u))

capture_response_ok :
    (event : Option ArgusSourceEventRequest) (result : GatedCaptureResult)
    (response : CaptureResponse)
    → capture_response event result ≡ ok response
    → IsResponse event result response
unfolding capture_response
capture_response_ok event result response e =
    elim (Option-cases (or_else result.result_thought result.result_matched)) [
      | inl n ↦ absurd (cc (rw n at e))
      | inr (u, s) ↦ (u, s, sym (ok_injective (rw s at e)))
    ]

-- If a capture answers with a thought, its content and source event were acceptable, the response is
-- made of the answer of one call of the gate with the request's own content, and every earlier call
-- had failed on the unique fingerprint: no response is made up after a rollback.
pub capture_with_gate_options_ok :
    (env : Environment) (start : ℕ) (embedder : Text) (tagger : Option Text) (now_utc : ℕ)
    (request : CaptureRequest) (options : CaptureGateOptions) (response : CaptureResponse)
    → capture_with_gate_options env start embedder tagger now_utc request options
      ≡ some (ok response)
    → IsAcceptable request
      × ((n : ℕ) × (result : GatedCaptureResult) × (env.gate n
              (gate_request embedder tagger now_utc request options)
            ≡ ok result)
          × IsResponse request.argus_source_event result response
          × ((j : ℕ)
              → j < n
              → LostRace env (gate_request embedder tagger now_utc request options) j))
unfolding capture_with_gate_options run_gate_until_settled
capture_with_gate_options_ok env start embedder tagger now_utc request options response e =
    let (valid, answered) = validated_answer (validate_capture request) _ response e in
    let (gated, looped, made) =
      map_some_back (settled request.argus_source_event)
        (run_gate_until_settled env start (gate_request embedder tagger now_utc request options))
        (ok response) answered in
    let (result, was_ok, from_result) =
      and_then_ok gated (capture_response request.argus_source_event) response made in
    let (n, lo, answer, before) =
      race_loop_source env (gate_request embedder tagger now_utc request options)
        (start + nanos_of_ms race_budget_ms) race_fuel 0 (env.gate_end 0 start) 1
        (env.gate 0 (gate_request embedder tagger now_utc request options)) result refl
        (looped ∙ ap some was_ok) in
    (
      validate_capture_ok request valid,
      (
        n,
        result,
        answer,
        capture_response_ok request.argus_source_event result response from_result,
        λ j hi. before j (omega arith) hi,
      ),
    )

-- With a clock that does not run backwards a capture always answers: the loop ends within two
-- seconds and one call of the gate, if each of them does.
pub capture_with_gate_options_settles :
    (env : Environment) (start : ℕ) (embedder : Text) (tagger : Option Text) (now_utc : ℕ)
    (request : CaptureRequest) (options : CaptureGateOptions)
    → IsTimely env
    → capture_with_gate_options env start embedder tagger now_utc request options ≢ none
unfolding capture_with_gate_options run_gate_until_settled
capture_with_gate_options_settles env start embedder tagger now_utc request options timely
      none_left =
    let request' = gate_request embedder tagger now_utc request options in
    let (r, looped) =
      race_loop_settles env timely request' (start + nanos_of_ms race_budget_ms) 2000 0
        (env.gate_end 0 start) 1 (env.gate 0 request') (omega arith)
        (omega (arith, timely.gate_ends_later 0 start)) in
    validated-ne-none (validate_capture request)
      (map_some (settled request.argus_source_event) (run_gate_until_settled env start request'))
      (λ q. absurd (cc (sym (ap (map_some (settled request.argus_source_event)) looped) ∙ q)))
      none_left
