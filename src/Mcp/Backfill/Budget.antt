-- ===== src/Mcp/Backfill/Budget.antt =====
-- The budget of `embed_backfill` in crates/kengram-mcp/src/backfill.rs.
use k_engram.Prelude.{
  ℕ, zero, suc, ◌+◌, ◌-◌, min, ◌≤◌, ◌<◌, Bool, true, false, ◌≡◌, ◌≢◌, sym, ap, arith, List, [], ◌∷◌,
  length, take, retain, Option, none, some, Bool-cases, Option-cases, inl, inr, ◌==◌, ltb,
  if◌then◌else◌, Result, ok, length-take,
}
use k_engram.Text.{Text, codes}
use k_engram.Core.Failure.{EmbedderError}
use k_engram.Storage.EmbedQueue.{PendingJob, ThoughtSource, ChunkSource, enqueue_embedding}
use k_engram.Mcp.EmbedDrain.{
  EmbeddingModel, EmbedJobError, Store, DrainReport, drain_pending_embeddings_with_hygiene,
}
use k_engram.Mcp.EmbedDrain.Counts.{drain_pending_embeddings_lem}
use k_engram.Mcp.Backfill.{
  enqueue_all, enqueue_unembedded_thoughts, BackfillReport, Round, batch, Backfilled, add_drain,
  after_drain, drain_pending_embeddings, backfill_loop, embed_backfill,
}

abbrev spent : BackfillReport → ℕ
spent r = r.embedded_total + r.failed_total

-- At most `n` rows are found, and the counted ones are among them.
abbrev IsWithin : ℕ → Option (Store × DrainReport) → Type 0
IsWithin n none = Unit
IsWithin n (some (s, d)) = (d.found ≤ n) × (d.embedded_count + d.failed_count ≤ d.found)

done_report :
    {s s' : Store} {r r' : BackfillReport}
    → ◌≡◌ {A = Option Backfilled} (some (ok (s, r))) (some (ok (s', r')))
    → r ≡ r'
done_report e = cc

one_more : (b : Bool) (n : ℕ) → (if b then n + 1 else n) ≤ n + 1
one_more b n = ground arith

enqueue_all_bound :
    (fresh : ℕ → ℕ) (model : Text) (ts : List ThoughtSource) (rows : List PendingJob) (done : ℕ)
    → (enqueue_all fresh model ts rows done).1 ≤ done + length ts
unfolding enqueue_all
enqueue_all_bound fresh model [] rows done = omega arith
enqueue_all_bound fresh model (t ∷ ts) rows done =
    let added = enqueue_embedding rows (fresh t.thought_id) (codes "thought") t.thought_id model in
    omega (
      arith,
      one_more added.1 done,
      enqueue_all_bound fresh model ts added.0 (if added.1 then done + 1 else done),
    )

healed_bound :
    (fresh : ℕ → ℕ) (model : Text) (selects : ThoughtSource → Bool) (thoughts : List ThoughtSource)
    (limit : ℕ) (rows : List PendingJob)
    → (enqueue_unembedded_thoughts fresh model selects thoughts limit rows).1 ≤ limit
unfolding enqueue_unembedded_thoughts
healed_bound fresh model selects thoughts limit rows = omega (
  arith,
  enqueue_all_bound fresh model (take limit (retain selects thoughts)) rows 0,
  length-take limit (retain selects thoughts),
)

module _ (thoughts : List ThoughtSource) (chunks : List ChunkSource) (active : EmbeddingModel)
    (embed : List Text → Result EmbedderError (List (List ℕ)))
    (show_error : EmbedJobError → Text) where
  claimed_IsWithin :
      (round : Round) (claim_done : Bool) (s s' : Store) (n : ℕ) (d : DrainReport)
      → drain_pending_embeddings_with_hygiene thoughts chunks active embed show_error false
          round.is_locked round.reached_in claim_done s n
        ≡ some (s', d)
      → (d.found ≤ n) × (d.embedded_count + d.failed_count ≤ d.found)
  unfolding drain_pending_embeddings_with_hygiene
  claimed_IsWithin round true s s' n d e =
      let counts =
        drain_pending_embeddings_lem thoughts chunks active embed show_error false round.is_locked
          round.reached_in s s' n d e in
      (counts.1, omega (arith, counts.0))
  claimed_IsWithin round false s s' n d e = cc

  drain_IsWithin :
      (round : Round) (s : Store) (n : ℕ)
      → IsWithin n (drain_pending_embeddings thoughts chunks active embed show_error round s n)
  unfolding drain_pending_embeddings
  drain_IsWithin round s n =
      elim (Option-cases
        (drain_pending_embeddings thoughts chunks active embed show_error round s n)) [
          | inl refused ↦ rw refused tt
          | inr ((s', d), done) ↦ rw done (claimed_IsWithin round round.claim_done s s' n d done)
        ]

  -- `go_on` settles on a smaller budget.
  after_drain_settles :
      (go_on : Store → BackfillReport → ℕ → Option Backfilled) (r : BackfillReport) (budget n : ℕ)
      (drained : Option (Store × DrainReport))
      → n ≤ budget
      → IsWithin n drained
      → ((s : Store) (r' : BackfillReport) (b : ℕ) → b < budget → go_on s r' b ≢ none)
      → after_drain go_on r budget drained ≢ none
  unfolding after_drain
  after_drain_settles go_on r budget n none small within smaller e = cc
  after_drain_settles go_on r budget n (some (s, d)) small within smaller e =
      elim (Bool-cases (d.found == 0)) [
        | inl idle ↦ cc (rw idle at e)
        | inr found ↦ elim (Bool-cases (d.embedded_count == 0)) [
          | inl stuck ↦ cc (rw (found, stuck) at e)
          | inr more ↦
              smaller s (add_drain r d) (budget - d.found) (ground (arith, found))
                (rw (found, more) at e)
        ]
      ]

  backfill_loop_settles :
      (fuel : ℕ) (rounds : ℕ → Round) (i : ℕ) (s : Store) (r : BackfillReport) (budget : ℕ)
      → budget < fuel
      → backfill_loop thoughts chunks active embed show_error fuel rounds i s r budget ≢ none
  unfolding backfill_loop
  backfill_loop_settles zero rounds i s r budget enough e = absurd (omega arith)
  backfill_loop_settles (suc fuel) rounds i s r budget enough e = elim (Bool-cases (ltb 0 budget)) [
    | inr spent_all ↦ cc (rw spent_all at e)
    | inl left ↦
        after_drain_settles
          (backfill_loop thoughts chunks active embed show_error fuel rounds (i + 1)) r budget
          (min batch budget)
          (drain_pending_embeddings thoughts chunks active embed show_error (rounds i) s
            (min batch budget))
          (omega arith) (drain_IsWithin (rounds i) s (min batch budget))
          (λ s' r' b lt. backfill_loop_settles fuel rounds (i + 1) s' r' b (omega arith))
          (rw left at e)
  ]

  -- What `go_on` ends with is counted within the budget that it got.
  after_drain_counts :
      (go_on : Store → BackfillReport → ℕ → Option Backfilled) (r r' : BackfillReport)
      (budget n : ℕ) (s' : Store) (drained : Option (Store × DrainReport))
      → n ≤ budget
      → IsWithin n drained
      → ((s : Store) (r₁ : BackfillReport) (b : ℕ)
          → go_on s r₁ b ≡ some (ok (s', r'))
          → (spent r' ≤ spent r₁ + b) × (r'.healed ≡ r₁.healed))
      → after_drain go_on r budget drained ≡ some (ok (s', r'))
      → (spent r' ≤ spent r + budget) × (r'.healed ≡ r.healed)
  unfolding after_drain
  after_drain_counts go_on r r' budget n s' none small within later e = absurd (cc e)
  after_drain_counts go_on r r' budget n s' (some (s, d)) small within later e =
      elim (Bool-cases (d.found == 0)) [
        | inl idle ↦
            let same = done_report (rw idle at e) in
            (omega (arith, ap spent same), ap (λ q. q.healed) (sym same))
        | inr found ↦ elim (Bool-cases (d.embedded_count == 0)) [
          | inl stuck ↦
              let same = done_report (rw (found, stuck) at e) in
              (omega (arith, ap spent same, within), ap (λ q. q.healed) (sym same))
          | inr more ↦
              let rest = later s (add_drain r d) (budget - d.found) (rw (found, more) at e) in
              (omega (arith, rest.0, within), rest.1)
        ]
      ]

  backfill_loop_counts :
      (fuel : ℕ) (rounds : ℕ → Round) (i : ℕ) (s s' : Store) (r r' : BackfillReport) (budget : ℕ)
      → backfill_loop thoughts chunks active embed show_error fuel rounds i s r budget
        ≡ some (ok (s', r'))
      → (spent r' ≤ spent r + budget) × (r'.healed ≡ r.healed)
  unfolding backfill_loop
  backfill_loop_counts zero rounds i s s' r r' budget e = absurd (cc e)
  backfill_loop_counts (suc fuel) rounds i s s' r r' budget e = elim (Bool-cases (ltb 0 budget)) [
    | inr spent_all ↦
        let same = done_report (rw spent_all at e) in
        (omega (arith, ap spent same), ap (λ q. q.healed) (sym same))
    | inl left ↦
        after_drain_counts
          (backfill_loop thoughts chunks active embed show_error fuel rounds (i + 1)) r r' budget
          (min batch budget) s'
          (drain_pending_embeddings thoughts chunks active embed show_error (rounds i) s
            (min batch budget))
          (omega arith) (drain_IsWithin (rounds i) s (min batch budget))
          (λ s₁ r₁ b e₁. backfill_loop_counts fuel rounds (i + 1) s₁ s' r₁ r' b e₁) (rw left at e)
  ]

  -- A backfill always ends, whatever the database does in its rounds.
  pub embed_backfill_settles :
      (fresh : ℕ → ℕ) (selects : ThoughtSource → Bool) (heal_done : Bool) (rounds : ℕ → Round)
      (s : Store) (limit : ℕ)
      → embed_backfill thoughts chunks active embed show_error fresh selects heal_done rounds s
          limit
        ≢ none
  unfolding embed_backfill
  embed_backfill_settles fresh selects true rounds s limit =
      let (rows, n) =
        enqueue_unembedded_thoughts fresh active.model_name selects thoughts limit s.pending in
      backfill_loop_settles (suc limit) rounds 0 (record s { pending = rows })
        (record { healed = n; embedded_total = 0; failed_total = 0 }) limit (omega arith)
  embed_backfill_settles fresh selects false rounds s limit = λ e. cc

  -- What a backfill reports as embedded or failed is together at most the limit, and so is what it
  -- has healed.
  pub embed_backfill_bounds :
      (fresh : ℕ → ℕ) (selects : ThoughtSource → Bool) (rounds : ℕ → Round) (s s' : Store)
      (limit : ℕ) (r : BackfillReport)
      → embed_backfill thoughts chunks active embed show_error fresh selects true rounds s limit
        ≡ some (ok (s', r))
      → (r.embedded_total + r.failed_total ≤ limit) × (r.healed ≤ limit)
  unfolding embed_backfill
  embed_backfill_bounds fresh selects rounds s s' limit r e =
      let (rows, n) =
        enqueue_unembedded_thoughts fresh active.model_name selects thoughts limit s.pending in
      let counts =
        backfill_loop_counts (suc limit) rounds 0 (record s { pending = rows }) s'
          (record { healed = n; embedded_total = 0; failed_total = 0 }) r limit e in
      (
        omega (arith, counts.0),
        omega (
          arith,
          counts.1,
          healed_bound fresh active.model_name selects thoughts limit s.pending,
        ),
      )
