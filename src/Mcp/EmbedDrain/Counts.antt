-- ===== src/Mcp/EmbedDrain/Counts.antt =====
-- The report of the drainer of embeddings in crates/kengram-mcp/src/drain.rs.
use k_engram.Prelude.{
  ℕ, zero, suc, ◌+◌, ◌≤◌, Bool, true, List, [], ◌∷◌, some, ◌≡◌, sym, ◌∙◌, ap, arith, length,
  Bool-cases, inl, inr, some_injective, Result, ok, err,
}
use k_engram.Text.{Text}
use k_engram.Core.Failure.{EmbedderError}
use k_engram.Storage.EmbedQueue.{
  PendingJob, ThoughtSource, ChunkSource, claimed_jobs, claim_pending,
}
use k_engram.Mcp.EmbedDrain.{
  EmbeddingModel, EmbedJobOutcome, embedded, skipped, EmbedJobError, Store, Reached, DrainReport,
  process_embed_job, settle, drain_embeddings, drain_pending_embeddings_with_hygiene,
}

abbrev counted : DrainReport → ℕ
counted r = r.embedded_count + r.skipped_count + r.failed_count

length-claimed_jobs :
    (locked : ℕ → Bool) (n : ℕ) (rows : List PendingJob)
    → (length (claimed_jobs locked n rows) ≤ n)
      × (length (claimed_jobs locked n rows) ≤ length rows)
unfolding claimed_jobs
length-claimed_jobs locked n [] = omega arith
length-claimed_jobs locked zero (row ∷ rows) = omega arith
length-claimed_jobs locked (suc n) (row ∷ rows) = elim (Bool-cases (locked row.id)) [
  | inl e ↦ rw e (omega (arith, length-claimed_jobs locked (suc n) rows))
  | inr e ↦ rw e (omega (arith, length-claimed_jobs locked n rows))
]

module _ (thoughts : List ThoughtSource) (chunks : List ChunkSource) (active : EmbeddingModel)
    (embed : List Text → Result EmbedderError (List (List ℕ)))
    (show_error : EmbedJobError → Text) where
  settle_counts :
      (reached : Reached) (job : PendingJob) (r : DrainReport)
      (done : Store × Result EmbedJobError EmbedJobOutcome)
      → (counted (settle thoughts chunks active embed show_error reached job r done).1
          ≡ counted r + 1)
        × ((settle thoughts chunks active embed show_error reached job r done).1.found ≡ r.found)
  unfolding settle
  settle_counts reached job r (s, ok embedded) = omega arith
  settle_counts reached job r (s, ok (skipped reason)) = omega arith
  settle_counts reached job r (s, err e) = omega arith

  drain_embeddings_counts :
      (hygiene : Bool) (reached : PendingJob → Reached) (s : Store) (r : DrainReport)
      (jobs : List PendingJob)
      → (counted
            (drain_embeddings thoughts chunks active embed show_error hygiene reached s r jobs).1
          ≡ counted r + length jobs)
        × ((drain_embeddings thoughts chunks active embed show_error hygiene reached s r
              jobs).1.found
            ≡ r.found)
  unfolding drain_embeddings
  drain_embeddings_counts hygiene reached s r [] = omega arith
  drain_embeddings_counts hygiene reached s r (job ∷ jobs) =
      let step =
        settle thoughts chunks active embed show_error (reached job) job r
          (process_embed_job thoughts chunks active embed show_error hygiene (reached job) s job) in
      let counts =
        settle_counts (reached job) job r
          (process_embed_job thoughts chunks active embed show_error hygiene (reached job) s job) in
      let rest = drain_embeddings_counts hygiene reached step.0 step.1 jobs in
      (rest.0 ∙ omega (arith, counts.0), rest.1 ∙ counts.1)

  -- The drainer reports at most as many jobs as the batch allows and the queue has, and counts each
  -- of them as exactly one of embedded, skipped and failed, whatever fails.
  pub drain_pending_embeddings_lem :
      (hygiene : Bool) (locked : ℕ → Bool) (reached : PendingJob → Reached) (s s' : Store)
      (batch_size : ℕ) (report : DrainReport)
      → drain_pending_embeddings_with_hygiene thoughts chunks active embed show_error hygiene locked
          reached true s batch_size
        ≡ some (s', report)
      → (report.embedded_count + report.skipped_count + report.failed_count ≡ report.found)
        × (report.found ≤ batch_size)
        × (report.found ≤ length s.pending)
  unfolding drain_pending_embeddings_with_hygiene
  drain_pending_embeddings_lem hygiene locked reached s s' batch_size report e =
      let jobs = claimed_jobs locked batch_size s.pending in
      let start : DrainReport = record {
        found = length jobs;
        embedded_count = 0;
        skipped_count = 0;
        failed_count = 0;
      } in
      let claimed = record s { pending = claim_pending locked batch_size s.pending } in
      let run = drain_embeddings_counts hygiene reached claimed start jobs in
      let few = length-claimed_jobs locked batch_size s.pending in
      let done : report
          ≡ (drain_embeddings thoughts chunks active embed show_error hygiene reached claimed start
              jobs).1 =
        sym (ap (λ p. p.1) (some_injective e)) in
      let counts : counted report ≡ length jobs = ap counted done ∙ run.0 ∙ omega arith in
      let found : report.found ≡ length jobs = ap (λ r. r.found) done ∙ run.1 in
      (omega (arith, counts, found), omega (arith, found, few), omega (arith, found, few))
