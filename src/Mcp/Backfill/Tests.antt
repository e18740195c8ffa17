-- ===== src/Mcp/Backfill/Tests.antt =====
-- A backfill of two thoughts, one of them queued already.
use k_engram.Prelude.{
  ℕ, ◌+◌, ◌≤◌, true, false, List, [], ◌∷◌, some, none, ◌≡◌, ◌≢◌, refl, Result, ok,
}
use k_engram.Text.{Text, codes, text_eq}
use k_engram.Core.Json.{null}
use k_engram.Core.Failure.{EmbedderError}
use k_engram.Storage.EmbedQueue.{
  PendingJob, ThoughtSource, is_target_of, enqueue_embedding, claim_pending, claimed_jobs,
  mark_embedded, find_thought,
}
use k_engram.Mcp.EmbedDrain.{
  EmbeddingModel, EmbedJobError, Inserted, Store, new_embedding, last_vector, plain_source,
  embed_text, marked, insert_embedding, process_embed_job, settle, drain_embeddings,
  drain_pending_embeddings_with_hygiene,
}
use k_engram.Mcp.Backfill.{
  enqueue_all, enqueue_unembedded_thoughts, BackfillReport, Round, after_drain,
  drain_pending_embeddings, backfill_loop, embed_backfill,
}
use k_engram.Mcp.Backfill.Budget.{embed_backfill_settles, embed_backfill_bounds}

abbrev model : EmbeddingModel
model = record { model_name = codes "m"; dimensions = 2 }

abbrev source : ℕ → ThoughtSource
source id = record {
  thought_id = id;
  scope = codes "work";
  content = codes "plan";
  metadata = null;
  retracted_at = none;
}

abbrev embed : List Text → Result EmbedderError (List (List ℕ))
embed texts = ok ((1 ∷ 0 ∷ []) ∷ [])

abbrev no_text : EmbedJobError → Text
no_text e = []

abbrev job : ℕ → PendingJob
job id = record {
  id = id;
  target_kind = codes "thought";
  target_id = id;
  model_id = codes "m";
  attempts = 0;
  last_error = none;
}

abbrev round : Round
round = record {
  is_locked = λ id. false;
  reached_in =
      λ j. record { source_read = true; insert_done = true; mark_done = true; failure_done = true };
  claim_done = true;
}

abbrev store : Store
store = record { pending = job 7 ∷ []; inserts = [] }

abbrev inserted : ℕ → Inserted
inserted id = record {
  target_kind = codes "thought";
  target_id = id;
  inserted = record { model = model; vector = 1 ∷ 0 ∷ [] };
}

abbrev thoughts : List ThoughtSource
thoughts = source 7 ∷ source 8 ∷ []

abbrev report : BackfillReport
report = record { healed = 1; embedded_total = 2; failed_total = 0 }

backfilled :
    embed_backfill thoughts [] model embed no_text (λ id. id) (λ t. true) true (λ i. round) store 5
    ≡ some (ok (record { pending = []; inserts = inserted 7 ∷ inserted 8 ∷ [] }, report))
unfolding embed_backfill enqueue_unembedded_thoughts enqueue_all enqueue_embedding is_target_of
    backfill_loop after_drain drain_pending_embeddings drain_pending_embeddings_with_hygiene
    claim_pending claimed_jobs drain_embeddings settle process_embed_job plain_source embed_text
    insert_embedding marked mark_embedded find_thought last_vector new_embedding text_eq
backfilled = refl

-- The queued thought takes the place of the limit: the other one is not healed.
limit_before_conflict :
    enqueue_unembedded_thoughts (λ id. id) (codes "m") (λ t. true) thoughts 1 (job 7 ∷ [])
    ≡ (job 7 ∷ [], 0)
unfolding enqueue_unembedded_thoughts enqueue_all enqueue_embedding is_target_of text_eq
limit_before_conflict = refl

embed_backfill_settles_example :
    embed_backfill thoughts [] model embed no_text (λ id. id) (λ t. true) true (λ i. round) store 5
    ≢ none
embed_backfill_settles_example =
    embed_backfill_settles thoughts [] model embed no_text (λ id. id) (λ t. true) true (λ i. round)
      store 5

embed_backfill_bounds_example :
    (report.embedded_total + report.failed_total ≤ 5) × (report.healed ≤ 5)
embed_backfill_bounds_example =
    embed_backfill_bounds thoughts [] model embed no_text (λ id. id) (λ t. true) (λ i. round) store
      (record { pending = []; inserts = inserted 7 ∷ inserted 8 ∷ [] }) 5 report backfilled
