-- ===== src/Mcp/EmbedDrain/Tests.antt =====
-- A drain of one clean thought.
use k_engram.Prelude.{
  ℕ, ◌+◌, ◌≤◌, true, false, List, [], ◌∷◌, some, none, ◌≡◌, refl, length, Result, ok,
}
use k_engram.Text.{Text, codes}
use k_engram.Core.Json.{null}
use k_engram.Core.Failure.{EmbedderError}
use k_engram.Storage.EmbedQueue.{PendingJob, ThoughtSource, claim_pending, claimed_jobs}
use k_engram.Mcp.EmbedDrain.{
  EmbeddingModel, EmbedJobError, Store, Reached, DrainReport, process_embed_job, drain_embeddings,
  drain_pending_embeddings_with_hygiene,
}
use k_engram.Mcp.EmbedDrain.Counts.{drain_pending_embeddings_lem}
use k_engram.Mcp.EmbedDrain.Fence.{Fenced, CleanTarget, process_embed_job-Fenced}

abbrev model : EmbeddingModel
model = record { model_name = codes "m"; dimensions = 2 }

abbrev source : ThoughtSource
source = record {
  thought_id = 7;
  scope = codes "work";
  content = codes "plan";
  metadata = null;
  retracted_at = none;
}

abbrev embed : List Text → Result EmbedderError (List (List ℕ))
embed texts = ok ((1 ∷ 0 ∷ []) ∷ [])

abbrev no_text : EmbedJobError → Text
no_text e = []

abbrev job : PendingJob
job = record {
  id = 1;
  target_kind = codes "thought";
  target_id = 7;
  model_id = codes "m";
  attempts = 0;
  last_error = none;
}

abbrev store : Store
store = record { pending = job ∷ []; inserts = [] }

abbrev all_reached : Reached
all_reached = record {
  source_read = true;
  insert_done = true;
  mark_done = true;
  failure_done = true;
}

process_embed_job-Fenced_example :
    Fenced
      (source ∷ [])
      []
      model
      embed
      no_text
      (CleanTarget (source ∷ []) [] model embed no_text job)
      store
      job
      (process_embed_job (source ∷ []) [] model embed no_text true all_reached store job).0
process_embed_job-Fenced_example =
    process_embed_job-Fenced (source ∷ []) [] model embed no_text all_reached store job

abbrev drained : Store × DrainReport
drained =
    drain_embeddings (source ∷ []) [] model embed no_text true (λ j. all_reached)
      (record store { pending = claim_pending (λ id. false) 10 (job ∷ []) })
      (record {
        found = length (claimed_jobs (λ id. false) 10 (job ∷ []));
        embedded_count = 0;
        skipped_count = 0;
        failed_count = 0;
      })
      (claimed_jobs (λ id. false) 10 (job ∷ []))

drain_run :
    drain_pending_embeddings_with_hygiene
      (source ∷ [])
      []
      model
      embed
      no_text
      true
      (λ id. false)
      (λ j. all_reached)
      true
      store
      10
    ≡ some (drained.0, drained.1)
unfolding drain_pending_embeddings_with_hygiene
drain_run = refl

drain_pending_embeddings_lem_example :
    (drained.1.embedded_count + drained.1.skipped_count + drained.1.failed_count ≡ drained.1.found)
    × (drained.1.found ≤ 10)
    × (drained.1.found ≤ 1)
drain_pending_embeddings_lem_example =
    drain_pending_embeddings_lem (source ∷ []) [] model embed no_text true (λ id. false)
      (λ j. all_reached) store drained.0 10 drained.1 drain_run
