-- ===== src/Mcp/EmbedDrain.antt =====
-- The drainer of embeddings in crates/kengram-mcp/src/drain.rs, over the queue of
-- Storage/EmbedQueue. Whether a statement reaches the database is an argument of each job; the
-- embeddings that were inserted are kept in their order.
pub mod Fence
pub mod Counts
pub mod Tests
use k_engram.Prelude.{
  ℕ, ◌+◌, Bool, true, false, not, ◌||◌, List, [], ◌∷◌, ◌++◌, Option, none, some, ◌==◌,
  if◌then◌else◌, length, is_some, Result, ok, err, and_then, ok_or, map_err,
}
use k_engram.Text.{Text, codes, text_eq}
use k_engram.Core.Failure.{EmbedderError}
use k_engram.Storage.EmbedQueue.{
  PendingJob, ThoughtSource, ChunkSource, EmbeddingIndexSourceStatus, ready, denied, missing,
  claim_pending, claimed_jobs, mark_embedded, mark_failed, find_thought, find_chunk,
  fetch_embedding_index_source,
}

pub record EmbeddingModel : Type 0 where
  pub model_name : Text
  pub dimensions : ℕ

-- A component is the number of its 32 bits; only the embedder and the database compute with it.
pub record Embedding : Type 0 where
  pub model : EmbeddingModel
  pub vector : List ℕ

-- `Embedding::new`; the error has the expected and the actual length.
unfoldable pub new_embedding : EmbeddingModel → List ℕ → Result (ℕ × ℕ) Embedding
new_embedding model vector =
    if length vector == model.dimensions
    then ok (record { model = model; vector = vector })
    else err (model.dimensions, length vector)

pub data EmbedJobOutcome : Type 0 where
  embedded : EmbedJobOutcome
  skipped : Text → EmbedJobOutcome

pub data EmbedJobError : Type 0 where
  model_mismatch : Text → Text → EmbedJobError
  unsupported_target_kind : Text → EmbedJobError
  source_missing : EmbedJobError
  embedder : EmbedderError → EmbedJobError
  embedding : ℕ × ℕ → EmbedJobError
  storage : EmbedJobError
  empty_embedder_output : EmbedJobError

pub record Inserted : Type 0 where
  pub target_kind : Text
  pub target_id : ℕ
  pub inserted : Embedding

pub record Store : Type 0 where
  pub pending : List PendingJob
  pub inserts : List Inserted

-- Which statements of one job reach the database.
pub record Reached : Type 0 where
  pub source_read : Bool
  pub insert_done : Bool
  pub mark_done : Bool
  pub failure_done : Bool

pub record DrainReport : Type 0 where
  pub found : ℕ
  pub embedded_count : ℕ
  pub skipped_count : ℕ
  pub failed_count : ℕ

-- `vectors.pop()`.
unfoldable pub last_vector : List (List ℕ) → Option (List ℕ)
last_vector [] = none
last_vector (v ∷ []) = some v
last_vector (v ∷ w ∷ vs) = last_vector (w ∷ vs)

module _ (thoughts : List ThoughtSource) (chunks : List ChunkSource) (active : EmbeddingModel)
    (embed : List Text → Result EmbedderError (List (List ℕ)))
    (show_error : EmbedJobError → Text) where
  -- The text without the fence: `fetch_thought`, and `fetch_artifact_chunk_content`, which leaves
  -- retracted chunks out.
  abbrev pub content_of : Option ThoughtSource → Result EmbedJobError Text
  content_of none = err source_missing
  content_of (some t) = ok t.content

  abbrev pub chunk_content_of : Option ChunkSource → Result EmbedJobError Text
  chunk_content_of none = err source_missing
  chunk_content_of (some c) =
      if is_some c.chunk_retracted_at then err source_missing else ok c.chunk_content

  unfoldable pub plain_source : Reached → PendingJob → Result EmbedJobError Text
  plain_source reached job =
      if text_eq job.target_kind (codes "thought")
      then (if reached.source_read
          then content_of (find_thought thoughts job.target_id)
          else err storage)
      else if text_eq job.target_kind (codes "artifact_chunk")
      then (if reached.source_read
          then chunk_content_of (find_chunk chunks job.target_id)
          else err storage)
      else err (unsupported_target_kind job.target_kind)

  -- From the text to the embedding.
  unfoldable pub embed_text : Text → Result EmbedJobError Embedding
  embed_text text = and_then (map_err embedder (embed (text ∷ []))) (λ vectors.
      and_then (ok_or (last_vector vectors) empty_embedder_output)
        (λ vector. map_err embedding (new_embedding active vector)))

  -- `mark_embedded(…)?` at the end of a branch.
  unfoldable pub marked :
      Reached → Store → PendingJob → EmbedJobOutcome → Store × Result EmbedJobError EmbedJobOutcome
  marked reached s job outcome =
      if reached.mark_done
      then (record s { pending = mark_embedded s.pending job.id }, ok outcome)
      else (s, err storage)

  -- The insertion by the kind of the target, and what follows.
  unfoldable pub insert_embedding :
      Reached → Store → PendingJob → Embedding → Store × Result EmbedJobError EmbedJobOutcome
  insert_embedding reached s job e =
      if text_eq job.target_kind (codes "thought")
        || text_eq job.target_kind (codes "artifact_chunk")
      then (if reached.insert_done
          then marked reached
              (record s {
                inserts =
                    s.inserts
                    ++ record {
                      target_kind = job.target_kind;
                      target_id = job.target_id;
                      inserted = e;
                    }
                      ∷ [];
              })
              job embedded
          else (s, err storage))
      else (s, err (unsupported_target_kind job.target_kind))

  abbrev pub with_embedding :
      Reached
      → Store
      → PendingJob
      → Result EmbedJobError Embedding
      → Store × Result EmbedJobError EmbedJobOutcome
  with_embedding reached s job (err e) = (s, err e)
  with_embedding reached s job (ok e) = insert_embedding reached s job e

  abbrev pub with_source :
      Reached
      → Store
      → PendingJob
      → Result EmbedJobError Text
      → Store × Result EmbedJobError EmbedJobOutcome
  with_source reached s job (err e) = (s, err e)
  with_source reached s job (ok text) = with_embedding reached s job (embed_text text)

  -- The branch behind the hygiene fence.
  abbrev pub with_status :
      Reached
      → Store
      → PendingJob
      → Result Text EmbeddingIndexSourceStatus
      → Store × Result EmbedJobError EmbedJobOutcome
  with_status reached s job (err kind) = (s, err storage)
  with_status reached s job (ok (ready text)) = with_embedding reached s job (embed_text text)
  with_status reached s job (ok (denied reason)) = marked reached s job (skipped reason)
  with_status reached s job (ok missing) = marked reached s job (skipped (codes "source_missing"))

  unfoldable pub process_embed_job :
      Bool → Reached → Store → PendingJob → Store × Result EmbedJobError EmbedJobOutcome
  process_embed_job hygiene_enabled reached s job =
      if not (text_eq job.model_id active.model_name)
      then (s, err (model_mismatch active.model_name job.model_id))
      else if hygiene_enabled
      then (if reached.source_read
          then with_status reached s job
              (fetch_embedding_index_source thoughts chunks job.target_kind job.target_id)
          else (s, err storage))
      else with_source reached s job (plain_source reached job)

  -- One round of the loop of the drainer behind the job: the report, and the recorded failure.
  unfoldable pub settle :
      Reached
      → PendingJob
      → DrainReport
      → Store × Result EmbedJobError EmbedJobOutcome
      → Store × DrainReport
  settle reached job r (s, ok embedded) = (s, record r { embedded_count = r.embedded_count + 1 })
  settle reached job r (s, ok (skipped reason)) =
      (s, record r { skipped_count = r.skipped_count + 1 })
  settle reached job r (s, err e) = (
    if reached.failure_done
        then record s { pending = mark_failed s.pending job.id (show_error e) }
        else s,
    record r { failed_count = r.failed_count + 1 },
  )

  unfoldable pub drain_embeddings :
      Bool → (PendingJob → Reached) → Store → DrainReport → List PendingJob → Store × DrainReport
  drain_embeddings hygiene_enabled reached s r [] = (s, r)
  drain_embeddings hygiene_enabled reached s r (job ∷ jobs) =
      let (s', r') =
        settle (reached job) job r (process_embed_job hygiene_enabled (reached job) s job) in
      drain_embeddings hygiene_enabled reached s' r' jobs

  -- None is the error of the claim.
  unfoldable pub drain_pending_embeddings_with_hygiene :
      Bool → (ℕ → Bool) → (PendingJob → Reached) → Bool → Store → ℕ → Option (Store × DrainReport)
  drain_pending_embeddings_with_hygiene hygiene_enabled locked reached claimed s batch_size =
      let jobs = claimed_jobs locked batch_size s.pending in
      if claimed
      then some (
          drain_embeddings hygiene_enabled reached
            (record s { pending = claim_pending locked batch_size s.pending })
            (record {
              found = length jobs;
              embedded_count = 0;
              skipped_count = 0;
              failed_count = 0;
            })
            jobs)
      else none
