-- ===== src/Mcp/EmbedDrain/Fence.antt =====
-- What the drainer of embeddings inserts behind the hygiene fence.
use k_engram.Prelude.{
  ℕ, Bool, true, false, not, ◌||◌, List, [], ◌∷◌, ◌++◌, Option, none, some, ◌≡◌, refl, ◌⊎◌, inl,
  inr, if◌then◌else◌, Bool-cases, Result, ok, err, ok_injective,
}
use k_engram.Text.{Text, codes, text_eq}
use k_engram.Core.Failure.{EmbedderError}
use k_engram.Storage.Hygiene.{
  thought_index_denial_reason, chunk_index_denial_reason, text_trips_eval_contamination,
}
use k_engram.Storage.Hygiene.Fences.{
  IsClean, thought_index_denial_reason-none, chunk_index_denial_reason-none,
}
use k_engram.Storage.EmbedQueue.{
  PendingJob, ThoughtSource, ChunkSource, EmbeddingIndexSourceStatus, ready, denied, missing,
  find_thought, find_chunk, parent_of, denial_or_ready, thought_status, chunk_denial, chunk_status,
  fetch_embedding_index_source,
}
use k_engram.Mcp.EmbedDrain.{
  EmbeddingModel, Embedding, EmbedJobOutcome, embedded, skipped, model_mismatch, storage,
  EmbedJobError, Store, Reached, embed_text, marked, insert_embedding, with_embedding, with_status,
  process_embed_job,
}

module _ (thoughts : List ThoughtSource) (chunks : List ChunkSource) (active : EmbeddingModel)
    (embed : List Text → Result EmbedderError (List (List ℕ)))
    (show_error : EmbedJobError → Text) where
  -- Nothing was inserted, or the embedding of a text for which `Allowed` holds.
  abbrev pub Fenced : (Text → Type 0) → Store → PendingJob → Store → Type 0
  Fenced Allowed s job after =
      (after.inserts ≡ s.inserts)
      ⊎ ((text : Text) × (e : Embedding) × Allowed text
          × (embed_text thoughts chunks active embed show_error text ≡ ok e)
          × (after.inserts
              ≡ s.inserts
                ++ record { target_kind = job.target_kind; target_id = job.target_id; inserted = e }
                  ∷ []))

  marked-inserts :
      (reached : Reached) (s : Store) (job : PendingJob) (o : EmbedJobOutcome)
      → (marked thoughts chunks active embed show_error reached s job o).0.inserts ≡ s.inserts
  unfolding marked
  marked-inserts reached s job o = elim (Bool-cases reached.mark_done) [
    | inl e ↦ simp e refl
    | inr e ↦ simp e refl
  ]

  insert_embedding-Fenced :
      (Allowed : Text → Type 0) (reached : Reached) (s : Store) (job : PendingJob) (text : Text)
      (e : Embedding)
      → Allowed text
      → embed_text thoughts chunks active embed show_error text ≡ ok e
      → Fenced Allowed s job
          (insert_embedding thoughts chunks active embed show_error reached s job e).0
  unfolding insert_embedding
  insert_embedding-Fenced Allowed reached s job text e allowed made =
      elim (Bool-cases (
        text_eq job.target_kind (codes "thought")
        || text_eq job.target_kind (codes "artifact_chunk"))) [
          | inr other ↦ inl (simp other refl)
          | inl known ↦ elim (Bool-cases reached.insert_done) [
            | inr lost ↦ inl (simp (known, lost) refl)
            | inl done ↦ inr (
              text,
              e,
              allowed,
              made,
              simp (known, done)
                  (marked-inserts reached
                    (record s {
                      inserts =
                          s.inserts
                          ++ record {
                            target_kind = job.target_kind;
                            target_id = job.target_id;
                            inserted = e;
                          }
                            ∷ [];
                    })
                    job embedded),
            )
          ]
        ]

  with_embedding-Fenced :
      (Allowed : Text → Type 0) (reached : Reached) (s : Store) (job : PendingJob) (text : Text)
      (made : Result EmbedJobError Embedding)
      → Allowed text
      → embed_text thoughts chunks active embed show_error text ≡ made
      → Fenced Allowed s job
          (with_embedding thoughts chunks active embed show_error reached s job made).0
  with_embedding-Fenced Allowed reached s job text (err x) allowed e = inl refl
  with_embedding-Fenced Allowed reached s job text (ok made) allowed e =
      insert_embedding-Fenced Allowed reached s job text made allowed e

  -- The target of a job may be indexed, by the tables, and its text is `text`.
  abbrev pub Indexable : PendingJob → Text → Type 0
  Indexable job text =
      fetch_embedding_index_source thoughts chunks job.target_kind job.target_id ≡ ok (ready text)

  with_status-Fenced :
      (reached : Reached) (s : Store) (job : PendingJob)
      (status : Result Text EmbeddingIndexSourceStatus)
      → fetch_embedding_index_source thoughts chunks job.target_kind job.target_id ≡ status
      → Fenced
          (Indexable job)
          s
          job
          (with_status thoughts chunks active embed show_error reached s job status).0
  with_status-Fenced reached s job (err kind) e = inl refl
  with_status-Fenced reached s job (ok (ready text)) e =
      with_embedding-Fenced (Indexable job) reached s job text
        (embed_text thoughts chunks active embed show_error text) e refl
  with_status-Fenced reached s job (ok (denied reason)) e =
      inl (marked-inserts reached s job (skipped reason))
  with_status-Fenced reached s job (ok missing) e =
      inl (marked-inserts reached s job (skipped (codes "source_missing")))

  process_embed_job-Indexable :
      (reached : Reached) (s : Store) (job : PendingJob)
      → Fenced
          (Indexable job)
          s
          job
          (process_embed_job thoughts chunks active embed show_error true reached s job).0
  unfolding process_embed_job
  process_embed_job-Indexable reached s job =
      guarded (not (text_eq job.model_id active.model_name)) reached.source_read
    where
      guarded :
          (other read : Bool)
          → Fenced
              (Indexable job)
              s
              job
              (if other
                then (s, err (model_mismatch active.model_name job.model_id))
                else if read
                then with_status thoughts chunks active embed show_error reached s job
                    (fetch_embedding_index_source thoughts chunks job.target_kind job.target_id)
                else (s, err storage)).0
      guarded true read = inl refl
      guarded false false = inl refl
      guarded false true =
          with_status-Fenced reached s job
            (fetch_embedding_index_source thoughts chunks job.target_kind job.target_id) refl

  -- What the fence means for the target: the thought of a thought's job is in the table and clean;
  -- the chunk of a chunk's job is not retracted, its parent is in the table and clean, and its own
  -- text has no marker.
  abbrev pub CleanTarget : PendingJob → Text → Type 0
  CleanTarget job text =
      ((t : ThoughtSource) × (find_thought thoughts job.target_id ≡ some t)
        × (t.content ≡ text)
        × IsClean t.thought_id t.scope t.metadata t.content t.retracted_at)
      ⊎ ((c : ChunkSource) × (t : ThoughtSource) × (find_chunk chunks job.target_id ≡ some c)
          × (parent_of thoughts c.source_thought_id ≡ some t)
          × (c.chunk_content ≡ text)
          × (c.chunk_retracted_at ≡ none)
          × IsClean t.thought_id t.scope t.metadata t.content t.retracted_at
          × (text_trips_eval_contamination c.chunk_content ≡ false))

  ready_parts :
      (reason : Option Text) (content text : Text)
      → denial_or_ready reason content ≡ ready text
      → (reason ≡ none) × (content ≡ text)
  ready_parts none content text e = (refl, cc)
  ready_parts (some reason) content text e = cc

  thought_status-IsClean :
      (found : Option ThoughtSource) (text : Text)
      → thought_status found ≡ ready text
      → (t : ThoughtSource) × (found ≡ some t)
        × (t.content ≡ text)
        × IsClean t.thought_id t.scope t.metadata t.content t.retracted_at
  thought_status-IsClean none text e = cc
  thought_status-IsClean (some t) text e =
      let (clear, same) =
        ready_parts
          (thought_index_denial_reason t.thought_id t.scope t.metadata t.content t.retracted_at)
          t.content text e in
      (
        t,
        refl,
        same,
        (thought_index_denial_reason-none t.thought_id t.scope t.metadata t.content
              t.retracted_at).0
            clear,
      )

  chunk_denial-IsClean :
      (c : ChunkSource) (parent : Option ThoughtSource)
      → chunk_denial c parent ≡ none
      → (t : ThoughtSource) × (parent ≡ some t)
        × (c.chunk_retracted_at ≡ none)
        × IsClean t.thought_id t.scope t.metadata t.content t.retracted_at
        × (text_trips_eval_contamination c.chunk_content ≡ false)
  unfolding chunk_index_denial_reason
  chunk_denial-IsClean c none e = cc
  chunk_denial-IsClean c (some t) e =
      let fence =
        chunk_index_denial_reason-none t.thought_id t.scope t.metadata t.content t.retracted_at
          c.chunk_content c.chunk_retracted_at in
      let (live, clean, plain) = fence.0.0 e in (t, refl, live, clean, plain)

  chunk_status-IsClean :
      (found : Option ChunkSource) (text : Text)
      → chunk_status thoughts found ≡ ready text
      → (c : ChunkSource) × (t : ThoughtSource) × (found ≡ some c)
        × (parent_of thoughts c.source_thought_id ≡ some t)
        × (c.chunk_content ≡ text)
        × (c.chunk_retracted_at ≡ none)
        × IsClean t.thought_id t.scope t.metadata t.content t.retracted_at
        × (text_trips_eval_contamination c.chunk_content ≡ false)
  chunk_status-IsClean none text e = cc
  chunk_status-IsClean (some c) text e =
      let (clear, same) =
        ready_parts (chunk_denial c (parent_of thoughts c.source_thought_id)) c.chunk_content text
          e in
      let (t, parent, live, clean, plain) =
        chunk_denial-IsClean c (parent_of thoughts c.source_thought_id) clear in
      (c, t, refl, parent, same, live, clean, plain)

  Indexable-CleanTarget :
      (job : PendingJob) (text : Text) → Indexable job text → CleanTarget job text
  unfolding fetch_embedding_index_source
  Indexable-CleanTarget job text e = elim (Bool-cases (text_eq job.target_kind (codes "thought"))) [
    | inl k ↦ inl (
        thought_status-IsClean (find_thought thoughts job.target_id) text
          (ok_injective (simp k at e)))
    | inr k ↦ elim (Bool-cases (text_eq job.target_kind (codes "artifact_chunk"))) [
      | inl c ↦ inr (
          chunk_status-IsClean (find_chunk chunks job.target_id) text
            (ok_injective (simp (k, c) at e)))
      | inr c ↦ absurd (cc (simp (k, c) at e))
    ]
  ]

  -- With the fence on, one job inserts nothing, or the embedding of a text that passed it: of a
  -- clean thought in the table, or of a chunk that is not retracted and has no marker, with a clean
  -- parent. So no retracted, archived or evaluation material is embedded, whatever fails.
  pub process_embed_job-Fenced :
      (reached : Reached) (s : Store) (job : PendingJob)
      → Fenced
          (CleanTarget job)
          s
          job
          (process_embed_job thoughts chunks active embed show_error true reached s job).0
  process_embed_job-Fenced reached s job = elim (process_embed_job-Indexable reached s job) [
    | inl same ↦ inl same
    | inr (text, e, indexable, made, grown) ↦
        inr (text, e, Indexable-CleanTarget job text indexable, made, grown)
  ]
