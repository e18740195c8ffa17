-- ===== src/Storage/EmbedQueue.antt =====
-- The table `pending_embeddings` of crates/kengram-storage/src/lib.rs, its rows in the order of
-- `enqueued_at`, and the source that an embedding is made of, with the fence before it.
use k_engram.Prelude.{
  ℕ, zero, suc, ◌+◌, Bool, true, false, ◌&&◌, not, List, [], ◌∷◌, ◌++◌, map, Option, none, some,
  ◌==◌, if◌then◌else◌, retain, any, Result, ok, err,
}
use k_engram.Text.{Text, codes, text_eq}
use k_engram.Core.Json.{Value}
use k_engram.Storage.Hygiene.{thought_index_denial_reason, chunk_index_denial_reason}

-- A row; `last_error` is not part of what a claim gives out.
pub record PendingJob : Type 0 where
  pub id : ℕ
  pub target_kind : Text
  pub target_id : ℕ
  pub model_id : Text
  pub attempts : ℕ
  pub last_error : Option Text

unfoldable pub is_target_of : Text → ℕ → Text → PendingJob → Bool
is_target_of kind id model row =
    text_eq row.target_kind kind && row.target_id == id && text_eq row.model_id model

-- The id is the column's default, a fresh UUID, which the database draws.
unfoldable pub enqueue_embedding : List PendingJob → ℕ → Text → ℕ → Text → List PendingJob × Bool
enqueue_embedding rows fresh kind id model =
    if any (is_target_of kind id model) rows then (rows, false) else (
      rows
          ++ record {
            id = fresh;
            target_kind = kind;
            target_id = id;
            model_id = model;
            attempts = 0;
            last_error = none;
          }
            ∷ [],
      true,
    )

-- The rows after a claim of at most `n`; a row that another worker has locked is skipped. A count of
-- attempts at the end of its 32 bits makes the statement fail, which is the caller's argument.
unfoldable pub claim_pending : (ℕ → Bool) → ℕ → List PendingJob → List PendingJob
claim_pending locked n [] = []
claim_pending locked zero (row ∷ rows) = row ∷ rows
claim_pending locked (suc n) (row ∷ rows) =
    let skipped = locked row.id in
    let rest = claim_pending locked (if skipped then suc n else n) rows in
    (if skipped then row else record row { attempts = row.attempts + 1 }) ∷ rest

-- The jobs that the claim gives out, in the order of the rows.
unfoldable pub claimed_jobs : (ℕ → Bool) → ℕ → List PendingJob → List PendingJob
claimed_jobs locked n [] = []
claimed_jobs locked zero (row ∷ rows) = []
claimed_jobs locked (suc n) (row ∷ rows) =
    let skipped = locked row.id in
    let rest = claimed_jobs locked (if skipped then suc n else n) rows in
    if skipped then rest else record row { attempts = row.attempts + 1 } ∷ rest

unfoldable pub mark_embedded : List PendingJob → ℕ → List PendingJob
mark_embedded rows id = retain (λ row. not (row.id == id)) rows

unfoldable pub mark_failed : List PendingJob → ℕ → Text → List PendingJob
mark_failed rows id message =
    map (λ row. if row.id == id then record row { last_error = some message } else row) rows

-- What the two reading statements take of the tables `thoughts` and `artifact_chunks`.
pub record ThoughtSource : Type 0 where
  pub thought_id : ℕ
  pub scope : Text
  pub content : Text
  pub metadata : Value
  pub retracted_at : Option ℕ

pub record ChunkSource : Type 0 where
  pub chunk_id : ℕ
  pub chunk_content : Text
  pub chunk_retracted_at : Option ℕ
  pub source_thought_id : Option ℕ

pub data EmbeddingIndexSourceStatus : Type 0 where
  ready : Text → EmbeddingIndexSourceStatus
  denied : Text → EmbeddingIndexSourceStatus
  missing : EmbeddingIndexSourceStatus

unfoldable pub find_thought : List ThoughtSource → ℕ → Option ThoughtSource
find_thought [] id = none
find_thought (t ∷ ts) id = if t.thought_id == id then some t else find_thought ts id

unfoldable pub find_chunk : List ChunkSource → ℕ → Option ChunkSource
find_chunk [] id = none
find_chunk (c ∷ cs) id = if c.chunk_id == id then some c else find_chunk cs id

-- The parent by the left join.
abbrev pub parent_of : List ThoughtSource → Option ℕ → Option ThoughtSource
parent_of thoughts none = none
parent_of thoughts (some id) = find_thought thoughts id

abbrev pub denial_or_ready : Option Text → Text → EmbeddingIndexSourceStatus
denial_or_ready (some reason) content = denied reason
denial_or_ready none content = ready content

abbrev pub thought_status : Option ThoughtSource → EmbeddingIndexSourceStatus
thought_status none = missing
thought_status (some t) =
    denial_or_ready
      (thought_index_denial_reason t.thought_id t.scope t.metadata t.content t.retracted_at)
      t.content

-- The columns of a missing parent are all null.
abbrev pub chunk_denial : ChunkSource → Option ThoughtSource → Option Text
chunk_denial c none =
    chunk_index_denial_reason none none none none none c.chunk_content c.chunk_retracted_at
chunk_denial c (some t) =
    chunk_index_denial_reason (some t.thought_id) (some t.scope) (some t.metadata) (some t.content)
      t.retracted_at c.chunk_content c.chunk_retracted_at

abbrev pub chunk_status : List ThoughtSource → Option ChunkSource → EmbeddingIndexSourceStatus
chunk_status thoughts none = missing
chunk_status thoughts (some c) =
    denial_or_ready (chunk_denial c (parent_of thoughts c.source_thought_id)) c.chunk_content

-- The error names an unsupported kind.
unfoldable pub fetch_embedding_index_source :
    List ThoughtSource → List ChunkSource → Text → ℕ → Result Text EmbeddingIndexSourceStatus
fetch_embedding_index_source thoughts chunks target_kind target_id =
    if text_eq target_kind (codes "thought")
    then ok (thought_status (find_thought thoughts target_id))
    else if text_eq target_kind (codes "artifact_chunk")
    then ok (chunk_status thoughts (find_chunk chunks target_id))
    else err target_kind
