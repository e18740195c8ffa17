-- ===== src/Mcp/Gates.antt =====
-- The request and the answer of a search in crates/kengram-mcp/src/search.rs, and which parts of the
-- pipeline a request switches on. Of a hit's thought and chunk only what Core/Fusion keeps is in the
-- answer, and no profile.
use k_engram.Prelude.{
  ℕ, Bool, true, false, ◌&&◌, ◌||◌, List, Option, ◌==◌, ltb, if◌then◌else◌, Result, ok, err,
  is_some, unwrap_or, map_some, is_empty,
}
use k_engram.Text.{Text, trim}
use k_engram.Float.{Float}
use k_engram.Core.Json.{Value, object, field}
use k_engram.Core.Relation.{ThoughtId}
use k_engram.Core.Tags.{Tags}
use k_engram.Core.Fusion.{Hit}
use k_engram.Mcp.Neighbors.{GraphNeighborHit, GraphProvenance, GraphOptions, provenance_at}

abbrev pub default_search_limit : ℕ
default_search_limit = 10

abbrev pub max_search_limit : ℕ
max_search_limit = 100

pub data ReadError (StorageError : Type 0) : Type 0 where
  empty_query : ReadError StorageError
  limit_out_of_bounds : ℕ → ℕ → ReadError StorageError
  not_found : ReadError StorageError
  scope_and_prefix_both_set : ReadError StorageError
  sparse_query_encoder_unavailable : ReadError StorageError
  sparse_query_encoding : Text → ReadError StorageError
  storage : StorageError → ReadError StorageError

pub record SearchRuntimeOptions : Type 0 where
  pub query_expansion_enabled : Bool
  pub hyde_enabled : Bool
  pub query_expansion_max_variants : ℕ
  pub query_expansion_max_hyde_chars : ℕ
  pub sparse_lexical_enabled : Bool
  pub graph_augmentation_enabled : Bool
  pub graph : GraphOptions
  pub contextual_retrieval_enabled : Bool
  pub contextual_chunk_vector_enabled : Bool
  pub contextual_chunk_fts_enabled : Bool

-- The local switches at the head of `search_thoughts_with_tuning`.
pub record Gates : Type 0 where
  pub chunk_serving : Bool
  pub tag_domain_routing : Bool
  pub sparse_lexical : Bool
  pub query_expansion : Bool
  pub hyde : Bool
  pub graph_augmentation : Bool
  pub contextual_chunk_vector : Bool
  pub contextual_chunk_fts : Bool

unfoldable pub is_empty_filter : Value → Bool
is_empty_filter (object (field k v fields)) = false
is_empty_filter _ = true

module _ (fl : Float) where
  pub record SearchRequest : Type 0 where
    pub query : Text
    pub scope : Option Text
    pub scope_prefix : Option Text
    pub limit : Option ℕ
    pub recency_half_life_days : Option fl.F
    pub rerank : Option Bool
    pub candidate_pool : Option ℕ
    pub chunk_serving_enabled : Bool
    pub full_pipeline_enabled : Bool
    pub tag_domain_routing_enabled : Bool
    pub tag_filter : Option Value

  unfoldable pub gates_of : SearchRequest → SearchRuntimeOptions → Gates
  gates_of request runtime =
      let chunk_serving = request.full_pipeline_enabled && request.chunk_serving_enabled in
      let query_expansion = request.full_pipeline_enabled && runtime.query_expansion_enabled in
      let contextual = chunk_serving && runtime.contextual_retrieval_enabled in
      record {
        chunk_serving = chunk_serving;
        tag_domain_routing = request.full_pipeline_enabled && request.tag_domain_routing_enabled;
        sparse_lexical = request.full_pipeline_enabled && runtime.sparse_lexical_enabled;
        query_expansion = query_expansion;
        hyde = query_expansion && runtime.hyde_enabled;
        graph_augmentation = request.full_pipeline_enabled && runtime.graph_augmentation_enabled;
        contextual_chunk_vector = contextual && runtime.contextual_chunk_vector_enabled;
        contextual_chunk_fts = contextual && runtime.contextual_chunk_fts_enabled;
      }

  -- The early returns: the trimmed query and the limit, or the error.
  unfoldable pub check_request :
      {StorageError : Type 0} (request : SearchRequest) → Result (ReadError StorageError) (Text × ℕ)
  check_request request =
      let query = trim request.query in
      let limit = unwrap_or request.limit default_search_limit in
      if is_empty query
      then err empty_query
      else if limit == 0 || ltb max_search_limit limit
      then err (limit_out_of_bounds limit max_search_limit)
      else if is_some request.scope && is_some request.scope_prefix
      then err scope_and_prefix_both_set
      else ok (query, limit)

  pub record SearchHit : Type 0 where
    pub thought_id : ThoughtId
    pub content : Text
    pub created_at : ℕ
    pub tags : Tags
    pub vector_score : Option fl.F
    pub lexical_score : Option fl.F
    pub trigram_score : Option fl.F
    pub rrf_score : Option fl.F
    pub rerank_score : Option fl.F
    pub chunk_id : Option ℕ
    pub chunk_content : Option Text
    pub graph_provenance : List GraphProvenance

  unfoldable pub search_hit_from_core_hit : List GraphNeighborHit → Hit fl → SearchHit
  search_hit_from_core_hit rows h = record {
    thought_id = h.thought.id;
    content = h.thought.content;
    created_at = h.thought.created_at;
    tags = h.thought.tags;
    vector_score = h.vector_score;
    lexical_score = h.lexical_score;
    trigram_score = h.trigram_score;
    rrf_score = h.rrf_score;
    rerank_score = h.rerank_score;
    chunk_id = map_some (λ c. c.chunk_id) h.chunk;
    chunk_content = map_some (λ c. c.content) h.chunk;
    graph_provenance = provenance_at rows h.thought.id;
  }

  pub record SearchResponse : Type 0 where
    pub results : List SearchHit
    pub vector_search_available : Bool
    pub rerank_used : Bool
