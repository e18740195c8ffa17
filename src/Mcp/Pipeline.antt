-- ===== src/Mcp/Pipeline.antt =====
-- `search_thoughts_with_tuning` of crates/kengram-mcp/src/search.rs, from the request to the answer:
-- the legs of Mcp/Legs, their fusion, the linked thoughts, the recency boost, the tag filter and the
-- rerank stage. None is a panic, and the profile is left out.
pub mod Stages
pub mod Results
pub mod Answers
pub mod Unfailing
pub mod Tests
use k_engram.Prelude.{
  ℕ, ◌+◌, ◌-◌, ◌^◌, Bool, true, false, ◌&&◌, ◌||◌, not, List, [], ◌∷◌, ◌++◌, map, Option, none,
  some, ◌==◌, if◌then◌else◌, Result, ok, err, and_then, map_err, unwrap_or, any, retain, length,
  take, min,
}
use k_engram.Text.{Text, codes}
use k_engram.Unicode.{Unicode}
use k_engram.Float.{Float}
use k_engram.Core.Json.{Value}
use k_engram.Core.Relation.{RelationKind, LinkDirection, ThoughtId}
use k_engram.Core.Sparse.{SparseLexicalVector}
use k_engram.Core.Fusion.{Hit, same_id, rrf_fuse, recency_boost}
use k_engram.Mcp.Filter.{tags_match_filter}
use k_engram.Mcp.Graph.{merge_graph_expansion}
use k_engram.Mcp.Search.Terms.{domain_candidates, tag_facet_terms}
use k_engram.Mcp.Rerank.{Reranker, apply_rerank_to_thought_hits}
use k_engram.Mcp.Neighbors.{
  GraphNeighborHit, GraphNonThoughtTargetCounts, GraphExpansion, collect_graph_expansion,
}
use k_engram.Mcp.Retrieval.{
  Expander, ExpansionPlan, ExpansionRankings, Database, no_rankings, or_no_hits,
  default_top_k_per_leg, has_generated_inputs, build_expansion_plan, bounded_fts_hits,
  bounded_artifact_chunk_fts_hits, bounded_artifact_chunk_context_fts_hits,
  bounded_pairwise_artifact_chunk_fts_hits, bounded_domain_scope_hits, bounded_tag_facet_hits,
  collect_expansion_rankings,
}
use k_engram.Mcp.Gates.{
  ReadError, sparse_query_encoder_unavailable, sparse_query_encoding, storage, SearchRuntimeOptions,
  Gates, is_empty_filter, SearchRequest, SearchResponse, gates_of, check_request,
  search_hit_from_core_hit,
}
use k_engram.Mcp.Legs.{
  Backends, Found, SparseLegs, on_ok, unless_panic, query_vector, vector_legs, sparse_legs,
  lexical_legs, pairwise_leg, planned, rankings_of,
}

-- On `usize` of 64 bits.
unfoldable pub saturating_add : ℕ → ℕ → ℕ
saturating_add a b = min (a + b) (2 ^ 64 - 1)

abbrev pub default_rerank_candidate_pool : ℕ
default_rerank_candidate_pool = 16

abbrev pub default_lexical_top_k : ℕ
default_lexical_top_k = 50

abbrev pub default_lexical_statement_timeout_ms : ℕ
default_lexical_statement_timeout_ms = 300

module _ (fl : Float) (u : Unicode)
    (Vector StorageError EmbedderError ExpansionError : Type 0) where
  open fl use {F, of_ℕ}

  -- The answer as far as it is found before the search ends in it.
  abbrev pub Answer : Type 0
  Answer = Result (ReadError StorageError) (SearchResponse fl)

  abbrev pub apply_tag_filter : Option Value → List (Hit fl) → List (Hit fl)
  apply_tag_filter none fused = fused
  apply_tag_filter (some filter) fused =
      if is_empty_filter filter
      then fused
      else retain (λ h. tags_match_filter h.thought.tags filter) fused

  -- How many of the hits are among the thoughts of some others.
  abbrev retained_among : List ThoughtId → List (Hit fl) → ℕ
  retained_among candidates fused =
      length (retain (λ h. any (λ id. same_id id h.thought.id) candidates) fused)

  abbrev ids_of : List (Hit fl) → List ThoughtId
  ids_of = map (λ h. h.thought.id)

  unfoldable pub effective_candidate_pool :
      ℕ
      → List GraphNeighborHit
      → Found fl u Vector StorageError EmbedderError ExpansionError
      → List (Hit fl)
      → ℕ
  effective_candidate_pool candidate_pool rows found fused =
      let graph = retained_among (map (λ row. row.thought.id) rows) fused in
      let sparse =
        retained_among (ids_of (found.sparse.sparse_thought_hits ++ found.sparse.sparse_chunk_hits))
          fused in
      let contextual =
        retained_among
          (ids_of (
            found.vectors.contextual_chunk_vector_hits
            ++ found.lexical.contextual_chunk_lexical_hits))
          fused in
      saturating_add (saturating_add (saturating_add candidate_pool graph) sparse) contextual

  -- `match (rerank_enabled, reranker)`.
  abbrev pub rerank_stage :
      Bool → Option (Reranker fl) → Text → List (Hit fl) → ℕ → Bool → List (Hit fl) × Bool
  rerank_stage true (some reranker) query fused pool boosting =
      apply_rerank_to_thought_hits fl u reranker query fused pool boosting
  rerank_stage enabled reranker query fused pool boosting = (fused, false)

  module _ (b : Backends fl u Vector StorageError EmbedderError ExpansionError)
      (request : SearchRequest fl) (runtime : SearchRuntimeOptions)
      (default_candidate_pool : ℕ) where
    -- What follows the graph augmentation.
    unfoldable pub respond :
        Gates
        → Text
        → ℕ
        → Found fl u Vector StorageError EmbedderError ExpansionError
        → List (Hit fl)
        → GraphExpansion fl
        → SearchResponse fl
    respond gates query limit found fused graph =
        let half_life = unwrap_or request.recency_half_life_days (of_ℕ 30) in
        let merged = merge_graph_expansion fl fused graph.ranking (of_ℕ 60) in
        let filtered =
          apply_tag_filter request.tag_filter (recency_boost fl half_life b.age_secs merged) in
        let pool =
          effective_candidate_pool (unwrap_or request.candidate_pool default_candidate_pool)
            graph.rows found filtered in
        let (hits, rerank_used) =
          rerank_stage (unwrap_or request.rerank true) b.reranker query filtered pool
            gates.chunk_serving in
        record {
          results = map (search_hit_from_core_hit fl graph.rows) (take limit hits);
          vector_search_available = found.vectors.vector_search_available;
          rerank_used = rerank_used;
        }

    unfoldable pub serve :
        Gates → Text → ℕ → Found fl u Vector StorageError EmbedderError ExpansionError → Answer
    serve gates query limit found =
        let fused =
          rrf_fuse fl b.into_values
            (rankings_of fl u Vector StorageError EmbedderError ExpansionError gates found)
            (of_ℕ 60) in
        and_then
          (map_err storage (
            collect_graph_expansion fl b.count_graph_non_thought_targets b.search_graph_neighbors
              gates.graph_augmentation runtime.graph fused request.scope request.scope_prefix))
          (λ graph. ok (respond gates query limit found fused graph))

    module _ (lexical_top_k lexical_timeout_ms : ℕ) where
      -- What is found besides the legs that may end the search.
      abbrev pub found_of :
          Gates
          → Text
          → Option Vector
          → SparseLegs fl u Vector StorageError EmbedderError ExpansionError
          → List (Hit fl)
          → Found fl u Vector StorageError EmbedderError ExpansionError
      found_of gates query v sparse pairwise =
          let db = b.database request.scope request.scope_prefix in
          let plan =
            build_expansion_plan u ExpansionError b.expander gates.query_expansion gates.hyde
              runtime.query_expansion_max_variants runtime.query_expansion_max_hyde_chars query in
          record {
            vectors = vector_legs fl u Vector StorageError EmbedderError ExpansionError db gates v;
            sparse = sparse;
            lexical =
                lexical_legs fl u Vector StorageError EmbedderError ExpansionError db gates
                  lexical_top_k lexical_timeout_ms query;
            chunk_pairwise_lexical_hits = pairwise;
            expansion =
                planned fl u Vector StorageError EmbedderError ExpansionError db gates lexical_top_k
                  lexical_timeout_ms b.embed plan;
          }

      -- What follows the checks of the request.
      abbrev pub search_checked : Text × ℕ → Option Answer
      search_checked (query, limit) =
          let gates = gates_of fl request runtime in
          let db = b.database request.scope request.scope_prefix in
          unless_panic
            (query_vector fl u Vector StorageError EmbedderError ExpansionError
              (b.embed (query ∷ [])))
            (λ v.
              on_ok
                (sparse_legs fl u Vector StorageError EmbedderError ExpansionError db gates
                  b.encode_sparse query)
                (λ sparse.
                  unless_panic
                    (pairwise_leg fl u Vector StorageError EmbedderError ExpansionError db gates
                      lexical_top_k lexical_timeout_ms b.into_values query)
                    (λ pairwise.
                      some (serve gates query limit (found_of gates query v sparse pairwise)))))

      unfoldable pub search_thoughts_with_tuning : Option Answer
      search_thoughts_with_tuning = on_ok (check_request fl request) search_checked

  unfoldable pub search_thoughts_with_runtime_and_sparse :
      Backends fl u Vector StorageError EmbedderError ExpansionError
      → SearchRequest fl
      → SearchRuntimeOptions
      → Option Answer
  search_thoughts_with_runtime_and_sparse b request runtime =
      search_thoughts_with_tuning b request runtime default_rerank_candidate_pool
        default_lexical_top_k default_lexical_statement_timeout_ms
