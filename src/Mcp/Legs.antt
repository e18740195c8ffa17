-- ===== src/Mcp/Legs.antt =====
-- What the legs of `search_thoughts_with_tuning` in crates/kengram-mcp/src/search.rs find, and the
-- rankings that are made of it. None is a panic. The encoders, the reranker and the database are
-- parameters.
pub mod Only
use k_engram.Prelude.{
  ℕ, Bool, true, false, ◌&&◌, ◌||◌, not, List, [], ◌∷◌, ◌++◌, Option, none, some, if◌then◌else◌,
  Result, ok, err, and_then, map_err,
}
use k_engram.Text.{Text, codes}
use k_engram.Unicode.{Unicode}
use k_engram.Float.{Float}
use k_engram.Core.Relation.{RelationKind, LinkDirection, ThoughtId}
use k_engram.Core.Sparse.{SparseLexicalVector}
use k_engram.Core.Fusion.{Hit}
use k_engram.Mcp.Search.Terms.{domain_candidates, tag_facet_terms}
use k_engram.Mcp.Rerank.{Reranker}
use k_engram.Mcp.Neighbors.{GraphNeighborHit, GraphNonThoughtTargetCounts}
use k_engram.Mcp.Retrieval.{
  Expander, ExpansionPlan, ExpansionRankings, Database, no_rankings, or_no_hits,
  default_top_k_per_leg, has_generated_inputs, bounded_fts_hits, bounded_artifact_chunk_fts_hits,
  bounded_artifact_chunk_context_fts_hits, bounded_pairwise_artifact_chunk_fts_hits,
  bounded_domain_scope_hits, bounded_tag_facet_hits, collect_expansion_rankings,
}
use k_engram.Mcp.Gates.{
  ReadError, sparse_query_encoder_unavailable, sparse_query_encoding, storage, Gates,
}

module _ {A : Type 0} where
  abbrev pub is_ok : {E : Type 0} → Result E A → Bool
  is_ok (ok a) = true
  is_ok (err e) = false

  abbrev pub unless_panic : {B : Type 0} → Option A → (A → Option B) → Option B
  unless_panic none f = none
  unless_panic (some a) f = f a

  -- `?` in a computation that may panic.
  abbrev pub on_ok : {E B : Type 0} → Result E A → (A → Option (Result E B)) → Option (Result E B)
  on_ok (err e) f = some (err e)
  on_ok (ok a) f = f a

  abbrev pub last : List A → Option A
  last [] = none
  last (a ∷ []) = some a
  last (a ∷ b ∷ as') = last (b ∷ as')

module _ (fl : Float) (u : Unicode)
    (Vector StorageError EmbedderError ExpansionError : Type 0) where
  pub record Backends : Type 0 where
    pub embed : List Text → Result EmbedderError (List Vector)
    pub encode_sparse : Option (List Text → Result Text (List (SparseLexicalVector fl)))
    pub reranker : Option (Reranker fl)
    pub expander : Option (Expander u ExpansionError)
    -- The statements of the legs under the two scope filters.
    pub database : Option Text → Option Text → Database fl Vector StorageError
    pub count_graph_non_thought_targets :
        List ThoughtId
        → List RelationKind
        → LinkDirection
        → Result StorageError GraphNonThoughtTargetCounts
    pub search_graph_neighbors :
        List ThoughtId
        → List RelationKind
        → LinkDirection
        → ℕ
        → ℕ
        → Option Text
        → Option Text
        → Result StorageError (List GraphNeighborHit)
    -- The order in which a `HashMap` gives up its values, and the age of a thought now.
    pub into_values : List (Hit fl) → List (Hit fl)
    pub age_secs : ℕ → fl.F

  pub record VectorLegs : Type 0 where
    pub vector_hits : List (Hit fl)
    pub chunk_vector_hits : List (Hit fl)
    pub contextual_chunk_vector_hits : List (Hit fl)
    pub vector_search_available : Bool

  pub record LexicalLegs : Type 0 where
    pub lexical_hits : List (Hit fl)
    pub chunk_lexical_hits : List (Hit fl)
    pub contextual_chunk_lexical_hits : List (Hit fl)
    pub domain_scope_hits : List (Hit fl)
    pub tag_facet_hits : List (Hit fl)

  pub record SparseLegs : Type 0 where
    pub sparse_thought_hits : List (Hit fl)
    pub sparse_chunk_hits : List (Hit fl)

  -- What all legs have found.
  pub record Found : Type 0 where
    pub vectors : VectorLegs
    pub sparse : SparseLegs
    pub lexical : LexicalLegs
    pub chunk_pairwise_lexical_hits : List (Hit fl)
    pub expansion : ExpansionRankings fl Vector StorageError

  -- The vector of the query: none inside where the embedder fails, and none outside where `expect`
  -- panics on no vector at all.
  abbrev pub query_vector : Result EmbedderError (List Vector) → Option (Option Vector)
  query_vector (err e) = some none
  query_vector (ok vectors) = unless_panic (last vectors) (λ v. some (some v))

  module _ (db : Database fl Vector StorageError) (gates : Gates) where
    unfoldable pub vector_legs : Option Vector → VectorLegs
    vector_legs none = record {
      vector_hits = [];
      chunk_vector_hits = [];
      contextual_chunk_vector_hits = [];
      vector_search_available = false;
    }
    vector_legs (some v) =
        let thoughts = db.search_vector_knn v default_top_k_per_leg in
        let chunks = db.search_artifact_chunks_vector_knn v default_top_k_per_leg in
        let contexts = db.search_artifact_chunk_contexts_vector_knn v default_top_k_per_leg in
        record {
          vector_hits = or_no_hits thoughts;
          chunk_vector_hits = if gates.chunk_serving then or_no_hits chunks else [];
          contextual_chunk_vector_hits =
              if gates.contextual_chunk_vector then or_no_hits contexts else [];
          vector_search_available =
              is_ok thoughts
              || (gates.chunk_serving && is_ok chunks)
              || (gates.contextual_chunk_vector && is_ok contexts);
        }

    abbrev first_vector :
        List (SparseLexicalVector fl) → Result (ReadError StorageError) (SparseLexicalVector fl)
    first_vector [] = err (sparse_query_encoding (codes "sparse query encoder returned no vectors"))
    first_vector (v ∷ vectors) = ok v

    abbrev pub encoded :
        Option (List Text → Result Text (List (SparseLexicalVector fl)))
        → Text
        → Result (ReadError StorageError) (SparseLexicalVector fl)
    encoded none query = err sparse_query_encoder_unavailable
    encoded (some encode) query =
        and_then (map_err sparse_query_encoding (encode (query ∷ []))) first_vector

    abbrev pub both_sparse :
        Result StorageError (List (Hit fl))
        → Result StorageError (List (Hit fl))
        → Result (ReadError StorageError) SparseLegs
    both_sparse thoughts chunks = and_then (map_err storage thoughts) (λ thought_hits.
        and_then (map_err storage chunks) (λ chunk_hits.
          ok (record { sparse_thought_hits = thought_hits; sparse_chunk_hits = chunk_hits })))

    unfoldable pub sparse_legs :
        Option (List Text → Result Text (List (SparseLexicalVector fl)))
        → Text
        → Result (ReadError StorageError) SparseLegs
    sparse_legs encoder query =
        if not gates.sparse_lexical
        then ok (record { sparse_thought_hits = []; sparse_chunk_hits = [] })
        else and_then (encoded encoder query) (λ v.
          both_sparse (db.search_thoughts_sparse_lexical v default_top_k_per_leg)
            (db.search_artifact_chunks_sparse_lexical v default_top_k_per_leg))

    module _ (lexical_top_k lexical_timeout_ms : ℕ) where
      unfoldable pub lexical_legs : Text → LexicalLegs
      lexical_legs query = record {
        lexical_hits =
            bounded_fts_hits fl Vector StorageError db lexical_top_k lexical_timeout_ms query;
        chunk_lexical_hits =
            if gates.chunk_serving
            then bounded_artifact_chunk_fts_hits fl Vector StorageError db lexical_top_k
                lexical_timeout_ms lexical_top_k query
            else [];
        contextual_chunk_lexical_hits =
            if gates.contextual_chunk_fts
            then bounded_artifact_chunk_context_fts_hits fl Vector StorageError db lexical_top_k
                lexical_timeout_ms query
            else [];
        domain_scope_hits =
            if gates.tag_domain_routing
            then bounded_domain_scope_hits fl Vector StorageError db lexical_top_k
                lexical_timeout_ms (domain_candidates u query)
            else [];
        tag_facet_hits =
            if gates.tag_domain_routing
            then bounded_tag_facet_hits fl Vector StorageError db lexical_top_k lexical_timeout_ms
                (tag_facet_terms u query)
            else [];
      }

      unfoldable pub pairwise_leg : (List (Hit fl) → List (Hit fl)) → Text → Option (List (Hit fl))
      pairwise_leg into_values query =
          if gates.chunk_serving
          then bounded_pairwise_artifact_chunk_fts_hits fl Vector StorageError db lexical_top_k
              lexical_timeout_ms u into_values query
          else some []

      abbrev pub planned :
          (List Text → Result EmbedderError (List Vector))
          → Option ExpansionPlan
          → ExpansionRankings fl Vector StorageError
      planned embed none = no_rankings fl Vector StorageError
      planned embed (some plan) =
          if has_generated_inputs plan
          then collect_expansion_rankings fl Vector StorageError db lexical_top_k lexical_timeout_ms
              embed plan gates.chunk_serving
          else no_rankings fl Vector StorageError

  -- The rankings in the order in which they are pushed.
  unfoldable pub rankings_of : Gates → Found → List (List (Hit fl))
  rankings_of gates found =
      let v = found.vectors in
      let s = found.sparse in
      let l = found.lexical in
      let e = found.expansion in
      (v.vector_hits ∷ l.lexical_hits ∷ [])
      ++ (if gates.sparse_lexical then s.sparse_thought_hits ∷ s.sparse_chunk_hits ∷ [] else [])
      ++ (if gates.chunk_serving
          then v.chunk_vector_hits ∷ l.chunk_lexical_hits ∷ found.chunk_pairwise_lexical_hits ∷ []
          else [])
      ++ (if gates.contextual_chunk_vector then v.contextual_chunk_vector_hits ∷ [] else [])
      ++ (if gates.contextual_chunk_fts then l.contextual_chunk_lexical_hits ∷ [] else [])
      ++ (if gates.tag_domain_routing then l.domain_scope_hits ∷ l.tag_facet_hits ∷ [] else [])
      ++ e.thought_vector_rankings
      ++ e.thought_fts_rankings
      ++ (if gates.chunk_serving then e.chunk_vector_rankings ++ e.chunk_fts_rankings else [])
