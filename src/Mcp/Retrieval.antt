-- ===== src/Mcp/Retrieval.antt =====
-- The retrieval legs of `search_thoughts_with_tuning` in crates/kengram-mcp/src/search.rs. A leg's
-- statement on the database is a parameter, and so are the encoders: a leg that fails is empty.
pub mod Only
use k_engram.Prelude.{
  ℕ, Bool, true, false, ◌&&◌, ◌||◌, not, List, [], ◌∷◌, ◌++◌, map, Option, none, some,
  if◌then◌else◌, Result, ok, err, is_empty, is_some, take, min,
}
use k_engram.Text.{Text}
use k_engram.Unicode.{Unicode}
use k_engram.Float.{Float}
use k_engram.Core.Sparse.{SparseLexicalVector}
use k_engram.Core.Fusion.{Hit, rrf_fuse}
use k_engram.Mcp.Expansion.{
  QueryExpansionOutput, NormalizedQueryExpansion, dedupe_lowercase_limited,
  normalize_expansion_output,
}
use k_engram.Mcp.Search.Terms.{pairwise_subqueries}

abbrev pub default_top_k_per_leg : ℕ
default_top_k_per_leg = 50

abbrev pub pairwise_per_subquery_top_k : ℕ
pairwise_per_subquery_top_k = 25

pub record ExpansionPlan : Type 0 where
  pub route : Text
  pub queries : List Text
  pub hyde : Option Text
  pub decomposition : List Text

unfoldable pub has_generated_inputs : ExpansionPlan → Bool
has_generated_inputs plan =
    not (is_empty plan.queries) || not (is_empty plan.decomposition) || is_some plan.hyde

abbrev pub hyde_value : Option Text → List Text
hyde_value none = []
hyde_value (some hyde) = hyde ∷ []

unfoldable pub generated_inputs : ExpansionPlan → List Text
generated_inputs plan =
    dedupe_lowercase_limited (plan.queries ++ plan.decomposition ++ hyde_value plan.hyde) 16

module _ {A : Type 0} where
  -- `Err(e) => vec![]`.
  abbrev pub or_no_hits : {E : Type 0} → Result E (List A) → List A
  or_no_hits (ok hits) = hits
  or_no_hits (err e) = []

  -- `if !hits.is_empty() { rankings.push(hits) }`, in front of the later ones.
  abbrev pub push_ranking : List A → List (List A) → List (List A)
  push_ranking hits rankings = if is_empty hits then rankings else hits ∷ rankings

abbrev pub plan_of : NormalizedQueryExpansion → ExpansionPlan
plan_of normalized = record {
  route = normalized.normal_route;
  queries = normalized.normal_queries;
  hyde = normalized.normal_hyde;
  decomposition = normalized.normal_decomposition;
}

module _ (u : Unicode) (ExpansionError : Type 0) where
  -- `QueryExpansionProvider::expand`: the query, `max_variants` and `hyde_enabled`.
  abbrev pub Expander : Type 0
  Expander = Text → ℕ → Bool → Result ExpansionError QueryExpansionOutput

  abbrev pub expanded :
      Text → ℕ → Bool → ℕ → Result ExpansionError QueryExpansionOutput → Option ExpansionPlan
  expanded query max_variants hyde_enabled max_hyde_chars (err e) = none
  expanded query max_variants hyde_enabled max_hyde_chars (ok raw) =
      some
        (plan_of (normalize_expansion_output u query raw max_variants hyde_enabled max_hyde_chars))

  abbrev pub asked : Text → ℕ → Bool → ℕ → Option Expander → Option ExpansionPlan
  asked query max_variants hyde_enabled max_hyde_chars none = none
  asked query max_variants hyde_enabled max_hyde_chars (some expand) =
      expanded query max_variants hyde_enabled max_hyde_chars
        (expand query max_variants hyde_enabled)

  unfoldable pub build_expansion_plan :
      Option Expander → Bool → Bool → ℕ → ℕ → Text → Option ExpansionPlan
  build_expansion_plan expander enabled hyde_enabled max_variants max_hyde_chars query =
      if not enabled
      then none
      else asked query (min max_variants 8) hyde_enabled max_hyde_chars expander

module _ (fl : Float) (Vector StorageError : Type 0) where
  -- The statements behind the legs, for one pair of scope filters.
  pub record Database : Type 0 where
    pub search_vector_knn : Vector → ℕ → Result StorageError (List (Hit fl))
    pub search_artifact_chunks_vector_knn : Vector → ℕ → Result StorageError (List (Hit fl))
    pub search_artifact_chunk_contexts_vector_knn : Vector → ℕ → Result StorageError (List (Hit fl))
    pub search_thoughts_sparse_lexical :
        SparseLexicalVector fl → ℕ → Result StorageError (List (Hit fl))
    pub search_artifact_chunks_sparse_lexical :
        SparseLexicalVector fl → ℕ → Result StorageError (List (Hit fl))
    pub search_fts_bounded : Text → ℕ → ℕ → Result StorageError (List (Hit fl))
    pub search_artifact_chunks_fts_bounded : Text → ℕ → ℕ → Result StorageError (List (Hit fl))
    pub search_artifact_chunk_contexts_fts_bounded :
        Text → ℕ → ℕ → Result StorageError (List (Hit fl))
    pub search_domain_scope_aliases_bounded :
        List Text → ℕ → ℕ → Result StorageError (List (Hit fl))
    pub search_tag_facets_bounded : List Text → ℕ → ℕ → Result StorageError (List (Hit fl))

  pub record ExpansionRankings : Type 0 where
    pub thought_vector_rankings : List (List (Hit fl))
    pub chunk_vector_rankings : List (List (Hit fl))
    pub thought_fts_rankings : List (List (Hit fl))
    pub chunk_fts_rankings : List (List (Hit fl))

  abbrev pub no_rankings : ExpansionRankings
  no_rankings = record {
    thought_vector_rankings = [];
    chunk_vector_rankings = [];
    thought_fts_rankings = [];
    chunk_fts_rankings = [];
  }

  module _ (db : Database) (lexical_top_k lexical_timeout_ms : ℕ) where
    unfoldable pub bounded_fts_hits : Text → List (Hit fl)
    bounded_fts_hits query =
        or_no_hits (db.search_fts_bounded query lexical_top_k lexical_timeout_ms)

    unfoldable pub bounded_domain_scope_hits : List Text → List (Hit fl)
    bounded_domain_scope_hits domains =
        or_no_hits (db.search_domain_scope_aliases_bounded domains lexical_top_k lexical_timeout_ms)

    unfoldable pub bounded_tag_facet_hits : List Text → List (Hit fl)
    bounded_tag_facet_hits terms =
        or_no_hits (db.search_tag_facets_bounded terms lexical_top_k lexical_timeout_ms)

    unfoldable pub bounded_artifact_chunk_fts_hits : ℕ → Text → List (Hit fl)
    bounded_artifact_chunk_fts_hits top_k query =
        or_no_hits (db.search_artifact_chunks_fts_bounded query top_k lexical_timeout_ms)

    unfoldable pub bounded_artifact_chunk_context_fts_hits : Text → List (Hit fl)
    bounded_artifact_chunk_context_fts_hits query =
        or_no_hits
          (db.search_artifact_chunk_contexts_fts_bounded query lexical_top_k lexical_timeout_ms)

    -- The loop over the subqueries.
    abbrev pub subquery_rankings : List Text → List (List (Hit fl))
    subquery_rankings [] = []
    subquery_rankings (subquery ∷ subqueries) =
        push_ranking (bounded_artifact_chunk_fts_hits pairwise_per_subquery_top_k subquery)
          (subquery_rankings subqueries)

    -- The fused hits of the subqueries; none is the panic of `looks_like_date`.
    abbrev pub fused_subqueries :
        (List (Hit fl) → List (Hit fl)) → Option (List Text) → Option (List (Hit fl))
    fused_subqueries into_values none = none
    fused_subqueries into_values (some subqueries) =
        let rankings = subquery_rankings subqueries in
        some (
          if is_empty subqueries || is_empty rankings
          then []
          else take lexical_top_k (rrf_fuse fl into_values rankings (fl.of_ℕ 60)))

    unfoldable pub bounded_pairwise_artifact_chunk_fts_hits :
        Unicode → (List (Hit fl) → List (Hit fl)) → Text → Option (List (Hit fl))
    bounded_pairwise_artifact_chunk_fts_hits u into_values query =
        fused_subqueries into_values (pairwise_subqueries u query)

    -- The loop over the vectors of the generated inputs, in front of the rankings of a later one.
    abbrev pub vector_rankings : Bool → List Vector → ExpansionRankings
    vector_rankings chunk_serving_enabled [] = no_rankings
    vector_rankings chunk_serving_enabled (vector ∷ vectors) =
        let rest = vector_rankings chunk_serving_enabled vectors in
        record rest {
          thought_vector_rankings =
              push_ranking (or_no_hits (db.search_vector_knn vector default_top_k_per_leg))
                rest.thought_vector_rankings;
          chunk_vector_rankings =
              if chunk_serving_enabled
              then push_ranking
                  (or_no_hits (db.search_artifact_chunks_vector_knn vector default_top_k_per_leg))
                  rest.chunk_vector_rankings
              else rest.chunk_vector_rankings;
        }

    -- The loop over the generated inputs.
    abbrev pub input_rankings : Bool → ExpansionRankings → List Text → ExpansionRankings
    input_rankings chunk_serving_enabled out [] = out
    input_rankings chunk_serving_enabled out (input ∷ inputs) =
        let rest = input_rankings chunk_serving_enabled out inputs in
        record rest {
          thought_fts_rankings = push_ranking (bounded_fts_hits input) rest.thought_fts_rankings;
          chunk_fts_rankings =
              if chunk_serving_enabled
              then push_ranking (bounded_artifact_chunk_fts_hits lexical_top_k input)
                  rest.chunk_fts_rankings
              else rest.chunk_fts_rankings;
        }

    -- `Embedder::embed`, with its errors.
    abbrev pub or_no_vectors : {E : Type 0} → Result E (List Vector) → List Vector
    or_no_vectors (ok vectors) = vectors
    or_no_vectors (err e) = []

    unfoldable pub collect_expansion_rankings :
        {EmbedderError : Type 0} (embed : List Text → Result EmbedderError (List Vector))
        → ExpansionPlan
        → Bool
        → ExpansionRankings
    collect_expansion_rankings embed plan chunk_serving_enabled =
        let inputs = generated_inputs plan in
        if is_empty inputs
        then no_rankings
        else input_rankings chunk_serving_enabled
            (vector_rankings chunk_serving_enabled (or_no_vectors (embed inputs))) inputs
