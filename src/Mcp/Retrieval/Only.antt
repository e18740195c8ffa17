-- ===== src/Mcp/Retrieval/Only.antt =====
-- What every statement of the database keeps to, the legs of crates/kengram-mcp/src/search.rs keep to.
use mathlib.Core.List.{Perm}
use k_engram.Prelude.{
  ℕ, Bool, true, false, ◌||◌, List, [], ◌∷◌, Option, none, some, ◌≡◌, subst, some_injective,
  if◌then◌else◌, Result, ok, err, is_empty, take, All, All-take,
}
use k_engram.Text.{Text}
use k_engram.Float.{Float}
use k_engram.Core.Sparse.{SparseLexicalVector}
use k_engram.Core.Fusion.{Hit, Thought, rrf_fuse}
use k_engram.Core.Fusion.Only.{Only, Only-rrf_fuse}
use k_engram.Mcp.Retrieval.{
  ExpansionPlan, ExpansionRankings, Database, no_rankings, or_no_hits, or_no_vectors, push_ranking,
  default_top_k_per_leg, pairwise_per_subquery_top_k, generated_inputs, bounded_fts_hits,
  bounded_artifact_chunk_fts_hits, bounded_artifact_chunk_context_fts_hits,
  bounded_domain_scope_hits, bounded_tag_facet_hits, subquery_rankings, fused_subqueries,
  vector_rankings, input_rankings, collect_expansion_rankings,
}

pub All-if : {A : Type 0} (P : A → Type 0) (b : Bool) (x y : A) → P x → P y → P (if b then x else y)
All-if P true x y h k = h
All-if P false x y h k = k

module _ (fl : Float) (Vector StorageError : Type 0) (keep : Thought → Bool) where
  -- A statement that succeeds only gives hits of thoughts that pass the test.
  abbrev pub OnlyOk : Result StorageError (List (Hit fl)) → Type 0
  OnlyOk (ok hits) = Only fl keep hits
  OnlyOk (err e) = Unit

  pub record IsSound (db : Database fl Vector StorageError) : Type 0 where
    pub vector : (v : Vector) (k : ℕ) → OnlyOk (db.search_vector_knn v k)
    pub chunk_vector : (v : Vector) (k : ℕ) → OnlyOk (db.search_artifact_chunks_vector_knn v k)
    pub context_vector :
        (v : Vector) (k : ℕ) → OnlyOk (db.search_artifact_chunk_contexts_vector_knn v k)
    pub sparse :
        (v : SparseLexicalVector fl) (k : ℕ) → OnlyOk (db.search_thoughts_sparse_lexical v k)
    pub chunk_sparse :
        (v : SparseLexicalVector fl) (k : ℕ) → OnlyOk (db.search_artifact_chunks_sparse_lexical v k)
    pub fts : (q : Text) (k t : ℕ) → OnlyOk (db.search_fts_bounded q k t)
    pub chunk_fts : (q : Text) (k t : ℕ) → OnlyOk (db.search_artifact_chunks_fts_bounded q k t)
    pub context_fts :
        (q : Text) (k t : ℕ) → OnlyOk (db.search_artifact_chunk_contexts_fts_bounded q k t)
    pub domains :
        (ds : List Text) (k t : ℕ) → OnlyOk (db.search_domain_scope_aliases_bounded ds k t)
    pub facets : (ts : List Text) (k t : ℕ) → OnlyOk (db.search_tag_facets_bounded ts k t)

  pub Only-or_no_hits :
      (r : Result StorageError (List (Hit fl))) → OnlyOk r → Only fl keep (or_no_hits r)
  Only-or_no_hits (ok hits) h = h
  Only-or_no_hits (err e) h = tt

  Only-push_ranking :
      (hits : List (Hit fl)) (rankings : List (List (Hit fl)))
      → Only fl keep hits
      → All (Only fl keep) rankings
      → All (Only fl keep) (push_ranking hits rankings)
  Only-push_ranking [] rankings h k = k
  Only-push_ranking (x ∷ hits) rankings h k = (h, k)

  -- All rankings of an expansion keep to the test.
  abbrev pub OnlyRankings : ExpansionRankings fl Vector StorageError → Type 0
  OnlyRankings e =
      All (Only fl keep) e.thought_vector_rankings
      × All (Only fl keep) e.chunk_vector_rankings
      × All (Only fl keep) e.thought_fts_rankings
      × All (Only fl keep) e.chunk_fts_rankings

  module _ (db : Database fl Vector StorageError) (sound : IsSound db)
      (lexical_top_k lexical_timeout_ms : ℕ) where
    pub Only-bounded :
        (query : Text) (terms : List Text) (k : ℕ)
        → Only fl keep
            (bounded_fts_hits fl Vector StorageError db lexical_top_k lexical_timeout_ms query)
          × Only fl keep (
              bounded_artifact_chunk_fts_hits fl Vector StorageError db lexical_top_k
                lexical_timeout_ms k query)
          × Only fl keep (
              bounded_artifact_chunk_context_fts_hits fl Vector StorageError db lexical_top_k
                lexical_timeout_ms query)
          × Only fl keep (
              bounded_domain_scope_hits fl Vector StorageError db lexical_top_k lexical_timeout_ms
                terms)
          × Only fl keep (
              bounded_tag_facet_hits fl Vector StorageError db lexical_top_k lexical_timeout_ms
                terms)
    unfolding bounded_fts_hits bounded_artifact_chunk_fts_hits
        bounded_artifact_chunk_context_fts_hits bounded_domain_scope_hits bounded_tag_facet_hits
    Only-bounded query terms k = (
      Only-or_no_hits (db.search_fts_bounded query lexical_top_k lexical_timeout_ms)
          (sound.fts query lexical_top_k lexical_timeout_ms),
      Only-or_no_hits (db.search_artifact_chunks_fts_bounded query k lexical_timeout_ms)
          (sound.chunk_fts query k lexical_timeout_ms),
      Only-or_no_hits
          (db.search_artifact_chunk_contexts_fts_bounded query lexical_top_k lexical_timeout_ms)
          (sound.context_fts query lexical_top_k lexical_timeout_ms),
      Only-or_no_hits
          (db.search_domain_scope_aliases_bounded terms lexical_top_k lexical_timeout_ms)
          (sound.domains terms lexical_top_k lexical_timeout_ms),
      Only-or_no_hits (db.search_tag_facets_bounded terms lexical_top_k lexical_timeout_ms)
          (sound.facets terms lexical_top_k lexical_timeout_ms),
    )

    Only-subquery_rankings :
        (subqueries : List Text)
        → All (Only fl keep) (
            subquery_rankings fl Vector StorageError db lexical_top_k lexical_timeout_ms subqueries)
    Only-subquery_rankings [] = tt
    Only-subquery_rankings (q ∷ qs) =
        Only-push_ranking
          (bounded_artifact_chunk_fts_hits fl Vector StorageError db lexical_top_k
            lexical_timeout_ms pairwise_per_subquery_top_k q)
          (subquery_rankings fl Vector StorageError db lexical_top_k lexical_timeout_ms qs)
          (Only-bounded q [] pairwise_per_subquery_top_k).1 (Only-subquery_rankings qs)

    pub Only-fused_subqueries :
        (into_values : List (Hit fl) → List (Hit fl))
        → ((l : List (Hit fl)) → Perm (into_values l) l)
        → (subqueries : Option (List Text)) (hits : List (Hit fl))
        → fused_subqueries fl Vector StorageError db lexical_top_k lexical_timeout_ms into_values
            subqueries
          ≡ some hits
        → Only fl keep hits
    Only-fused_subqueries into_values permutes none hits e = cc
    Only-fused_subqueries into_values permutes (some qs) hits e =
        let rankings =
          subquery_rankings fl Vector StorageError db lexical_top_k lexical_timeout_ms qs in
        subst (Only fl keep) (some_injective e) (
          All-if (Only fl keep) (is_empty qs || is_empty rankings) []
            (take lexical_top_k (rrf_fuse fl into_values rankings (fl.of_ℕ 60))) tt
            (All-take (λ h. keep h.thought ≡ true) lexical_top_k
              (rrf_fuse fl into_values rankings (fl.of_ℕ 60))
              (Only-rrf_fuse fl keep into_values permutes rankings (fl.of_ℕ 60)
                (Only-subquery_rankings qs))))

    Only-vector_rankings :
        (chunk_serving : Bool) (vectors : List Vector)
        → OnlyRankings (
            vector_rankings fl Vector StorageError db lexical_top_k lexical_timeout_ms chunk_serving
              vectors)
    Only-vector_rankings chunk_serving [] = (tt, tt, tt, tt)
    Only-vector_rankings chunk_serving (v ∷ vectors) =
        let rest =
          vector_rankings fl Vector StorageError db lexical_top_k lexical_timeout_ms chunk_serving
            vectors in
        let h = Only-vector_rankings chunk_serving vectors in
        let chunks = db.search_artifact_chunks_vector_knn v default_top_k_per_leg in
        (
          Only-push_ranking (or_no_hits (db.search_vector_knn v default_top_k_per_leg))
              rest.thought_vector_rankings
              (Only-or_no_hits (db.search_vector_knn v default_top_k_per_leg)
                (sound.vector v default_top_k_per_leg))
              h.0,
          All-if (All (Only fl keep)) chunk_serving
              (push_ranking (or_no_hits chunks) rest.chunk_vector_rankings)
              rest.chunk_vector_rankings
              (Only-push_ranking (or_no_hits chunks) rest.chunk_vector_rankings
                (Only-or_no_hits chunks (sound.chunk_vector v default_top_k_per_leg)) h.1)
              h.1,
          h.2,
          h.3,
        )

    Only-input_rankings :
        (chunk_serving : Bool) (out : ExpansionRankings fl Vector StorageError) (inputs : List Text)
        → OnlyRankings out
        → OnlyRankings (
            input_rankings fl Vector StorageError db lexical_top_k lexical_timeout_ms chunk_serving
              out inputs)
    Only-input_rankings chunk_serving out [] o = o
    Only-input_rankings chunk_serving out (input ∷ inputs) o =
        let rest =
          input_rankings fl Vector StorageError db lexical_top_k lexical_timeout_ms chunk_serving
            out inputs in
        let h = Only-input_rankings chunk_serving out inputs o in
        let bounded = Only-bounded input [] lexical_top_k in
        let chunks =
          bounded_artifact_chunk_fts_hits fl Vector StorageError db lexical_top_k lexical_timeout_ms
            lexical_top_k input in
        (
          h.0,
          h.1,
          Only-push_ranking
              (bounded_fts_hits fl Vector StorageError db lexical_top_k lexical_timeout_ms input)
              rest.thought_fts_rankings bounded.0 h.2,
          All-if (All (Only fl keep)) chunk_serving (push_ranking chunks rest.chunk_fts_rankings)
              rest.chunk_fts_rankings
              (Only-push_ranking chunks rest.chunk_fts_rankings bounded.1 h.3) h.3,
        )

    pub Only-collect_expansion_rankings :
        {E : Type 0} (embed : List Text → Result E (List Vector)) (plan : ExpansionPlan)
        (chunk_serving : Bool)
        → OnlyRankings (
            collect_expansion_rankings fl Vector StorageError db lexical_top_k lexical_timeout_ms
              embed plan chunk_serving)
    unfolding collect_expansion_rankings
    Only-collect_expansion_rankings embed plan chunk_serving =
        let inputs = generated_inputs plan in
        let found =
          vector_rankings fl Vector StorageError db lexical_top_k lexical_timeout_ms chunk_serving (
            or_no_vectors fl Vector StorageError db lexical_top_k lexical_timeout_ms
              (embed inputs)) in
        All-if OnlyRankings (is_empty inputs) (no_rankings fl Vector StorageError)
          (input_rankings fl Vector StorageError db lexical_top_k lexical_timeout_ms chunk_serving
            found inputs)
          (tt, tt, tt, tt)
          (Only-input_rankings chunk_serving found inputs (
            Only-vector_rankings chunk_serving (
              or_no_vectors fl Vector StorageError db lexical_top_k lexical_timeout_ms
                (embed inputs))))
