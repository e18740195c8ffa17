-- ===== src/Mcp/Pipeline/Unfailing.antt =====
-- What does not fail a search in crates/kengram-mcp/src/search.rs: the embedder, the legs, the
-- expansion and the reranker.
use k_engram.Prelude.{
  ℕ, false, List, [], ◌∷◌, Option, none, some, ◌≡◌, refl, ◌∙◌, ap, Result, ok, err, is_empty,
  unwrap_or,
}
use k_engram.Text.{Text, trim}
use k_engram.Unicode.{Unicode}
use k_engram.Float.{Float}
use k_engram.Core.Fusion.{rrf_fuse}
use k_engram.Mcp.Neighbors.{no_expansion, collect_graph_expansion}
use k_engram.Mcp.Gates.{
  ReadError, SearchRuntimeOptions, Gates, SearchRequest, SearchResponse, gates_of, check_request,
  default_search_limit,
}
use k_engram.Mcp.Legs.{
  Backends, Found, on_ok, unless_panic, query_vector, sparse_legs, pairwise_leg, rankings_of, last,
  vector_legs,
}
use k_engram.Mcp.Pipeline.{respond, serve, found_of, search_checked, search_thoughts_with_tuning}
use k_engram.Mcp.Pipeline.Answers.{IsAcceptable}

last-some : {A : Type 0} (a : A) (as' : List A) → (b : A) × (last (a ∷ as') ≡ some b)
last-some a [] = (a, refl)
last-some a (b ∷ as') = last-some b as'

-- A search whose legs all go through gives what it serves.
chain-some :
    {V S P R E : Type 0} {v : Option V} {s : Result E S} {p : Option P} {x : V} {y : S} {z : P}
    (f : V → S → P → Result E R)
    → v ≡ some x
    → s ≡ ok y
    → p ≡ some z
    → unless_panic v (λ a. on_ok s (λ c. unless_panic p (λ d. some (f a c d)))) ≡ some (f x y z)
chain-some f g h k = rw (g, h, k) refl

module _ (fl : Float) where
  check_request-IsAcceptable :
      {StorageError : Type 0} (request : SearchRequest fl)
      → IsAcceptable fl request
      → ◌≡◌ {A = Result (ReadError StorageError) (Text × ℕ)}
          (check_request fl request)
          (ok (trim request.query, unwrap_or request.limit default_search_limit))
  unfolding check_request
  check_request-IsAcceptable request (query, low, high, scopes) = rw (query, low, high, scopes) refl

  module _ (u : Unicode) (Vector StorageError EmbedderError ExpansionError : Type 0)
      (b : Backends fl u Vector StorageError EmbedderError ExpansionError)
      (request : SearchRequest fl) (runtime : SearchRuntimeOptions)
      (default_candidate_pool lexical_top_k lexical_timeout_ms : ℕ) where
    query_vector-some :
        (r : Result EmbedderError (List Vector))
        → ((vectors : List Vector) → r ≡ ok vectors → is_empty vectors ≡ false)
        → (v : Option Vector) × (query_vector fl u Vector StorageError EmbedderError ExpansionError
              r
            ≡ some v)
          × ((e : EmbedderError) → r ≡ err e → v ≡ none)
    query_vector-some (err x) h = (none, refl, λ e same. refl)
    query_vector-some (ok []) h = absurd (cc (h [] refl))
    query_vector-some (ok (a ∷ as')) h =
        let (v, e) = last-some a as' in (some v, rw e refl, λ x same. cc)

    sparse_legs-off :
        (gates : Gates) (query : Text)
        → gates.sparse_lexical ≡ false
        → sparse_legs fl u Vector StorageError EmbedderError ExpansionError
            (b.database request.scope request.scope_prefix)
            gates
            b.encode_sparse
            query
          ≡ ok (record { sparse_thought_hits = []; sparse_chunk_hits = [] })
    unfolding sparse_legs
    sparse_legs-off gates query off = rw off refl

    pairwise_leg-off :
        (gates : Gates) (query : Text)
        → gates.chunk_serving ≡ false
        → pairwise_leg fl u Vector StorageError EmbedderError ExpansionError
            (b.database request.scope request.scope_prefix)
            gates
            lexical_top_k
            lexical_timeout_ms
            b.into_values
            query
          ≡ some []
    unfolding pairwise_leg
    pairwise_leg-off gates query off = rw off refl

    serve-ok :
        (gates : Gates) (query : Text) (limit : ℕ)
        (found : Found fl u Vector StorageError EmbedderError ExpansionError)
        → gates.graph_augmentation ≡ false
        → (response : SearchResponse fl) × (serve fl u Vector StorageError EmbedderError
              ExpansionError b request runtime default_candidate_pool gates query limit found
            ≡ ok response)
          × (response.vector_search_available ≡ found.vectors.vector_search_available)
    unfolding serve collect_graph_expansion respond
    serve-ok gates query limit found off =
        let fused =
          rrf_fuse fl b.into_values
            (rankings_of fl u Vector StorageError EmbedderError ExpansionError gates found)
            (fl.of_ℕ 60) in
        (
          respond fl u Vector StorageError EmbedderError ExpansionError b request runtime
              default_candidate_pool gates query limit found fused (no_expansion fl),
          rw off refl,
          refl,
        )

    -- An acceptable request with the sparse legs, the linked thoughts and the chunks switched off is
    -- always answered, whatever else fails, if an embedder that succeeds gives a vector; and if the
    -- embedder fails, the answer says that the vectors are not available.
    pub search_thoughts_with_tuning_unfailing :
        IsAcceptable fl request
        → (gates_of fl request runtime).sparse_lexical ≡ false
        → (gates_of fl request runtime).graph_augmentation ≡ false
        → (gates_of fl request runtime).chunk_serving ≡ false
        → ((vectors : List Vector)
            → b.embed (trim request.query ∷ []) ≡ ok vectors
            → is_empty vectors ≡ false)
        → (response : SearchResponse fl) × (search_thoughts_with_tuning fl u Vector StorageError
              EmbedderError ExpansionError b request runtime default_candidate_pool lexical_top_k
              lexical_timeout_ms
            ≡ some (ok response))
          × ((e : EmbedderError)
              → b.embed (trim request.query ∷ []) ≡ err e
              → response.vector_search_available ≡ false)
    unfolding search_thoughts_with_tuning vector_legs
    search_thoughts_with_tuning_unfailing acceptable no_sparse no_graph no_chunks embeds =
        let gates = gates_of fl request runtime in
        let query = trim request.query in
        let limit = unwrap_or request.limit default_search_limit in
        let (v, vector, unavailable) = query_vector-some (b.embed (query ∷ [])) embeds in
        let found =
          found_of fl u Vector StorageError EmbedderError ExpansionError b request runtime
            default_candidate_pool lexical_top_k lexical_timeout_ms gates query v
            (record { sparse_thought_hits = []; sparse_chunk_hits = [] }) [] in
        let (response, served, available) = serve-ok gates query limit found no_graph in
        (
          response,
          ap
                (λ r. on_ok r (
                  search_checked fl u Vector StorageError EmbedderError ExpansionError b request
                    runtime default_candidate_pool lexical_top_k lexical_timeout_ms))
                (check_request-IsAcceptable request acceptable)
              ∙ chain-some
                  (λ w s p.
                    serve fl u Vector StorageError EmbedderError ExpansionError b request runtime
                      default_candidate_pool gates query limit
                      (found_of fl u Vector StorageError EmbedderError ExpansionError b request
                        runtime default_candidate_pool lexical_top_k lexical_timeout_ms gates query
                        w s p))
                  vector (sparse_legs-off gates query no_sparse)
                  (pairwise_leg-off gates query no_chunks)
              ∙ ap some served,
          λ e failed.
              available
              ∙ ap
                  (λ w.
                    (vector_legs fl u Vector StorageError EmbedderError ExpansionError
                      (b.database request.scope request.scope_prefix) gates
                      w).vector_search_available)
                  (unavailable e failed),
        )
