-- ===== src/Mcp/Pipeline/Answers.antt =====
-- `search_thoughts_with_tuning` of crates/kengram-mcp/src/search.rs as a whole: what an answer rests
-- on.
use mathlib.Core.List.{Perm}
use k_engram.Prelude.{
  ℕ, Bool, false, List, [], ◌∷◌, Option, none, some, ◌≡◌, refl, sym, subst, arith, some_injective,
  ok_injective, unwrap_or, Result, ok, err, and_then_ok, map_err, map_err_ok, ◌||◌, ◌&&◌, ◌==◌, ltb,
  if_err_ok, is_empty, is_some, All, if◌then◌else◌,
}
use k_engram.Text.{Text, trim}
use k_engram.Unicode.{Unicode}
use k_engram.Float.{Float}
use k_engram.Core.Fusion.{Hit, Thought, rrf_fuse}
use k_engram.Core.Fusion.Only.{Only, Only-rrf_fuse}
use k_engram.Core.Fusion.Order.{rrf_fuse-Nodup}
use k_engram.Mcp.Neighbors.{GraphExpansion, collect_graph_expansion}
use k_engram.Mcp.Retrieval.{build_expansion_plan}
use k_engram.Mcp.Gates.{
  ReadError, storage, SearchRuntimeOptions, Gates, SearchRequest, SearchResponse, gates_of,
  check_request, max_search_limit, default_search_limit, empty_query, limit_out_of_bounds,
  scope_and_prefix_both_set,
}
use k_engram.Mcp.Legs.{
  Backends, Found, on_ok, unless_panic, query_vector, sparse_legs, pairwise_leg, rankings_of,
}
use k_engram.Mcp.Legs.Only.{
  Only-vector_legs, Only-sparse_legs, Only-lexical_legs, Only-pairwise_leg, Only-planned,
  Only-rankings_of,
}
use k_engram.Mcp.Pipeline.{respond, serve, search_thoughts_with_tuning, found_of, search_checked}
use k_engram.Mcp.Pipeline.Results.{IsAnswer, IsSoundFor, respond-IsAnswer, Only-neighbors}

module _ {A B E : Type 0} where
  on_ok-ok :
      (r : Result E A) (f : A → Option (Result E B)) (b : B)
      → on_ok r f ≡ some (ok b)
      → (a : A) × (r ≡ ok a) × (f a ≡ some (ok b))
  on_ok-ok (ok a) f b e = (a, refl, e)
  on_ok-ok (err x) f b e = absurd (cc (some_injective e))

module _ {V S P B E : Type 0} where
  -- A search that answers has gone through all its legs.
  chain-ok :
      (v : Option V) (s : Result E S) (p : Option P) (f : V → S → P → Result E B) (b : B)
      → unless_panic v (λ x. on_ok s (λ y. unless_panic p (λ z. some (f x y z)))) ≡ some (ok b)
      → (x : V) × (y : S) × (z : P) × (s ≡ ok y) × (p ≡ some z) × (f x y z ≡ ok b)
  chain-ok none s p f b e = cc
  chain-ok (some x) (err y) p f b e = absurd (cc (some_injective e))
  chain-ok (some x) (ok y) none f b e = cc
  chain-ok (some x) (ok y) (some z) f b e = (x, y, z, refl, refl, some_injective e)

module _ (fl : Float) where
  -- A request that is not refused.
  abbrev pub IsAcceptable : SearchRequest fl → Type 0
  IsAcceptable request =
      (is_empty (trim request.query) ≡ false)
      × ((unwrap_or request.limit default_search_limit == 0) ≡ false)
      × (ltb max_search_limit (unwrap_or request.limit default_search_limit) ≡ false)
      × ((is_some request.scope && is_some request.scope_prefix) ≡ false)

  check_request-ok :
      {StorageError : Type 0} (request : SearchRequest fl) (checked : Text × ℕ)
      → ◌≡◌ {A = Result (ReadError StorageError) (Text × ℕ)} (check_request fl request) (ok checked)
      → IsAcceptable request
        × (checked ≡ (trim request.query, unwrap_or request.limit default_search_limit))
  unfolding check_request
  check_request-ok request checked e =
      let limit = unwrap_or request.limit default_search_limit in
      let (query, rest) =
        if_err_ok (is_empty (trim request.query)) empty_query
          (if limit == 0 || ltb max_search_limit limit
            then err (limit_out_of_bounds limit max_search_limit)
            else if is_some request.scope && is_some request.scope_prefix
            then err scope_and_prefix_both_set
            else ok (trim request.query, limit))
          checked e in
      let (bounds, rest2) =
        if_err_ok (limit == 0 || ltb max_search_limit limit)
          (limit_out_of_bounds limit max_search_limit)
          (if is_some request.scope && is_some request.scope_prefix
            then err scope_and_prefix_both_set
            else ok (trim request.query, limit))
          checked rest in
      let (scopes, rest3) =
        if_err_ok (is_some request.scope && is_some request.scope_prefix) scope_and_prefix_both_set
          (ok (trim request.query, limit)) checked rest2 in
      ((query, ground (arith, bounds), ground (arith, bounds), scopes), sym (ok_injective rest3))

  module _ (u : Unicode) (Vector StorageError EmbedderError ExpansionError : Type 0)
      (b : Backends fl u Vector StorageError EmbedderError ExpansionError)
      (request : SearchRequest fl) (runtime : SearchRuntimeOptions) (default_candidate_pool : ℕ)
      (keep : Thought → Bool) (permutes : (l : List (Hit fl)) → Perm (b.into_values l) l)
      (sound : IsSoundFor fl u Vector StorageError EmbedderError ExpansionError b request runtime
        default_candidate_pool keep) where
    serve-IsAnswer :
        (gates : Gates) (query : Text) (limit : ℕ)
        (found : Found fl u Vector StorageError EmbedderError ExpansionError)
        (response : SearchResponse fl)
        → All
            (Only fl keep)
            (rankings_of fl u Vector StorageError EmbedderError ExpansionError gates found)
        → serve fl u Vector StorageError EmbedderError ExpansionError b request runtime
            default_candidate_pool gates query limit found
          ≡ ok response
        → IsAnswer fl keep limit request.tag_filter response.results
    unfolding serve
    serve-IsAnswer gates query limit found response h e =
        let rankings =
          rankings_of fl u Vector StorageError EmbedderError ExpansionError gates found in
        let fused = rrf_fuse fl b.into_values rankings (fl.of_ℕ 60) in
        let collected =
          collect_graph_expansion fl b.count_graph_non_thought_targets b.search_graph_neighbors
            gates.graph_augmentation runtime.graph fused request.scope request.scope_prefix in
        let answer = λ (graph : GraphExpansion fl).
          respond fl u Vector StorageError EmbedderError ExpansionError b request runtime
            default_candidate_pool gates query limit found fused graph in
        let (graph, made, same) =
          and_then_ok (map_err storage collected) (λ graph. ok (answer graph)) response e in
        subst (λ (r : SearchResponse fl). IsAnswer fl keep limit request.tag_filter r.results)
          (ok_injective same)
          (respond-IsAnswer fl u Vector StorageError EmbedderError ExpansionError b request runtime
            default_candidate_pool keep gates query limit found fused graph
            (Only-rrf_fuse fl keep b.into_values permutes rankings (fl.of_ℕ 60) h)
            (rrf_fuse-Nodup fl b.into_values permutes rankings (fl.of_ℕ 60))
            (Only-neighbors fl u Vector StorageError EmbedderError ExpansionError b request runtime
              default_candidate_pool keep sound gates.graph_augmentation runtime.graph fused graph
              (map_err_ok storage collected graph made)))

    -- If every statement of the database only gives thoughts that pass a test, and the map gives up its
    -- values in some order, then a search answers only an acceptable request; its results are at most
    -- as many as the limit, no thought stands twice, and each passes the test, and the filter unless
    -- that is no object with entries.
    pub search_thoughts_with_tuning_ok :
        (lexical_top_k lexical_timeout_ms : ℕ) (response : SearchResponse fl)
        → search_thoughts_with_tuning fl u Vector StorageError EmbedderError ExpansionError b
            request runtime default_candidate_pool lexical_top_k lexical_timeout_ms
          ≡ some (ok response)
        → IsAcceptable request
          × IsAnswer fl keep
              (unwrap_or request.limit default_search_limit)
              request.tag_filter
              response.results
    unfolding search_thoughts_with_tuning
    search_thoughts_with_tuning_ok lexical_top_k lexical_timeout_ms response e =
        let gates = gates_of fl request runtime in
        let db = b.database request.scope request.scope_prefix in
        let search =
          search_checked fl u Vector StorageError EmbedderError ExpansionError b request runtime
            default_candidate_pool lexical_top_k lexical_timeout_ms in
        let (checked, fine, rest) = on_ok-ok (check_request fl request) search response e in
        let (acceptable, same) = check_request-ok request checked fine in
        let query = trim request.query in
        let limit = unwrap_or request.limit default_search_limit in
        let found =
          found_of fl u Vector StorageError EmbedderError ExpansionError b request runtime
            default_candidate_pool lexical_top_k lexical_timeout_ms gates query in
        let (v, s, p, sparse_ok, pairwise_ok, served) =
          chain-ok
            (query_vector fl u Vector StorageError EmbedderError ExpansionError
              (b.embed (query ∷ [])))
            (sparse_legs fl u Vector StorageError EmbedderError ExpansionError db gates
              b.encode_sparse query)
            (pairwise_leg fl u Vector StorageError EmbedderError ExpansionError db gates
              lexical_top_k lexical_timeout_ms b.into_values query)
            (λ v s p.
              serve fl u Vector StorageError EmbedderError ExpansionError b request runtime
                default_candidate_pool gates query limit (found v s p))
            response (subst (λ c. search c ≡ some (ok response)) same rest) in
        (
          acceptable,
          serve-IsAnswer gates query limit (found v s p) response
              (Only-rankings_of fl u Vector StorageError EmbedderError ExpansionError keep gates
                (found v s p)
                (Only-vector_legs fl u Vector StorageError EmbedderError ExpansionError keep db
                  sound.legs gates v)
                (Only-sparse_legs fl u Vector StorageError EmbedderError ExpansionError keep db
                  sound.legs gates b.encode_sparse query s sparse_ok)
                (Only-lexical_legs fl u Vector StorageError EmbedderError ExpansionError keep db
                  sound.legs gates lexical_top_k lexical_timeout_ms query)
                (Only-pairwise_leg fl u Vector StorageError EmbedderError ExpansionError keep db
                  sound.legs gates lexical_top_k lexical_timeout_ms b.into_values permutes query p
                  pairwise_ok)
                (Only-planned fl u Vector StorageError EmbedderError ExpansionError keep db
                  sound.legs gates lexical_top_k lexical_timeout_ms b.embed
                  (build_expansion_plan u ExpansionError b.expander gates.query_expansion gates.hyde
                    runtime.query_expansion_max_variants runtime.query_expansion_max_hyde_chars
                    query)))
              served,
        )
