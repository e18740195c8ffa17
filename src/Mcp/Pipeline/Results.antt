-- ===== src/Mcp/Pipeline/Results.antt =====
-- What a search answers in crates/kengram-mcp/src/search.rs, if every statement of the database keeps
-- to a test of thoughts.
use mathlib.Core.List.{Nodup}
use k_engram.Prelude.{
  ℕ, ◌≤◌, Bool, true, false, List, [], ◌∷◌, map, Option, some, ◌≡◌, refl, ap, sym, subst, inl, inr,
  arith, Bool-cases, ok_injective, length, length-take, take, min, unwrap_or, All, All-take, ok,
  and_then, and_then_ok, ◌||◌, ◌==◌, is_empty, any, not,
}
use k_engram.Text.{Text}
use k_engram.Unicode.{Unicode}
use k_engram.Float.{Float}
use k_engram.Core.Json.{Value}
use k_engram.Core.Relation.{ThoughtId, RelationKind, LinkDirection}
use k_engram.Core.Fusion.{Hit, Thought, recency_boost, same_id}
use k_engram.Core.Fusion.Only.{Only, Only-recency_boost}
use k_engram.Core.Fusion.Order.{ids, recency_boost-Nodup}
use k_engram.Mcp.Filter.{tags_match_filter}
use k_engram.Mcp.Graph.{merge_graph_expansion}
use k_engram.Mcp.Graph.Merge.{merge_graph_expansion-Nodup}
use k_engram.Mcp.Graph.Only.{Only-merge_graph_expansion}
use k_engram.Mcp.Neighbors.{
  GraphNeighborHit, GraphExpansion, neighbor_ranking, collect_graph_expansion, GraphOptions,
  max_graph_seed_count, max_graph_per_seed_cap, max_graph_total_cap,
}
use k_engram.Mcp.Retrieval.Only.{IsSound}
use k_engram.Mcp.Gates.{
  SearchRuntimeOptions, Gates, is_empty_filter, SearchRequest, SearchHit, search_hit_from_core_hit,
}
use k_engram.Mcp.Legs.{Backends, Found}
use k_engram.Mcp.Pipeline.{apply_tag_filter, effective_candidate_pool, rerank_stage, respond}
use k_engram.Mcp.Pipeline.Stages.{
  Nodup-take, Only-apply_tag_filter, Nodup-apply_tag_filter, apply_tag_filter-Passes,
  Only-rerank_stage, Nodup-rerank_stage,
}

module _ (fl : Float) where
  -- What the answer shows of a thought.
  abbrev pub thought_of : SearchHit fl → Thought
  thought_of r = record {
    id = r.thought_id;
    content = r.content;
    tags = r.tags;
    created_at = r.created_at;
  }

  -- The results are at most as many as the limit, no thought stands twice, and each passes the test
  -- and the filter.
  pub record IsAnswer (keep : Thought → Bool) (limit : ℕ) (filter : Option Value)
      (results : List (SearchHit fl)) : Type 0 where
    pub bounded : length results ≤ limit
    pub once : Nodup (map (λ r. r.thought_id.uuid) results)
    pub kept : All (λ r. keep (thought_of r) ≡ true) results
    pub filtered :
        (f : Value)
        → filter ≡ some f
        → is_empty_filter f ≡ false
        → All (λ r. tags_match_filter r.tags f ≡ true) results

  results-ids :
      (rows : List GraphNeighborHit) (hits : List (Hit fl))
      → map (λ r. r.thought_id.uuid) (map (search_hit_from_core_hit fl rows) hits) ≡ ids fl hits
  unfolding search_hit_from_core_hit
  results-ids rows [] = refl
  results-ids rows (h ∷ hits) = ap (λ ns. h.thought.id.uuid ∷ ns) (results-ids rows hits)

  results-kept :
      (keep : Thought → Bool) (rows : List GraphNeighborHit) (hits : List (Hit fl))
      → Only fl keep hits
      → All (λ r. keep (thought_of r) ≡ true) (map (search_hit_from_core_hit fl rows) hits)
  unfolding search_hit_from_core_hit
  results-kept keep rows [] h = tt
  results-kept keep rows (g ∷ hits) h = (h.0, results-kept keep rows hits h.1)

  results-length :
      (rows : List GraphNeighborHit) (hits : List (Hit fl))
      → length (map (search_hit_from_core_hit fl rows) hits) ≡ length hits
  results-length rows [] = refl
  results-length rows (h ∷ hits) = omega (arith, results-length rows hits)

  Only-neighbor_ranking :
      (keep : Thought → Bool) (seen : List ThoughtId) (rows : List GraphNeighborHit)
      → All (λ row. keep row.thought ≡ true) rows
      → Only fl keep (neighbor_ranking fl seen rows)
  unfolding neighbor_ranking
  Only-neighbor_ranking keep seen [] h = tt
  Only-neighbor_ranking keep seen (row ∷ rows) h =
      elim (Bool-cases (any (λ id. same_id id row.thought.id) seen)) [
        | inl e ↦ rw e (Only-neighbor_ranking keep seen rows h.1)
        | inr n ↦ rw n (h.0, Only-neighbor_ranking keep (row.thought.id ∷ seen) rows h.1)
      ]

  IsAnswer-hits :
      (keep : Thought → Bool) (limit : ℕ) (filter : Option Value) (rows : List GraphNeighborHit)
      (hits : List (Hit fl))
      → Only fl keep hits
      → Nodup (ids fl hits)
      → ((f : Value)
          → filter ≡ some f
          → is_empty_filter f ≡ false
          → Only fl (λ t. tags_match_filter t.tags f) hits)
      → IsAnswer keep limit filter (map (search_hit_from_core_hit fl rows) (take limit hits))
  IsAnswer-hits keep limit filter rows hits h d passes = record {
    bounded = omega (arith, results-length rows (take limit hits), length-take limit hits);
    once =
        subst (λ ns. Nodup ns) (sym (results-ids rows (take limit hits)))
          (Nodup-take fl limit hits d);
    kept =
        results-kept keep rows (take limit hits)
          (All-take (λ g. keep g.thought ≡ true) limit hits h);
    filtered = λ f e n.
        results-kept (λ t. tags_match_filter t.tags f) rows (take limit hits)
          (All-take (λ g. tags_match_filter g.thought.tags f ≡ true) limit hits (passes f e n));
  }

  module _ (u : Unicode) (Vector StorageError EmbedderError ExpansionError : Type 0)
      (b : Backends fl u Vector StorageError EmbedderError ExpansionError)
      (request : SearchRequest fl) (runtime : SearchRuntimeOptions) (default_candidate_pool : ℕ)
      (keep : Thought → Bool) where
    pub respond-IsAnswer :
        (gates : Gates) (query : Text) (limit : ℕ)
        (found : Found fl u Vector StorageError EmbedderError ExpansionError)
        (fused : List (Hit fl)) (graph : GraphExpansion fl)
        → Only fl keep fused
        → Nodup (ids fl fused)
        → Only fl keep graph.ranking
        → IsAnswer keep limit request.tag_filter
            (respond fl u Vector StorageError EmbedderError ExpansionError b request runtime
              default_candidate_pool gates query limit found fused graph).results
    unfolding respond
    respond-IsAnswer gates query limit found fused graph h d g =
        let half_life = unwrap_or request.recency_half_life_days (fl.of_ℕ 30) in
        let merged = merge_graph_expansion fl fused graph.ranking (fl.of_ℕ 60) in
        let boosted = recency_boost fl half_life b.age_secs merged in
        let filtered =
          apply_tag_filter fl u Vector StorageError EmbedderError ExpansionError request.tag_filter
            boosted in
        let pool =
          effective_candidate_pool fl u Vector StorageError EmbedderError ExpansionError
            (unwrap_or request.candidate_pool default_candidate_pool) graph.rows found filtered in
        let reranked =
          rerank_stage fl u Vector StorageError EmbedderError ExpansionError
            (unwrap_or request.rerank true) b.reranker query filtered pool gates.chunk_serving in
        let stage = λ (p : Thought → Bool) (f : Only fl p filtered).
          Only-rerank_stage fl u Vector StorageError EmbedderError ExpansionError p
            (unwrap_or request.rerank true) b.reranker query filtered pool gates.chunk_serving f in
        IsAnswer-hits keep limit request.tag_filter graph.rows reranked.0
          (stage keep (
            Only-apply_tag_filter fl u Vector StorageError EmbedderError ExpansionError keep
              request.tag_filter boosted
              (Only-recency_boost fl keep half_life b.age_secs merged
                (Only-merge_graph_expansion fl keep fused graph.ranking (fl.of_ℕ 60) h g))))
          (Nodup-rerank_stage fl u Vector StorageError EmbedderError ExpansionError
            (unwrap_or request.rerank true) b.reranker query filtered pool gates.chunk_serving
            (Nodup-apply_tag_filter fl u Vector StorageError EmbedderError ExpansionError
              request.tag_filter boosted
              (recency_boost-Nodup fl half_life b.age_secs merged
                (merge_graph_expansion-Nodup fl fused graph.ranking (fl.of_ℕ 60) d))))
          (λ f e n.
            stage (λ t. tags_match_filter t.tags f)
              (subst
                (λ o.
                  Only fl (λ t. tags_match_filter t.tags f)
                    (apply_tag_filter fl u Vector StorageError EmbedderError ExpansionError o
                      boosted))
                (sym e)
                (apply_tag_filter-Passes fl u Vector StorageError EmbedderError ExpansionError f
                  boosted n)))

    -- Every statement of a search keeps to the test, under the filters of the request.
    pub record IsSoundFor : Type 0 where
      pub legs : IsSound fl Vector StorageError keep (b.database request.scope request.scope_prefix)
      pub neighbors :
          (seeds : List ThoughtId) (relations : List RelationKind) (direction : LinkDirection)
          (per_seed_cap total_cap : ℕ) (rows : List GraphNeighborHit)
          → b.search_graph_neighbors seeds relations direction per_seed_cap total_cap request.scope
              request.scope_prefix
            ≡ ok rows
          → All (λ row. keep row.thought ≡ true) rows

    module _ (sound : IsSoundFor) where
      pub Only-neighbors :
          (enabled : Bool) (options : GraphOptions) (fused : List (Hit fl))
          (graph : GraphExpansion fl)
          → collect_graph_expansion fl b.count_graph_non_thought_targets b.search_graph_neighbors
              enabled options fused request.scope request.scope_prefix
            ≡ ok graph
          → Only fl keep graph.ranking
      unfolding collect_graph_expansion
      Only-neighbors enabled options fused graph e =
          let seed_count = min options.graph_seed_count max_graph_seed_count in
          let per_seed_cap = min options.graph_per_seed_cap max_graph_per_seed_cap in
          let total_cap = min options.graph_total_cap max_graph_total_cap in
          let seeds = map (λ (hit : Hit fl). hit.thought.id) (take seed_count fused) in
          elim (Bool-cases (not enabled || is_empty fused)) [
            | inl off ↦ subst (λ g. Only fl keep g.ranking) (ok_injective (rw off at e)) tt
            | inr on ↦ elim (Bool-cases (seed_count == 0 || per_seed_cap == 0 || total_cap == 0)) [
              | inl zero ↦
                  subst (λ g. Only fl keep g.ranking) (ok_injective (rw (on, zero) at e)) tt
              | inr some_seed ↦
                  let (counts, counted, rest) =
                    and_then_ok
                      (b.count_graph_non_thought_targets seeds options.graph_relations
                        options.graph_direction)
                      (λ counts.
                        and_then
                          (b.search_graph_neighbors seeds options.graph_relations
                            options.graph_direction per_seed_cap total_cap request.scope
                            request.scope_prefix)
                          (λ rows.
                            ok (record { ranking = neighbor_ranking fl [] rows; rows = rows })))
                      graph (rw (on, some_seed) at e) in
                  let (rows, found, made) =
                    and_then_ok
                      (b.search_graph_neighbors seeds options.graph_relations
                        options.graph_direction per_seed_cap total_cap request.scope
                        request.scope_prefix)
                      (λ rows. ok (record { ranking = neighbor_ranking fl [] rows; rows = rows }))
                      graph rest in
                  subst (λ g. Only fl keep g.ranking) (ok_injective made)
                    (Only-neighbor_ranking keep [] rows (
                      sound.neighbors seeds options.graph_relations options.graph_direction
                        per_seed_cap total_cap rows found))
            ]
          ]
