-- ===== src/Mcp/Pipeline/Tests.antt =====
-- A search over two thoughts, of which the lexical leg finds one and the vector leg both; scores in
-- thousandths.
use mathlib.Core.List.Perm
use k_engram.Prelude.{
  ℕ, Bool, true, false, List, [], ◌∷◌, none, some, ◌≡◌, refl, ◌==◌, ok, err, All, is_empty,
  unwrap_or, subst, ok_injective,
}
use k_engram.Text.{codes, trim, text_eq}
use k_engram.Unicode.{ascii}
use k_engram.Float.{thousandths}
use k_engram.Core.Json.{object, field, end, string, array, cons, nil, get_field}
use k_engram.Core.Tags.{Tags, default_tags}
use k_engram.Core.Relation.{both}
use k_engram.Core.Fusion.{
  Hit, Thought, recency_boost, rrf_fuse, fuse_all, fuse_ranking, accumulate, first_seen, merge_into,
  contribution, scores_before,
}
use k_engram.Mcp.Retrieval.{Database, build_expansion_plan, bounded_fts_hits}
use k_engram.Mcp.Gates.{
  SearchRuntimeOptions, SearchRequest, SearchResponse, SearchHit, default_search_limit, gates_of,
  check_request, is_empty_filter, search_hit_from_core_hit,
}
use k_engram.Mcp.Legs.{Backends, sparse_legs, pairwise_leg, vector_legs, rankings_of, lexical_legs}
use k_engram.Mcp.Pipeline.{search_thoughts_with_tuning, serve, respond}
use k_engram.Mcp.Pipeline.Results.{IsAnswer, IsSoundFor}
use k_engram.Mcp.Pipeline.Answers.{IsAcceptable, search_thoughts_with_tuning_ok}
use k_engram.Mcp.Pipeline.Unfailing.{search_thoughts_with_tuning_unfailing}
use k_engram.Mcp.Neighbors.{collect_graph_expansion, provenance_at}
use k_engram.Mcp.Graph.{merge_graph_expansion}
use k_engram.Sorting.{sort, insert}
use k_engram.Mcp.Filter.{
  tags_match_filter, json_contains, all_items, all_fields, any_item, tags_value, scalar_eq,
}

abbrev rust_tags : Tags
rust_tags = record default_tags { topics = codes "rust" ∷ [] }

abbrev hit : ℕ → Tags → Hit thousandths
hit n tags = record {
  thought = record {
    id = record { uuid = n };
    content = codes "note";
    tags = tags;
    created_at = 0;
  };
  vector_score = none;
  lexical_score = none;
  trigram_score = none;
  rrf_score = none;
  rerank_score = none;
  chunk = none;
}

abbrev tagged : Hit thousandths
tagged = hit 1 rust_tags

abbrev untagged : Hit thousandths
untagged = hit 2 default_tags

abbrev database : Database thousandths ℕ ℕ
database = record {
  search_vector_knn = λ v k. ok (untagged ∷ tagged ∷ []);
  search_artifact_chunks_vector_knn = λ v k. err 1;
  search_artifact_chunk_contexts_vector_knn = λ v k. err 1;
  search_thoughts_sparse_lexical = λ v k. err 1;
  search_artifact_chunks_sparse_lexical = λ v k. err 1;
  search_fts_bounded = λ q k t. ok (tagged ∷ []);
  search_artifact_chunks_fts_bounded = λ q k t. err 1;
  search_artifact_chunk_contexts_fts_bounded = λ q k t. err 1;
  search_domain_scope_aliases_bounded = λ ds k t. err 1;
  search_tag_facets_bounded = λ ts k t. err 1;
}

abbrev backends : Backends thousandths ascii ℕ ℕ ℕ ℕ
backends = record {
  embed = λ texts. ok (7 ∷ []);
  encode_sparse = none;
  reranker = none;
  expander = none;
  database = λ scope prefix. database;
  count_graph_non_thought_targets = λ seeds relations direction. err 1;
  search_graph_neighbors = λ seeds relations direction per_seed total scope prefix. ok [];
  into_values = λ hits. hits;
  age_secs = λ t. 0;
}

abbrev request : SearchRequest thousandths
request = record {
  query = codes " rust ";
  scope = none;
  scope_prefix = none;
  limit = some 2;
  recency_half_life_days = some 0;
  rerank = none;
  candidate_pool = none;
  chunk_serving_enabled = true;
  full_pipeline_enabled = false;
  tag_domain_routing_enabled = true;
  tag_filter =
      some (object (field (codes "topics") (array (cons (string (codes "rust")) nil)) end));
}

abbrev runtime : SearchRuntimeOptions
runtime = record {
  query_expansion_enabled = true;
  hyde_enabled = true;
  query_expansion_max_variants = 4;
  query_expansion_max_hyde_chars = 600;
  sparse_lexical_enabled = true;
  graph_augmentation_enabled = true;
  graph = record {
    graph_seed_count = 12;
    graph_per_seed_cap = 3;
    graph_total_cap = 24;
    graph_relations = [];
    graph_direction = both;
  };
  contextual_retrieval_enabled = true;
  contextual_chunk_vector_enabled = true;
  contextual_chunk_fts_enabled = true;
}

abbrev found_tagged : SearchHit thousandths
found_tagged = record {
  thought_id = record { uuid = 1 };
  content = codes "note";
  created_at = 0;
  tags = rust_tags;
  vector_score = none;
  lexical_score = none;
  trigram_score = none;
  rrf_score = some 32;
  rerank_score = none;
  chunk_id = none;
  chunk_content = none;
  graph_provenance = [];
}

abbrev response : SearchResponse thousandths
response = record {
  results = found_tagged ∷ [];
  vector_search_available = true;
  rerank_used = false;
}

search_finds :
    search_thoughts_with_tuning thousandths ascii ℕ ℕ ℕ ℕ backends request runtime 16 50 300
    ≡ some (ok response)
unfolding search_thoughts_with_tuning check_request trim sparse_legs gates_of pairwise_leg serve
    collect_graph_expansion respond is_empty_filter vector_legs recency_boost merge_graph_expansion
    rrf_fuse rankings_of build_expansion_plan lexical_legs bounded_fts_hits fuse_all fuse_ranking
    accumulate first_seen merge_into contribution sort insert scores_before tags_match_filter
    json_contains all_items all_fields any_item tags_value scalar_eq text_eq
    search_hit_from_core_hit provenance_at get_field
search_finds = refl

abbrev no_late : Thought → Bool
no_late t = t.created_at == 0

-- Both legs only give thoughts of that time.
backends-IsSound : IsSoundFor thousandths ascii ℕ ℕ ℕ ℕ backends request runtime 16 no_late
backends-IsSound = record {
  legs = record {
    vector = λ v k. (refl, (refl, tt));
    chunk_vector = λ v k. tt;
    context_vector = λ v k. tt;
    sparse = λ v k. tt;
    chunk_sparse = λ v k. tt;
    fts = λ q k t. (refl, tt);
    chunk_fts = λ q k t. tt;
    context_fts = λ q k t. tt;
    domains = λ ds k t. tt;
    facets = λ ts k t. tt;
  };
  neighbors = λ seeds relations direction per_seed total rows e.
      subst (All (λ row. no_late row.thought ≡ true)) (ok_injective e) tt;
}

search_thoughts_with_tuning_ok_example :
    IsAcceptable thousandths request
    × IsAnswer thousandths no_late
        (unwrap_or request.limit default_search_limit)
        request.tag_filter
        response.results
search_thoughts_with_tuning_ok_example =
    search_thoughts_with_tuning_ok thousandths ascii ℕ ℕ ℕ ℕ backends request runtime 16 no_late
      (λ hits. Perm.refl hits) backends-IsSound 50 300 response search_finds

embeds_one :
    (vectors : List ℕ)
    → backends.embed (trim request.query ∷ []) ≡ ok vectors
    → is_empty vectors ≡ false
embeds_one vectors e = subst (λ vs. is_empty vs ≡ false) (ok_injective e) refl

acceptable : IsAcceptable thousandths request
unfolding trim
acceptable = (refl, refl, refl, refl)

all_off :
    ((gates_of thousandths request runtime).sparse_lexical ≡ false)
    × ((gates_of thousandths request runtime).graph_augmentation ≡ false)
    × ((gates_of thousandths request runtime).chunk_serving ≡ false)
unfolding gates_of
all_off = (refl, refl, refl)

search_thoughts_with_tuning_unfailing_example :
    (answer : SearchResponse thousandths) × (search_thoughts_with_tuning thousandths ascii ℕ ℕ ℕ ℕ
        backends request runtime 16 50 300
      ≡ some (ok answer))
    × ((e : ℕ)
        → backends.embed (trim request.query ∷ []) ≡ err e
        → answer.vector_search_available ≡ false)
search_thoughts_with_tuning_unfailing_example =
    search_thoughts_with_tuning_unfailing thousandths ascii ℕ ℕ ℕ ℕ backends request runtime 16 50
      300 acceptable all_off.0 all_off.1 all_off.2 embeds_one
