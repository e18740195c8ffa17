-- ===== src/Mcp/Neighbors.antt =====
-- `collect_graph_expansion` of crates/kengram-mcp/src/search.rs: the thoughts linked with the first
-- hits. The statements on the database, `count_graph_non_thought_targets` and
-- `search_graph_neighbors`, are parameters.
use k_engram.Prelude.{
  ℕ, Bool, ◌||◌, List, [], ◌∷◌, map, Option, none, ◌==◌, if◌then◌else◌, Result, ok, and_then,
  is_empty, any, retain, take, min, not,
}
use k_engram.Text.{Text}
use k_engram.Float.{Float}
use k_engram.Core.Relation.{RelationKind, LinkDirection, LinkSource, ThoughtId}
use k_engram.Core.Fusion.{Thought, Hit, same_id}

abbrev pub max_graph_seed_count : ℕ
max_graph_seed_count = 64

abbrev pub max_graph_per_seed_cap : ℕ
max_graph_per_seed_cap = 16

abbrev pub max_graph_total_cap : ℕ
max_graph_total_cap = 256

pub record GraphNeighborHit : Type 0 where
  pub seed_thought_id : ThoughtId
  pub link_id : ℕ
  pub relation : RelationKind
  pub direction : LinkDirection
  pub link_source : LinkSource
  pub note : Option Text
  pub thought : Thought

pub record GraphNonThoughtTargetCounts : Type 0 where
  pub entity : ℕ
  pub person : ℕ
  pub url : ℕ

-- The identities and words are printed in the source.
pub record GraphProvenance : Type 0 where
  pub seed_thought_id : ThoughtId
  pub link_id : ℕ
  pub relation : RelationKind
  pub direction : LinkDirection
  pub source : LinkSource
  pub note : Option Text

abbrev pub provenance_of : GraphNeighborHit → GraphProvenance
provenance_of row = record {
  seed_thought_id = row.seed_thought_id;
  link_id = row.link_id;
  relation = row.relation;
  direction = row.direction;
  source = row.link_source;
  note = row.note;
}

-- The caps and the links that an augmentation follows, of `SearchRuntimeOptions`.
pub record GraphOptions : Type 0 where
  pub graph_seed_count : ℕ
  pub graph_per_seed_cap : ℕ
  pub graph_total_cap : ℕ
  pub graph_relations : List RelationKind
  pub graph_direction : LinkDirection

-- The entry of `provenance` under an id; none at all is the empty list.
unfoldable pub provenance_at : List GraphNeighborHit → ThoughtId → List GraphProvenance
provenance_at rows id = map provenance_of (retain (λ row. same_id row.thought.id id) rows)

module _ (fl : Float) where
  abbrev pub neighbor_hit : Thought → Hit fl
  neighbor_hit thought = record {
    thought = thought;
    vector_score = none;
    lexical_score = none;
    trigram_score = none;
    rrf_score = none;
    rerank_score = none;
    chunk = none;
  }

  -- The hits of `by_thought` in the order in which their thoughts come first; `seen` are the thoughts
  -- before.
  unfoldable pub neighbor_ranking : List ThoughtId → List GraphNeighborHit → List (Hit fl)
  neighbor_ranking seen [] = []
  neighbor_ranking seen (row ∷ rows) =
      let rest = neighbor_ranking seen rows in
      let rest_seen = neighbor_ranking (row.thought.id ∷ seen) rows in
      if any (λ id. same_id id row.thought.id) seen
      then rest
      else neighbor_hit row.thought ∷ rest_seen

  -- The map `provenance` is kept as the rows it is made of.
  pub record GraphExpansion : Type 0 where
    pub ranking : List (Hit fl)
    pub rows : List GraphNeighborHit

  abbrev pub no_expansion : GraphExpansion
  no_expansion = record { ranking = []; rows = [] }

  module _ {StorageError : Type 0}
      (count_graph_non_thought_targets : List ThoughtId
        → List RelationKind
        → LinkDirection
        → Result StorageError GraphNonThoughtTargetCounts)
      (search_graph_neighbors : List ThoughtId
        → List RelationKind
        → LinkDirection
        → ℕ
        → ℕ
        → Option Text
        → Option Text
        → Result StorageError (List GraphNeighborHit)) where
    unfoldable pub collect_graph_expansion :
        Bool
        → GraphOptions
        → List (Hit fl)
        → Option Text
        → Option Text
        → Result StorageError GraphExpansion
    collect_graph_expansion graph_augmentation_enabled options fused scope_filter
          scope_prefix_filter =
        let seed_count = min options.graph_seed_count max_graph_seed_count in
        let per_seed_cap = min options.graph_per_seed_cap max_graph_per_seed_cap in
        let total_cap = min options.graph_total_cap max_graph_total_cap in
        let seeds = map (λ hit. hit.thought.id) (take seed_count fused) in
        if not graph_augmentation_enabled || is_empty fused
        then ok no_expansion
        else if seed_count == 0 || per_seed_cap == 0 || total_cap == 0
        then ok no_expansion
        else and_then
            (count_graph_non_thought_targets seeds options.graph_relations options.graph_direction)
            (λ counts.
              and_then
                (search_graph_neighbors seeds options.graph_relations options.graph_direction
                  per_seed_cap total_cap scope_filter scope_prefix_filter)
                (λ rows. ok (record { ranking = neighbor_ranking [] rows; rows = rows })))
