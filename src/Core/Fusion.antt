-- ===== src/Core/Fusion.antt =====
-- crates/kengram-core/src/search.rs: hits, reciprocal rank fusion and the recency boost. Scores are
-- floats; of a thought only its identity, content, tags and age matter here.
pub mod Accumulate
pub mod Legs
pub mod Order
pub mod Only
pub mod Tests
use k_engram.Prelude.{
  ℕ, zero, suc, ◌+◌, Bool, true, false, List, [], ◌∷◌, ◌++◌, map, Option, none, some, ◌==◌,
  if◌then◌else◌, or_else, unwrap_or,
}
use k_engram.Text.{Text}
use k_engram.Float.{Float, le?}
use k_engram.Sorting.{sort}
use k_engram.Core.Relation.{ThoughtId}
use k_engram.Core.Tags.{Tags}

-- `created_at` in whole seconds.
pub record Thought : Type 0 where
  pub id : ThoughtId
  pub content : Text
  pub tags : Tags
  pub created_at : ℕ

pub record ChunkProvenance : Type 0 where
  pub chunk_id : ℕ
  pub content : Text

abbrev pub same_id : ThoughtId → ThoughtId → Bool
same_id a b = a.uuid == b.uuid

module _ (fl : Float) where
  open fl use {F, of_ℕ, add, sub, mul, div, pow, lt, decimal}

  pub record Hit : Type 0 where
    pub thought : Thought
    pub vector_score : Option F
    pub lexical_score : Option F
    pub trigram_score : Option F
    pub rrf_score : Option F
    pub rerank_score : Option F
    pub chunk : Option ChunkProvenance

  unfoldable pub from_vector_leg : Thought → F → Hit
  from_vector_leg thought cosine_similarity = record {
    thought = thought;
    vector_score = some cosine_similarity;
    lexical_score = none;
    trigram_score = none;
    rrf_score = none;
    rerank_score = none;
    chunk = none;
  }

  unfoldable pub from_lexical_leg : Thought → F → Hit
  from_lexical_leg thought rank = record {
    thought = thought;
    vector_score = none;
    lexical_score = some rank;
    trigram_score = some rank;
    rrf_score = none;
    rerank_score = none;
    chunk = none;
  }

  unfoldable pub from_trigram_leg : Thought → F → Hit
  from_trigram_leg thought similarity = record {
    thought = thought;
    vector_score = none;
    lexical_score = none;
    trigram_score = some similarity;
    rrf_score = none;
    rerank_score = none;
    chunk = none;
  }

  unfoldable pub with_chunk_provenance : Hit → ChunkProvenance → Hit
  with_chunk_provenance hit chunk = record hit { chunk = some chunk }

  -- `1.0 / (k + rank)` for the hit at index `i`.
  unfoldable pub contribution : F → ℕ → F
  contribution k i = div (of_ℕ 1) (add k (of_ℕ (i + 1)))

  -- The two arms of the `match` on `acc.get_mut`.
  unfoldable pub merge_into : F → Hit → Hit → Hit
  merge_into c existing hit = record existing {
    vector_score = or_else existing.vector_score hit.vector_score;
    trigram_score = or_else existing.trigram_score hit.trigram_score;
    lexical_score = or_else existing.lexical_score hit.lexical_score;
    rrf_score = some (add (unwrap_or existing.rrf_score (of_ℕ 0)) c);
    chunk = or_else existing.chunk hit.chunk;
  }

  unfoldable pub first_seen : F → Hit → Hit
  first_seen c hit = record hit { rrf_score = some c; rerank_score = none }

  -- The map `acc`, as the list of its values, of which no two have one id.
  unfoldable pub accumulate : F → Hit → List Hit → List Hit
  unfolding merge_into first_seen
  accumulate c hit [] = first_seen c hit ∷ []
  accumulate c hit (h ∷ acc) =
      if same_id h.thought.id hit.thought.id
      then merge_into c h hit ∷ acc
      else h ∷ accumulate c hit acc

  -- The inner loop, from index `i` of one ranking on.
  unfoldable pub fuse_ranking : F → ℕ → List Hit → List Hit → List Hit
  unfolding accumulate contribution
  fuse_ranking k i [] acc = acc
  fuse_ranking k i (hit ∷ ranking) acc =
      fuse_ranking k (i + 1) ranking (accumulate (contribution k i) hit acc)

  unfoldable pub fuse_all : F → List (List Hit) → List Hit → List Hit
  unfolding fuse_ranking
  fuse_all k [] acc = acc
  fuse_all k (ranking ∷ rankings) acc = fuse_all k rankings (fuse_ranking k 0 ranking acc)

  -- The comparator of both sorts answers `Less`: a higher RRF score comes first.
  unfoldable pub scores_before : Hit → Hit → Bool
  scores_before a b = lt (unwrap_or b.rrf_score (of_ℕ 0)) (unwrap_or a.rrf_score (of_ℕ 0))

  -- `rrf_fuse`. The order in which a `HashMap` gives up its values is not fixed: `into_values`
  -- stands for it.
  unfoldable pub rrf_fuse : (List Hit → List Hit) → List (List Hit) → F → List Hit
  unfolding fuse_all scores_before sort
  rrf_fuse into_values rankings k = sort scores_before (into_values (fuse_all k rankings []))

  -- `0.5^(age_days / half_life_days)`, with the age in seconds.
  unfoldable pub decay : F → F → F
  decay half_life_days age_secs = pow (decimal 5 1) (div (div age_secs (of_ℕ 86400)) half_life_days)

  abbrev pub scale : F → Option F → Option F
  scale factor none = none
  scale factor (some s) = some (mul s factor)

  unfoldable pub boost_hit : F → (ℕ → F) → Hit → Hit
  unfolding decay
  boost_hit half_life_days age_secs h = record h {
    rrf_score = scale (decay half_life_days (age_secs h.thought.created_at)) h.rrf_score;
  }

  -- `recency_boost`; `age_secs` is the age at `now` of a thought of a given time, as a float, since
  -- it may be negative.
  unfoldable pub recency_boost : F → (ℕ → F) → List Hit → List Hit
  unfolding boost_hit scores_before sort
  recency_boost half_life_days age_secs hits =
      if le? fl half_life_days (of_ℕ 0)
      then hits
      else sort scores_before (map (boost_hit half_life_days age_secs) hits)
