-- ===== src/Tagger/Topics.antt =====
-- crates/kengram-tagger-deterministic/src/topics.rs: the topics of a thought are the entries of a
-- taxonomy that are most similar to it.
pub mod Top
use k_engram.Prelude.{
  ℕ, Bool, true, false, List, [], ◌∷◌, map, Option, none, some, if◌then◌else◌, Result, ok, err,
  and_then, map_err, is_empty, length, take, not, ◌==◌, unwrap_or, filter_map,
}
use k_engram.Text.{Text, codes}
use k_engram.Float.{Float, le?}
use k_engram.Sorting.{sort}
use k_engram.Core.Failure.{
  TaggerError, t_malformed_response, t_misconfigured, embedder_to_tagger_error,
}
use k_engram.Tagger.Kind.{zip, cosine_similarity, Embed, embed_one}

abbrev pub max_topics_per_thought : ℕ
max_topics_per_thought = 3

module _ (fl : Float) where
  open fl use {F, lt}

  pub record TaxonomyEntry : Type 0 where
    pub label : Text
    pub description_vector : List F
    pub threshold : Option F

  pub record RawTaxonomyEntry : Type 0 where
    pub description : Text
    pub threshold : Option F

  -- A label with its entry in the file.
  abbrev pub RawTopic : Type 0
  RawTopic = Text × RawTaxonomyEntry

  abbrev pub entry_of : RawTopic × List F → TaxonomyEntry
  entry_of ((label, raw), vector) = record {
    label = label;
    description_vector = vector;
    threshold = raw.threshold;
  }

  abbrev pub scored : List F → F → TaxonomyEntry → Option (Text × F)
  scored content default_threshold entry =
      let score = cosine_similarity fl content entry.description_vector in
      if le? fl (unwrap_or entry.threshold default_threshold) score
      then some (entry.label, score)
      else none

  -- A higher score comes first.
  abbrev pub higher : Text × F → Text × F → Bool
  higher a b = lt b.1 a.1

  unfoldable pub top_topics : List F → F → List TaxonomyEntry → List (Text × F)
  top_topics content default_threshold entries =
      take max_topics_per_thought
        (sort higher (filter_map (scored content default_threshold) entries))

  module _ (mismatch : ℕ → ℕ → Text) (embed : Embed fl) where
    unfoldable pub classify_topics : Text → List TaxonomyEntry → F → Result TaggerError (List Text)
    classify_topics content entries default_threshold =
        if is_empty entries
        then ok []
        else and_then
            (embed_one fl mismatch embed (codes "topics classify: empty embed result") content)
            (λ v. ok (map (λ t. t.0) (top_topics v default_threshold entries)))

    -- `Taxonomy::load` behind the reading and parsing of the file, of which the first argument is the
    -- outcome: a `BTreeMap` in the order of its labels, which the sort leaves as it is. The other two
    -- are the formatted messages.
    unfoldable pub load_taxonomy :
        Result TaggerError (List RawTopic)
        → Text
        → (ℕ → ℕ → Text)
        → Result TaggerError (List TaxonomyEntry)
    load_taxonomy parsed no_entries wrong_count = and_then parsed (λ topics.
        if is_empty topics
        then err (t_misconfigured no_entries)
        else and_then
            (map_err (embedder_to_tagger_error mismatch)
              (embed (map (λ (t : RawTopic). t.1.description) topics)))
            (λ vectors.
              if not (length vectors == length topics)
              then err (t_malformed_response (wrong_count (length topics) (length vectors)))
              else ok (map entry_of (zip topics vectors))))
