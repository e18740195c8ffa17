-- ===== src/Tagger/Pipeline.antt =====
-- `tag` of crates/kengram-tagger-deterministic/src/lib.rs, with the cleaning of preprocess.rs. The
-- searches and replacements by regular expressions are parameters.
pub mod Output
pub mod Tests
use k_engram.Prelude.{
  ℕ, Bool, List, [], ◌∷◌, map, Option, none, some, ◌==◌, Result, ok, err, and_then, ok_or,
}
use k_engram.Text.{Text, codes, split, join}
use k_engram.Unicode.{Unicode}
use k_engram.Float.{Float}
use k_engram.Core.Failure.{TaggerError, t_misconfigured}
use k_engram.Core.Tags.{Tags, default_tags}
use k_engram.Mcp.Drain.{TagOutput}
use k_engram.Tagger.Kind.{Embed, Entry, classify_kind}
use k_engram.Tagger.Topics.{TaxonomyEntry, classify_topics}
use k_engram.Tagger.Names.{Span, NerOutput, ner_output, dates_of}

-- What the regular expressions of preprocess.rs and dates.rs do. The first three replace their matches
-- by a blank, and the fourth by what a function makes of them.
pub record Patterns : Type 0 where
  pub replace_quoted : Text → Text
  pub replace_parenthesized : Text → Text
  pub replace_inline : Text → Text
  pub replace_headings : (Text → Text) → Text → Text
  -- The matches of each date pattern.
  pub find_dates : Text → List (List Text)

module _ (u : Unicode) where
  abbrev pub title_case : Text → Text
  title_case [] = []
  title_case (first ∷ rest) = first ∷ u.to_lowercase rest

  unfoldable pub title_case_line : Text → Text
  title_case_line line = join (codes " ") (map title_case (split (λ c. c == b' ') line))

  unfoldable pub clean_for_ner : Patterns → Text → Text
  clean_for_ner patterns content =
      patterns.replace_headings title_case_line
        (patterns.replace_inline (patterns.replace_parenthesized (patterns.replace_quoted content)))

  module _ (fl : Float) (mismatch : ℕ → ℕ → Text) where
    -- The model that finds spans is none without its files.
    pub record DeterministicTagger : Type 0 where
      pub kind_threshold : fl.F
      pub topic_threshold_default : fl.F
      pub embed : Embed fl
      pub taxonomy : List (TaxonomyEntry fl)
      pub kind_prototypes : List (Entry fl)
      pub gliner : Option (Text → Result TaggerError (List Span))

    abbrev pub missing_model : Text
    missing_model =
        codes "DeterministicTagger constructed without gline-rs (use ::new not ::without_gliner)"

    unfoldable pub tag : Patterns → DeterministicTagger → Text → Result TaggerError TagOutput
    tag patterns tagger content =
        and_then (ok_or tagger.gliner (t_misconfigured missing_model)) (λ inference.
          and_then (inference (clean_for_ner patterns content)) (λ spans.
            and_then
              (classify_kind fl mismatch tagger.embed content tagger.kind_prototypes
                tagger.kind_threshold)
              (λ kind.
                and_then
                  (classify_topics fl mismatch tagger.embed content tagger.taxonomy
                    tagger.topic_threshold_default)
                  (λ topics.
                    let ner_out = ner_output u spans in
                    ok (record {
                      tags = record default_tags {
                        kind = kind;
                        people = ner_out.people;
                        action_items = ner_out.action_items;
                        topics = topics;
                        dates_mentioned = dates_of (patterns.find_dates content);
                      };
                      relations = [];
                    })))))
