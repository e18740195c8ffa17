-- ===== src/Tagger/Pipeline/Output.antt =====
-- What the deterministic tagger answers, in crates/kengram-tagger-deterministic/src/lib.rs.
use k_engram.Prelude.{
  ℕ, List, [], map, Option, some, ◌≡◌, refl, subst, ◌⊎◌, Result, ok, and_then, and_then_ok, ok_or,
  ok_or_ok, ok_injective,
}
use k_engram.Text.{Text, codes}
use k_engram.Unicode.{Unicode}
use k_engram.Float.{Float, IsOrdered}
use k_engram.Core.Failure.{TaggerError, t_misconfigured}
use k_engram.Core.Tags.{default_tags, TagKind}
use k_engram.Mcp.Drain.{TagOutput}
use k_engram.Tagger.Kind.{embed_one, classify_kind}
use k_engram.Tagger.Kind.Best.{IsBest, classify_kind-IsBest}
use k_engram.Tagger.Topics.{classify_topics}
use k_engram.Tagger.Topics.Top.{IsTop, classify_topics-IsTop}
use k_engram.Tagger.Names.{Span, ner_output, dates_of}
use k_engram.Tagger.Names.People.{IsPeople, ner_output-IsPeople}
use k_engram.Tagger.Pipeline.{Patterns, clean_for_ner, DeterministicTagger, missing_model, tag}

module _ (fl : Float) (ordered : IsOrdered fl) (u : Unicode) (mismatch : ℕ → ℕ → Text)
    (patterns : Patterns) (tagger : DeterministicTagger u fl mismatch) (content : Text) where
  -- The kind and the topics of an answer are the best ones for a vector of the content, its people are
  -- those of spans that the model found in the cleaned content, and it has no relation and no entity.
  pub record IsTagged (output : TagOutput) : Type 0 where
    pub kind :
        (v : List fl.F) × (embed_one fl mismatch tagger.embed
            (codes "kind classify: empty embed result")
            content
          ≡ ok v)
        × IsBest fl ordered v tagger.kind_threshold tagger.kind_prototypes output.tags.kind
    pub topics :
        ((tagger.taxonomy ≡ []) × (output.tags.topics ≡ []))
        ⊎ ((v : List fl.F) × (ts : List (Text × fl.F)) × (embed_one fl mismatch tagger.embed
                (codes "topics classify: empty embed result")
                content
              ≡ ok v)
            × (output.tags.topics ≡ map (λ t. t.0) ts)
            × IsTop fl ordered v tagger.topic_threshold_default tagger.taxonomy ts)
    pub people :
        (inference : Text → Result TaggerError (List Span)) × (spans : List Span) × (tagger.gliner
          ≡ some inference)
        × (inference (clean_for_ner u patterns content) ≡ ok spans)
        × IsPeople u spans output.tags.people
    pub no_entities : output.tags.entities ≡ []
    pub no_relations : output.relations ≡ []

  -- If < is a strict weak order (no NaN occurs) and the tagger answers, the kind and the topics are the
  -- best ones for a vector of the content, the people are those of the spans in the cleaned content, up
  -- to case and without parts of names of products, and there is no relation and no entity.
  pub tag-IsTagged :
      (output : TagOutput) → tag u fl mismatch patterns tagger content ≡ ok output → IsTagged output
  unfolding tag
  tag-IsTagged output e =
      let answer = λ (spans : List Span) (kind : Option TagKind) (topics : List Text).
        let ner_out = ner_output u spans in
        let output : TagOutput = record {
          tags = record default_tags {
            kind = kind;
            people = ner_out.people;
            action_items = ner_out.action_items;
            topics = topics;
            dates_mentioned = dates_of (patterns.find_dates content);
          };
          relations = [];
        } in
        output in
      let classified =
        classify_kind fl mismatch tagger.embed content tagger.kind_prototypes
          tagger.kind_threshold in
      let matched =
        classify_topics fl mismatch tagger.embed content tagger.taxonomy
          tagger.topic_threshold_default in
      let after_kind = λ (spans : List Span) (kind : Option TagKind).
        and_then matched (λ topics. ok (answer spans kind topics)) in
      let after_spans = λ (spans : List Span). and_then classified (after_kind spans) in
      let after_model = λ (inference : Text → Result TaggerError (List Span)).
        and_then (inference (clean_for_ner u patterns content)) after_spans in
      let (inference, model, e1) =
        and_then_ok (ok_or tagger.gliner (t_misconfigured (missing_model u fl mismatch)))
          after_model output e in
      let (spans, found, e2) =
        and_then_ok (inference (clean_for_ner u patterns content)) after_spans output e1 in
      let (kind, kind_ok, e3) = and_then_ok classified (after_kind spans) output e2 in
      let (topics, topics_ok, e4) =
        and_then_ok matched (λ topics. ok (answer spans kind topics)) output e3 in
      subst IsTagged (ok_injective e4) (record {
        kind =
            classify_kind-IsBest fl ordered mismatch tagger.embed content tagger.kind_prototypes
              tagger.kind_threshold kind kind_ok;
        topics =
            classify_topics-IsTop fl ordered mismatch tagger.embed content tagger.taxonomy
              tagger.topic_threshold_default topics topics_ok;
        people = (
          inference,
          spans,
          ok_or_ok tagger.gliner (t_misconfigured (missing_model u fl mismatch)) inference model,
          found,
          ner_output-IsPeople u spans,
        );
        no_entities = refl;
        no_relations = refl;
      })
