-- ===== src/Tagger/Pipeline/Tests.antt =====
-- A tagger with two kinds, two topics and a model that finds three spans; scores in thousandths.
use k_engram.Prelude.{ℕ, [], ◌∷◌, none, some, ◌≡◌, refl, ok, err}
use k_engram.Text.{
  Text, codes, text_eq, is_ascii_digit, is_whitespace, trim_end_matches, contains, elem, trim,
  drop_empty, split, join, trim_matches, trim_start_matches, starts_with, to_ascii_lower,
}
use k_engram.Unicode.{ascii}
use k_engram.Float.{thousandths, thousandths-IsOrdered}
use k_engram.Sorting.{sort, insert}
use k_engram.Dedupe.{dedupe, dedupe_from, keep}
use k_engram.Core.Failure.{t_misconfigured}
use k_engram.Core.Tags.{task, idea, default_tags}
use k_engram.Mcp.Drain.{TagOutput}
use k_engram.Tagger.Kind.{classify_kind, best_kind, cosine_similarity, dot}
use k_engram.Tagger.Topics.{classify_topics, top_topics}
use k_engram.Tagger.Names.{
  ner_output, filter_person_in_product, is_compound, strip_trailing_year, before_year, is_year,
  dates_of,
}
use k_engram.Tagger.Pipeline.{
  Patterns, DeterministicTagger, tag, clean_for_ner, title_case_line, missing_model,
}
use k_engram.Tagger.Pipeline.Output.{IsTagged, tag-IsTagged}

abbrev no_mismatch : ℕ → ℕ → Text
no_mismatch expected got = []

abbrev patterns : Patterns
patterns = record {
  replace_quoted = λ s. s;
  replace_parenthesized = λ s. s;
  replace_inline = λ s. s;
  replace_headings = λ f s. s;
  find_dates = λ s. (codes "2026-05-22" ∷ []) ∷ (codes "2026" ∷ codes "2026" ∷ []) ∷ [];
}

abbrev tagger : DeterministicTagger ascii thousandths no_mismatch
tagger = record {
  kind_threshold = 550;
  topic_threshold_default = 450;
  embed = λ texts. ok ((1000 ∷ []) ∷ []);
  taxonomy =
      record { label = codes "cooking"; description_vector = 0 ∷ []; threshold = none }
      ∷ record { label = codes "rust"; description_vector = 1000 ∷ []; threshold = some 600 }
      ∷ [];
  kind_prototypes = (idea, 0 ∷ []) ∷ (task, 1000 ∷ []) ∷ [];
  gliner = some (λ text. ok (
      (codes "person", codes "Semon 1904")
      ∷ (codes "person", codes "Claude")
      ∷ (codes "product", codes "Claude Desktop")
      ∷ []));
}

abbrev output : TagOutput
output = record {
  tags = record default_tags {
    kind = some task;
    people = codes "Semon" ∷ [];
    topics = codes "rust" ∷ [];
    dates_mentioned = codes "2026-05-22" ∷ codes "2026" ∷ [];
  };
  relations = [];
}

tagged : tag ascii thousandths no_mismatch patterns tagger (codes "note") ≡ ok output
unfolding tag clean_for_ner classify_kind best_kind cosine_similarity dot classify_topics top_topics
    sort insert ner_output filter_person_in_product is_compound strip_trailing_year before_year
    is_year dates_of dedupe dedupe_from keep text_eq is_ascii_digit is_whitespace trim_end_matches
    contains starts_with elem trim drop_empty trim_matches trim_start_matches to_ascii_lower
tagged = refl

title_case_of_a_line :
    title_case_line ascii (codes "RERANKER NOW ON SEARCH_THOUGHTS")
    ≡ codes "Reranker Now On Search_thoughts"
unfolding title_case_line split join to_ascii_lower
title_case_of_a_line = refl

without_a_model :
    tag ascii thousandths no_mismatch patterns (record tagger { gliner = none }) (codes "note")
    ≡ err (t_misconfigured (missing_model ascii thousandths no_mismatch))
unfolding tag
without_a_model = refl

-- The years that are cut off are not only those from 1900 to 2099.
other_centuries : strip_trailing_year (codes "Semon 1066") ≡ codes "Semon"
unfolding strip_trailing_year before_year is_year trim_end_matches is_whitespace is_ascii_digit
other_centuries = refl

tag-IsTagged_example :
    IsTagged thousandths thousandths-IsOrdered ascii no_mismatch patterns tagger
      (codes "note")
      output
tag-IsTagged_example =
    tag-IsTagged thousandths thousandths-IsOrdered ascii no_mismatch patterns tagger (codes "note")
      output tagged
