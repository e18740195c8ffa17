-- ===== src/Mcp/Filter/Tests.antt =====
-- Filters of the source's own tests, on the tags of one thought.
use k_engram.Prelude.{true, false, List, [], ◌∷◌, none, some, ◌≡◌, refl, ◌↔◌, All, In}
use k_engram.Text.{Text, codes, text_eq}
use k_engram.Core.Json.{Value, array, object, string, end, field, get_field}
use k_engram.Core.Tags.{Tags, idea}
use k_engram.Mcp.Filter.{
  scalar_eq, any_item, json_contains, texts_value, tags_value, tags_match_filter,
}
use k_engram.Mcp.Filter.Texts.{people_and_topics, tags_match_filter_iff}

abbrev two_people : Tags
two_people = record {
  people = codes "Sarah" ∷ codes "Ron" ∷ [];
  entities = [];
  retrieval_aliases = [];
  domain_scope = none;
  action_items = [];
  topics = codes "rust" ∷ [];
  dates_mentioned = [];
  kind = some idea;
}

abbrev of_kind : Text → Value
of_kind kind = object (field (codes "kind") (string kind) end)

abbrev of_people : List Text → Value
of_people people = object (field (codes "people") (array (texts_value people)) end)

of_kind_idea : tags_match_filter two_people (of_kind (codes "idea")) ≡ true
unfolding tags_match_filter tags_value json_contains scalar_eq get_field text_eq
of_kind_idea = refl

of_kind_task : tags_match_filter two_people (of_kind (codes "task")) ≡ false
unfolding tags_match_filter tags_value json_contains scalar_eq get_field text_eq
of_kind_task = refl

of_people_alex : tags_match_filter two_people (of_people (codes "Alex" ∷ [])) ≡ false
unfolding tags_match_filter tags_value json_contains any_item scalar_eq get_field text_eq
of_people_alex = refl

empty_filter : tags_match_filter two_people (object end) ≡ true
unfolding tags_match_filter tags_value json_contains
empty_filter = refl

narrow_contains :
    json_contains (of_people (codes "Ron" ∷ codes "Sarah" ∷ [])) (of_people (codes "Sarah" ∷ []))
    ≡ true
unfolding json_contains any_item scalar_eq get_field text_eq
narrow_contains = refl

narrow_matches : tags_match_filter two_people (of_people (codes "Ron" ∷ codes "Sarah" ∷ [])) ≡ true
unfolding tags_match_filter tags_value json_contains any_item scalar_eq get_field text_eq
narrow_matches = refl

tags_match_filter_iff_example :
    (tags_match_filter two_people (people_and_topics (codes "Ron" ∷ []) (codes "rust" ∷ [])) ≡ true)
    ↔ (All (λ p. In p two_people.people) (codes "Ron" ∷ [])
        × All (λ t. In t two_people.topics) (codes "rust" ∷ []))
tags_match_filter_iff_example =
    tags_match_filter_iff two_people (codes "Ron" ∷ []) (codes "rust" ∷ [])
