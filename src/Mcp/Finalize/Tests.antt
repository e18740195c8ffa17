-- ===== src/Mcp/Finalize/Tests.antt =====
-- The pipeline on the tags of one thought.
use k_engram.Prelude.{◌≤◌, false, [], ◌∷◌, map, none, some, ◌≡◌, ◌≢◌, refl, inl, length, In}
use k_engram.Text.{Text, codes, elem, text_eq, to_ascii_lower}
use k_engram.Unicode.{ascii}
use k_engram.Float.{thousandths}
use k_engram.Dedupe.{Unique}
use k_engram.Core.Json.{null, get}
use k_engram.Core.Label.{Scope}
use k_engram.Core.Tags.{
  Tags, normalize_routing_fields, apply_metadata_domain_override, max_retrieval_aliases, first_slug,
  metadata_str,
}
use k_engram.Core.Tags.Domain.{IsDomain}
use k_engram.Mcp.Finalize.{
  finalize_tags, scope_set, relationship_nouns, normalize_against, enforce_people_entities_disjoint,
  strip_scope_identifiers, strip_relationship_nouns, apply_decision_type_override,
}
use k_engram.Mcp.Finalize.Kept.{finalize_tags-people, finalize_tags-entities, finalize_tags-routing}

abbrev raw : Tags
raw = record {
  people = codes "Ron" ∷ codes "buddy" ∷ [];
  entities = codes "ron" ∷ codes "home" ∷ codes "pgvector" ∷ [];
  retrieval_aliases = [];
  domain_scope = none;
  action_items = [];
  topics = [];
  dates_mentioned = [];
  kind = none;
}

abbrev home : Scope
home = record { text = codes "home" }

abbrev clean : Tags
clean = finalize_tags thousandths ascii raw null home none []

clean_names : (clean.people ≡ codes "Ron" ∷ []) × (clean.entities ≡ codes "pgvector" ∷ [])
unfolding finalize_tags normalize_against enforce_people_entities_disjoint strip_scope_identifiers
    strip_relationship_nouns apply_decision_type_override normalize_routing_fields
    apply_metadata_domain_override first_slug metadata_str get elem text_eq to_ascii_lower
clean_names = (refl, refl)

finalize_tags-people_example :
    In (codes "Ron") raw.people
    × (elem (map to_ascii_lower (codes "Ron")) (scope_set ascii home []) ≡ false)
    × (elem (map to_ascii_lower (codes "Ron")) relationship_nouns ≡ false)
unfolding finalize_tags normalize_against enforce_people_entities_disjoint strip_scope_identifiers
    strip_relationship_nouns apply_decision_type_override normalize_routing_fields
    apply_metadata_domain_override first_slug metadata_str get elem text_eq to_ascii_lower
finalize_tags-people_example =
    finalize_tags-people thousandths ascii raw null home none [] (codes "Ron") (inl refl)

finalize_tags-entities_example :
    In (codes "pgvector") raw.entities
    × (elem (map to_ascii_lower (codes "pgvector")) (scope_set ascii home []) ≡ false)
    × ((p : Text)
        → In p clean.people
        → map to_ascii_lower (codes "pgvector") ≢ map to_ascii_lower p)
unfolding finalize_tags normalize_against enforce_people_entities_disjoint strip_scope_identifiers
    strip_relationship_nouns apply_decision_type_override normalize_routing_fields
    apply_metadata_domain_override first_slug metadata_str get elem text_eq to_ascii_lower
finalize_tags-entities_example =
    finalize_tags-entities thousandths ascii raw null home none [] (codes "pgvector") (inl refl)

finalize_tags-routing_example :
    ((d : Text) → clean.domain_scope ≡ some d → IsDomain d)
    × (length clean.retrieval_aliases ≤ max_retrieval_aliases)
    × Unique (map (map to_ascii_lower) clean.retrieval_aliases)
finalize_tags-routing_example = finalize_tags-routing thousandths ascii raw null home none []
