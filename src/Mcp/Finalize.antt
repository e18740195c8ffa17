-- ===== src/Mcp/Finalize.antt =====
-- The deterministic pipeline behind every tagger: crates/kengram-mcp/src/finalize.rs, with
-- crates/kengram-mcp/src/validate.rs and crates/kengram-mcp/src/filters.rs.
pub mod Steps
pub mod Kept
pub mod Tests
use k_engram.Prelude.{
  Bool, true, false, ◌||◌, not, List, [], ◌∷◌, ◌++◌, map, Option, none, some, if◌then◌else◌,
  is_empty, retain,
}
use k_engram.Text.{Text, codes, elem, trim}
use k_engram.Unicode.{Unicode}
use k_engram.Float.{Float}
use k_engram.Core.Json.{Value, get, str_of}
use k_engram.Core.Label.{Scope}
use k_engram.Core.Tags.{
  Tags, ScopeVocab, TagKind, normalize_routing_fields, apply_metadata_domain_override,
}
use k_engram.Mcp.Normalize.{normalize_topics}

-- `RELATIONSHIP_NOUNS`.
abbrev pub relationship_nouns : List Text
relationship_nouns =
    codes "buddy"
    ∷ codes "friend"
    ∷ codes "colleague"
    ∷ codes "coworker"
    ∷ codes "co-worker"
    ∷ codes "partner"
    ∷ codes "boss"
    ∷ codes "kid"
    ∷ codes "kids"
    ∷ codes "parent"
    ∷ codes "parents"
    ∷ codes "roommate"
    ∷ codes "teammate"
    ∷ codes "neighbor"
    ∷ codes "neighbour"
    ∷ codes "spouse"
    ∷ codes "sibling"
    ∷ codes "manager"
    ∷ codes "mentor"
    ∷ codes "mentee"
    ∷ []

-- The texts whose lowercase form is not in a set.
abbrev pub without : Unicode → List Text → List Text → List Text
without u set ts = retain (λ t. not (elem (u.to_lowercase t) set)) ts

unfoldable pub enforce_people_entities_disjoint : Unicode → Tags → Tags
enforce_people_entities_disjoint u tags =
    if is_empty tags.people || is_empty tags.entities
    then tags
    else record tags { entities = without u (map u.to_lowercase tags.people) tags.entities }

-- The set of scopes, in lowercase.
abbrev pub scope_set : Unicode → Scope → List Text → List Text
scope_set u own_scope known_scopes = u.to_lowercase own_scope.text ∷ map u.to_lowercase known_scopes

unfoldable pub strip_scope_identifiers : Unicode → Tags → Scope → List Text → Tags
strip_scope_identifiers u tags own_scope known_scopes = record tags {
  entities = without u (scope_set u own_scope known_scopes) tags.entities;
  people = without u (scope_set u own_scope known_scopes) tags.people;
}

unfoldable pub strip_relationship_nouns : Unicode → Tags → Tags
strip_relationship_nouns u tags = record tags { people = without u relationship_nouns tags.people }

abbrev pub is_filled : Option Text → Bool
is_filled none = false
is_filled (some s) = not (is_empty (trim s))

unfoldable pub apply_decision_type_override : Tags → Value → Tags
apply_decision_type_override tags metadata =
    if is_filled (str_of (get metadata (codes "decision_type")))
    then record tags { kind = some TagKind.decision_record }
    else tags

module _ (fl : Float) (u : Unicode) where
  -- The first step, where the vocabulary has topics.
  unfoldable pub normalize_against : Option ScopeVocab → Tags → Tags
  normalize_against none tags = tags
  normalize_against (some v) tags =
      if is_empty v.topics
      then tags
      else record tags { topics = normalize_topics fl u tags.topics v.topics }

  unfoldable pub finalize_tags : Tags → Value → Scope → Option ScopeVocab → List Text → Tags
  finalize_tags tags metadata own_scope vocab known_scopes =
      let topics_done = normalize_against vocab tags in
      let disjoint = enforce_people_entities_disjoint u topics_done in
      let scopes_done = strip_scope_identifiers u disjoint own_scope known_scopes in
      let nouns_done = strip_relationship_nouns u scopes_done in
      let kind_done = apply_decision_type_override nouns_done metadata in
      apply_metadata_domain_override u (normalize_routing_fields u kind_done) metadata
