-- ===== src/Core/Tags.antt =====
-- crates/kengram-core/src/tags.rs: the tags of a thought and the cleaning of their routing fields.
pub mod Aliases
pub mod Slug
pub mod Domain
pub mod Tests
use k_engram.Prelude.{
  ℕ, Bool, true, false, ◌&&◌, ◌||◌, not, List, [], ◌∷◌, ◌++◌, map, Option, none, some, ◌==◌, ltb,
  leb, if◌then◌else◌, is_empty, any, filter_map,
}
use k_engram.Text.{
  Text, codes, text_eq, byte_len, trim, trim_matches, trim_end_matches, split_whitespace, join,
  starts_with, ends_with, contains, to_ascii_lowercase, is_ascii_alphanumeric, elem,
}
use k_engram.Unicode.{Unicode}
use k_engram.Dedupe.{dedupe}
use k_engram.Core.Json.{Value, get, str_of}

abbrev pub max_retrieval_aliases : ℕ
max_retrieval_aliases = 6

abbrev pub max_retrieval_alias_len : ℕ
max_retrieval_alias_len = 80

pub data TagKind : Type 0 where
  observation task idea reference person_note session decision_record : TagKind

pub record Tags : Type 0 where
  pub people : List Text
  pub entities : List Text
  pub retrieval_aliases : List Text
  pub domain_scope : Option Text
  pub action_items : List Text
  pub topics : List Text
  pub dates_mentioned : List Text
  pub kind : Option TagKind

-- `Tags::default()`.
abbrev pub default_tags : Tags
default_tags = record {
  people = [];
  entities = [];
  retrieval_aliases = [];
  domain_scope = none;
  action_items = [];
  topics = [];
  dates_mentioned = [];
  kind = none;
}

pub record ScopeVocab : Type 0 where
  pub topics : List Text
  pub entities : List Text

-- `ScopeVocab::is_empty`.
unfoldable pub vocab_is_empty : ScopeVocab → Bool
vocab_is_empty v = is_empty v.topics && is_empty v.entities

abbrev file_suffixes : List Text
file_suffixes =
    codes ".rs"
    ∷ codes ".ts"
    ∷ codes ".tsx"
    ∷ codes ".js"
    ∷ codes ".jsx"
    ∷ codes ".py"
    ∷ codes ".sql"
    ∷ codes ".toml"
    ∷ codes ".json"
    ∷ codes ".md"
    ∷ codes ".yaml"
    ∷ codes ".yml"
    ∷ codes ".sh"
    ∷ []

unfoldable pub looks_like_path_or_route : Text → Bool
unfolding trim starts_with contains ends_with to_ascii_lowercase
looks_like_path_or_route s =
    let trimmed = trim s in
    starts_with (codes "/") trimmed
    || starts_with (codes "./") trimmed
    || starts_with (codes "../") trimmed
    || contains (codes "/api/") trimmed
    || contains (codes "/src/") trimmed
    || contains (codes "/crates/") trimmed
    || any (λ suffix. ends_with suffix (to_ascii_lowercase trimmed)) file_suffixes

unfoldable pub normalize_retrieval_alias : Text → Option Text
normalize_retrieval_alias raw =
    let trimmed = trim raw in
    if is_empty trimmed
      || ltb max_retrieval_alias_len (byte_len trimmed)
      || looks_like_path_or_route trimmed
    then none
    else some (join (codes " ") (split_whitespace trimmed))

abbrev pub is_separator : ℕ → Bool
is_separator c = c == b'-' || c == b'_' || c == b' ' || c == b'.' || c == b'/'

-- The loop of `slugify_domain_part`.
unfoldable pub slug_loop : Text → Bool → Text → Text
slug_loop slug last_dash [] = slug
slug_loop slug last_dash (ch ∷ rest) =
    let pushed = slug_loop (slug ++ ch ∷ []) false rest in
    let dashed = slug_loop (slug ++ b'-' ∷ []) true rest in
    let skipped = slug_loop slug last_dash rest in
    if is_ascii_alphanumeric ch
    then pushed
    else if is_separator ch && not (is_empty slug) && not last_dash
    then dashed
    else skipped

abbrev pub non_empty : Text → Option Text
non_empty s = if is_empty s then none else some s

-- `metadata_str`.
unfoldable pub metadata_str : Value → Text → Option Text
unfolding get trim
metadata_str metadata key = elim (str_of (get metadata key)) [
  | none ↦ none
  | some s ↦ non_empty (trim s)
]

module _ (u : Unicode) where
  open u use {to_lowercase}

  -- The cap stops the loop as soon as it is reached.
  unfoldable pub normalize_retrieval_aliases : List Text → List Text
  normalize_retrieval_aliases aliases =
      dedupe to_lowercase (leb max_retrieval_aliases) (filter_map normalize_retrieval_alias aliases)

  abbrev infra_names : List Text
  infra_names =
      codes "argus"
      ∷ codes "kengram"
      ∷ codes "memory"
      ∷ codes "fleet"
      ∷ codes "ops"
      ∷ codes "platform"
      ∷ []

  -- The text that `normalize_domain_scope` looks at.
  unfoldable pub domain_text : Text → Text
  domain_text raw =
      trim_matches (λ c. c == b'/')
        (join (codes "-")
          (split_whitespace (map (λ c. if c == b'_' then b'-' else c) (to_lowercase (trim raw)))))

  unfoldable pub normalize_domain_scope : Text → Option Text
  normalize_domain_scope raw =
      let normalized = domain_text raw in
      if is_empty normalized
        || text_eq normalized (codes "knox")
        || starts_with (codes "agents/") normalized
        || starts_with (codes "sessions/") normalized
      then none
      else if elem normalized infra_names || starts_with (codes "infra/") normalized
      then some (codes "infra")
      else if text_eq normalized (codes "decision") || text_eq normalized (codes "decision-records")
      then some (codes "decisions")
      else if text_eq normalized (codes "decisions")
          || text_eq normalized (codes "infra")
          || starts_with (codes "apps/") normalized
          || starts_with (codes "customers/") normalized
      then some normalized
      else none

  abbrev pub and_then_domain : Option Text → Option Text
  and_then_domain none = none
  and_then_domain (some raw) = normalize_domain_scope raw

  unfoldable pub normalize_routing_fields : Tags → Tags
  normalize_routing_fields tags = record tags {
    retrieval_aliases = normalize_retrieval_aliases tags.retrieval_aliases;
    domain_scope = and_then_domain tags.domain_scope;
  }

  unfoldable pub slugify_domain_part : Text → Option Text
  slugify_domain_part raw =
      non_empty (trim_end_matches (λ c. c == b'-') (slug_loop [] false (to_lowercase (trim raw))))

  abbrev pub slug_of : Option Text → Option Text
  slug_of none = none
  slug_of (some s) = slugify_domain_part s

  -- The first of the keys whose text makes a slug.
  unfoldable pub first_slug : Value → List Text → Option Text
  first_slug metadata [] = none
  first_slug metadata (key ∷ keys) = elim (slug_of (metadata_str metadata key)) [
    | none ↦ first_slug metadata keys
    | some slug ↦ some slug
  ]

  abbrev pub customer_keys : List Text
  customer_keys = codes "customer_slug" ∷ codes "customer" ∷ codes "client" ∷ []

  -- The domain that the metadata's slugs set: the customer's before the project's.
  abbrev pub overridden : Tags → Option Text → Option Text → Tags
  overridden tags (some customer) project = record tags {
    domain_scope = some (codes "customers/" ++ customer);
  }
  overridden tags none (some project) = record tags {
    domain_scope = some (codes "apps/" ++ project);
  }
  overridden tags none none = tags

  unfoldable pub apply_metadata_domain_override : Tags → Value → Tags
  apply_metadata_domain_override tags metadata =
      overridden tags (first_slug metadata customer_keys)
        (slug_of (metadata_str metadata (codes "project")))
