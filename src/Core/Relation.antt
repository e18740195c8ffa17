-- ===== src/Core/Relation.antt =====
-- crates/kengram-core/src/relation.rs and the targets of crates/kengram-core/src/tagger.rs: the
-- closed vocabularies of the link graph and the polymorphic target of an edge.
pub mod Spelling
pub mod Columns
pub mod Tests
use k_engram.Prelude.{
  ℕ, Bool, true, false, Option, none, some, List, [], ◌∷◌, Result, ok, err, if◌then◌else◌,
}
use k_engram.Text.{Text, codes, text_eq}

pub data RelationKind : Type 0 where
  replaces requires references supports belongs_to decided_by refines : RelationKind

unfoldable pub as_str : RelationKind → Text
as_str replaces = codes "replaces"
as_str requires = codes "requires"
as_str references = codes "references"
as_str supports = codes "supports"
as_str belongs_to = codes "belongs_to"
as_str decided_by = codes "decided_by"
as_str refines = codes "refines"

-- `RelationKind::ALL`.
abbrev pub all_kinds : List RelationKind
all_kinds = replaces ∷ requires ∷ references ∷ supports ∷ belongs_to ∷ decided_by ∷ refines ∷ []

unfoldable pub allows_retracted_target : RelationKind → Bool
allows_retracted_target replaces = true
allows_retracted_target refines = true
allows_retracted_target _ = false

pub data UnknownRelationKind : Type 0 where
  unknown_relation_kind : Text → UnknownRelationKind

-- `RelationKind::from_str`.
unfoldable pub from_str : Text → Result UnknownRelationKind RelationKind
from_str s =
    if text_eq s (codes "replaces")
    then ok replaces
    else if text_eq s (codes "requires")
    then ok requires
    else if text_eq s (codes "references")
    then ok references
    else if text_eq s (codes "supports")
    then ok supports
    else if text_eq s (codes "belongs_to")
    then ok belongs_to
    else if text_eq s (codes "decided_by")
    then ok decided_by
    else if text_eq s (codes "refines")
    then ok refines
    else err (unknown_relation_kind s)

pub data LinkSource : Type 0 where
  agent tagger : LinkSource

unfoldable pub source_as_str : LinkSource → Text
source_as_str agent = codes "agent"
source_as_str tagger = codes "tagger"

pub data UnknownLinkSource : Type 0 where
  unknown_link_source : Text → UnknownLinkSource

unfoldable pub source_from_str : Text → Result UnknownLinkSource LinkSource
source_from_str s =
    if text_eq s (codes "agent")
    then ok agent
    else if text_eq s (codes "tagger")
    then ok tagger
    else err (unknown_link_source s)

pub data LinkDirection : Type 0 where
  outbound inbound both : LinkDirection

unfoldable pub direction_as_str : LinkDirection → Text
direction_as_str outbound = codes "outbound"
direction_as_str inbound = codes "inbound"
direction_as_str both = codes "both"

pub data UnknownLinkDirection : Type 0 where
  unknown_link_direction : Text → UnknownLinkDirection

unfoldable pub direction_from_str : Text → Result UnknownLinkDirection LinkDirection
direction_from_str s =
    if text_eq s (codes "outbound")
    then ok outbound
    else if text_eq s (codes "inbound")
    then ok inbound
    else if text_eq s (codes "both")
    then ok both
    else err (unknown_link_direction s)

-- A UUID is a number; a thought is known by one.
pub record ThoughtId : Type 0 where
  pub uuid : ℕ

pub data LinkTarget : Type 0 where
  thought : ThoughtId → LinkTarget
  entity : Text → LinkTarget
  person : Text → LinkTarget
  url : Text → LinkTarget

unfoldable pub kind_str : LinkTarget → Text
kind_str (thought id) = codes "thought"
kind_str (entity name) = codes "entity"
kind_str (person name) = codes "person"
kind_str (url u) = codes "url"

unfoldable pub as_thought_id : LinkTarget → Option ThoughtId
as_thought_id (thought id) = some id
as_thought_id _ = none

unfoldable pub as_entity : LinkTarget → Option Text
as_entity (entity name) = some name
as_entity _ = none

unfoldable pub as_person : LinkTarget → Option Text
as_person (person name) = some name
as_person _ = none

unfoldable pub as_url : LinkTarget → Option Text
as_url (url u) = some u
as_url _ = none

-- The target that a tagger may emit (tagger.rs): no thought.
pub data ExtractedTarget : Type 0 where
  x_entity : Text → ExtractedTarget
  x_person : Text → ExtractedTarget
  x_url : Text → ExtractedTarget

unfoldable pub into_link_target : ExtractedTarget → LinkTarget
into_link_target (x_entity name) = entity name
into_link_target (x_person name) = person name
into_link_target (x_url u) = url u

unfoldable pub extracted_kind_str : ExtractedTarget → Text
extracted_kind_str (x_entity name) = codes "entity"
extracted_kind_str (x_person name) = codes "person"
extracted_kind_str (x_url u) = codes "url"

-- The printed form of a UUID is the `uuid` crate's.
module _ (print_uuid : ℕ → Text) where
  unfoldable pub value_str : LinkTarget → Text
  value_str (thought id) = print_uuid id.uuid
  value_str (entity name) = name
  value_str (person name) = name
  value_str (url u) = u
