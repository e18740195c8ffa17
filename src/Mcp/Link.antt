-- ===== src/Mcp/Link.antt =====
-- crates/kengram-mcp/src/link.rs: the checked creation and removal of an agent's links. The
-- serialized mutation runs in the database, so it is an argument: from an operation to the JSON
-- document of its result, or an error.
pub mod Operations
pub mod Checks
pub mod Create
pub mod Tests
use k_engram.Prelude.{
  ℕ, Bool, false, ◌&&◌, ◌||◌, not, Option, none, some, ◌==◌, ltb, leb, if◌then◌else◌, is_empty, all,
  Result, ok, err,
}
use k_engram.Text.{Text, codes, byte_len, trim, starts_with}
use k_engram.Core.Json.{Value}
use k_engram.Core.Relation.{RelationKind, ThoughtId, LinkTarget, thought, entity, person, url}

abbrev pub max_link_note_len : ℕ
max_link_note_len = 1000

abbrev pub max_target_name_len : ℕ
max_target_name_len = 200

abbrev pub max_target_url_len : ℕ
max_target_url_len = 2048

pub record RelationSourceEventRequest : Type 0 where
  pub namespace : Text
  pub source_ref : Text
  pub payload_hash : Text
  pub event_metadata : Value

pub record LinkThoughtsRequest : Type 0 where
  pub from_thought_id : ThoughtId
  pub relation : RelationKind
  pub target : LinkTarget
  pub note : Option Text
  pub source_event : RelationSourceEventRequest
  pub claimed_producer_class : Option Text

pub record LinkThoughtsResponse : Type 0 where
  pub link_id : ℕ
  pub linked_from : ThoughtId
  pub linked_by : RelationKind
  pub linked_to : LinkTarget
  pub is_new : Bool

pub data UnlinkStatus : Type 0 where
  deleted_now already_deleted never_existed : UnlinkStatus

pub data RetractedEndpointSide : Type 0 where
  side_from side_to side_unknown : RetractedEndpointSide

pub record EndpointRetractedDetail : Type 0 where
  pub id : ThoughtId
  pub by_relation : Option RelationKind
  pub side : RetractedEndpointSide

-- Of the storage errors only the message of a database error is looked at.
pub data StorageError : Type 0 where
  database : Text → StorageError
  protocol : Text → StorageError
  other_storage : Text → StorageError

pub data LinkError : Type 0 where
  self_link : LinkError
  from_thought_missing to_thought_missing : ThoughtId → LinkError
  endpoint_retracted : EndpointRetractedDetail → LinkError
  note_too_long : ℕ → ℕ → LinkError
  empty_target_name : LinkError
  target_name_too_long target_url_too_long : ℕ → ℕ → LinkError
  invalid_url : LinkError
  storage : StorageError → LinkError
  invalid_source_event : Text → LinkError
  source_event_conflict : LinkError

-- The answer of a check.
abbrev pub Checked : Type 0
Checked = Result {0, 0} LinkError Unit

-- One operation for the serialized mutation, with its request identity.
pub record Operation : Type 0 where
  pub action : Text
  pub op_from : ThoughtId
  pub op_relation : Text
  pub to_kind : Text
  pub to_value : Text
  pub op_source : Text
  pub op_note : Option Text
  pub event : RelationSourceEventRequest
  pub op_class : Option Text

-- One byte of a lowercase hexadecimal number. A character outside ASCII is made of bytes above 127,
-- so the test on bytes is one on characters.
unfoldable pub is_lower_hex : ℕ → Bool
is_lower_hex b = (leb b'0' b && leb b b'9') || (leb b'a' b && leb b b'f')

unfoldable pub is_sha256_payload_hash : Text → Bool
is_sha256_payload_hash s = byte_len s == 64 && all is_lower_hex s

unfoldable pub validate_source_event : RelationSourceEventRequest → Checked
validate_source_event event =
    if is_empty (trim event.namespace)
    then err (invalid_source_event (codes "namespace is required"))
    else if is_empty (trim event.source_ref)
    then err (invalid_source_event (codes "source_ref is required"))
    else if is_empty (trim event.payload_hash)
    then err (invalid_source_event (codes "payload_hash is required"))
    else if not (is_sha256_payload_hash event.payload_hash)
    then err
        (invalid_source_event (codes "payload_hash must be 64 lowercase hex characters (SHA-256)"))
    else ok tt

-- The branch of `validate_target` for an entity and for a person.
unfoldable pub validate_name : Text → Checked
validate_name name =
    if is_empty (trim name)
    then err empty_target_name
    else if ltb max_target_name_len (byte_len name)
    then err (target_name_too_long (byte_len name) max_target_name_len)
    else ok tt

unfoldable pub validate_target : LinkTarget → Checked
validate_target (thought id) = ok tt
validate_target (entity name) = validate_name name
validate_target (person name) = validate_name name
validate_target (url u) =
    if ltb max_target_url_len (byte_len u)
    then err (target_url_too_long (byte_len u) max_target_url_len)
    else if not (starts_with (codes "http://") u) && not (starts_with (codes "https://") u)
    then err invalid_url
    else ok tt

abbrev pub is_target : LinkTarget → ThoughtId → Bool
is_target (thought to) id = to.uuid == id.uuid
is_target _ id = false

unfoldable pub validate_note : Option Text → Checked
validate_note none = ok tt
validate_note (some note) =
    if ltb max_link_note_len (byte_len note)
    then err (note_too_long (byte_len note) max_link_note_len)
    else ok tt

unfoldable pub enrich_endpoint_retracted_parts :
    LinkError → ThoughtId → RelationKind → LinkTarget → LinkError
enrich_endpoint_retracted_parts (endpoint_retracted detail) from relation target =
    endpoint_retracted (record detail {
      by_relation = some relation;
      side =
          if detail.id.uuid == from.uuid
          then side_from
          else if is_target target detail.id
          then side_to
          else side_unknown;
    })
enrich_endpoint_retracted_parts other from relation target = other
