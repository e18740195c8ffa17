-- ===== src/Mcp/Link/Checks.antt =====
-- What the checks of crates/kengram-mcp/src/link.rs let through.
use k_engram.Prelude.{
  ℕ, ◌≤◌, true, false, some, [], ◌∷◌, ◌≡◌, ◌≢◌, refl, ◌↔◌, ◌⊎◌, arith, ◌==◌, if◌then◌else◌,
  is_empty, all, All, length, ok,
}
use k_engram.Text.{Text, codes, byte_len, len_utf8, trim, starts_with}
use k_engram.Core.Relation.{LinkTarget, thought, entity, person, url, ThoughtId, RelationKind}
use k_engram.Mcp.Link.{
  max_target_name_len, max_target_url_len, is_lower_hex, is_sha256_payload_hash, validate_name,
  validate_target, RelationSourceEventRequest, validate_source_event, EndpointRetractedDetail,
  endpoint_retracted, enrich_endpoint_retracted_parts, side_from, side_to, side_unknown, is_target,
}

-- A digit or one of the letters a to f.
abbrev pub IsLowerHex : ℕ → Type 0
IsLowerHex c = ((b'0' ≤ c) × (c ≤ b'9')) ⊎ ((b'a' ≤ c) × (c ≤ b'f'))

is_lower_hex_iff : (c : ℕ) → (is_lower_hex c ≡ true) ↔ IsLowerHex c
unfolding is_lower_hex
is_lower_hex_iff c = ground arith

all-All : (s : Text) → (all is_lower_hex s ≡ true) ↔ All IsLowerHex s
all-All [] = ground arith
all-All (c ∷ s) = ground (arith, all-All s, is_lower_hex_iff c)

byte_len_hex : (s : Text) → All IsLowerHex s → byte_len s ≡ length s
unfolding byte_len len_utf8
byte_len_hex [] h = refl
byte_len_hex (c ∷ s) h = ground (arith, byte_len_hex s h.1, h.0)

-- A payload hash is accepted exactly if it is 64 characters long and each is a lowercase
-- hexadecimal digit, although the source counts bytes.
pub is_sha256_payload_hash_iff :
    (s : Text) → (is_sha256_payload_hash s ≡ true) ↔ ((length s ≡ 64) × All IsLowerHex s)
unfolding is_sha256_payload_hash
is_sha256_payload_hash_iff s = (
  λ h.
      let hex : All IsLowerHex s = (all-All s).0 (ground arith) in
      (ground (arith, byte_len_hex s hex), hex),
  λ h. ground (arith, byte_len_hex s h.1, (all-All s).1 h.1),
)

abbrev pub IsName : Text → Type 0
IsName name = (is_empty (trim name) ≡ false) × (byte_len name ≤ max_target_name_len)

-- The targets that a link may have.
abbrev pub IsLinkable : LinkTarget → Type 0
IsLinkable (thought id) = Unit
IsLinkable (entity name) = IsName name
IsLinkable (person name) = IsName name
IsLinkable (url u) =
    (byte_len u ≤ max_target_url_len)
    × ((starts_with (codes "http://") u ≡ true) ⊎ (starts_with (codes "https://") u ≡ true))

validate_name_iff : (name : Text) → (validate_name name ≡ ok tt) ↔ IsName name
unfolding validate_name
validate_name_iff name = ground arith

-- A target is accepted exactly if it is a thought, a name of an entity or a person that is not blank
-- and has at most 200 bytes, or an http or https URL of at most 2048 bytes.
pub validate_target_iff : (t : LinkTarget) → (validate_target t ≡ ok tt) ↔ IsLinkable t
unfolding validate_target
validate_target_iff (thought id) = (λ e. tt, λ h. refl)
validate_target_iff (entity name) = validate_name_iff name
validate_target_iff (person name) = validate_name_iff name
validate_target_iff (url u) = ground arith

-- A source event is accepted exactly if its namespace and reference are not blank and its payload
-- hash is one.
pub validate_source_event_iff :
    (event : RelationSourceEventRequest)
    → (validate_source_event event ≡ ok tt) ↔ (
        (is_empty (trim event.namespace) ≡ false)
        × (is_empty (trim event.source_ref) ≡ false)
        × (is_empty (trim event.payload_hash) ≡ false)
        × (length event.payload_hash ≡ 64)
        × All IsLowerHex event.payload_hash)
unfolding validate_source_event
validate_source_event_iff event =
    let hash = is_sha256_payload_hash_iff event.payload_hash in ground arith

-- A retraction error for the caller names the relation of the request, and the side on which the
-- retracted thought stands: from, if it is the link's own thought; otherwise to, if it is the
-- target; otherwise unknown.
pub enrich_endpoint_retracted_parts_lem :
    (detail : EndpointRetractedDetail) (from : ThoughtId) (relation : RelationKind)
    (target : LinkTarget)
    → (seen : EndpointRetractedDetail) × (enrich_endpoint_retracted_parts
          (endpoint_retracted detail)
          from
          relation
          target
        ≡ endpoint_retracted seen)
      × (seen.id ≡ detail.id)
      × (seen.by_relation ≡ some relation)
      × ((seen.side ≡ side_from) ↔ (detail.id.uuid ≡ from.uuid))
      × ((seen.side ≡ side_to)
          ↔ ((detail.id.uuid ≢ from.uuid) × (is_target target detail.id ≡ true)))
unfolding enrich_endpoint_retracted_parts
enrich_endpoint_retracted_parts_lem detail from relation target = (
  record detail {
    by_relation = some relation;
    side =
        if detail.id.uuid == from.uuid
        then side_from
        else if is_target target detail.id
        then side_to
        else side_unknown;
  },
  refl,
  refl,
  refl,
  ground arith,
  ground arith,
)
