-- ===== src/Mcp/Relate.antt =====
-- crates/kengram-mcp/src/relate.rs: the traversal of the link graph from one thought, over
-- `fetch_related_thoughts` of Storage/Links.
pub mod Preview
pub mod Entries
pub mod Loop
pub mod Grouped
pub mod Tests
use k_engram.Prelude.{
  ℕ, zero, suc, ◌-◌, Bool, true, false, not, ◌&&◌, ◌||◌, List, [], ◌∷◌, ◌++◌, Option, none, some,
  Result, ok, err, map_some, is_some, ◌==◌, ltb, leb, if◌then◌else◌,
}
use k_engram.Text.{Text, codes, text_eq, len_utf8, byte_len}
use k_engram.Core.Label.{Scope}
use k_engram.Core.Relation.{
  ThoughtId, LinkTarget, RelationKind, LinkSource, LinkDirection, outbound, inbound, both,
}
use k_engram.Storage.Links.{
  LinkRow, ThoughtRow, LinkReadError, unreachable, RelatedTarget, find_thought_row,
  fetch_related_thoughts,
}

abbrev pub related_content_preview_len : ℕ
related_content_preview_len = 400

pub record GetRelatedThoughtsRequest : Type 0 where
  pub asked_id : ThoughtId
  pub relations : Option (List RelationKind)
  pub target_kinds : Option (List Text)
  pub asked_direction : LinkDirection

pub record RelatedTargetHit : Type 0 where
  pub hit_link : ℕ
  pub hit_relation : RelationKind
  pub hit_target : LinkTarget
  pub hit_scope : Option Scope
  pub content_preview : Option Text
  pub content_truncated : Option Bool
  pub hit_thought_created_at : Option ℕ
  pub hit_link_created_at : ℕ
  pub hit_source : LinkSource
  pub hit_note : Option Text
  pub hit_retracted : Option Bool

pub record GetRelatedThoughtsResponse : Type 0 where
  pub thought_id : ThoughtId
  pub outbound_hits : List RelatedTargetHit
  pub inbound_hits : List RelatedTargetHit

pub data RelateError : Type 0 where
  thought_not_found : ThoughtId → RelateError
  unknown_target_kind : Text → RelateError
  storage : LinkReadError → RelateError

-- `str::is_char_boundary`.
unfoldable pub is_char_boundary : Text → ℕ → Bool
is_char_boundary [] n = n == 0
is_char_boundary (c ∷ s) n = n == 0 || (leb (len_utf8 c) n && is_char_boundary s (n - len_utf8 c))

-- The `while` loop from `end` down.
unfoldable pub back_to_boundary : Text → ℕ → ℕ
back_to_boundary content zero = zero
back_to_boundary content (suc n) =
    let lower = back_to_boundary content n in
    if is_char_boundary content (suc n) then suc n else lower

-- `content[..end]`; none is the panic inside a character or behind the end.
unfoldable pub prefix_bytes : ℕ → Text → Option Text
prefix_bytes n [] = if n == 0 then some [] else none
prefix_bytes n (c ∷ s) =
    let rest = map_some (λ t. c ∷ t) (prefix_bytes (n - len_utf8 c) s) in
    if n == 0 then some [] else if leb (len_utf8 c) n then rest else none

-- The preview and whether it is cut; the outer none is the panic.
unfoldable pub preview_of : Option Text → Option (Option Text × Option Bool)
preview_of none = some (none, none)
preview_of (some content) =
    if ltb related_content_preview_len (byte_len content)
    then map_some (λ p. (some p, some true))
        (prefix_bytes (back_to_boundary content related_content_preview_len) content)
    else some (some content, some false)

abbrev pub hit_with : RelatedTarget → Option Text × Option Bool → RelatedTargetHit
hit_with r (preview, truncated) = record {
  hit_link = r.related_link;
  hit_relation = r.related_by;
  hit_target = r.target;
  hit_scope = r.thought_scope;
  content_preview = preview;
  content_truncated = truncated;
  hit_thought_created_at = r.related_created_at;
  hit_link_created_at = r.link_created_at;
  hit_source = r.related_source;
  hit_note = r.related_note;
  hit_retracted = r.thought_retracted;
}

unfoldable pub hit_of : RelatedTarget → Option RelatedTargetHit
hit_of r = map_some (hit_with r) (preview_of r.thought_content)

abbrev pub Hits : Type 0
Hits = List RelatedTargetHit

-- A row of both directions, which storage never gives out, counts as outbound.
abbrev pub push_hit : LinkDirection → RelatedTargetHit → Hits × Hits → Hits × Hits
push_hit inbound hit (outs, ins) = (outs, ins ++ (hit ∷ []))
push_hit outbound hit (outs, ins) = (outs ++ (hit ∷ []), ins)
push_hit both hit (outs, ins) = (outs ++ (hit ∷ []), ins)

abbrev pub with_hit :
    Option RelatedTargetHit → (RelatedTargetHit → Option (Hits × Hits)) → Option (Hits × Hits)
with_hit none go_on = none
with_hit (some hit) go_on = go_on hit

-- The loop over the rows.
unfoldable pub group_rows : List RelatedTarget → Hits × Hits → Option (Hits × Hits)
group_rows [] groups = some groups
group_rows (r ∷ rows) groups =
    with_hit (hit_of r) (λ hit. group_rows rows (push_hit r.direction hit groups))

unfoldable pub is_target_kind : Text → Bool
is_target_kind k =
    text_eq k (codes "thought")
    || text_eq k (codes "entity")
    || text_eq k (codes "person")
    || text_eq k (codes "url")

-- The first unknown kind.
unfoldable pub unknown_kind : List Text → Option Text
unknown_kind [] = none
unknown_kind (k ∷ ks) = if not (is_target_kind k) then some k else unknown_kind ks

abbrev pub unknown_kind_of : Option (List Text) → Option Text
unknown_kind_of none = none
unknown_kind_of (some ks) = unknown_kind ks

abbrev pub grouped :
    ThoughtId → Option (Hits × Hits) → Option (Result RelateError GetRelatedThoughtsResponse)
grouped id none = none
grouped id (some (outs, ins)) =
    some (ok (record { thought_id = id; outbound_hits = outs; inbound_hits = ins }))

abbrev pub with_rows :
    ThoughtId
    → Result LinkReadError (List RelatedTarget)
    → Option (Result RelateError GetRelatedThoughtsResponse)
with_rows id (err e) = some (err (storage e))
with_rows id (ok rows) = grouped id (group_rows rows ([], []))

abbrev pub checked_kinds :
    Option Text
    → Option (Result RelateError GetRelatedThoughtsResponse)
    → Option (Result RelateError GetRelatedThoughtsResponse)
checked_kinds (some k) rest = some (err (unknown_target_kind k))
checked_kinds none rest = rest

-- `found` says whether the read of the thought reaches the database, `reached` those of the links.
unfoldable pub get_related_thoughts :
    List LinkRow
    → List ThoughtRow
    → Bool
    → Bool × Bool
    → GetRelatedThoughtsRequest
    → Option (Result RelateError GetRelatedThoughtsResponse)
get_related_thoughts links thoughts found reached request =
    if not found
    then some (err (storage unreachable))
    else if not (is_some (find_thought_row thoughts request.asked_id.uuid))
    then some (err (thought_not_found request.asked_id))
    else checked_kinds (unknown_kind_of request.target_kinds) (
        with_rows request.asked_id (
          fetch_related_thoughts links thoughts reached request.asked_id.uuid request.relations
            request.target_kinds request.asked_direction))
