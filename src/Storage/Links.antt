-- ===== src/Storage/Links.antt =====
-- `fetch_related_thoughts` of crates/kengram-storage/src/lib.rs: the live edges of a thought, over
-- the tables `thought_links` and `thoughts`. A time is a number; rows of one time stand in the order
-- of the table.
pub mod Merge
pub mod Selection
pub mod Parts
use k_engram.Prelude.{
  ℕ, Bool, true, false, not, ◌&&◌, ◌||◌, List, [], ◌∷◌, ◌++◌, map, Option, none, some, Result, ok,
  err, and_then, map_err, map_some, unwrap_or, ◌==◌, ltb, is_empty, is_some, any, retain,
  if◌then◌else◌,
}
use k_engram.Text.{Text, codes, text_eq, elem}
use k_engram.Sorting.{sort}
use k_engram.Core.Label.{Scope, ScopeError, new_scope}
use k_engram.Core.Relation.{
  ThoughtId, LinkTarget, thought, RelationKind, UnknownRelationKind, as_str, from_str, LinkSource,
  UnknownLinkSource, source_from_str, LinkDirection, outbound, inbound, both,
}
use k_engram.Core.Relation.Columns.{InvalidLinkTargetShape, link_target_from_row}

pub record LinkRow : Type 0 where
  pub link_id : ℕ
  pub from_thought : ℕ
  pub relation : Text
  pub to_kind : Text
  pub to_thought : Option ThoughtId
  pub to_entity : Option Text
  pub to_person : Option Text
  pub to_url : Option Text
  pub created_at : ℕ
  pub link_source : Text
  pub note : Option Text
  pub deleted_at : Option ℕ

pub record ThoughtRow : Type 0 where
  pub thought_id : ℕ
  pub scope : Text
  pub content : Text
  pub thought_created_at : ℕ
  pub retracted_at : Option ℕ

pub data LinkReadError : Type 0 where
  unreachable : LinkReadError
  invalid_shape : InvalidLinkTargetShape → LinkReadError
  invalid_scope : ScopeError → LinkReadError
  invalid_relation : UnknownRelationKind → LinkReadError
  invalid_source : UnknownLinkSource → LinkReadError

pub record RelatedTarget : Type 0 where
  pub related_link : ℕ
  pub related_by : RelationKind
  pub direction : LinkDirection
  pub target : LinkTarget
  pub thought_scope : Option Scope
  pub thought_content : Option Text
  pub related_created_at : Option ℕ
  pub thought_retracted : Option Bool
  pub link_created_at : ℕ
  pub related_source : LinkSource
  pub related_note : Option Text

-- `ORDER BY created_at DESC`, and the same key on the rows that were read.
abbrev pub newer_row : LinkRow → LinkRow → Bool
newer_row a b = ltb b.created_at a.created_at

abbrev pub newer : RelatedTarget → RelatedTarget → Bool
newer a b = ltb b.link_created_at a.link_created_at

unfoldable pub find_thought_row : List ThoughtRow → ℕ → Option ThoughtRow
find_thought_row [] id = none
find_thought_row (t ∷ ts) id = if t.thought_id == id then some t else find_thought_row ts id

-- `cardinality(filter) = 0 OR column = ANY(filter)`.
abbrev pub passes : List Text → Text → Bool
passes filter column = is_empty filter || elem column filter

abbrev pub is_thought : Option ThoughtId → ℕ → Bool
is_thought none id = false
is_thought (some t) id = t.uuid == id

unfoldable pub is_outbound : ℕ → List Text → List Text → LinkRow → Bool
is_outbound id relations kinds row =
    (row.from_thought == id && not (is_some row.deleted_at))
    && (passes relations row.relation && passes kinds row.to_kind)

-- The inner join leaves out a row whose first thought is missing.
unfoldable pub is_inbound : List ThoughtRow → ℕ → List Text → LinkRow → Bool
is_inbound thoughts id relations row =
    (is_thought row.to_thought id && not (is_some row.deleted_at))
    && (passes relations row.relation && is_some (find_thought_row thoughts row.from_thought))

abbrev pub far_thought : List ThoughtRow → Option ThoughtId → Option ThoughtRow
far_thought thoughts none = none
far_thought thoughts (some t) = find_thought_row thoughts t.uuid

-- `r.t_scope.map(Scope::new).transpose()`.
abbrev pub scope_of : Option ThoughtRow → Result LinkReadError (Option Scope)
scope_of none = ok none
scope_of (some t) = and_then (map_err invalid_scope (new_scope t.scope)) (λ s. ok (some s))

abbrev pub related_row :
    LinkRow
    → LinkDirection
    → LinkTarget
    → Option Scope
    → Option ThoughtRow
    → RelationKind
    → LinkSource
    → RelatedTarget
related_row row dir target scope far kind source = record {
  related_link = row.link_id;
  related_by = kind;
  direction = dir;
  target = target;
  thought_scope = scope;
  thought_content = map_some (λ (t : ThoughtRow). t.content) far;
  related_created_at = map_some (λ (t : ThoughtRow). t.thought_created_at) far;
  thought_retracted = map_some (λ (t : ThoughtRow). is_some t.retracted_at) far;
  link_created_at = row.created_at;
  related_source = source;
  related_note = row.note;
}

unfoldable pub decode_outbound : List ThoughtRow → LinkRow → Result LinkReadError RelatedTarget
decode_outbound thoughts row =
    let far = far_thought thoughts row.to_thought in
    and_then
      (map_err invalid_shape
        (link_target_from_row row.to_kind row.to_thought row.to_entity row.to_person row.to_url))
      (λ target. and_then (scope_of far) (λ scope.
        and_then (map_err invalid_relation (from_str row.relation)) (λ kind.
          and_then (map_err invalid_source (source_from_str row.link_source))
            (λ source. ok (related_row row outbound target scope far kind source)))))

unfoldable pub decode_inbound : List ThoughtRow → LinkRow → Result LinkReadError RelatedTarget
decode_inbound thoughts row =
    let near = find_thought_row thoughts row.from_thought in
    and_then (map_err invalid_relation (from_str row.relation)) (λ kind.
      and_then (scope_of near) (λ scope.
        and_then (map_err invalid_source (source_from_str row.link_source)) (λ source. ok (
          related_row row inbound (thought (record { uuid = row.from_thought })) scope near kind
            source))))

-- The loop over the rows with its `?`.
unfoldable pub decode_all :
    (LinkRow → Result LinkReadError RelatedTarget)
    → List LinkRow
    → Result LinkReadError (List RelatedTarget)
decode_all decode [] = ok []
decode_all decode (row ∷ rows) =
    and_then (decode row) (λ r. and_then (decode_all decode rows) (λ rs. ok (r ∷ rs)))

abbrev pub goes_out : LinkDirection → Bool
goes_out inbound = false
goes_out _ = true

abbrev pub comes_in : LinkDirection → Bool
comes_in outbound = false
comes_in _ = true

module _ (links : List LinkRow) (thoughts : List ThoughtRow) where
  unfoldable pub outbound_targets :
      ℕ → List Text → List Text → Result LinkReadError (List RelatedTarget)
  outbound_targets id relations kinds =
      decode_all (decode_outbound thoughts)
        (sort newer_row (retain (is_outbound id relations kinds) links))

  unfoldable pub inbound_targets : ℕ → List Text → Result LinkReadError (List RelatedTarget)
  inbound_targets id relations =
      decode_all (decode_inbound thoughts)
        (sort newer_row (retain (is_inbound thoughts id relations) links))

  abbrev pub outbound_part :
      Bool → ℕ → List Text → List Text → LinkDirection → Result LinkReadError (List RelatedTarget)
  outbound_part reached id relations kinds dir =
      if goes_out dir
      then (if reached then outbound_targets id relations kinds else err unreachable)
      else ok []

  abbrev pub inbound_part :
      Bool → ℕ → List Text → List Text → LinkDirection → Result LinkReadError (List RelatedTarget)
  inbound_part reached id relations kinds dir =
      if comes_in dir && (is_empty kinds || elem (codes "thought") kinds)
      then (if reached then inbound_targets id relations else err unreachable)
      else ok []

  abbrev pub merged : LinkDirection → List RelatedTarget → List RelatedTarget
  merged both rows = sort newer rows
  merged _ rows = rows

  -- `reached` says which of the two statements reach the database.
  unfoldable pub fetch_related_thoughts :
      Bool × Bool
      → ℕ
      → Option (List RelationKind)
      → Option (List Text)
      → LinkDirection
      → Result LinkReadError (List RelatedTarget)
  fetch_related_thoughts reached id relations kinds dir =
      let relation_filter = map as_str (unwrap_or relations []) in
      let kind_filter = unwrap_or kinds [] in
      and_then (outbound_part reached.0 id relation_filter kind_filter dir) (λ out.
        and_then (inbound_part reached.1 id relation_filter kind_filter dir)
          (λ inb. ok (merged dir (out ++ inb))))
