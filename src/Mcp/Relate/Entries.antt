-- ===== src/Mcp/Relate/Entries.antt =====
-- The hits of a traversal in crates/kengram-mcp/src/relate.rs say what their edges say.
use k_engram.Prelude.{
  Bool, ◌≡◌, refl, sym, ap, ◌∙◌, subst, inl, inr, List, [], ◌∷◌, map, Option, none, some,
  some_injective, is_some, map_some, Option-cases, Result, ok, ok_injective, arith, and_then,
  and_then_ok, map_err, map_err_ok,
}
use k_engram.Text.{Text}
use k_engram.Core.Label.{Scope, new_scope}
use k_engram.Core.Relation.{
  LinkTarget, thought, RelationKind, as_str, from_str, LinkSource, source_as_str, source_from_str,
  LinkDirection, outbound, inbound,
}
use k_engram.Core.Relation.Spelling.{from_str_iff, source_from_str_iff}
use k_engram.Core.Relation.Columns.{link_target_from_row}
use k_engram.Storage.Links.{
  LinkRow, ThoughtRow, LinkReadError, RelatedTarget, find_thought_row, far_thought, scope_of,
  related_row, invalid_shape, invalid_relation, invalid_source, invalid_scope, decode_outbound,
  decode_inbound, decode_all,
}
use k_engram.Mcp.Relate.{RelatedTargetHit, preview_of, hit_of, hit_with, Hits}

-- The hits of rows, each with its preview.
abbrev pub Shows : List RelatedTarget → Hits → Type 0
Shows rows hits = map hit_of rows ≡ map some hits

-- What a hit says of its edge and of the thought at the other end, which may be missing.
abbrev pub IsEntry : Option ThoughtRow → (LinkTarget → Type 0) → LinkRow → RelatedTargetHit → Type 0
IsEntry other IsTarget row hit =
    (hit.hit_link ≡ row.link_id)
    × (row.relation ≡ as_str hit.hit_relation)
    × IsTarget hit.hit_target
    × (hit.hit_link_created_at ≡ row.created_at)
    × (row.link_source ≡ source_as_str hit.hit_source)
    × (hit.hit_note ≡ row.note)
    × (map_some (λ (scope : Scope). scope.text) hit.hit_scope
        ≡ map_some (λ (t : ThoughtRow). t.scope) other)
    × (hit.hit_thought_created_at ≡ map_some (λ (t : ThoughtRow). t.thought_created_at) other)
    × (hit.hit_retracted ≡ map_some (λ (t : ThoughtRow). is_some t.retracted_at) other)
    × (preview_of (map_some (λ (t : ThoughtRow). t.content) other)
        ≡ some (hit.content_preview, hit.content_truncated))

-- The target is the one in the columns of the edge.
abbrev pub IsOutboundEntry : List ThoughtRow → LinkRow → RelatedTargetHit → Type 0
IsOutboundEntry thoughts row hit =
    IsEntry (far_thought thoughts row.to_thought)
      (λ target.
        link_target_from_row row.to_kind row.to_thought row.to_entity row.to_person row.to_url
        ≡ ok target)
      row hit

-- The target is the thought that the edge comes from.
abbrev pub IsInboundEntry : List ThoughtRow → LinkRow → RelatedTargetHit → Type 0
IsInboundEntry thoughts row hit =
    IsEntry (find_thought_row thoughts row.from_thought)
      (λ target. target ≡ thought (record { uuid = row.from_thought })) row hit

-- The hits stand for the edges one by one.
abbrev pub OneByOne : (LinkRow → RelatedTargetHit → Type 0) → List LinkRow → Hits → Type 0
OneByOne P [] [] = Unit
OneByOne P [] (hit ∷ hits) = ⊥
OneByOne P (row ∷ rows) [] = ⊥
OneByOne P (row ∷ rows) (hit ∷ hits) = P row hit × OneByOne P rows hits

hit_of-some :
    (r : RelatedTarget) (hit : RelatedTargetHit)
    → hit_of r ≡ some hit
    → (p : Option Text × Option Bool) × (preview_of r.thought_content ≡ some p)
      × (hit_with r p ≡ hit)
unfolding hit_of
hit_of-some r hit e = elim (Option-cases (preview_of r.thought_content)) [
  | inl panics ↦ absurd (cc (rw panics at e))
  | inr (p, made) ↦ (p, made, some_injective (rw made at e))
]

scope_of_ok :
    (other : Option ThoughtRow) (scope : Option Scope)
    → scope_of other ≡ ok scope
    → map_some (λ (s : Scope). s.text) scope ≡ map_some (λ (t : ThoughtRow). t.scope) other
unfolding new_scope
scope_of_ok none scope e = ap (map_some (λ (s : Scope). s.text)) (sym (ok_injective e))
scope_of_ok (some t) scope e =
    let (s, s_ok, e₁) = and_then_ok (map_err invalid_scope (new_scope t.scope)) _ scope e in
    let made = map_err_ok invalid_scope (new_scope t.scope) s s_ok in
    let same : s.text ≡ t.scope = ground arith in
    ap (map_some (λ (s : Scope). s.text)) (sym (ok_injective e₁)) ∙ ap some same

related_row-IsEntry :
    (row : LinkRow) (dir : LinkDirection) (target : LinkTarget) (scope : Option Scope)
    (other : Option ThoughtRow) (kind : RelationKind) (source : LinkSource)
    (IsTarget : LinkTarget → Type 0) (hit : RelatedTargetHit)
    → IsTarget target
    → from_str row.relation ≡ ok kind
    → source_from_str row.link_source ≡ ok source
    → scope_of other ≡ ok scope
    → hit_of (related_row row dir target scope other kind source) ≡ some hit
    → IsEntry other IsTarget row hit
related_row-IsEntry row dir target scope other kind source IsTarget hit there related sourced scoped
      e =
    let (p, cut, same) = hit_of-some (related_row row dir target scope other kind source) hit e in
    subst (IsEntry other IsTarget row) same (
      refl,
      (from_str_iff row.relation kind).0 related,
      there,
      refl,
      (source_from_str_iff row.link_source source).0 sourced,
      refl,
      scope_of_ok other scope scoped,
      refl,
      refl,
      cut,
    )

pub decode_outbound-IsEntry :
    (thoughts : List ThoughtRow) (row : LinkRow) (r : RelatedTarget) (hit : RelatedTargetHit)
    → decode_outbound thoughts row ≡ ok r
    → hit_of r ≡ some hit
    → IsOutboundEntry thoughts row hit
unfolding decode_outbound
decode_outbound-IsEntry thoughts row r hit e shown =
    let far = far_thought thoughts row.to_thought in
    let read =
      link_target_from_row row.to_kind row.to_thought row.to_entity row.to_person row.to_url in
    let (target, target_ok, e₁) = and_then_ok (map_err invalid_shape read) _ r e in
    let (scope, scope_ok, e₂) = and_then_ok (scope_of far) _ r e₁ in
    let (kind, kind_ok, e₃) =
      and_then_ok (map_err invalid_relation (from_str row.relation)) _ r e₂ in
    let (source, source_ok, e₄) =
      and_then_ok (map_err invalid_source (source_from_str row.link_source)) _ r e₃ in
    related_row-IsEntry row outbound target scope far kind source (λ target. read ≡ ok target) hit
      (map_err_ok invalid_shape read target target_ok)
      (map_err_ok invalid_relation (from_str row.relation) kind kind_ok)
      (map_err_ok invalid_source (source_from_str row.link_source) source source_ok) scope_ok
      (ap hit_of (ok_injective e₄) ∙ shown)

pub decode_inbound-IsEntry :
    (thoughts : List ThoughtRow) (row : LinkRow) (r : RelatedTarget) (hit : RelatedTargetHit)
    → decode_inbound thoughts row ≡ ok r
    → hit_of r ≡ some hit
    → IsInboundEntry thoughts row hit
unfolding decode_inbound
decode_inbound-IsEntry thoughts row r hit e shown =
    let near = find_thought_row thoughts row.from_thought in
    let from : LinkTarget = thought (record { uuid = row.from_thought }) in
    let (kind, kind_ok, e₁) =
      and_then_ok (map_err invalid_relation (from_str row.relation)) _ r e in
    let (scope, scope_ok, e₂) = and_then_ok (scope_of near) _ r e₁ in
    let (source, source_ok, e₃) =
      and_then_ok (map_err invalid_source (source_from_str row.link_source)) _ r e₂ in
    related_row-IsEntry row inbound from scope near kind source (λ target. target ≡ from) hit refl
      (map_err_ok invalid_relation (from_str row.relation) kind kind_ok)
      (map_err_ok invalid_source (source_from_str row.link_source) source source_ok) scope_ok
      (ap hit_of (ok_injective e₃) ∙ shown)

module _ (decode : LinkRow → Result LinkReadError RelatedTarget)
    (P : LinkRow → RelatedTargetHit → Type 0)
    (entry : (row : LinkRow) (r : RelatedTarget) (hit : RelatedTargetHit)
      → decode row ≡ ok r
      → hit_of r ≡ some hit
      → P row hit) where
  shown-OneByOne :
      (row : LinkRow) (r : RelatedTarget) (rows : List LinkRow) (rs : List RelatedTarget)
      (hits : Hits)
      → decode row ≡ ok r
      → ((hits : Hits) → Shows rs hits → OneByOne P rows hits)
      → Shows (r ∷ rs) hits
      → OneByOne P (row ∷ rows) hits
  shown-OneByOne row r rows rs [] made rest shown = absurd (cc shown)
  shown-OneByOne row r rows rs (hit ∷ hits) made rest shown =
      (entry row r hit made cc, rest hits cc)

  -- The hits of decoded edges.
  pub decode_all-OneByOne :
      (rows : List LinkRow) (rs : List RelatedTarget) (hits : Hits)
      → decode_all decode rows ≡ ok rs
      → Shows rs hits
      → OneByOne P rows hits
  unfolding decode_all
  decode_all-OneByOne [] rs [] e shown = tt
  decode_all-OneByOne [] rs (hit ∷ hits) e shown =
      absurd (cc (subst (λ rs. Shows rs (hit ∷ hits)) (sym (ok_injective e)) shown))
  decode_all-OneByOne (row ∷ rows) rs hits e shown =
      let (r, r_ok, e₁) =
        and_then_ok (decode row) (λ r. and_then (decode_all decode rows) (λ rs. ok (r ∷ rs))) rs
          e in
      let (rest, rest_ok, e₂) = and_then_ok (decode_all decode rows) (λ rs. ok (r ∷ rs)) rs e₁ in
      shown-OneByOne row r rows rest hits r_ok
        (λ hits shown. decode_all-OneByOne rows rest hits rest_ok shown)
        (subst (λ rs. Shows rs hits) (sym (ok_injective e₂)) shown)
