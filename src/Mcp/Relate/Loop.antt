-- ===== src/Mcp/Relate/Loop.antt =====
-- The loop over the rows of a traversal in crates/kengram-mcp/src/relate.rs.
use k_engram.Prelude.{
  Bool, true, false, not, ◌≡◌, refl, ap, ◌∙◌, List, [], ◌∷◌, ◌++◌, map, Option, none, some,
  map_some, retain,
}
use k_engram.Text.{Text}
use k_engram.Core.Relation.{LinkDirection, outbound, inbound, both}
use k_engram.Storage.Links.{RelatedTarget}
use k_engram.Mcp.Relate.Entries.{Shows}
use mathlib.Core.List.{append-nil, append_assoc}
use k_engram.Storage.Links.Merge.{is_in, is_out}
use k_engram.Mcp.Relate.{
  RelatedTargetHit, preview_of, hit_of, hit_with, Hits, push_hit, with_hit, group_rows,
}
use k_engram.Mcp.Relate.Preview.{preview_of_lem}

preview_total :
    (content : Option Text) → (p : Option Text × Option Bool) × (preview_of content ≡ some p)
unfolding preview_of
preview_total none = ((none, none), refl)
preview_total (some content) = let found = preview_of_lem content in ((some found.0, _), found.2)

hit_total : (r : RelatedTarget) → (hit : RelatedTargetHit) × (hit_of r ≡ some hit)
unfolding hit_of
hit_total r =
    let (p, e) = preview_total r.thought_content in (hit_with r p, ap (map_some (hit_with r)) e)

retain_kept :
    (p : RelatedTarget → Bool) (r : RelatedTarget) (rows : List RelatedTarget)
    → p r ≡ true
    → retain p (r ∷ rows) ≡ r ∷ retain p rows
retain_kept p r rows e = rw e refl

retain_dropped :
    (p : RelatedTarget → Bool) (r : RelatedTarget) (rows : List RelatedTarget)
    → p r ≡ false
    → retain p (r ∷ rows) ≡ retain p rows
retain_dropped p r rows e = rw e refl

advance :
    (r : RelatedTarget) (rows : List RelatedTarget) (groups : Hits × Hits) (hit : RelatedTargetHit)
    (d : LinkDirection)
    → hit_of r ≡ some hit
    → r.direction ≡ d
    → group_rows (r ∷ rows) groups ≡ group_rows rows (push_hit d hit groups)
unfolding group_rows
advance r rows groups hit d e same =
    ap (λ o. with_hit o (λ hit. group_rows rows (push_hit r.direction hit groups))) e
    ∙ ap (λ d. group_rows rows (push_hit d hit groups)) same

-- The loop from `groups` on.
abbrev Groups : List RelatedTarget → Hits → Hits → Type 0
Groups rows outs ins =
    (os : Hits) × (is : Hits) × (group_rows rows (outs, ins) ≡ some (outs ++ os, ins ++ is))
    × Shows (retain is_out rows) os
    × Shows (retain is_in rows) is

Shows-cons :
    (r : RelatedTarget) (hit : RelatedTargetHit) (rows all : List RelatedTarget) (hits : Hits)
    → hit_of r ≡ some hit
    → all ≡ r ∷ rows
    → Shows rows hits
    → Shows all (hit ∷ hits)
Shows-cons r hit rows all hits e split rest =
    ap (map hit_of) split ∙ ap (λ o. o ∷ map hit_of rows) e ∙ ap (λ l. some hit ∷ l) rest

outbound_step :
    (r : RelatedTarget) (rows : List RelatedTarget) (outs ins : Hits) (hit : RelatedTargetHit)
    → hit_of r ≡ some hit
    → is_in r ≡ false
    → group_rows (r ∷ rows) (outs, ins) ≡ group_rows rows (outs ++ (hit ∷ []), ins)
    → Groups rows (outs ++ (hit ∷ [])) ins
    → Groups (r ∷ rows) outs ins
outbound_step r rows outs ins hit e side first (os, is, looped, shown_out, shown_in) = (
  hit ∷ os,
  is,
  first ∙ looped ∙ ap (λ l. some (l, ins ++ is)) (append_assoc outs (hit ∷ []) os),
  Shows-cons r hit (retain is_out rows) (retain is_out (r ∷ rows)) os e
      (retain_kept is_out r rows (ap not side)) shown_out,
  ap (map hit_of) (retain_dropped is_in r rows side) ∙ shown_in,
)

group_rows_from :
    (r : RelatedTarget) (rows : List RelatedTarget) (outs ins : Hits) (hit : RelatedTargetHit)
    (d : LinkDirection)
    → hit_of r ≡ some hit
    → r.direction ≡ d
    → ((outs ins : Hits) → Groups rows outs ins)
    → Groups (r ∷ rows) outs ins
group_rows_from r rows outs ins hit inbound e same rest =
    let side : is_in r ≡ true =
      ap (λ (d : LinkDirection). elim d [ inbound ↦ true | _ ↦ false ]) same in
    let (os, is, looped, shown_out, shown_in) = rest outs (ins ++ (hit ∷ [])) in
    (
      os,
      hit ∷ is,
      advance r rows (outs, ins) hit inbound e same
          ∙ looped
          ∙ ap (λ l. some (outs ++ os, l)) (append_assoc ins (hit ∷ []) is),
      ap (map hit_of) (retain_dropped is_out r rows (ap not side)) ∙ shown_out,
      Shows-cons r hit (retain is_in rows) (retain is_in (r ∷ rows)) is e
          (retain_kept is_in r rows side) shown_in,
    )
group_rows_from r rows outs ins hit outbound e same rest =
    outbound_step r rows outs ins hit e
      (ap (λ (d : LinkDirection). elim d [ inbound ↦ true | _ ↦ false ]) same)
      (advance r rows (outs, ins) hit outbound e same) (rest (outs ++ (hit ∷ [])) ins)
group_rows_from r rows outs ins hit both e same rest =
    outbound_step r rows outs ins hit e
      (ap (λ (d : LinkDirection). elim d [ inbound ↦ true | _ ↦ false ]) same)
      (advance r rows (outs, ins) hit both e same) (rest (outs ++ (hit ∷ [])) ins)

-- The loop never panics, and adds to each group the hits of its rows in their order.
pub group_rows_lem : (rows : List RelatedTarget) (outs ins : Hits) → Groups rows outs ins
unfolding group_rows
group_rows_lem [] outs ins = ([], [], rw (append-nil outs, append-nil ins) refl, refl, refl)
group_rows_lem (r ∷ rows) outs ins =
    let (hit, e) = hit_total r in
    group_rows_from r rows outs ins hit r.direction e refl (group_rows_lem rows)
