-- ===== src/Mcp/Drain/Relations.antt =====
-- The relation replacement of `apply_tagger_relations` in crates/kengram-mcp/src/drain.rs.
use mathlib.Core.List.{Perm}
use k_engram.Prelude.{
  ℕ, Bool, List, [], ◌∷◌, map, ◌≡◌, sym, ◌∙◌, ap, subst, ok, All, and_then_ok, ok_injective,
}
use k_engram.Text.{Text}
use k_engram.Sorting.{sort, sort-perm}
use k_engram.Core.Relation.{into_link_target}
use k_engram.Mcp.Link.{validate_target}
use k_engram.Mcp.Link.Checks.{IsLinkable, validate_target_iff}
use k_engram.Mcp.Drain.{
  ExtractedRelation, Emitted, Replacement, emitted_of, emit_relations, replacement_of,
}

module _ (print_uuid : ℕ → Text) (print : Emitted → Text) (before : Text → Text → Bool)
    (sha256 : List Emitted → Text) where
  emit_relations_ok :
      (rels : List ExtractedRelation) (emitted : List Emitted)
      → emit_relations print_uuid print before sha256 rels ≡ ok emitted
      → All (λ rel. IsLinkable (into_link_target rel.target)) rels
        × (emitted ≡ map (emitted_of print_uuid print before sha256) rels)
  unfolding emit_relations
  emit_relations_ok [] emitted e = (tt, sym (ok_injective e))
  emit_relations_ok (rel ∷ rels) emitted e =
      let (_, valid, e₁) =
        and_then_ok (validate_target (into_link_target rel.target)) _ emitted e in
      let (rest, rest_ok, e₂) =
        and_then_ok (emit_relations print_uuid print before sha256 rels) _ emitted e₁ in
      let (all_valid, same) = emit_relations_ok rels rest rest_ok in
      (
        ((validate_target_iff (into_link_target rel.target)).0 valid, all_valid),
        sym (ok_injective e₂) ∙ ap (λ es. emitted_of print_uuid print before sha256 rel ∷ es) same,
      )

  -- A request is only ever made of the whole emitted set: every target is acceptable, and the
  -- request's relations are the emitted ones in another order. One bad target makes no request.
  pub replacement_of_ok :
      (from generation : ℕ) (rels : List ExtractedRelation) (request : Replacement)
      → replacement_of print_uuid print before sha256 from generation rels ≡ ok request
      → All (λ rel. IsLinkable (into_link_target rel.target)) rels
        × Perm request.relations (map (emitted_of print_uuid print before sha256) rels)
        × (request.emitted_hash ≡ sha256 request.relations)
        × (request.from ≡ from)
        × (request.generation ≡ generation)
  unfolding replacement_of
  replacement_of_ok from generation rels request e =
      let (emitted, emitted_ok, e₁) =
        and_then_ok (emit_relations print_uuid print before sha256 rels) _ request e in
      let (valid, same) = emit_relations_ok rels emitted emitted_ok in
      let made = ok_injective e₁ in
      let order : Emitted → Emitted → Bool = λ a b. before (print a) (print b) in
      (
        valid,
        subst (λ rs. Perm rs (map (emitted_of print_uuid print before sha256) rels))
            (ap (λ r. r.relations) made)
            (subst (Perm (sort order emitted)) same (sort-perm order emitted)),
        sym (ap (λ r. r.emitted_hash) made) ∙ ap (λ r. sha256 r.relations) made,
        sym (ap (λ r. r.from) made),
        sym (ap (λ r. r.generation) made),
      )
