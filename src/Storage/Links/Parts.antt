-- ===== src/Storage/Links/Parts.antt =====
-- The two parts that `fetch_related_thoughts` of crates/kengram-storage/src/lib.rs reads are decoded from
-- exactly the edges that its conditions mean.
use k_engram.Prelude.{
  ℕ, Bool, true, false, ◌&&◌, ◌≡◌, ◌≢◌, refl, sym, ◌∙◌, subst, inl, inr, ◌↔◌, List, [], ok, retain,
  retain-none, Bool-cases, and_true, true_and, All-of_In,
}
use k_engram.Text.{Text, codes}
use k_engram.Sorting.{sort, sort-IsSorted, sort-perm}
use mathlib.Core.List.{Perm}
use mathlib.Core.List.Perm
use k_engram.Storage.Links.Merge.{newer_row_asym, newer_row_trans}
use k_engram.Core.Relation.{LinkDirection, outbound, inbound, both}
use k_engram.Storage.Links.{
  LinkRow, ThoughtRow, RelatedTarget, newer_row, passes, is_outbound, is_inbound, comes_in,
  decode_all, decode_outbound, decode_inbound, outbound_targets, inbound_targets, outbound_part,
  inbound_part,
}
use k_engram.Storage.Links.Selection.{
  IsSelection, IsOutboundEdge, IsInboundEdge, passes_iff, is_outbound_iff, is_inbound_iff,
}

module _ (links : List LinkRow) (P : LinkRow → Type 0) where
  selected :
      (q : LinkRow → Bool)
      → ((row : LinkRow) → (q row ≡ true) ↔ P row)
      → IsSelection links P (sort newer_row (retain q links))
  selected q iff = (
    q,
    iff,
    sort-perm newer_row (retain q links),
    sort-IsSorted newer_row newer_row_asym newer_row_trans (retain q links),
  )

  nothing_selected : ((row : LinkRow) → P row → ⊥) → IsSelection links P []
  nothing_selected refused = (
    λ row. false,
    λ row. (λ e. absurd (cc e), λ p. absurd (refused row p)),
    subst (Perm [])
        (sym (
          retain-none (λ row. false) links
            (All-of_In (λ row. false ≡ false) links (λ row m. refl))))
        (Perm.refl []),
    tt,
  )

module _ (links : List LinkRow) (thoughts : List ThoughtRow) where
  outbound_targets-IsSelection :
      (id : ℕ) (relations kinds : List Text) (dir : LinkDirection) (outs : List RelatedTarget)
      → dir ≢ inbound
      → outbound_targets links thoughts id relations kinds ≡ ok outs
      → (rows : List LinkRow) × IsSelection links (IsOutboundEdge id relations kinds dir) rows
        × (decode_all (decode_outbound thoughts) rows ≡ ok outs)
  unfolding outbound_targets
  outbound_targets-IsSelection id relations kinds dir outs out e = (
    sort newer_row (retain (is_outbound id relations kinds) links),
    selected links (IsOutboundEdge id relations kinds dir) (is_outbound id relations kinds) (λ row.
        (
          λ picked.
              let (from, live, rel, kind) = (is_outbound_iff id relations kinds row).0 picked in
              (out, from, live, rel, kind),
          λ (o, from, live, rel, kind).
              (is_outbound_iff id relations kinds row).1 (from, live, rel, kind),
        )),
    e,
  )

  -- The outbound part is decoded from the outbound edges.
  pub outbound_part-IsSelection :
      (reached : Bool) (id : ℕ) (relations kinds : List Text) (dir : LinkDirection)
      (outs : List RelatedTarget)
      → outbound_part links thoughts reached id relations kinds dir ≡ ok outs
      → (rows : List LinkRow) × IsSelection links (IsOutboundEdge id relations kinds dir) rows
        × (decode_all (decode_outbound thoughts) rows ≡ ok outs)
  unfolding decode_all
  outbound_part-IsSelection reached id relations kinds inbound outs e = (
    [],
    nothing_selected links (IsOutboundEdge id relations kinds inbound) (λ row edge. edge.0 refl),
    e,
  )
  outbound_part-IsSelection true id relations kinds outbound outs e =
      outbound_targets-IsSelection id relations kinds outbound outs (λ same. cc same) e
  outbound_part-IsSelection true id relations kinds both outs e =
      outbound_targets-IsSelection id relations kinds both outs (λ same. cc same) e
  outbound_part-IsSelection false id relations kinds outbound outs e = absurd (cc e)
  outbound_part-IsSelection false id relations kinds both outs e = absurd (cc e)

  comes_in_iff : (dir : LinkDirection) → (comes_in dir ≡ true) ↔ (dir ≢ outbound)
  comes_in_iff outbound = (λ e. absurd (cc e), λ other. absurd (other refl))
  comes_in_iff inbound = (λ e same. cc same, λ other. refl)
  comes_in_iff both = (λ e same. cc same, λ other. refl)

  -- The inbound part is decoded from the inbound edges.
  pub inbound_part-IsSelection :
      (reached : Bool) (id : ℕ) (relations kinds : List Text) (dir : LinkDirection)
      (ins : List RelatedTarget)
      → inbound_part links thoughts reached id relations kinds dir ≡ ok ins
      → (rows : List LinkRow) × IsSelection links
          (IsInboundEdge thoughts id relations kinds dir)
          rows
        × (decode_all (decode_inbound thoughts) rows ≡ ok ins)
  unfolding inbound_targets decode_all
  inbound_part-IsSelection reached id relations kinds dir ins e =
      elim (Bool-cases (comes_in dir && passes kinds (codes "thought"))) [
        | inr skipped ↦ (
          [],
          nothing_selected links (IsInboundEdge thoughts id relations kinds dir) (λ row edge. cc (
              sym skipped
              ∙ true_and (comes_in dir) _ ((comes_in_iff dir).1 edge.0)
                  ((passes_iff kinds (codes "thought")).1 edge.1))),
          rw skipped at e,
        )
        | inl asked ↦ elim (Bool-cases reached) [
          | inr lost ↦ absurd (cc (rw (asked, lost) at e))
          | inl read ↦
              let (into, kind) = and_true (comes_in dir) _ asked in
              (
                sort newer_row (retain (is_inbound thoughts id relations) links),
                selected links (IsInboundEdge thoughts id relations kinds dir)
                    (is_inbound thoughts id relations)
                    (λ row. (
                      λ picked.
                          let (to, live, rel, joined) =
                            (is_inbound_iff thoughts id relations row).0 picked in
                          (
                            (comes_in_iff dir).0 into,
                            (passes_iff kinds (codes "thought")).0 kind,
                            to,
                            live,
                            rel,
                            joined,
                          ),
                      λ (i, k, to, live, rel, joined).
                          (is_inbound_iff thoughts id relations row).1 (to, live, rel, joined),
                    )),
                rw (asked, read) at e,
              )
        ]
      ]
