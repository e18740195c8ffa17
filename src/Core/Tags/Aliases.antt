-- ===== src/Core/Tags/Aliases.antt =====
-- The retrieval aliases after cleaning.
use k_engram.Prelude.{
  ◌≤◌, true, List, map, some, ◌≡◌, refl, ◌⊎◌, inl, inr, arith, length, All, In, leb, filter_map,
  filter_map-All, In-filter_map,
}
use k_engram.Text.{Text, elem}
use k_engram.Unicode.{Unicode}
use k_engram.Dedupe.{Unique, dedupe, dedupe-Unique, dedupe-All, dedupe_complete, length-dedupe}
use k_engram.Core.Tags.{
  normalize_retrieval_alias, normalize_retrieval_aliases, max_retrieval_aliases,
}

module _ (u : Unicode) (raws : List Text) where
  open u use {to_lowercase}

  -- The cleaned aliases are at most six, no two are equal up to case, each is the cleaned form of a
  -- given one, and the cleaned form of each given one is kept up to case unless six others are.
  pub normalize_retrieval_aliases_lem :
      (length (normalize_retrieval_aliases u raws) ≤ max_retrieval_aliases)
      × Unique (map to_lowercase (normalize_retrieval_aliases u raws))
      × All
          (λ w. (raw : Text) × In raw raws × (normalize_retrieval_alias raw ≡ some w))
          (normalize_retrieval_aliases u raws)
      × ((raw w : Text)
          → In raw raws
          → normalize_retrieval_alias raw ≡ some w
          → (elem (to_lowercase w) (map to_lowercase (normalize_retrieval_aliases u raws)) ≡ true)
            ⊎ (max_retrieval_aliases ≤ length (normalize_retrieval_aliases u raws)))
  unfolding normalize_retrieval_aliases
  normalize_retrieval_aliases_lem =
      let cleaned = filter_map normalize_retrieval_alias raws in
      let kept = dedupe to_lowercase (leb max_retrieval_aliases) cleaned in
      (
        length-dedupe to_lowercase (leb max_retrieval_aliases) 6 cleaned refl (omega arith),
        dedupe-Unique to_lowercase (leb max_retrieval_aliases) cleaned,
        dedupe-All to_lowercase (leb max_retrieval_aliases)
            (λ w. (raw : Text) × In raw raws × (normalize_retrieval_alias raw ≡ some w)) cleaned
            (filter_map-All normalize_retrieval_alias raws),
        λ raw w m e.
            elim (dedupe_complete to_lowercase (leb max_retrieval_aliases) w cleaned
              (In-filter_map normalize_retrieval_alias raws raw w m e)) [
                | inl there ↦ inl there
                | inr full ↦ inr (ground arith)
              ],
      )
