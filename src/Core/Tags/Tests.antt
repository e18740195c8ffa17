-- ===== src/Core/Tags/Tests.antt =====
-- Aliases, slugs and domains of small texts.
use k_engram.Prelude.{◌≤◌, true, List, [], ◌∷◌, map, some, ◌≡◌, refl, ◌⊎◌, length, All, In}
use k_engram.Text.{
  Text, codes, elem, to_ascii_lower, trim, is_whitespace, is_ascii_alphanumeric, trim_end_matches,
  trim_matches, text_eq, starts_with, split, split_whitespace, drop_empty, join,
}
use k_engram.Unicode.{ascii}
use k_engram.Dedupe.{Unique}
use k_engram.Core.Tags.{
  max_retrieval_aliases, normalize_retrieval_alias, normalize_retrieval_aliases, slug_loop,
  slugify_domain_part, domain_text, normalize_domain_scope,
}
use k_engram.Core.Tags.Aliases.{normalize_retrieval_aliases_lem}

abbrev raws : List Text
raws = codes "Old  Name" ∷ codes "old name" ∷ codes "/etc" ∷ []

normalize_retrieval_aliases_lem_example :
    (length (normalize_retrieval_aliases ascii raws) ≤ max_retrieval_aliases)
    × Unique (map (map to_ascii_lower) (normalize_retrieval_aliases ascii raws))
    × All
        (λ w. (raw : Text) × In raw raws × (normalize_retrieval_alias raw ≡ some w))
        (normalize_retrieval_aliases ascii raws)
    × ((raw w : Text)
        → In raw raws
        → normalize_retrieval_alias raw ≡ some w
        → (elem
              (map to_ascii_lower w)
              (map (map to_ascii_lower) (normalize_retrieval_aliases ascii raws))
            ≡ true)
          ⊎ (max_retrieval_aliases ≤ length (normalize_retrieval_aliases ascii raws)))
normalize_retrieval_aliases_lem_example = normalize_retrieval_aliases_lem ascii raws

slug_run : slugify_domain_part ascii (codes "A.. B.") ≡ some (codes "a-b")
unfolding slugify_domain_part slug_loop trim is_whitespace is_ascii_alphanumeric trim_end_matches
    to_ascii_lower
slug_run = refl

domain_run : normalize_domain_scope ascii (codes "Fleet ") ≡ some (codes "infra")
unfolding normalize_domain_scope domain_text trim is_whitespace trim_matches text_eq starts_with
    elem split split_whitespace drop_empty join to_ascii_lower
domain_run = refl
