-- ===== src/Mcp/Expansion/Tests.antt =====
-- Rewrites of the query `fix a2a`, whose identifier is `a2a`.
use k_engram.Prelude.{◌≤◌, List, [], ◌∷◌, map, some, ◌≡◌, refl, arith, length, All}
use k_engram.Text.{
  Text, codes, elem, trim, is_whitespace, byte_len, len_utf8, contains, starts_with, ends_with,
  text_eq, to_ascii_lowercase, eq_ignore_ascii_case, is_ascii_digit, is_ascii_alphabetic,
  is_ascii_alphanumeric, is_ascii_hexdigit, split, drop_empty,
}
use k_engram.Unicode.{ascii}
use k_engram.Dedupe.{Unique, dedupe}
use k_engram.Mcp.Expansion.{
  QueryExpansionOutput, truncate_chars, preserve_identifiers, push_missing, identifier_terms,
  identifier_loop, raw_tokens, tokens_from, clean_token, is_strong_identifier, looks_like_hash,
  looks_like_file_path, dedupe_lowercase_limited, contains_unknown_identifier, variant_of,
  normalize_variant_list,
}
use k_engram.Mcp.Expansion.Variants.{IsVariant, normalize_variant_list_lem}

abbrev query : Text
query = codes "fix a2a"

abbrev allowed : List Text
allowed = codes "a2a" ∷ []

repaired : variant_of ascii query allowed (codes "repair") ≡ some (codes "repair a2a")
unfolding variant_of truncate_chars trim is_whitespace contains_unknown_identifier identifier_terms
    identifier_loop raw_tokens tokens_from clean_token is_strong_identifier looks_like_hash
    looks_like_file_path dedupe_lowercase_limited dedupe preserve_identifiers push_missing byte_len
    len_utf8 contains starts_with ends_with text_eq to_ascii_lowercase eq_ignore_ascii_case
    is_ascii_digit is_ascii_alphabetic is_ascii_alphanumeric is_ascii_hexdigit split drop_empty elem
repaired = refl

normalize_variant_list_lem_example :
    (length (normalize_variant_list ascii query (codes "repair" ∷ []) 3 allowed) ≤ 3)
    × Unique (
        map to_ascii_lowercase (normalize_variant_list ascii query (codes "repair" ∷ []) 3 allowed))
    × All
        (IsVariant ascii query allowed)
        (normalize_variant_list ascii query (codes "repair" ∷ []) 3 allowed)
normalize_variant_list_lem_example =
    normalize_variant_list_lem ascii query allowed (codes "repair" ∷ []) 3 (omega arith)

abbrev raw : QueryExpansionOutput
raw = record {
  route = some (codes " Exact ");
  queries = codes "repair" ∷ [];
  hyde = some (codes "A2A is fixed by");
  decomposition = [];
}
