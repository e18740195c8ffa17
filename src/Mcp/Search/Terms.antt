-- ===== src/Mcp/Search/Terms.antt =====
-- The terms of a query in crates/kengram-mcp/src/search.rs: its words, its identifiers, and the
-- subqueries made of them. The tokens and the limited removal of duplicates are the same texts as in
-- crates/kengram-mcp/src/query_expansion.rs and are taken from there.
use k_engram.Prelude.{
  ℕ, suc, Bool, true, false, ◌&&◌, ◌||◌, not, List, [], ◌∷◌, ◌++◌, Option, none, some, ◌==◌, ltb,
  leb, if◌then◌else◌, is_empty, length, any, all, take, filter_map,
}
use k_engram.Text.{Text, codes, byte_len, to_ascii_lowercase, is_ascii_digit, split, drop_empty}
use k_engram.Unicode.{Unicode}
use k_engram.Dedupe.{dedupe, dedupe_from}
use k_engram.Core.Tags.{normalize_domain_scope, normalize_retrieval_alias}
use k_engram.Mcp.Expansion.{
  raw_tokens, clean_token, pull_request, looks_like_hash, looks_like_file_path,
  dedupe_lowercase_limited,
}
use k_engram.Mcp.Search.{
  pairwise_max_subqueries, looks_like_date, pairwise_aliases, is_pairwise_stopword, windows,
  pair_of, all_pairs,
}

module _ (u : Unicode) where
  open u use {is_uppercase, is_lowercase}

  -- The loop of `is_identifier`: the number of capitals, and whether one follows a small letter.
  unfoldable pub capitals : ℕ → Bool → Bool → Text → ℕ × Bool
  capitals count prev_lower camel [] = (count, camel)
  capitals count prev_lower camel (ch ∷ s) =
      capitals (if is_uppercase ch then suc count else count)
        (not (is_uppercase ch) && is_lowercase ch) (camel || (is_uppercase ch && prev_lower)) s

  unfoldable pub is_identifier : Text → Bool
  is_identifier value =
      let (upper_count, camel) = capitals 0 false false value in
      any is_ascii_digit value
      || any (λ ch. any (λ c. c == ch) (codes "_/.:-#")) value
      || leb 2 upper_count
      || camel

  -- The token and, if it has several, its parts.
  abbrev candidates : Text → List Text
  candidates token =
      let parts = drop_empty (split (λ ch. any (λ c. c == ch) (codes "/_.:#-")) token) in
      if ltb 1 (length parts) then token ∷ parts else token ∷ []

  -- A candidate that is neither empty, nor a word too common or too short.
  unfoldable pub term_of : Text → Option Text
  term_of candidate =
      let cleaned = clean_token candidate in
      let lower = to_ascii_lowercase cleaned in
      if is_empty cleaned
        || (not (is_identifier cleaned) && (is_pairwise_stopword lower || ltb (byte_len lower) 3))
      then none
      else some cleaned

  unfoldable pub all_candidates : List Text → List Text
  all_candidates [] = []
  all_candidates (raw ∷ raws) =
      let rest = all_candidates raws in
      if is_empty (clean_token raw) then rest else candidates (clean_token raw) ++ rest

  unfoldable pub all_aliases : List Text → List Text
  all_aliases [] = []
  all_aliases (term ∷ terms) = pairwise_aliases (to_ascii_lowercase term) ++ all_aliases terms

  -- The words first, then their aliases under the same `seen`.
  unfoldable pub words_of : Text → List Text
  words_of query =
      dedupe to_ascii_lowercase (λ n. false)
        (filter_map term_of (all_candidates (raw_tokens u query)))

  unfoldable pub lexical_terms : Text → List Text
  lexical_terms query =
      take 18 (
        dedupe_from to_ascii_lowercase (λ n. false) (words_of query) (all_aliases (words_of query)))

  abbrev numbered : Text → Bool
  numbered [] = false
  numbered (c ∷ s) = c == b'#' && all is_ascii_digit s

  -- Whether a token is an identifier by its form; none where the source panics.
  unfoldable pub is_formed : Text → Option Bool
  is_formed token =
      if numbered token || looks_like_hash token || looks_like_file_path token
      then some true
      else looks_like_date token

  -- One round of the loop on its rest, in the order in which they run.
  abbrev formed_round : List Text → Text → Option Bool → Option (List Text) → Option (List Text)
  formed_round front token none rest = none
  formed_round front token (some formed) none = none
  formed_round front token (some true) (some rest) = some (front ++ token ∷ rest)
  formed_round front token (some false) (some rest) = some (front ++ rest)

  unfoldable pub formed_terms : List Text → Option (List Text)
  formed_terms [] = some []
  formed_terms (raw ∷ raws) =
      let rest = formed_terms raws in
      let token = clean_token raw in
      if is_empty token
      then rest
      else formed_round (pull_request u token raws) token (is_formed token) rest

  abbrev kept_identifiers : Text → Option Text
  kept_identifiers token = if is_identifier token then some token else none

  unfoldable pub search_identifier_terms : Text → Option (List Text)
  search_identifier_terms query = elim (formed_terms (raw_tokens u query)) [
    | none ↦ none
    | some formed ↦
        some (
          dedupe_lowercase_limited (formed ++ filter_map kept_identifiers (lexical_terms query)) 12)
  ]

  unfoldable pub pairwise_subqueries : Text → Option (List Text)
  pairwise_subqueries query = elim (search_identifier_terms query) [
    | none ↦ none
    | some idents ↦ some (
        dedupe_lowercase_limited
          (filter_map pair_of (
            windows (lexical_terms query)
            ++ all_pairs (take 4 idents) (take 8 (lexical_terms query))))
          pairwise_max_subqueries)
  ]

  abbrev as_list : Option Text → List Text
  as_list none = []
  as_list (some t) = t ∷ []

  unfoldable pub domain_candidates : Text → List Text
  domain_candidates query =
      dedupe_lowercase_limited
        (as_list (normalize_domain_scope u query)
          ++ filter_map (normalize_domain_scope u) (lexical_terms query))
        8

  unfoldable pub tag_facet_terms : Text → List Text
  tag_facet_terms query =
      dedupe_lowercase_limited (as_list (normalize_retrieval_alias query) ++ lexical_terms query) 16
