-- ===== src/Mcp/Search/Words.antt =====
-- The words that `lexical_terms` of crates/kengram-mcp/src/search.rs makes of a query.
use k_engram.Prelude.{
  ℕ, zero, suc, ◌≤◌, false, List, [], ◌∷◌, map, ◌≡◌, refl, arith, length, take, length-take,
  filter_map,
}
use k_engram.Text.{Text, elem, to_ascii_lowercase}
use k_engram.Unicode.{Unicode}
use k_engram.Dedupe.{Unique, dedupe, dedupe_from, dedupe-Unique, dedupe_from-Unique}
use k_engram.Mcp.Expansion.{raw_tokens}
use k_engram.Mcp.Search.Terms.{words_of, all_aliases, lexical_terms, term_of, all_candidates}

elem-take :
    (t : Text) (n : ℕ) (ts : List Text)
    → elem t (map to_ascii_lowercase ts) ≡ false
    → elem t (map to_ascii_lowercase (take n ts)) ≡ false
unfolding elem
elem-take t zero ts h = refl
elem-take t (suc n) [] h = refl
elem-take t (suc n) (s ∷ ts) h = ground (arith, elem-take t n ts)

Unique-take :
    (n : ℕ) (ts : List Text)
    → Unique (map to_ascii_lowercase ts)
    → Unique (map to_ascii_lowercase (take n ts))
Unique-take zero ts u = tt
Unique-take (suc n) [] u = tt
Unique-take (suc n) (t ∷ ts) u = (elem-take (to_ascii_lowercase t) n ts u.0, Unique-take n ts u.1)

-- A query has at most 18 terms, its words and their aliases together, and no two are equal up to
-- ASCII case.
pub lexical_terms_lem :
    (u : Unicode) (query : Text)
    → (length (lexical_terms u query) ≤ 18)
      × Unique (map to_ascii_lowercase (lexical_terms u query))
unfolding lexical_terms words_of
lexical_terms_lem u query =
    let words =
      dedupe to_ascii_lowercase (λ n. false)
        (filter_map (term_of u) (all_candidates u (raw_tokens u query))) in
    let all = dedupe_from to_ascii_lowercase (λ n. false) words (all_aliases u words) in
    (
      omega (arith, length-take 18 all),
      Unique-take 18 all (
          dedupe_from-Unique to_ascii_lowercase (λ n. false) words (all_aliases u words)
            (dedupe-Unique to_ascii_lowercase (λ n. false)
              (filter_map (term_of u) (all_candidates u (raw_tokens u query))))),
    )
