-- ===== src/Mcp/Search/Tests.antt =====
-- The terms of small queries, and a date that is cut in a character.
use k_engram.Prelude.{◌≤◌, none, map, ◌≡◌, refl, arith, length, []}
use k_engram.Text.{codes, len_utf8, is_ascii_digit, to_ascii_lowercase}
use k_engram.Unicode.{ascii}
use k_engram.Dedupe.{Unique}
use k_engram.Mcp.Search.{looks_like_date}
use k_engram.Mcp.Search.Terms.{lexical_terms}
use k_engram.Mcp.Search.Dates.{cut_date, looks_like_date_panics}
use k_engram.Mcp.Search.Words.{lexical_terms_lem}

-- The date 2024-01-0 with an e and an acute accent behind it.
looks_like_date_panics_example :
    looks_like_date (cut_date b'2' b'0' b'2' b'4' b'0' b'1' b'0' 0xe9 []) ≡ none
unfolding is_ascii_digit len_utf8
looks_like_date_panics_example =
    looks_like_date_panics b'2' b'0' b'2' b'4' b'0' b'1' b'0' 0xe9 []
      (refl, (refl, (refl, (refl, (refl, (refl, (refl, tt))))))) (omega arith)

lexical_terms_lem_example :
    (length (lexical_terms ascii (codes "mcp queue")) ≤ 18)
    × Unique (map to_ascii_lowercase (lexical_terms ascii (codes "mcp queue")))
lexical_terms_lem_example = lexical_terms_lem ascii (codes "mcp queue")
