-- ===== src/Mcp/Normalize/Tests.antt =====
-- The edit distance of two words, and a topic that is snapped to the vocabulary.
use k_engram.Prelude.{ℕ, ◌≤◌, List, [], ◌∷◌, ◌≡◌, refl, All, In}
use k_engram.Text.{Text, codes}
use k_engram.Unicode.{ascii}
use k_engram.Float.{thousandths}
use k_engram.Dedupe.{Unique}
use k_engram.Mcp.Normalize.{
  levenshtein, count_from, rows, next_cells, cell_at, normalize_one, normalize_topics,
}
use k_engram.Mcp.Normalize.Levenshtein.{Edits, levenshtein_lem}
use k_engram.Mcp.Normalize.Topics.{Snapped, normalize_topics_lem}

sitting : levenshtein (codes "kitten") (codes "sitting") ≡ 3
unfolding levenshtein count_from rows next_cells cell_at
sitting = refl

levenshtein_lem_example :
    Edits (codes "topic") (codes "topics") (levenshtein (codes "topic") (codes "topics"))
    × ((n : ℕ)
        → Edits (codes "topic") (codes "topics") n
        → levenshtein (codes "topic") (codes "topics") ≤ n)
levenshtein_lem_example = levenshtein_lem (codes "topic") (codes "topics")

abbrev emitted : List Text
emitted = codes "databases" ∷ codes "branding" ∷ []

abbrev vocab : List Text
vocab = codes "database" ∷ []

normalize_topics_lem_example :
    Unique (normalize_topics thousandths ascii emitted vocab)
    × All
        (λ topic. (t : Text) × In t emitted × Snapped thousandths ascii vocab t topic)
        (normalize_topics thousandths ascii emitted vocab)
    × ((t : Text)
        → In t emitted
        → In
            (normalize_one thousandths ascii t vocab)
            (normalize_topics thousandths ascii emitted vocab))
normalize_topics_lem_example = normalize_topics_lem thousandths ascii emitted vocab (λ e. cc)
