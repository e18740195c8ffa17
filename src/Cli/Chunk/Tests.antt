-- ===== src/Cli/Chunk/Tests.antt =====
-- Chunking on small texts.
use k_engram.Prelude.{
  ℕ, zero, suc, ◌<◌, ◌≤◌, ◌≡◌, refl, some, none, List, [], ◌∷◌, false, arith, length, map,
}
use k_engram.Text.{Text, codes, len_utf8, is_whitespace}
use k_engram.Cli.Chunk.{
  ChunkParams, validate_chunk_params, chunk_spans, word_spans, span_from_words, punct_at,
  chunk_ranges,
}
use k_engram.Cli.Chunk.Cover.{Covers}
use k_engram.Cli.Chunk.Termination.{chunk_spans_cover, chunk_spans_stall}

abbrev story : Text
story = codes "a b. c d e f g"

abbrev narrow : ChunkParams
narrow = record { min_parent_words = 1; target_words = 3; max_words = 4; overlap_words = 1 }

word_spans-story :
    word_spans story ≡ (0, 1) ∷ (2, 4) ∷ (5, 6) ∷ (7, 8) ∷ (9, 10) ∷ (11, 12) ∷ (13, 14) ∷ []
unfolding word_spans len_utf8 is_whitespace
word_spans-story = refl

story_ranges :
    chunk_ranges (punct_at story (word_spans story)) 7 narrow 8 0
    ≡ some ((0, 2) ∷ (1, 5) ∷ (4, 7) ∷ [])
unfolding word_spans len_utf8 is_whitespace punct_at chunk_ranges
story_ranges = refl

chunk_spans_cover_example :
    (rs : List (ℕ × ℕ)) × (chunk_spans 8 story narrow
      ≡ some (map (span_from_words (word_spans story)) rs))
    × Covers 1 4 (length (word_spans story)) 0 rs
unfolding word_spans len_utf8 is_whitespace validate_chunk_params
chunk_spans_cover_example =
    chunk_spans_cover story narrow 8 refl (omega arith) (omega arith) (omega arith)

abbrev stuck : ChunkParams
stuck = record { min_parent_words = 1; target_words = 3; max_words = 3; overlap_words = 2 }

quiet_behind : (j : ℕ) → 2 < j → j ≤ 3 → punct_at story (word_spans story) j ≡ false
unfolding word_spans len_utf8 is_whitespace punct_at
quiet_behind zero a b = absurd (omega arith)
quiet_behind (suc zero) a b = absurd (omega arith)
quiet_behind (suc (suc zero)) a b = absurd (omega arith)
quiet_behind (suc (suc (suc zero))) a b = refl
quiet_behind (suc (suc (suc (suc j)))) a b = absurd (omega arith)

chunk_spans_stall_example : chunk_spans 100 story stuck ≡ none
unfolding word_spans len_utf8 is_whitespace punct_at validate_chunk_params
chunk_spans_stall_example =
    chunk_spans_stall story stuck refl (omega arith) (omega arith) (omega arith) (omega arith) refl
      quiet_behind 100
