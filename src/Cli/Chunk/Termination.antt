-- ===== src/Cli/Chunk/Termination.antt =====
-- When the loop of `chunk_spans` ends, and when it does not.
use k_engram.Prelude.{
  ℕ, zero, suc, ◌+◌, ◌-◌, ◌*◌, ◌/◌, ◌≤◌, ◌<◌, min, max, Bool, true, false, ◌≡◌, refl, ap, ◌∙◌, inl,
  inr, none, some, List, [], ◌∷◌, map, arith, length, ok,
}
use native.Mathlib.Decide.{dec_lt}
use k_engram.Text.{Text}
use k_engram.Cli.Chunk.{
  ChunkParams, validate_chunk_params, best_sentence_boundary, chunk_end, chunk_ranges, put,
  or_hard_end, word_spans, span_from_words, punct_at, chunk_spans,
}
use k_engram.Cli.Chunk.Boundary.{IsValid, IsValid-of_validate, last_boundary_at, chunk_end_bounds}
use k_engram.Cli.Chunk.Cover.{Covers, chunk_ranges-Covers, chunk_ranges_step}

module _ (punct : ℕ → Bool) (n : ℕ) (p : ChunkParams) where
  open p use {target_words, max_words, overlap_words}

  -- With an overlap below two thirds of the target the next chunk starts behind this one's start.
  chunk_ranges_total :
      IsValid p
      → overlap_words < max (target_words * 2 / 3) 1
      → (fuel start : ℕ) → n - start < fuel
      → (rs : List (ℕ × ℕ)) × (chunk_ranges punct n p fuel start ≡ some rs)
  chunk_ranges_total v small zero start h = absurd (omega arith)
  chunk_ranges_total v small (suc fuel) start h = elim (dec_lt start n) [
    | no past ↦ ([], unfold chunk_ranges in ground arith)
    | yes inside ↦
        let stop = chunk_end punct n p start in
        let bounds = chunk_end_bounds punct n p start inside v in
        elim (chunk_ranges_step punct n p v fuel start inside) [
          | inl (fits, last) ↦ ((start, n) ∷ [], last)
          | inr (inl (long, ends, last)) ↦ ((start, stop) ∷ [], last)
          | inr (inr (long, more, goes)) ↦
              let (rest, found) =
                chunk_ranges_total v small fuel (stop - overlap_words) (omega arith) in
              ((start, stop) ∷ rest, goes ∙ ap (put (start, stop)) found)
        ]
  ]

  -- A sentence that ends where the overlap does brings the loop back to where it was.
  chunk_end_stall :
      IsValid p
      → target_words * 2 / 3 ≤ overlap_words
      → 0 < overlap_words
      → max_words < n
      → punct overlap_words ≡ true
      → ((j : ℕ) → overlap_words < j → j ≤ max_words → punct j ≡ false)
      → chunk_end punct n p 0 ≡ overlap_words
  unfolding chunk_end best_sentence_boundary
  chunk_end_stall v big pos long hit quiet =
      let hard_end = min (0 + max_words) n in
      let min_end = max (0 + (min (0 + target_words) n - 0) * 2 / 3) (0 + 1) in
      ap (or_hard_end hard_end) (
        last_boundary_at punct n p (hard_end + 1 - min_end) min_end overlap_words none (omega arith)
          (omega arith) hit (λ j a b. quiet j a (omega arith)))

  -- So no fuel is enough.
  chunk_ranges_stall :
      IsValid p
      → target_words * 2 / 3 ≤ overlap_words
      → 0 < overlap_words
      → max_words < n
      → punct overlap_words ≡ true
      → ((j : ℕ) → overlap_words < j → j ≤ max_words → punct j ≡ false)
      → (fuel : ℕ) → chunk_ranges punct n p fuel 0 ≡ none
  chunk_ranges_stall v big pos long hit quiet zero = unfold chunk_ranges in refl
  chunk_ranges_stall v big pos long hit quiet (suc fuel) =
      let stop = chunk_end_stall v big pos long hit quiet in
      elim (chunk_ranges_step punct n p v fuel 0 (omega arith)) [
        | inl (fits, last) ↦ absurd (omega arith)
        | inr (inl (_, ends, last)) ↦ absurd (omega arith)
        | inr (inr (_, more, goes)) ↦
            goes
            ∙ ap (put (0, chunk_end punct n p 0)) (
                ap (chunk_ranges punct n p fuel) (omega arith)
                ∙ chunk_ranges_stall v big pos long hit quiet fuel)
      ]

-- With validated limits and an overlap below two thirds of the target, `chunk_spans` ends after at
-- most as many rounds as there are words, and its chunks cover all the words of a thought that has
-- enough of them: in order, each with a word and at most the limit, each but the first beginning
-- `overlap_words` words before the end of the one before.
pub chunk_spans_cover :
    (text : Text) (p : ChunkParams) (fuel : ℕ)
    → validate_chunk_params p ≡ ok tt
    → p.overlap_words < max (p.target_words * 2 / 3) 1
    → p.min_parent_words ≤ length (word_spans text)
    → length (word_spans text) < fuel
    → (rs : List (ℕ × ℕ)) × (chunk_spans fuel text p
        ≡ some (map (span_from_words (word_spans text)) rs))
      × Covers p.overlap_words p.max_words (length (word_spans text)) 0 rs
unfolding chunk_spans validate_chunk_params
chunk_spans_cover text p fuel checked small enough h =
    let words = word_spans text in
    let v = IsValid-of_validate p checked in
    let (rs, found) =
      chunk_ranges_total (punct_at text words) (length words) p v small fuel 0 (omega arith) in
    (
      rs,
      ground (arith, found),
      chunk_ranges-Covers (punct_at text words) (length words) p v fuel 0 rs (ground arith) found,
    )

-- The validated limits do not suffice. If the overlap is at least two thirds of the target, the
-- thought has more words than a chunk may have, and the last sentence end among the first
-- `max_words` words stands behind word number `overlap_words`, then the loop never ends: it makes
-- the same chunk again and again.
pub chunk_spans_stall :
    (text : Text) (p : ChunkParams)
    → validate_chunk_params p ≡ ok tt
    → p.target_words * 2 / 3 ≤ p.overlap_words
    → 0 < p.overlap_words
    → p.min_parent_words ≤ length (word_spans text)
    → p.max_words < length (word_spans text)
    → punct_at text (word_spans text) p.overlap_words ≡ true
    → ((j : ℕ) → p.overlap_words < j → j ≤ p.max_words → punct_at text (word_spans text) j ≡ false)
    → (fuel : ℕ) → chunk_spans fuel text p ≡ none
unfolding chunk_spans
chunk_spans_stall text p checked big pos enough long hit quiet fuel =
    let words = word_spans text in
    ground (
      arith,
      chunk_ranges_stall (punct_at text words) (length words) p (IsValid-of_validate p checked) big
          pos long hit quiet fuel,
    )
