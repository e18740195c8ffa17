-- ===== src/Cli/Chunk/Boundary.antt =====
-- Bounds of a chunk's end.
use k_engram.Prelude.{
  ℕ, zero, suc, ◌+◌, ◌-◌, ◌*◌, ◌/◌, ◌≤◌, ◌<◌, min, max, Bool, true, false, ◌≡◌, refl, ◌⊎◌, inl, inr,
  Option, none, some, arith, if◌then◌else◌, Option-cases, ok,
}
use native.Mathlib.Decide.{ℕ_discrete}
use k_engram.Cli.Chunk.{
  ChunkParams, validate_chunk_params, last_boundary, best_sentence_boundary, chunk_end,
}

-- What `validate_chunk_params` lets through.
pub record IsValid (p : ChunkParams) : Type 0 where
  pub target_pos : 0 < p.target_words
  pub target_fits : p.target_words ≤ p.max_words
  pub overlap_below : p.overlap_words < p.target_words

pub IsValid-of_validate : (p : ChunkParams) → validate_chunk_params p ≡ ok tt → IsValid p
unfolding validate_chunk_params
IsValid-of_validate p h = ground arith

module _ (punct : ℕ → Bool) (n : ℕ) (p : ChunkParams) where
  open p use {target_words, max_words, overlap_words}

  last_boundary_range :
      (rounds idx : ℕ) (best : Option ℕ) (e : ℕ)
      → last_boundary punct n p rounds idx best ≡ some e
      → (best ≡ some e) ⊎ ((idx ≤ e) × (e < idx + rounds))
  unfolding last_boundary
  last_boundary_range zero idx best e h = inl h
  last_boundary_range (suc r) idx best e h =
      ground (arith, last_boundary_range r (idx + 1) (if punct idx then some idx else best) e)

  -- Where no place ends a sentence, the best one so far stays.
  last_boundary_quiet :
      (rounds idx : ℕ) (best : Option ℕ)
      → ((j : ℕ) → idx ≤ j → j < idx + rounds → punct j ≡ false)
      → last_boundary punct n p rounds idx best ≡ best
  unfolding last_boundary
  last_boundary_quiet zero idx best quiet = refl
  last_boundary_quiet (suc r) idx best quiet =
      rw (quiet idx (omega arith) (omega arith))
        (last_boundary_quiet r (idx + 1) best (λ j a b. quiet j (omega arith) (omega arith)))

  -- The last sentence end of the range is found.
  pub last_boundary_at :
      (rounds idx e : ℕ) (best : Option ℕ)
      → idx ≤ e
      → e < idx + rounds
      → punct e ≡ true
      → ((j : ℕ) → e < j → j < idx + rounds → punct j ≡ false)
      → last_boundary punct n p rounds idx best ≡ some e
  unfolding last_boundary
  last_boundary_at zero idx e best a b hit quiet = absurd (omega arith)
  last_boundary_at (suc r) idx e best a b hit quiet = elim (ℕ_discrete idx e) [
    | yes same ↦
        rw (same, hit)
          (last_boundary_quiet r (e + 1) (some e) (λ j c d. quiet j (omega arith) (omega arith)))
    | no differ ↦
        last_boundary_at r (idx + 1) e (if punct idx then some idx else best) (omega arith)
          (omega arith) hit (λ j c d. quiet j c (omega arith))
  ]

  last_boundary_cases :
      (rounds idx : ℕ)
      → (last_boundary punct n p rounds idx none ≡ none)
        ⊎ ((e : ℕ) × (last_boundary punct n p rounds idx none ≡ some e)
            × (idx ≤ e)
            × (e < idx + rounds))
  last_boundary_cases rounds idx = elim (Option-cases (last_boundary punct n p rounds idx none)) [
    | inl h ↦ inl h
    | inr (e, h) ↦ elim (last_boundary_range rounds idx none e h) [
      | inl absent ↦ cc
      | inr (a, b) ↦ inr (e, h, a, b)
    ]
  ]

  -- A chunk has at least two thirds of its target, or a word, and ends in the text and within the
  -- limit.
  pub chunk_end_bounds :
      (start : ℕ)
      → start < n
      → IsValid p
      → (start + min target_words (n - start) * 2 / 3 ≤ chunk_end punct n p start)
        × (start < chunk_end punct n p start)
        × (chunk_end punct n p start ≤ start + max_words)
        × (chunk_end punct n p start ≤ n)
  unfolding chunk_end best_sentence_boundary
  chunk_end_bounds start h v =
      let hard_end = min (start + max_words) n in
      let min_end = max (start + (min (start + target_words) n - start) * 2 / 3) (start + 1) in
      ground (arith, last_boundary_cases (hard_end + 1 - min_end) min_end)
