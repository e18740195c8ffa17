-- ===== src/Cli/Chunk/Cover.antt =====
-- The chunks cover the text.
use k_engram.Prelude.{
  ℕ, zero, suc, ◌+◌, ◌-◌, ◌≤◌, ◌<◌, Bool, ◌≡◌, refl, sym, ◌∙◌, subst, ap, ◌⊎◌, inl, inr, some, List,
  [], ◌∷◌, arith, In, Option-cases, some_injective,
}
use native.Mathlib.Decide.{dec_lt}
use k_engram.Cli.Chunk.{ChunkParams, chunk_end, chunk_ranges, put}
use k_engram.Cli.Chunk.Boundary.{IsValid, chunk_end_bounds}

-- From word `start` on: each range begins where it should, holds a word and at most the limit,
-- the next one begins `overlap` words before its end, and the last one ends with the text.
abbrev pub Covers : ℕ → ℕ → ℕ → ℕ → List (ℕ × ℕ) → Type 0
Covers overlap limit n start [] = n ≤ start
Covers overlap limit n start ((a, b) ∷ []) = (a ≡ start) × (a < b) × (b ≤ a + limit) × (b ≡ n)
Covers overlap limit n start ((a, b) ∷ r ∷ rs) =
    (a ≡ start)
    × (a < b)
    × (b ≤ a + limit)
    × (b < n)
    × Covers overlap limit n (b - overlap) (r ∷ rs)

-- Every word from `start` on stands in a range.
pub every_word_covered :
    (overlap limit n start : ℕ) (rs : List (ℕ × ℕ))
    → Covers overlap limit n start rs
    → (i : ℕ) → start ≤ i
    → i < n
    → (r : ℕ × ℕ) × In r rs × (r.0 ≤ i) × (i < r.1)
every_word_covered overlap limit n start [] c i lo hi = absurd (omega arith)
every_word_covered overlap limit n start ((a, b) ∷ []) c i lo hi =
    ((a, b), inl refl, omega arith, omega arith)
every_word_covered overlap limit n start ((a, b) ∷ r ∷ rs) c i lo hi = elim (dec_lt i b) [
  | yes before ↦ ((a, b), inl refl, omega arith, omega arith)
  | no after ↦
      let (q, m, l, h) =
        every_word_covered overlap limit n (b - overlap) (r ∷ rs) c.4 i (omega arith) hi in
      (q, inr m, l, h)
]

module _ (punct : ℕ → Bool) (n : ℕ) (p : ChunkParams) (v : IsValid p) where
  open p use {target_words, max_words, overlap_words}

  put_Covers :
      (start stop : ℕ) (rest : List (ℕ × ℕ))
      → start < stop
      → stop ≤ start + max_words
      → stop < n
      → Covers overlap_words max_words n (stop - overlap_words) rest
      → Covers overlap_words max_words n start ((start, stop) ∷ rest)
  put_Covers start stop [] a b c d = absurd (omega arith)
  put_Covers start stop (r ∷ rs) a b c d = (refl, a, b, c, d)

  -- One round of the loop, from a word of the text: the rest is the last chunk, or the chunk
  -- reaches the end, or the loop goes on `overlap` words before the chunk's end.
  pub chunk_ranges_step :
      (fuel start : ℕ)
      → start < n
      → ((n - start ≤ max_words)
          × (chunk_ranges punct n p (suc fuel) start ≡ some ((start, n) ∷ [])))
        ⊎ ((target_words < n - start)
            × (chunk_end punct n p start ≡ n)
            × (chunk_ranges punct n p (suc fuel) start
                ≡ some ((start, chunk_end punct n p start) ∷ [])))
        ⊎ ((target_words < n - start)
            × (chunk_end punct n p start < n)
            × (chunk_ranges punct n p (suc fuel) start
                ≡ put
                    (start, chunk_end punct n p start)
                    (chunk_ranges punct n p fuel (chunk_end punct n p start - overlap_words))))
  unfolding chunk_ranges
  chunk_ranges_step fuel start h = ground (arith, chunk_end_bounds punct n p start h v)

  -- Whatever the loop returns from a word of the text covers the text from there.
  pub chunk_ranges-Covers :
      (fuel start : ℕ) (rs : List (ℕ × ℕ))
      → start < n
      → chunk_ranges punct n p fuel start ≡ some rs
      → Covers overlap_words max_words n start rs
  chunk_ranges-Covers zero start rs h e = unfold chunk_ranges in cc
  chunk_ranges-Covers (suc fuel) start rs h e =
      let stop = chunk_end punct n p start in
      let bounds = chunk_end_bounds punct n p start h v in
      elim (chunk_ranges_step fuel start h) [
        | inl (fits, last) ↦
            subst (Covers overlap_words max_words n start) (some_injective (sym last ∙ e))
              (refl, h, omega arith, refl)
        | inr (inl (long, ends, last)) ↦
            subst (Covers overlap_words max_words n start) (some_injective (sym last ∙ e))
              (refl, bounds.1, bounds.2, ends)
        | inr (inr (long, more, goes)) ↦
            elim (Option-cases (chunk_ranges punct n p fuel (stop - overlap_words))) [
              | inl stuck ↦ cc (stuck, goes, e)
              | inr (rest, found) ↦
                  subst (Covers overlap_words max_words n start)
                    (some_injective (sym (goes ∙ ap (put (start, stop)) found) ∙ e))
                    (put_Covers start stop rest bounds.1 bounds.2 more
                      (chunk_ranges-Covers fuel (stop - overlap_words) rest (omega arith) found))
            ]
      ]
